-- ===== src/Service/Locking.antt =====
-- mash-go/pkg/service/device_service_commissioning.go, pase_tracker.go: that handshakes with the setup
-- code do not overlap and are apart, over all runs of the connections.
use mash.Base.{
  ℕ, ◌-◌, ◌≤◌, ◌≡◌, ◌⊎◌, inl, inr, refl, Bool, true, false, Option, none, some, List, [], ◌∷◌, ◌++◌,
  arith, Bool-cases, if◌then◌else◌,
}
use mash.Service.{
  Tracker, Config, ConnectedZone, Service, System, new_system, new_service, run, step, Effect,
  delayed, began, failed, authenticated, released, turned_away, window_moved, RejectReason,
  already_in_progress, cooldown, zones_full, Event, requested, entered, handshake_failed,
  handshake_done, finished, window_changed, zones_changed, cooling, Acceptance, rejected,
  accept_with, accept_commissioning_connection, fail_attempt, enter, delay_of, slots_full,
  kept_zones,
}

-- The lock is free again for the cooldown.
abbrev pub Rested : ℕ → Option ℕ → ℕ → Type 0
Rested least none now = Unit
Rested least (some last) now = least ≤ now - last

-- Handshakes do not overlap, and each begins when the cooldown since the last release is over.
abbrev pub Alternates : ℕ → Bool → Option ℕ → List Effect → Type 0
Alternates least busy last [] = Unit
Alternates least busy last (began now ∷ es) =
    (busy ≡ false) × Rested least last now × Alternates least true last es
Alternates least busy last (released now ∷ es) =
    (busy ≡ true) × Alternates least false (some now) es
Alternates least busy last (delayed _ ∷ es) = Alternates least busy last es
Alternates least busy last (failed ∷ es) = Alternates least busy last es
Alternates least busy last (authenticated ∷ es) = Alternates least busy last es
Alternates least busy last (turned_away _ _ ∷ es) = Alternates least busy last es
Alternates least busy last (window_moved ∷ es) = Alternates least busy last es

-- At most one connection holds the lock, under the generation of the service.
abbrev Held : Bool → ℕ → List ℕ → List ℕ → Type 0
Held false g hs ls = (hs ≡ []) × (ls ≡ [])
Held true g hs ls = ((hs ≡ g ∷ []) × (ls ≡ [])) ⊎ ((hs ≡ []) × (ls ≡ g ∷ []))

record Locked (least : ℕ) (busy : Bool) (last : Option ℕ) (y : System) : Type 0 where
  setting : y.service.config.connection_cooldown ≡ least
  active : y.service.commissioning_conn_active ≡ busy
  since : y.service.last_commissioning_attempt ≡ last
  held : Held busy y.service.commissioning_generation y.handshaking y.leaving

-- The state after some effects.
abbrev busy_after : Bool → List Effect → Bool
busy_after b [] = b
busy_after b (began _ ∷ es) = busy_after true es
busy_after b (released _ ∷ es) = busy_after false es
busy_after b (_ ∷ es) = busy_after b es

abbrev last_after : Option ℕ → List Effect → Option ℕ
last_after l [] = l
last_after l (released now ∷ es) = last_after (some now) es
last_after l (_ ∷ es) = last_after l es

abbrev Steps : ℕ → Bool → Option ℕ → System × List Effect → Type 0
Steps least busy last r =
    Alternates least busy last r.1 × Locked least (busy_after busy r.1) (last_after last r.1) r.0

Rested-cooling :
    (least : ℕ) (last : Option ℕ) (now : ℕ) → cooling least last now ≡ false → Rested least last now
Rested-cooling least none now h = tt
Rested-cooling least (some l) now h = ground arith

delay_of-Steps :
    (least : ℕ) (busy : Bool) (last : Option ℕ) (y : System) (t : Option Tracker)
    → Locked least busy last y
    → Steps least busy last (y, delay_of t)
unfolding delay_of
delay_of-Steps least busy last y none l = (tt, l)
delay_of-Steps least busy last y (some t) l = (tt, l)

-- A rejection changes the zones and the tracker at most.
rejected-Locked :
    (least : ℕ) (busy : Bool) (last : Option ℕ) (y : System) (zones : List ConnectedZone)
    (reason : RejectReason) (now : ℕ)
    → Locked least busy last y
    → Steps least busy last (enter (record (y.service) { zones = zones }, rejected reason) y now)
unfolding enter fail_attempt
rejected-Locked least busy last y zones already_in_progress now l =
    (tt, record { setting = l.setting; active = l.active; since = l.since; held = l.held })
rejected-Locked least busy last y zones cooldown now l =
    (tt, record { setting = l.setting; active = l.active; since = l.since; held = l.held })
rejected-Locked least busy last y zones zones_full now l =
    (tt, record { setting = l.setting; active = l.active; since = l.since; held = l.held })

accept_with-Locked :
    (least : ℕ) (last : Option ℕ) (y : System) (zones : List ConnectedZone) (now : ℕ)
    → Locked least false last y
    → Rested least last now
    → Steps least false last (enter (accept_with (record (y.service) { zones = zones })) y now)
unfolding accept_with
accept_with-Locked least last y zones now l r =
    elim (Bool-cases (slots_full y.service.config zones)) [
      | inl full ↦ rw full (rejected-Locked least false last y zones zones_full now l)
      | inr room ↦ rw room (
          unfold enter in
          (
            (refl, r, tt),
            record {
              setting = l.setting;
              active = refl;
              since = l.since;
              held = inl (rw l.held.0 refl, l.held.1);
            },
          ))
    ]

held_and_free : (b : Bool) → b ≡ true → b ≡ false → ⊥
held_and_free b p q = cc

let_in-Locked :
    (least : ℕ) (busy : Bool) (last : Option ℕ) (y : System) (now : ℕ)
    → Locked least busy last y
    → y.service.commissioning_conn_active ≡ false
    → cooling y.service.config.connection_cooldown y.service.last_commissioning_attempt now ≡ false
    → Steps least busy last
        (enter (accept_with (record (y.service) { zones = kept_zones y.service })) y now)
let_in-Locked least true last y now l free rested =
    absurd (held_and_free y.service.commissioning_conn_active l.active free)
let_in-Locked least false last y now l free rested =
    accept_with-Locked least last y (kept_zones y.service) now l
      (Rested-cooling least last now (rw (l.setting, l.since) at rested))

choose-Steps :
    (least : ℕ) (busy : Bool) (last : Option ℕ) (y : System) (now : ℕ) (a b : Bool)
    (r s t : Service × Acceptance)
    → Steps least busy last (enter r y now)
    → Steps least busy last (enter s y now)
    → (a ≡ false → b ≡ false → Steps least busy last (enter t y now))
    → Steps least busy last (enter (if a then r else if b then s else t) y now)
choose-Steps least busy last y now true b r s t p q f = p
choose-Steps least busy last y now false true r s t p q f = q
choose-Steps least busy last y now false false r s t p q f = f refl refl

enter-Locked :
    (least : ℕ) (busy : Bool) (last : Option ℕ) (y : System) (now : ℕ)
    → Locked least busy last y
    → Steps least busy last (enter (accept_commissioning_connection y.service now) y now)
unfolding accept_commissioning_connection
enter-Locked least busy last y now l =
    choose-Steps least busy last y now y.service.commissioning_conn_active
      (cooling y.service.config.connection_cooldown y.service.last_commissioning_attempt now) _ _ _
      (rejected-Locked least busy last y y.service.zones already_in_progress now l)
      (rejected-Locked least busy last y y.service.zones cooldown now l)
      (λ free rested. let_in-Locked least busy last y now l free rested)

step-Locked :
    (least : ℕ) (busy : Bool) (last : Option ℕ) (y : System) (e : Event)
    → Locked least busy last y
    → Steps least busy last (step y e)
unfolding step
step-Locked least busy last y requested l = delay_of-Steps least busy last y y.service.tracker l
step-Locked least busy last y (entered now) l = enter-Locked least busy last y now l
step-Locked least true last y (handshake_failed g) l = ground arith
step-Locked least false last y (handshake_failed g) l = ground arith
step-Locked least true last y (handshake_done g) l = ground arith
step-Locked least false last y (handshake_done g) l = ground arith
step-Locked least true last y (finished g now) l = ground arith
step-Locked least false last y (finished g now) l = ground arith
step-Locked least busy last y window_changed l =
    (tt, record { setting = l.setting; active = l.active; since = l.since; held = l.held })
step-Locked least busy last y (zones_changed zones) l =
    (tt, record { setting = l.setting; active = l.active; since = l.since; held = l.held })

Alternates-append :
    (least : ℕ) (busy : Bool) (last : Option ℕ) (es ds : List Effect)
    → Alternates least busy last es
    → Alternates least (busy_after busy es) (last_after last es) ds
    → Alternates least busy last (es ++ ds)
Alternates-append least busy last [] ds a b = b
Alternates-append least busy last (began now ∷ es) ds (p, q, a) b =
    (p, q, Alternates-append least true last es ds a b)
Alternates-append least busy last (released now ∷ es) ds (p, a) b =
    (p, Alternates-append least false (some now) es ds a b)
Alternates-append least busy last (delayed _ ∷ es) ds a b =
    Alternates-append least busy last es ds a b
Alternates-append least busy last (failed ∷ es) ds a b = Alternates-append least busy last es ds a b
Alternates-append least busy last (authenticated ∷ es) ds a b =
    Alternates-append least busy last es ds a b
Alternates-append least busy last (turned_away _ _ ∷ es) ds a b =
    Alternates-append least busy last es ds a b
Alternates-append least busy last (window_moved ∷ es) ds a b =
    Alternates-append least busy last es ds a b

run-Alternates :
    (least : ℕ) (busy : Bool) (last : Option ℕ) (y : System) (es : List Event)
    → Locked least busy last y
    → Alternates least busy last (run y es).1
unfolding run
run-Alternates least busy last y [] l = tt
run-Alternates least busy last y (e ∷ es) l =
    let s : Steps least busy last (step y e) = step-Locked least busy last y e l in
    Alternates-append least busy last (step y e).1 (run (step y e).0 es).1 s.0 (
      run-Alternates least (busy_after busy (step y e).1) (last_after last (step y e).1)
        (step y e).0 es s.1)

new-Locked :
    (c : Config) (zones : List ConnectedZone)
    → Locked c.connection_cooldown false none (new_system c zones)
unfolding new_system new_service
new-Locked c zones = record { setting = refl; active = refl; since = refl; held = (refl, refl) }

pub run-new-Alternates :
    (c : Config) (zones : List ConnectedZone) (es : List Event)
    → Alternates c.connection_cooldown false none (run (new_system c zones) es).1
run-new-Alternates c zones es =
    run-Alternates c.connection_cooldown false none (new_system c zones) es (new-Locked c zones)
