-- ===== src/Service/Guarding.antt =====
-- mash-go/pkg/service/device_service_commissioning.go, pase_tracker.go: how the setup code is guarded
-- against many attempts, over all runs of the connections.
use mash.Base.{
  ℕ, suc, ◌+◌, ◌≤◌, ◌<◌, ◌≡◌, ◌⊎◌, inl, inr, refl, ◌==◌, Bool, true, false, Option, none, some,
  List, [], ◌∷◌, ◌++◌, arith, Bool-cases, if◌then◌else◌, ltb,
}
use mash.Service.Locking.{Alternates, run-new-Alternates}
use mash.Service.{
  new_tracker, reset_tracker, count_failure, tracker_of, Tiers, Tracker, Config, ConnectedZone,
  Service, System, new_system, new_service, run, step, Effect, delayed, began, failed,
  authenticated, released, turned_away, window_moved, RejectReason, already_in_progress, cooldown,
  zones_full, Event, requested, entered, handshake_failed, handshake_done, finished, window_changed,
  zones_changed, cooling, tier_delay, get_delay, Acceptance, rejected, accept_with,
  accept_commissioning_connection, release_commissioning_connection, reset_pase_tracker,
  fail_attempt, enter, holds, delay_of, slots_full, kept_zones,
}

-- The delay after `n` counted failures: attempts 1 to 3, 4 to 6, 7 to 10 and later ones.
abbrev pub IsTier : Tiers → ℕ → ℕ → Type 0
IsTier t n d =
    ((n < 3) × (d ≡ t.first))
    ⊎ (((3 ≤ n) × (n < 6) × (d ≡ t.second))
        ⊎ (((6 ≤ n) × (n < 10) × (d ≡ t.third)) ⊎ ((10 ≤ n) × (d ≡ t.fourth))))

-- Each delay is that of the failures since the last success or change of the window. A rejection
-- counts as a failure, but for one while a handshake is in progress.
abbrev pub Slowed : Tiers → ℕ → List Effect → Type 0
Slowed t n [] = Unit
Slowed t n (delayed d ∷ es) = IsTier t n d × Slowed t n es
Slowed t n (failed ∷ es) = Slowed t (suc n) es
Slowed t n (authenticated ∷ es) = Slowed t 0 es
Slowed t n (window_moved ∷ es) = Slowed t 0 es
Slowed t n (turned_away already_in_progress _ ∷ es) = Slowed t n es
Slowed t n (turned_away cooldown _ ∷ es) = Slowed t (suc n) es
Slowed t n (turned_away zones_full _ ∷ es) = Slowed t (suc n) es
Slowed t n (began _ ∷ es) = Slowed t n es
Slowed t n (released _ ∷ es) = Slowed t n es

tier_delay-IsTier : (t : Tiers) (n : ℕ) → IsTier t n (tier_delay t (n + 1))
unfolding tier_delay
tier_delay-IsTier t n = elim (Bool-cases (ltb n 3)) [
  | inl a ↦ inl (ground arith, ground arith)
  | inr a ↦ elim (Bool-cases (ltb n 6)) [
    | inl b ↦ inr (inl (ground arith, ground arith, ground arith))
    | inr b ↦ elim (Bool-cases (ltb n 10)) [
      | inl c ↦ inr (inr (inl (ground arith, ground arith, ground arith)))
      | inr c ↦ inr (inr (inr (ground arith, ground arith)))
    ]
  ]
]

abbrev failures_after : ℕ → List Effect → ℕ
failures_after n [] = n
failures_after n (failed ∷ es) = failures_after (suc n) es
failures_after n (authenticated ∷ es) = failures_after 0 es
failures_after n (window_moved ∷ es) = failures_after 0 es
failures_after n (turned_away already_in_progress _ ∷ es) = failures_after n es
failures_after n (turned_away cooldown _ ∷ es) = failures_after (suc n) es
failures_after n (turned_away zones_full _ ∷ es) = failures_after (suc n) es
failures_after n (delayed _ ∷ es) = failures_after n es
failures_after n (began _ ∷ es) = failures_after n es
failures_after n (released _ ∷ es) = failures_after n es

-- The tracker, where there is one, counts the failures.
abbrev Counts : Tiers → ℕ → Option Tracker → Type 0
Counts t n none = Unit
Counts t n (some k) = (k.failed_attempts ≡ n) × (k.backoff_tiers ≡ t)

abbrev Counted : Tiers → ℕ → System × List Effect → Type 0
Counted t n r = Slowed t n r.1 × Counts t (failures_after n r.1) r.0.service.tracker

count_failure-Counts :
    (t : Tiers) (n : ℕ) (o : Option Tracker) → Counts t n o → Counts t (suc n) (count_failure o)
unfolding count_failure
count_failure-Counts t n none c = tt
count_failure-Counts t n (some k) c = (omega (arith, c.0), c.1)

reset_tracker-Counts :
    (t : Tiers) (n : ℕ) (o : Option Tracker) → Counts t n o → Counts t 0 (reset_tracker o)
unfolding reset_tracker
reset_tracker-Counts t n none c = tt
reset_tracker-Counts t n (some k) c = (refl, c.1)

delay_of-Slowed :
    (t : Tiers) (n : ℕ) (o : Option Tracker)
    → Counts t n o
    → Slowed t n (delay_of o) × (failures_after n (delay_of o) ≡ n)
unfolding delay_of get_delay
delay_of-Slowed t n none c = (tt, refl)
delay_of-Slowed t n (some k) c = ((rw (c.0, c.1) (tier_delay-IsTier t n), tt), refl)

module _ (t : Tiers) (n : ℕ) (y : System) (now : ℕ) (c : Counts t n y.service.tracker) where
  rejected-Counted :
      (zones : List ConnectedZone) (reason : RejectReason)
      → Counted t n (enter (record (y.service) { zones = zones }, rejected reason) y now)
  unfolding enter fail_attempt
  rejected-Counted zones already_in_progress = (tt, c)
  rejected-Counted zones cooldown = (tt, count_failure-Counts t n y.service.tracker c)
  rejected-Counted zones zones_full = (tt, count_failure-Counts t n y.service.tracker c)

  accept_with-Counted :
      (zones : List ConnectedZone)
      → Counted t n (enter (accept_with (record (y.service) { zones = zones })) y now)
  unfolding accept_with
  accept_with-Counted zones = elim (Bool-cases (slots_full y.service.config zones)) [
    | inl full ↦ rw full (rejected-Counted zones zones_full)
    | inr room ↦ rw room (unfold enter in (tt, c))
  ]

  choose-Counted :
      (a b : Bool) (r s u : Service × Acceptance)
      → Counted t n (enter r y now)
      → Counted t n (enter s y now)
      → Counted t n (enter u y now)
      → Counted t n (enter (if a then r else if b then s else u) y now)
  choose-Counted true b r s u p q f = p
  choose-Counted false true r s u p q f = q
  choose-Counted false false r s u p q f = f

  enter-Counted : Counted t n (enter (accept_commissioning_connection y.service now) y now)
  unfolding accept_commissioning_connection
  enter-Counted =
      choose-Counted y.service.commissioning_conn_active
        (cooling y.service.config.connection_cooldown y.service.last_commissioning_attempt now) _ _
        _ (rejected-Counted y.service.zones already_in_progress)
        (rejected-Counted y.service.zones cooldown) (accept_with-Counted (kept_zones y.service))

if-Counted :
    (t : Tiers) (n : ℕ) (b : Bool) (r s : System × List Effect)
    → Counted t n r
    → Counted t n s
    → Counted t n (if b then r else s)
if-Counted t n true r s p q = p
if-Counted t n false r s p q = q

release-Counts :
    (t : Tiers) (n : ℕ) (s : Service) (b : Bool) (now : ℕ)
    → Counts t n s.tracker
    → Counts t n
        (if b
          then record s { commissioning_conn_active = false; last_commissioning_attempt = some now }
          else s).tracker
release-Counts t n s true now c = c
release-Counts t n s false now c = c

step-Counted :
    (t : Tiers) (n : ℕ) (y : System) (e : Event)
    → Counts t n y.service.tracker
    → Counted t n (step y e)
unfolding step
step-Counted t n y requested c = let d = delay_of-Slowed t n y.service.tracker c in (d.0, rw d.1 c)
step-Counted t n y (entered now) c = enter-Counted t n y now c
step-Counted t n y (handshake_failed g) c =
    if-Counted t n (holds g y.handshaking) _ (y, [])
      (unfold fail_attempt in (tt, count_failure-Counts t n y.service.tracker c)) (tt, c)
step-Counted t n y (handshake_done g) c =
    if-Counted t n (holds g y.handshaking) _ (y, [])
      (unfold reset_pase_tracker in (tt, reset_tracker-Counts t n y.service.tracker c)) (tt, c)
step-Counted t n y (finished g now) c =
    if-Counted t n (holds g y.leaving) _ (y, [])
      (unfold release_commissioning_connection in
        (tt, release-Counts t n y.service (y.service.commissioning_generation == g) now c))
      (tt, c)
step-Counted t n y window_changed c =
    unfold reset_pase_tracker in (tt, reset_tracker-Counts t n y.service.tracker c)
step-Counted t n y (zones_changed zones) c = (tt, c)

Slowed-append :
    (t : Tiers) (n : ℕ) (es ds : List Effect)
    → Slowed t n es
    → Slowed t (failures_after n es) ds
    → Slowed t n (es ++ ds)
Slowed-append t n [] ds a b = b
Slowed-append t n (delayed d ∷ es) ds a b = (a.0, Slowed-append t n es ds a.1 b)
Slowed-append t n (failed ∷ es) ds a b = Slowed-append t (suc n) es ds a b
Slowed-append t n (authenticated ∷ es) ds a b = Slowed-append t 0 es ds a b
Slowed-append t n (window_moved ∷ es) ds a b = Slowed-append t 0 es ds a b
Slowed-append t n (turned_away already_in_progress _ ∷ es) ds a b = Slowed-append t n es ds a b
Slowed-append t n (turned_away cooldown _ ∷ es) ds a b = Slowed-append t (suc n) es ds a b
Slowed-append t n (turned_away zones_full _ ∷ es) ds a b = Slowed-append t (suc n) es ds a b
Slowed-append t n (began _ ∷ es) ds a b = Slowed-append t n es ds a b
Slowed-append t n (released _ ∷ es) ds a b = Slowed-append t n es ds a b

run-Slowed :
    (t : Tiers) (n : ℕ) (y : System) (es : List Event)
    → Counts t n y.service.tracker
    → Slowed t n (run y es).1
unfolding run
run-Slowed t n y [] c = tt
run-Slowed t n y (e ∷ es) c =
    let s : Counted t n (step y e) = step-Counted t n y e c in
    Slowed-append t n (step y e).1 (run (step y e).0 es).1 s.0
      (run-Slowed t (failures_after n (step y e).1) (step y e).0 es s.1)

tracker_of-Counts : (b : Bool) (t : Tiers) → Counts t 0 (if b then some (new_tracker t) else none)
unfolding new_tracker
tracker_of-Counts true t = (refl, refl)
tracker_of-Counts false t = tt

new-Counts :
    (c : Config) (zones : List ConnectedZone)
    → Counts c.pase_backoff_tiers 0 (new_system c zones).service.tracker
unfolding new_system new_service tracker_of
new-Counts c zones = tracker_of-Counts c.pase_backoff_enabled c.pase_backoff_tiers

-- In every interleaving of connections that try to commission, handshakes do not overlap, and each
-- begins no earlier than ConnectionCooldown after the release of the one before. Each backoff delay is
-- that of its tier (attempts 1 to 3, 4 to 6, 7 to 10, later) by the failed handshakes and the counted
-- rejections since the last success or change of the window.
pub run-new-Guarded :
    (c : Config) (zones : List ConnectedZone) (es : List Event)
    → Alternates c.connection_cooldown false none (run (new_system c zones) es).1
      × Slowed c.pase_backoff_tiers 0 (run (new_system c zones) es).1
run-new-Guarded c zones es = (
  run-new-Alternates c zones es,
  run-Slowed c.pase_backoff_tiers 0 (new_system c zones) es (new-Counts c zones),
)
