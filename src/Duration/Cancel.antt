-- ===== src/Duration/Cancel.antt =====
-- CancelZoneTimers (mash-go/pkg/duration/timer.go), whose loop deletes from the map it ranges over.
use mash.Base.{
  ℕ, ◌≡◌, refl, sym, ap, ◌∙◌, ◌≢◌, if_neg, none, some, [], ◌∷◌, arith, inl, inr, Bool-cases,
  Option-cases, none-ne-some, ◌==◌, if◌then◌else◌, ==_iff, All,
}
use mash.Base.GoMap.{
  lookup_each, GoMap, lookup, delete, Distinct, Absent, lookup-delete, lookup-delete_ne,
  lookup-delete_self,
}
use mash.Duration.{
  Timer, TimerKey, timer_key, Manager, stop, TimerKey-discrete, drop_timer, cancel_zone_loop,
  cancel_zone_timers,
}
use mash.Duration.Invariant.{Synced, drop_timer-Synced}

module _ {V : Type 0} where
  -- The entries still to visit are in the manager.
  abbrev Held : Manager V → GoMap TimerKey (Timer V) → Type 0
  Held m = All (λ e. lookup e.0 m.timers ≡ some e.1)

  Held-drop :
      (m : Manager V) (key : TimerKey) (t : Timer V) (todo : GoMap TimerKey (Timer V))
      → Absent key todo
      → Held m todo
      → Held (drop_timer m key t) todo
  unfolding drop_timer stop
  Held-drop m key t [] a h = tt
  Held-drop m key t ((k, u) ∷ todo) a h =
      (lookup-delete_ne k key m.timers (λ e. a.0 (sym e)) ∙ h.0, Held-drop m key t todo a.1 h.1)

  loop-Synced :
      (zone : ℕ) (todo : GoMap TimerKey (Timer V)) (m : Manager V)
      → Synced m
      → Distinct todo
      → Held m todo
      → Synced (cancel_zone_loop zone todo m)
  unfolding cancel_zone_loop
  loop-Synced zone [] m s d h = s
  loop-Synced zone ((key, t) ∷ todo) m s d h = elim (Bool-cases (key.zone_id == zone)) [
    | inl e ↦ simp e (
        loop-Synced zone todo (drop_timer m key t) (drop_timer-Synced m key t s h.0) d.1
          (Held-drop m key t todo d.0 h.1))
    | inr e ↦ simp e (loop-Synced zone todo m s d.1 h.1)
  ]

  loop_lookup_other :
      (zone : ℕ) (todo : GoMap TimerKey (Timer V)) (m : Manager V) (j : TimerKey)
      → j.zone_id ≢ zone
      → lookup j (cancel_zone_loop zone todo m).timers ≡ lookup j m.timers
  unfolding cancel_zone_loop drop_timer stop
  loop_lookup_other zone [] m j n = refl
  loop_lookup_other zone ((key, t) ∷ todo) m j n = elim (Bool-cases (key.zone_id == zone)) [
    | inl e ↦ simp e (
        loop_lookup_other zone todo (drop_timer m key t) j n
        ∙ lookup-delete_ne j key m.timers (λ q. n (sym (ap (λ k. k.zone_id) q) ∙ ground arith)))
    | inr e ↦ simp e (loop_lookup_other zone todo m j n)
  ]

  loop_lookup-none :
      (zone : ℕ) (todo : GoMap TimerKey (Timer V)) (m : Manager V) (j : TimerKey)
      → lookup j m.timers ≡ none
      → lookup j (cancel_zone_loop zone todo m).timers ≡ none
  unfolding cancel_zone_loop drop_timer stop
  loop_lookup-none zone [] m j e = e
  loop_lookup-none zone ((key, t) ∷ todo) m j e = elim (Bool-cases (key.zone_id == zone)) [
    | inl q ↦ simp q (
        loop_lookup-none zone todo (drop_timer m key t) j
          (ground (arith, lookup-delete j key m.timers)))
    | inr q ↦ simp q (loop_lookup-none zone todo m j e)
  ]

  loop_lookup_zone :
      (zone : ℕ) (todo : GoMap TimerKey (Timer V)) (m : Manager V) (j : TimerKey) (t : Timer V)
      → j.zone_id ≡ zone
      → lookup j todo ≡ some t
      → lookup j (cancel_zone_loop zone todo m).timers ≡ none
  unfolding cancel_zone_loop drop_timer stop lookup
  loop_lookup_zone zone [] m j t z e = absurd (none-ne-some e)
  loop_lookup_zone zone ((key, u) ∷ todo) m j t z e = elim (TimerKey-discrete key j) [
    | yes q ↦ simp ((==_iff key.zone_id zone).1 (ap (λ k. k.zone_id) q ∙ z)) (
        loop_lookup-none zone todo (drop_timer m key u) j
          (ap (λ k. lookup j (delete k m.timers)) q ∙ lookup-delete_self j m.timers))
    | no n ↦
        loop_lookup_zone zone todo (if key.zone_id == zone then drop_timer m key u else m) j t z
          (rw (if_neg _ n) at e)
  ]

  -- In a manager whose timers and calls are in step, CancelZoneTimers removes the timers of the
  -- zone and their calls to come and leaves the timers of the other zones; timers and calls stay
  -- in step.
  pub cancel_zone_timers_lem :
      (m : Manager V) (zone : ℕ)
      → Synced m
      → Synced (cancel_zone_timers m zone)
        × ((j : TimerKey) → j.zone_id ≡ zone → lookup j (cancel_zone_timers m zone).timers ≡ none)
        × ((j : TimerKey)
            → j.zone_id ≢ zone
            → lookup j (cancel_zone_timers m zone).timers ≡ lookup j m.timers)
  unfolding cancel_zone_timers
  cancel_zone_timers_lem m zone s = (
    loop-Synced zone m.timers m s s.distinct
        (lookup_each m.timers m.timers s.distinct (λ k t e. e)),
    λ j z. elim (Option-cases (lookup j m.timers)) [
      | inl e ↦ loop_lookup-none zone m.timers m j e
      | inr (t, e) ↦ loop_lookup_zone zone m.timers m j t z e
    ],
    λ j n. loop_lookup_other zone m.timers m j n,
  )
