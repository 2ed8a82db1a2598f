-- ===== src/Duration/Firing.antt =====
-- The Go runtime makes the calls of mash-go/pkg/duration/timer.go at or after their deadlines.
use mathlib.Core.Option.{some-injective}
use mash.Base.{
  none-ne-some, ◌<◌, ℕ, ◌+◌, ◌≤◌, ◌≡◌, sym, ap, ◌∙◌, subst, Bool, true, some, List, [], ◌∷◌, arith,
  inl, inr, Bool-cases, Option-cases, ltb, if◌then◌else◌,
}
use mash.Base.GoMap.{nat_key, lookup}
use mash.Duration.{
  Timer, TimerKey, timer_key, Call, Manager, new, stop, set_timer, cancel_timer, cancel_zone_timers,
  drop_timer, set_on_expiry, expire_timer, fire, is_expired,
}
use mash.Duration.Invariant.{
  Synced, due, same_key, new-Synced, set_timer-Synced, cancel_timer-Synced, drop_timer-Synced,
}
use mash.Duration.Cancel.{cancel_zone_timers_lem}

module _ {V : Type 0} where
  -- What a call of the runtime does: nothing, since there is no such call or it is not due; or it takes
  -- away a timer whose duration is over and reports its key and value to the listener.
  pub data Fired (m : Manager V) (handle now : ℕ) : Type 0 where
    idle :
        ((c : Call) → lookup handle m.pending ≡ some c → now < c.deadline)
        → fire m handle now ≡ (m, [])
        → Fired m handle now
    over :
        (k : TimerKey) (t : Timer V)
        → lookup k m.timers ≡ some t
        → t.timer ≡ handle
        → t.start_time + t.duration ≤ now
        → is_expired t now ≡ true
        → fire m handle now ≡ (
          drop_timer m k t,
          (if m.on_expiry then record { key = k; value = t.value } ∷ [] else []),
        )
        → Fired m handle now

  fire_call :
      (m : Manager V) (handle now : ℕ) (c : Call) (t : Timer V)
      → Synced m
      → lookup handle m.pending ≡ some c
      → lookup c.key m.timers ≡ some t
      → t.timer ≡ handle
      → c.deadline ≤ now
      → Fired m handle now
  unfolding fire expire_timer drop_timer stop is_expired
  fire_call m handle now c t s e p q d =
      let own : due c.key t ≡ c =
        some-injective _ _ (sym (s.backed c.key t p) ∙ ap (λ h. lookup h m.pending) q ∙ e) in
      let at : t.start_time + t.duration ≡ c.deadline = ap (λ x. x.deadline) own in
      over c.key t p q (omega arith) (ground arith) (ground arith)

  -- In a manager whose timers and calls are in step, a call of the runtime does nothing if it is
  -- not to come or not due; otherwise it takes away just the timer that holds it, whose duration
  -- is over, and reports the key and the value to the listener if there is one.
  pub fire-Fired : (m : Manager V) (handle now : ℕ) → Synced m → Fired m handle now
  unfolding fire
  fire-Fired m handle now s = elim (Option-cases (lookup handle m.pending)) [
    | inl e ↦ idle (λ c f. absurd (none-ne-some (sym e ∙ f))) (rw (e, fire))
    | inr (c, e) ↦ elim (Bool-cases (ltb now c.deadline)) [
      | inl early ↦
          idle
            (λ d f. subst (λ x. now < x.deadline) (some-injective c d (sym e ∙ f)) (ground arith))
            (rw (e, fire) (rw early))
      | inr late ↦
          let (t, p, q) = s.owned handle c e in fire_call m handle now c t s e p q (ground arith)
    ]
  ]

  fire-Synced : (m : Manager V) (handle now : ℕ) → Synced m → Synced (fire m handle now).0
  fire-Synced m handle now s = after (fire-Fired m handle now s)
    where
      after : Fired m handle now → Synced (fire m handle now).0
      after (idle _ e) = subst (λ r. Synced r.0) (sym e) s
      after (over k t p q d x e) = subst (λ r. Synced r.0) (sym e) (drop_timer-Synced m k t s p)

  -- A due call is made: its timer goes and its value is reported.
  pub fire_due :
      (m : Manager V) (k : TimerKey) (t : Timer V) (now : ℕ)
      → Synced m
      → lookup k m.timers ≡ some t
      → t.start_time + t.duration ≤ now
      → fire m t.timer now
        ≡ (drop_timer m k t, (if m.on_expiry then record { key = k; value = t.value } ∷ [] else []))
  fire_due m k t now s p d = pick (fire-Fired m t.timer now s)
    where
      pick :
          Fired m t.timer now
          → fire m t.timer now ≡ (
            drop_timer m k t,
            (if m.on_expiry then record { key = k; value = t.value } ∷ [] else []),
          )
      pick (idle f _) = absurd (omega (arith, f (due k t) (s.backed k t p)))
      pick (over j u q h x y e) =
          let same : j ≡ k = same_key m j k u t s q p h in
          let one : u ≡ t = some-injective u t (sym q ∙ ap (λ i. lookup i m.timers) same ∙ p) in
          e ∙ λ i. (
            drop_timer m (same i) (one i),
            (if m.on_expiry then record { key = same i; value = (one i).value } ∷ [] else []),
          )

-- The calls that change the manager, the runtime's among them.
pub data Event (V : Type 0) : Type 0 where
  sets : TimerKey → ℕ → V → ℕ → Event V
  cancels : TimerKey → Event V
  cancels_zone : ℕ → Event V
  listens : Bool → Event V
  fires : ℕ → ℕ → Event V

module _ {V : Type 0} where
  unfoldable pub step : Manager V → Event V → Manager V
  step m (sets key duration value now) = (set_timer m key duration value now).0
  step m (cancels key) = (cancel_timer m key).0
  step m (cancels_zone zone) = cancel_zone_timers m zone
  step m (listens f) = set_on_expiry m f
  step m (fires handle now) = (fire m handle now).0

  step-Synced : (m : Manager V) (e : Event V) → Synced m → Synced (step m e)
  unfolding step set_on_expiry
  step-Synced m (sets key duration value now) s = set_timer-Synced m key duration value now s
  step-Synced m (cancels key) s = cancel_timer-Synced m key s
  step-Synced m (cancels_zone zone) s = (cancel_zone_timers_lem m zone s).0
  step-Synced m (listens f) s = record {
    backed = s.backed;
    owned = s.owned;
    fresh = s.fresh;
    distinct = s.distinct;
  }
  step-Synced m (fires handle now) s = fire-Synced m handle now s

  unfoldable pub run : Manager V → List (Event V) → Manager V
  run m [] = m
  run m (e ∷ es) = run (step m e) es

  run-Synced : (m : Manager V) (es : List (Event V)) → Synced m → Synced (run m es)
  unfolding run
  run-Synced m [] s = s
  run-Synced m (e ∷ es) s = run-Synced (step m e) es (step-Synced m e s)

  -- After any calls and expiries, in any order, every timer of the manager has one call of the runtime
  -- to come, at its deadline, and every call to come belongs to a timer.
  pub run-new-Synced : (es : List (Event V)) → Synced (run new es)
  run-new-Synced es = run-Synced new es new-Synced
