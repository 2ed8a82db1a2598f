-- ===== src/Duration/Invariant.antt =====
-- The timers that the manager of mash-go/pkg/duration/timer.go holds and the calls that the Go
-- runtime will make stay in step.
use mathlib.Core.Option.{some-injective}
use mash.Base.{
  ℕ, suc, ◌+◌, ◌<◌, ◌≡◌, sym, ap, ◌⊎◌, ◌∙◌, ◌≢◌, none, some, arith, inl, inr, Bool-cases,
  Option-cases, none-ne-some, ltb,
}
use mash.Base.GoMap.{
  GoMap, nat_key, lookup, insert, lookup-delete_ne, lookup-delete-some, lookup-insert_self,
  lookup-insert_ne, lookup-insert-some, Distinct, insert-Distinct, delete-Distinct,
}
use mash.Duration.{
  Timer, TimerKey, timer_key, Call, Manager, new, stop, stop_existing, new_timer, arm, set_timer,
  drop_timer, cancel_timer, min_duration, max_duration,
}

module _ {V : Type 0} where
  abbrev pub due : TimerKey → Timer V → Call
  due k t = record { key = k; deadline = t.start_time + t.duration }

  -- Every timer has one call to come, at its deadline, and every call to come belongs to a timer.
  pub record Synced (m : Manager V) : Type 0 where
    pub backed :
        (k : TimerKey) (t : Timer V)
        → lookup k m.timers ≡ some t
        → lookup t.timer m.pending ≡ some (due k t)
    pub owned :
        (h : ℕ) (c : Call)
        → lookup h m.pending ≡ some c
        → (t : Timer V) × (lookup c.key m.timers ≡ some t) × (t.timer ≡ h)
    pub fresh : (h : ℕ) (c : Call) → lookup h m.pending ≡ some c → h < m.next
    pub distinct : Distinct m.timers

  -- The same of all keys but one, for which no call is to come.
  record SyncedBut (key : TimerKey) (m : Manager V) : Type 0 where
    backed :
        (k : TimerKey) (t : Timer V)
        → k ≢ key
        → lookup k m.timers ≡ some t
        → lookup t.timer m.pending ≡ some (due k t)
    owned :
        (h : ℕ) (c : Call)
        → lookup h m.pending ≡ some c
        → (t : Timer V) × (lookup c.key m.timers ≡ some t) × (t.timer ≡ h) × (c.key ≢ key)
    fresh : (h : ℕ) (c : Call) → lookup h m.pending ≡ some c → h < m.next
    distinct : Distinct m.timers

  pub new-Synced : Synced (new {V = V})
  unfolding new lookup
  new-Synced = record {
    backed = λ k t e. absurd (none-ne-some e);
    owned = λ h c e. absurd (none-ne-some e);
    fresh = λ h c e. absurd (none-ne-some e);
    distinct = tt;
  }

  -- Two timers share a handle only if they share the key.
  pub same_key :
      (m : Manager V) (j k : TimerKey) (t u : Timer V)
      → Synced m
      → lookup j m.timers ≡ some t
      → lookup k m.timers ≡ some u
      → t.timer ≡ u.timer
      → j ≡ k
  same_key m j k t u s p q e =
      ap (λ c. c.key)
        (some-injective _ _
          (sym (s.backed j t p) ∙ ap (λ h. lookup h m.pending) e ∙ s.backed k u q))

  stop-SyncedBut :
      (m : Manager V) (key : TimerKey) (t : Timer V)
      → Synced m
      → lookup key m.timers ≡ some t
      → SyncedBut key (stop m t)
  unfolding stop
  stop-SyncedBut m key t s e = record {
    backed = λ k u n f.
        lookup-delete_ne u.timer t.timer m.pending (λ q. n (same_key m k key u t s f e (sym q)))
        ∙ s.backed k u f;
    owned = λ h c f.
        let (n, g) = lookup-delete-some h t.timer c m.pending f in
        let (u, p, q) = s.owned h c g in
        (
          u,
          p,
          q,
          λ r. n (
              ap (λ x. x.timer)
                (some-injective _ _ (sym e ∙ ap (λ x. lookup x m.timers) (sym r) ∙ p))
              ∙ q),
        );
    fresh = λ h c f. s.fresh h c (lookup-delete-some h t.timer c m.pending f).1;
    distinct = s.distinct;
  }

  stop_existing-SyncedBut :
      (m : Manager V) (key : TimerKey)
      → Synced m
      → SyncedBut key (stop_existing m (lookup key m.timers))
  unfolding stop_existing
  stop_existing-SyncedBut m key s = elim (Option-cases (lookup key m.timers)) [
    | inl e ↦ rw (e, stop_existing) (none_left e)
    | inr (t, e) ↦ rw (e, stop_existing) (stop-SyncedBut m key t s e)
  ]
    where
      none_left : lookup key m.timers ≡ none → SyncedBut key m
      none_left e = record {
        backed = λ k u n f. s.backed k u f;
        owned = λ h c f.
            let (u, p, q) = s.owned h c f in
            (u, p, q, λ r. none-ne-some (sym e ∙ ap (λ x. lookup x m.timers) (sym r) ∙ p));
        fresh = s.fresh;
        distinct = s.distinct;
      }

  pub drop_timer-Synced :
      (m : Manager V) (key : TimerKey) (t : Timer V)
      → Synced m
      → lookup key m.timers ≡ some t
      → Synced (drop_timer m key t)
  unfolding drop_timer stop
  drop_timer-Synced m key t s e =
      let b = stop-SyncedBut m key t s e in
      record {
        backed = λ k u f.
            let (n, g) = lookup-delete-some k key u m.timers f in b.backed k u (λ q. n (sym q)) g;
        owned = λ h c f.
            let (u, p, q, n) = b.owned h c f in
            (u, lookup-delete_ne c.key key m.timers (λ r. n (sym r)) ∙ p, q);
        fresh = b.fresh;
        distinct = delete-Distinct key m.timers s.distinct;
      }

  -- AfterFunc takes a new handle, so the calls to come keep theirs.
  module _ (m : Manager V) (key : TimerKey) (duration : ℕ) (value : V) (now : ℕ) where
    abbrev armed : Timer V
    armed = new_timer key now duration value m.next

    abbrev timers' : GoMap TimerKey (Timer V)
    timers' = insert key armed m.timers

    abbrev pending' : GoMap ℕ Call
    pending' = insert m.next (due key armed) m.pending

    arm_backed :
        (k : TimerKey) (t : Timer V)
        → SyncedBut key m
        → ((key ≡ k) × (armed ≡ t)) ⊎ ((key ≢ k) × (lookup k m.timers ≡ some t))
        → lookup t.timer pending' ≡ some (due k t)
    arm_backed k t b (inl (q, r)) =
        ap (λ u. lookup u.timer pending') (sym r)
        ∙ lookup-insert_self m.next (due key armed) m.pending
        ∙ λ i. some (due (q i) (r i))
    arm_backed k t b (inr (n, g)) =
        let old = b.backed k t (λ e. n (sym e)) g in
        lookup-insert_ne t.timer m.next (due key armed) m.pending
          (λ e. absurd (omega (arith, b.fresh t.timer (due k t) old)))
        ∙ old

    arm_owned :
        (h : ℕ) (c : Call)
        → SyncedBut key m
        → ((m.next ≡ h) × (due key armed ≡ c)) ⊎ ((m.next ≢ h) × (lookup h m.pending ≡ some c))
        → (t : Timer V) × (lookup c.key timers' ≡ some t) × (t.timer ≡ h)
    arm_owned h c b (inl (q, r)) =
        (armed, ap (λ x. lookup x.key timers') (sym r) ∙ lookup-insert_self key armed m.timers, q)
    arm_owned h c b (inr (n, g)) =
        let (u, p, q, other) = b.owned h c g in
        (u, lookup-insert_ne c.key key armed m.timers (λ e. other (sym e)) ∙ p, q)

    arm_fresh :
        (h : ℕ) (c : Call)
        → SyncedBut key m
        → ((m.next ≡ h) × (due key armed ≡ c)) ⊎ ((m.next ≢ h) × (lookup h m.pending ≡ some c))
        → h < suc m.next
    arm_fresh h c b (inl (q, r)) = omega arith
    arm_fresh h c b (inr (n, g)) = omega (arith, b.fresh h c g)

    arm-Synced : SyncedBut key m → Synced (arm m key duration value now)
    unfolding arm
    arm-Synced b = record {
      backed = λ k t e. arm_backed k t b (lookup-insert-some k key armed t m.timers e);
      owned = λ h c e. arm_owned h c b (lookup-insert-some h m.next (due key armed) c m.pending e);
      fresh = λ h c e. arm_fresh h c b (lookup-insert-some h m.next (due key armed) c m.pending e);
      distinct = insert-Distinct key armed m.timers b.distinct;
    }

  -- SetTimer keeps timers and calls in step, whether it replaces a timer, adds one or refuses.
  pub set_timer-Synced :
      (m : Manager V) (key : TimerKey) (duration : ℕ) (value : V) (now : ℕ)
      → Synced m
      → Synced (set_timer m key duration value now).0
  unfolding set_timer
  set_timer-Synced m key duration value now s = elim (Bool-cases (ltb duration min_duration)) [
    | inl short ↦ rw short s
    | inr enough ↦ elim (Bool-cases (ltb max_duration duration)) [
      | inl long ↦ rw (enough, long) s
      | inr fits ↦
          rw (enough, fits)
            (arm-Synced (stop_existing m (lookup key m.timers)) key duration value now
              (stop_existing-SyncedBut m key s))
    ]
  ]

  -- CancelTimer keeps timers and calls in step, whether there is a timer or not.
  pub cancel_timer-Synced :
      (m : Manager V) (key : TimerKey) → Synced m → Synced (cancel_timer m key).0
  unfolding cancel_timer
  cancel_timer-Synced m key s = elim (Option-cases (lookup key m.timers)) [
    | inl e ↦ rw (e, cancel_timer) s
    | inr (t, e) ↦ rw (e, cancel_timer) (drop_timer-Synced m key t s e)
  ]
