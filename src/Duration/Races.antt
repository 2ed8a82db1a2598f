-- ===== src/Duration/Races.antt =====
-- A call of mash-go/pkg/duration/timer.go's expireTimer that the runtime has started, and that waits for
-- the lock while SetTimer holds it.
use mash.Base.{
  ℕ, ◌≤◌, ◌≡◌, refl, sym, ap, ◌∙◌, subst, true, false, Option, none, some, [], ◌∷◌, arith, ltb,
  if◌then◌else◌,
}
use mash.Base.GoMap.{nat_key, lookup, delete, lookup-insert_self, lookup-delete_self}
use mash.Duration.{
  Timer, TimerKey, timer_key, Manager, set_timer, stop_existing, stop, arm, new_timer, expire_timer,
  min_duration, max_duration,
}

module _ {V : Type 0} where
  -- The runtime has started the call with this handle; Stop no longer finds it.
  pub started : Manager V → ℕ → Manager V
  started m handle = record m { pending = delete handle m.pending }

  set_timer_valid :
      (m : Manager V) (k : TimerKey) (d : ℕ) (v : V) (now : ℕ)
      → min_duration ≤ d
      → d ≤ max_duration
      → (set_timer m k d v now).0 ≡ arm (stop_existing m (lookup k m.timers)) k d v now
  unfolding set_timer
  set_timer_valid m k d v now p q =
      let enough : ltb d min_duration ≡ false = ground arith in
      let fits : ltb max_duration d ≡ false = ground arith in rw (enough, fits) refl

  expire_stored :
      (m : Manager V) (k : TimerKey) (t : Timer V)
      → lookup k m.timers ≡ some t
      → expire_timer m k ≡ (
        record m { timers = delete k m.timers },
        if m.on_expiry then record { key = k; value = t.value } ∷ [] else [],
      )
  unfolding expire_timer
  expire_stored m k t e = rw (e, expire_timer) refl

  on_expiry-stop_existing :
      (m : Manager V) (o : Option (Timer V)) → (stop_existing m o).on_expiry ≡ m.on_expiry
  unfolding stop_existing stop
  on_expiry-stop_existing m none = refl
  on_expiry-stop_existing m (some t) = refl

  expire-arm :
      (m : Manager V) (k : TimerKey) (d : ℕ) (v : V) (now : ℕ)
      → m.on_expiry ≡ true
      → let m' = arm m k d v now in
        (lookup k (expire_timer m' k).0.timers ≡ none)
        × ((expire_timer m' k).1 ≡ record { key = k; value = v } ∷ [])
  unfolding arm
  expire-arm m k d v now l =
      let e =
        expire_stored (arm m k d v now) k (new_timer k now d v m.next)
          (lookup-insert_self k (new_timer k now d v m.next) m.timers) in
      (
        ap (λ r. lookup k r.0.timers) e ∙ lookup-delete_self k (arm m k d v now).timers,
        ap (λ r. r.1) e ∙ ap (λ b. if b then record { key = k; value = v } ∷ [] else []) l,
      )

  -- A started call goes by the key: if SetTimer replaces the timer with a valid duration before
  -- the call gets the lock, the call takes the new timer away at once and reports the new value
  -- as expired to the listener.
  pub late_call :
      (m : Manager V) (k : TimerKey) (t : Timer V) (d : ℕ) (v : V) (now : ℕ)
      → lookup k m.timers ≡ some t
      → min_duration ≤ d
      → d ≤ max_duration
      → m.on_expiry ≡ true
      → let m' = (set_timer (started m t.timer) k d v now).0 in
        (lookup k (expire_timer m' k).0.timers ≡ none)
        × ((expire_timer m' k).1 ≡ record { key = k; value = v } ∷ [])
  late_call m k t d v now e p q l =
      subst
        (λ m'.
          (lookup k (expire_timer m' k).0.timers ≡ none)
          × ((expire_timer m' k).1 ≡ record { key = k; value = v } ∷ []))
        (sym (set_timer_valid (started m t.timer) k d v now p q))
        (expire-arm (stop_existing (started m t.timer) (lookup k (started m t.timer).timers)) k d v
          now
          (on_expiry-stop_existing (started m t.timer) (lookup k (started m t.timer).timers)
            ∙ unfold started in l))
