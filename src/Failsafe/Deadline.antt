-- ===== src/Failsafe/Deadline.antt =====
-- When the timer of mash-go/pkg/failsafe/timer.go enters failsafe mode, and when it cannot.
use mash.Base.{
  ℕ, ◌+◌, ◌-◌, ◌≤◌, ◌<◌, ◌≡◌, refl, ap, ◌∙◌, ◌≢◌, false, ◌||◌, ◌&&◌, some, List, [], ◌∷◌, ◌++◌,
  Bool-cases, Option-cases, inl, inr, arith, ltb, ◌==◌, if◌then◌else◌,
}
use mash.Base.GoMap.{nat_key, lookup, delete, lookup-insert_self, lookup-delete-some}
use mash.Failsafe.{
  State, timer_running, failsafe, grace_period, is_normal, is_running, is_in_failsafe, is_grace,
  Action, enters, exits, Call, Callback, failsafe_enter, Timer,
}
use mash.Failsafe.Operations.{
  changed, stop_failsafe_timer, arm_failsafe, arm_grace, start, stopped, stop, enter_failsafe,
  exit_grace_period, act, fire, remaining_time,
}
use mash.Failsafe.Snapshot.{
  TimerSnapshot, time_left, cleared, restore_running, restore_state, restore, snapshot,
}
use mash.Failsafe.Invariant.{Quiet, Armed, stop_failsafe-Quiet, arm_grace-Quiet}

-- What the listeners hear when failsafe mode is entered.
abbrev pub entry : Timer → List Callback
entry t =
    changed t timer_running failsafe
    ++ (if t.on_failsafe_enter then failsafe_enter t.limits ∷ [] else [])

-- The timer once it has been started.
abbrev started : Timer → ℕ → ℕ → Timer
started t d now = arm_failsafe (record t { state = timer_running; started_at = now }) d now

start-started :
    (t : Timer) (now : ℕ)
    → is_running t.state ≡ false
    → is_in_failsafe t.state ≡ false
    → (start t now).0 ≡ started t t.duration now
unfolding start
start-started t now r f = elim (Bool-cases (is_running t.state || is_in_failsafe t.state)) [
  | inl e ↦ absurd (ground arith)
  | inr e ↦ rw e
]

started_call :
    (t : Timer) (d now : ℕ)
    → lookup t.next (started t d now).pending
      ≡ some (record { action = enters; deadline = now + d })
unfolding arm_failsafe
started_call t d now =
    lookup-insert_self t.next (record { action = enters; deadline = now + d }) t.pending

fire_early :
    (t : Timer) (h at : ℕ) (c : Call)
    → lookup h t.pending ≡ some c
    → at < c.deadline
    → fire t h at ≡ (t, [])
unfolding fire
fire_early t h at c e early = rw (e, fire) (ground arith)

fire_due :
    (t : Timer) (h at : ℕ) (c : Call)
    → lookup h t.pending ≡ some c
    → c.deadline ≤ at
    → fire t h at ≡ act c.action (record t { pending = delete h t.pending })
unfolding fire
fire_due t h at c e due = rw (e, fire) (ground arith)

-- A timer that is started while it is neither running nor in failsafe mode fires at its deadline
-- and not before: it then enters failsafe mode and hands out the limits.
pub start_deadline :
    (t : Timer) (now : ℕ)
    → is_running t.state ≡ false
    → is_in_failsafe t.state ≡ false
    → let t' = (start t now).0 in
      (t'.failsafe_timer ≡ some t.next)
      × ((at : ℕ) → at < now + t.duration → fire t' t.next at ≡ (t', []))
      × ((at : ℕ)
          → now + t.duration ≤ at
          → ((fire t' t.next at).0.state ≡ failsafe) × ((fire t' t.next at).1 ≡ entry t))
unfolding arm_failsafe act enter_failsafe
start_deadline t now r f = rw (start-started t now r f) (
  refl,
  λ at early. fire_early _ t.next at _ (started_call t t.duration now) early,
  λ at due.
      let e = fire_due (started t t.duration now) t.next at _ (started_call t t.duration now) due in
      (ap (λ x. x.0.state) e, ap (λ x. x.1) e),
)

-- The runtime's calls after a reconnection, by handle and time.
pub fires : Timer → List (ℕ × ℕ) → Timer
fires t [] = t
fires t ((h, at) ∷ rest) = fires (fire t h at).0 rest

record Safe (t : Timer) : Type 0 where
  quiet : Quiet t
  outside : is_in_failsafe t.state ≡ false

exit-Safe : (t : Timer) → Safe t → Safe (exit_grace_period t).0
unfolding exit_grace_period
exit-Safe t s = elim (Bool-cases (is_grace t.state)) [
  | inl g ↦ rw g (record { quiet = s.quiet; outside = refl })
  | inr g ↦ rw g s
]

taken-Safe : (t : Timer) (h : ℕ) → Safe t → Safe (record t { pending = delete h t.pending })
taken-Safe t h s = record {
  quiet = λ i c e. s.quiet i c (lookup-delete-some i h c t.pending e).1;
  outside = s.outside;
}

act-Safe :
    (t : Timer) (h : ℕ) (a : Action)
    → Safe t
    → a ≢ enters
    → Safe (act a (record t { pending = delete h t.pending })).0
unfolding act
act-Safe t h enters s n = absurd (n refl)
act-Safe t h exits s n = exit-Safe (record t { pending = delete h t.pending }) (taken-Safe t h s)

fire-Safe : (t : Timer) (h at : ℕ) → Safe t → Safe (fire t h at).0
unfolding fire
fire-Safe t h at s = elim (Option-cases (lookup h t.pending)) [
  | inl e ↦ rw (e, fire) s
  | inr (c, e) ↦ elim (Bool-cases (ltb at c.deadline)) [
    | inl early ↦ rw (e, fire) (rw early s)
    | inr late ↦ rw (e, fire) (rw late (act-Safe t h c.action s (s.quiet h c e)))
  ]
]

fires-Safe : (t : Timer) (es : List (ℕ × ℕ)) → Safe t → Safe (fires t es)
unfolding fires
fires-Safe t [] s = s
fires-Safe t ((h, at) ∷ es) s = fires-Safe (fire t h at).0 es (fire-Safe t h at s)

stopped-Safe : (t : Timer) (now : ℕ) → Armed t → Safe (stopped t now)
unfolding stopped
stopped-Safe t now v = elim (Bool-cases (is_in_failsafe t.state && ltb 0 t.grace)) [
  | inl e ↦ rw e (record {
    quiet =
        arm_grace-Quiet (record (stop_failsafe_timer t) { state = grace_period }) now
          (stop_failsafe-Quiet t v);
    outside = unfold arm_grace in refl;
  })
  | inr e ↦ rw e (record { quiet = stop_failsafe-Quiet t v; outside = refl })
]

-- After Stop on a timer that is not in the normal state and whose calls are in step with it, no
-- call of the runtime, however many come and whenever, enters failsafe mode.
pub stop_prevents_failsafe :
    (t : Timer) (now : ℕ) (es : List (ℕ × ℕ))
    → Armed t
    → is_normal t.state ≡ false
    → (fires (stop t now).0 es).state ≢ failsafe
unfolding stop
stop_prevents_failsafe t now es v n = rw n (λ e.
    outside_ne (fires (stopped t now) es).state
      (fires-Safe (stopped t now) es (stopped-Safe t now v)).outside e)
  where
    outside_ne : (s : State) → is_in_failsafe s ≡ false → s ≢ failsafe
    outside_ne s f e = ground arith

-- The timer that a running snapshot with time left is restored to.
abbrev resumed : Timer → TimerSnapshot → ℕ → Timer
resumed t snap now =
    arm_failsafe
      (record (cleared t snap) {
        state = timer_running;
        started_at = now;
        duration = snap.remaining;
      })
      snap.remaining now

time_left_saved :
    (snap : TimerSnapshot) (now : ℕ) → 0 < snap.remaining → time_left snap now ≡ snap.remaining
time_left_saved snap now p = ground arith

restore-resumed :
    (t : Timer) (snap : TimerSnapshot) (now : ℕ)
    → snap.state ≡ timer_running
    → 0 < snap.remaining
    → (restore t (some snap) now).0 ≡ resumed t snap now
unfolding restore restore_state restore_running
restore-resumed t snap now s p = ap (λ x. (restore_state x (cleared t snap) snap now).0) s ∙ resume
  where
    resume : (restore_running (cleared t snap) snap now).0 ≡ resumed t snap now
    resume = elim (Bool-cases (time_left snap now == 0)) [
      | inl e ↦ absurd (ground (arith, time_left_saved snap now p))
      | inr e ↦ rw e (
          ap
            (λ d.
              arm_failsafe
                (record (cleared t snap) { state = timer_running; started_at = now; duration = d })
                d now)
            (time_left_saved snap now p))
    ]

-- A snapshot of a running timer that has time left restores its limits and what it had left,
-- however much time has passed between.
pub restore-snapshot_remaining :
    (t u : Timer) (now later : ℕ)
    → t.state ≡ timer_running
    → 0 < remaining_time t now
    → let r = (restore u (some (snapshot t now)) later).0 in
      (r.state ≡ timer_running)
      × (r.limits ≡ t.limits)
      × ((at : ℕ) → later ≤ at → remaining_time r at ≡ remaining_time t now - (at - later))
unfolding restore restore_state restore_running snapshot arm_failsafe remaining_time
    stop_failsafe_timer
restore-snapshot_remaining t u now later s p =
    let e = restore-resumed u (snapshot t now) later s p in
    (ap (λ x. x.state) e, ap (λ x. x.limits) e, λ at _. ap (λ x. remaining_time x at) e)

-- A timer that Restore has started from a snapshot with time left counts what was left as its
-- duration from then on: stopped and started again, that is the time that it has, and not the
-- duration of the snapshot.
pub restore_shortens :
    (t : Timer) (snap : TimerSnapshot) (now off on : ℕ)
    → snap.state ≡ timer_running
    → 0 < snap.remaining
    → let r = (restore t (some snap) now).0 in
      let s = (start (stop r off).0 on).0 in
      (r.state ≡ timer_running)
      × (r.duration ≡ snap.remaining)
      × (remaining_time s on ≡ snap.remaining)
unfolding restore restore_state restore_running arm_failsafe remaining_time start stop stopped
    stop_failsafe_timer
restore_shortens t snap now off on s p =
    let e = restore-resumed t snap now s p in
    (
      ap (λ x. x.state) e,
      ap (λ x. x.duration) e,
      ap (λ x. remaining_time (start (stop x off).0 on).0 on) e ∙ omega arith,
    )
