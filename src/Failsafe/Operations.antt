-- ===== src/Failsafe/Operations.antt =====
-- The operations of mash-go/pkg/failsafe/timer.go that start, stop and end the timer.
use mash.Base.{
  ℕ, suc, ◌+◌, ◌-◌, ◌*◌, ◌/◌, not, ◌&&◌, ◌||◌, Option, none, some, List, [], ◌∷◌, ◌++◌, ltb,
  if◌then◌else◌,
}
use mash.Base.GoMap.{GoMap, nat_key, lookup, insert, delete}
use mash.Failsafe.{
  State, normal, timer_running, failsafe, grace_period, is_normal, is_running, is_in_failsafe,
  is_grace, Action, enters, exits, Call, Callback, state_change, failsafe_enter, failsafe_exit,
  Timer, accuracy_absolute, accuracy_percent,
}

-- `timer.Stop()` on a timer that may be nil.
abbrev pub stop_call : Option ℕ → GoMap ℕ Call → GoMap ℕ Call
stop_call none p = p
stop_call (some h) p = delete h p

unfoldable pub stop_failsafe_timer : Timer → Timer
stop_failsafe_timer t = record t {
  failsafe_timer = none;
  pending = stop_call t.failsafe_timer t.pending;
}

unfoldable pub stop_grace_timer : Timer → Timer
stop_grace_timer t = record t {
  grace_period_timer = none;
  pending = stop_call t.grace_period_timer t.pending;
}

unfoldable pub arm_failsafe : Timer → ℕ → ℕ → Timer
arm_failsafe t d now = record t {
  failsafe_timer = some t.next;
  pending = insert t.next (record { action = enters; deadline = now + d }) t.pending;
  next = suc t.next;
}

unfoldable pub arm_grace : Timer → ℕ → Timer
arm_grace t now = record t {
  grace_period_timer = some t.next;
  pending = insert t.next (record { action = exits; deadline = now + t.grace }) t.pending;
  next = suc t.next;
}

abbrev pub changed : Timer → State → State → List Callback
changed t old new = if t.on_state_change then state_change old new ∷ [] else []

unfoldable pub start : Timer → ℕ → Timer × List Callback
unfolding arm_failsafe
start t now = if is_running t.state || is_in_failsafe t.state then (t, []) else (
  arm_failsafe (record t { state = timer_running; started_at = now }) t.duration now,
  changed t t.state timer_running,
)

unfoldable pub stopped : Timer → ℕ → Timer
unfolding stop_failsafe_timer arm_grace
stopped t now =
    let s = stop_failsafe_timer t in
    if is_in_failsafe t.state && ltb 0 t.grace
    then arm_grace (record s { state = grace_period }) now
    else record s { state = normal }

unfoldable pub stop : Timer → ℕ → Timer × List Callback
unfolding stopped
stop t now = if is_normal t.state then (t, []) else (
  stopped t now,
  changed t t.state (stopped t now).state
      ++ (if is_in_failsafe t.state && t.on_failsafe_exit then failsafe_exit ∷ [] else []),
)

unfoldable pub reset : Timer → Timer × List Callback
unfolding stop_failsafe_timer stop_grace_timer
reset t = (
  record (stop_grace_timer (stop_failsafe_timer t)) { state = normal; started_at = 0 },
  (if not (is_normal t.state) then changed t t.state normal else []),
)

-- `-` stops at 0, as the test for a negative remainder makes it.
unfoldable pub remaining_time : Timer → ℕ → ℕ
remaining_time t now = if is_running t.state then t.duration - (now - t.started_at) else 0

unfoldable pub enter_failsafe : Timer → Timer × List Callback
enter_failsafe t =
    if is_running t.state
    then (
      record t { state = failsafe; failsafe_timer = none },
      changed t t.state failsafe
          ++ (if t.on_failsafe_enter then failsafe_enter t.limits ∷ [] else []),
    )
    else (t, [])

unfoldable pub exit_grace_period : Timer → Timer × List Callback
exit_grace_period t =
    if is_grace t.state
    then (record t { state = normal; grace_period_timer = none }, changed t t.state normal)
    else (t, [])

unfoldable pub act : Action → Timer → Timer × List Callback
unfolding enter_failsafe exit_grace_period
act enters t = enter_failsafe t
act exits t = exit_grace_period t

-- The runtime makes the call with this handle, at or after its deadline.
unfoldable pub fire : Timer → ℕ → ℕ → Timer × List Callback
unfolding act
fire t handle now = elim (lookup handle t.pending) [
  | none ↦ (t, [])
  | some c ↦
      if ltb now c.deadline
      then (t, [])
      else act c.action (record t { pending = delete handle t.pending })
]

-- One percent or a minute, whichever is greater; exact for durations below 2 ^ 53.
unfoldable pub calculate_accuracy : ℕ → ℕ
calculate_accuracy d =
    if ltb accuracy_absolute (d * accuracy_percent / 100)
    then d * accuracy_percent / 100
    else accuracy_absolute
