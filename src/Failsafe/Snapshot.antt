-- ===== src/Failsafe/Snapshot.antt =====
-- Snapshot and Restore (mash-go/pkg/failsafe/timer.go), which carry the timer over a restart.
use mash.Base.{ℕ, ◌-◌, Option, none, some, List, [], ◌∷◌, ltb, ◌==◌, if◌then◌else◌}
use mash.Base.GoMap.{nat_key}
use mash.Failsafe.{
  State, normal, timer_running, failsafe, grace_period, is_running, Limits, Callback,
  failsafe_enter, Timer, TimerError, nil_snapshot,
}
use mash.Failsafe.Operations.{stop_failsafe_timer, stop_grace_timer, arm_failsafe, remaining_time}

pub record TimerSnapshot : Type 0 where
  pub state : State
  pub duration : ℕ
  pub started_at : ℕ
  pub remaining : ℕ
  pub limits : Limits

unfoldable pub snapshot : Timer → ℕ → TimerSnapshot
unfolding remaining_time
snapshot t now = record {
  state = t.state;
  duration = t.duration;
  started_at = if is_running t.state then t.started_at else 0;
  remaining = remaining_time t now;
  limits = t.limits;
}

-- The time that a running snapshot has left.
abbrev pub time_left : TimerSnapshot → ℕ → ℕ
time_left snap now =
    if ltb 0 snap.remaining
    then snap.remaining
    else if snap.started_at == 0
    then 0
    else snap.duration - (now - snap.started_at)

abbrev pub cleared : Timer → TimerSnapshot → Timer
cleared t snap = record (stop_grace_timer (stop_failsafe_timer t)) {
  duration = if ltb 0 snap.duration then snap.duration else t.duration;
  limits = snap.limits;
}

unfoldable pub restore_running : Timer → TimerSnapshot → ℕ → Timer × List Callback
unfolding arm_failsafe
restore_running t snap now =
    if time_left snap now == 0
    then (
      record t { state = failsafe; started_at = 0 },
      (if t.on_failsafe_enter then failsafe_enter t.limits ∷ [] else []),
    )
    else (
      arm_failsafe
          (record t { state = timer_running; started_at = now; duration = time_left snap now })
          (time_left snap now) now,
      [],
    )

unfoldable pub restore_state : State → Timer → TimerSnapshot → ℕ → Timer × List Callback
unfolding restore_running
restore_state normal t snap now = (record t { state = normal; started_at = 0 }, [])
restore_state timer_running t snap now = restore_running t snap now
restore_state failsafe t snap now = (record t { state = failsafe; started_at = 0 }, [])
restore_state grace_period t snap now = (record t { state = normal; started_at = 0 }, [])

-- A nil snapshot is refused.
unfoldable pub restore :
    Timer → Option TimerSnapshot → ℕ → Timer × List Callback × Option TimerError
unfolding restore_state stop_failsafe_timer stop_grace_timer
restore t none now = (t, [], some nil_snapshot)
restore t (some snap) now =
    let (r, cs) = restore_state snap.state (cleared t snap) snap now in (r, cs, none)
