-- ===== src/Failsafe/Tests.antt =====
-- A device loses its zones, restarts and finds them again (mash-go/pkg/failsafe/timer.go).
use mash.Base.{
  ℕ, ◌*◌, ◌-◌, ◌+◌, ◌≤◌, ◌<◌, ◌≡◌, refl, ◌≢◌, some, [], ◌∷◌, List, ℕ_discrete, arith, false,
}
use mash.Base.GoMap.{nat_key, insert, lookup, delete}
use mash.Failsafe.{
  is_normal, timer_running, failsafe, Timer, new_timer, no_limits, second, default_duration,
}
use mash.Failsafe.Operations.{start, stop, fire, remaining_time}
use mash.Failsafe.Snapshot.{TimerSnapshot, snapshot, restore}
use mash.Failsafe.Invariant.{Armed}
use mash.Failsafe.Steps
use mash.Failsafe.Steps.{Event, starts, stops, fires, resets, run, run-new-Armed}
use mash.Failsafe.Deadline
use mash.Failsafe.Deadline.{
  entry, start_deadline, stop_prevents_failsafe, restore-snapshot_remaining, restore_shortens,
}

-- The last zone is lost at 7, and the timer runs out.
abbrev lost : List Event
lost = starts 7 ∷ fires 0 (7 + default_duration) ∷ []

abbrev in_failsafe : Timer
in_failsafe = run new_timer lost

lost_state : in_failsafe.state ≡ failsafe
unfolding run Steps.step new_timer start fire insert lookup delete ℕ_discrete
lost_state = refl

run-new-Armed_example : Armed (run new_timer lost)
run-new-Armed_example = run-new-Armed lost

start_deadline_example :
    let t' = (start new_timer 7).0 in
    (t'.failsafe_timer ≡ some new_timer.next)
    × ((at : ℕ) → at < 7 + new_timer.duration → fire t' new_timer.next at ≡ (t', []))
    × ((at : ℕ)
        → 7 + new_timer.duration ≤ at
        → ((fire t' new_timer.next at).0.state ≡ failsafe)
          × ((fire t' new_timer.next at).1 ≡ entry new_timer))
unfolding new_timer
start_deadline_example = start_deadline new_timer 7 refl refl

lost_active : is_normal in_failsafe.state ≡ false
lost_active = rw lost_state refl

stop_prevents_failsafe_example :
    (Deadline.fires
      (stop in_failsafe (9 * default_duration)).0
      ((0, 9 * default_duration) ∷ (1, 10 * default_duration) ∷ [])).state
    ≢ failsafe
stop_prevents_failsafe_example =
    stop_prevents_failsafe in_failsafe (9 * default_duration)
      ((0, 9 * default_duration) ∷ (1, 10 * default_duration) ∷ []) (run-new-Armed lost) lost_active

abbrev running : Timer
running = (start new_timer 7).0

running_state : running.state ≡ timer_running
unfolding start new_timer
running_state = refl

running_left : 0 < remaining_time running (7 + second)
unfolding start new_timer remaining_time
running_left = omega arith

restore-snapshot_remaining_example :
    let r = (restore new_timer (some (snapshot running (7 + second))) (50 * default_duration)).0 in
    (r.state ≡ timer_running)
    × (r.limits ≡ running.limits)
    × ((at : ℕ)
        → 50 * default_duration ≤ at
        → remaining_time r at ≡ remaining_time running (7 + second) - (at - 50 * default_duration))
restore-snapshot_remaining_example =
    restore-snapshot_remaining running new_timer (7 + second) (50 * default_duration) running_state
      running_left

abbrev saved : TimerSnapshot
saved = record {
  state = timer_running;
  duration = default_duration;
  started_at = 7;
  remaining = second;
  limits = no_limits;
}

restore_shortens_example :
    let r = (restore new_timer (some saved) 100).0 in
    let s = (start (stop r 200).0 300).0 in
    (r.state ≡ timer_running) × (r.duration ≡ second) × (remaining_time s 300 ≡ second)
restore_shortens_example = restore_shortens new_timer saved 100 200 300 refl (omega arith)
