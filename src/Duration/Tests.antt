-- ===== src/Duration/Tests.antt =====
-- Two zones set timers, and one runs out (mash-go/pkg/duration/timer.go).
use mash.Base.{arith, true, ℕ, ◌*◌, ◌≡◌, refl, none, some, [], ◌∷◌, true, List, ℕ_discrete}
use mash.Base.GoMap.{insert, lookup, delete}
use mash.Duration.Races.{started, late_call}
use mash.Duration.{
  expire_timer, Timer, set_on_expiry, TimerKey, TimerKey-discrete, limit_consumption, new, second,
  set_timer, count, timer_key, invalid_duration,
}
use mash.Duration.Invariant.{Synced}
use mash.Duration.Firing.{Event, sets, listens, run, step, run-new-Synced}

abbrev key : ℕ → TimerKey
key z = record { zone_id = z; cmd_type = limit_consumption }

abbrev two_timers : List (Event ℕ)
two_timers = listens true ∷ sets (key 0) (5 * second) 42 100 ∷ sets (key 1) (9 * second) 43 200 ∷ []

count_two : count (run new two_timers) ≡ 2
unfolding run step new set_timer set_on_expiry insert delete lookup count TimerKey-discrete
    ℕ_discrete
count_two = refl

too_short : (set_timer (run new two_timers) (key 0) 7 1 300).1 ≡ some invalid_duration
unfolding set_timer
too_short = refl

run-new-Synced_example : Synced (run new two_timers)
run-new-Synced_example = run-new-Synced two_timers

abbrev first_timer : Timer ℕ
first_timer = record { key = key 0; start_time = 100; duration = 5 * second; value = 42; timer = 0 }

first_stored : lookup (key 0) (run new two_timers).timers ≡ some first_timer
unfolding run step new set_timer set_on_expiry insert delete lookup TimerKey-discrete ℕ_discrete
first_stored = refl

listening : (run {V = ℕ} new two_timers).on_expiry ≡ true
unfolding run step new set_timer set_on_expiry insert delete lookup TimerKey-discrete ℕ_discrete
listening = refl

-- The timer of zone 0 is set again just as it runs out.
late_call_example :
    let m' = (set_timer (started (run new two_timers) 0) (key 0) (8 * second) 50 (6 * second)).0 in
    (lookup (key 0) (expire_timer m' (key 0)).0.timers ≡ none)
    × ((expire_timer m' (key 0)).1 ≡ record { key = key 0; value = 50 } ∷ [])
late_call_example =
    late_call (run new two_timers) (key 0) first_timer (8 * second) 50 (6 * second) first_stored
      (omega arith) (omega arith) listening
