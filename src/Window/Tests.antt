-- ===== src/Window/Tests.antt =====
-- A window that is opened for an exchange (mash-go/pkg/pase/window.go).
use mash.Base.{
  ℕ, ◌+◌, ◌≡◌, refl, List, [], ◌∷◌, String, true, false, arith, ◌==◌, if◌then◌else◌, ℕ_discrete,
}
use mash.Base.GoMap.{lookup, insert, nat_key}
use mash.Window.{
  Window, new, window_closed, trigger_button, is_closed, is_busy, open_window, arm, begin_pase,
  fire, default_window_timeout, handle_timeout,
}
use mash.Window.Invariant.{IsGuarded}
use mash.Window.Steps.{Event, opens, begins, step, run, run-new-IsGuarded}
use mash.Window.Deadline.{Attempt, attempts, attempts_deadline, farewell, open_window_deadline}
use mash.Window.Deadline

-- The times of two exchanges.
abbrev clock : ℕ → String
clock n = if n == 5 then "20260101000005" else "20260101000009"

abbrev exchange : List Event
exchange = opens trigger_button 3 ∷ begins 5 ∷ []

abbrev in_exchange : Window
in_exchange = run clock new exchange

run-new-IsGuarded_example : IsGuarded (run clock new exchange)
run-new-IsGuarded_example = run-new-IsGuarded clock exchange

in_exchange_busy : is_busy in_exchange.state ≡ true
unfolding run step new open_window arm begin_pase
in_exchange_busy = refl

in_exchange_id : in_exchange.session_id ≡ "20260101000005"
unfolding run step new open_window arm begin_pase
in_exchange_id = refl

in_exchange_call : in_exchange.pending ≡ (0, 3 + default_window_timeout) ∷ []
unfolding run step new open_window arm begin_pase insert
in_exchange_call = refl

timed_out_state : (fire in_exchange 0 (4 + default_window_timeout)).0.state ≡ window_closed
unfolding run step new open_window arm begin_pase insert fire lookup handle_timeout ℕ_discrete
timed_out_state = refl

new-IsGuarded : IsGuarded new
unfolding run
new-IsGuarded = run-new-IsGuarded clock []

new_closed : is_closed new.state ≡ true
unfolding new
new_closed = refl

abbrev tries : List Attempt
tries = Deadline.ends "20260101000005" false 7 ∷ Deadline.begins 9 ∷ []

attempts_deadline_example :
    is_closed (fire (attempts clock in_exchange tries) 0 (3 + default_window_timeout)).0.state
    ≡ true
attempts_deadline_example =
    attempts_deadline clock in_exchange tries 0 (3 + default_window_timeout)
      (3 + default_window_timeout) in_exchange_call (omega arith)
