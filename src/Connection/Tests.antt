-- ===== src/Connection/Tests.antt =====
-- mash-go/pkg/connection: runs of the connection manager at concrete numbers.
use mash.Base.{◌++◌, ◌≡◌, ◌↔◌, refl, true, false, List, [], ◌∷◌, map, arith, All, ◌-◌, ◌^◌, none}
use mash.Model.Values.{excess, round_to}
use mash.Connection.{
  proceeds, tell_change, enter, Manager, new_manager, set_on_state_change, set_on_connected,
  set_on_disconnected, set_on_reconnecting, run, is_connected, close, Event, loop_started,
  connect_begun, connect_ended, close_called, disconnected, connecting, connected, reconnecting,
  selecting, Effect, state_changed, dials, now_connected, now_disconnected, returned,
}
use mash.Connection.Backoff.{backoff_sequence, next, new_backoff, add_jitter, max_backoff, reset}
use mash.Connection.Backoff.Jitter.{round_product}
use mash.Connection.Backoff.Delays.{base, After, new_backoff-After}
use mash.Connection.Closing.{in_flight, IsQuiet, close-reopens}
use mash.Connection.Retrying.{loss, IsReady, IsRestored, IsRetried, attempts, loss-Retried}

abbrev observed : Manager
unfolding set_on_state_change set_on_connected set_on_disconnected set_on_reconnecting
observed =
    set_on_reconnecting
      (set_on_disconnected (set_on_connected (set_on_state_change new_manager true) true) true) true

-- Established by Connect, with the loop started.
abbrev online : Manager
online = record observed { state = connected; loop = selecting }

-- A Connect with the calls that it makes without the lock.
abbrev connecting_run : List Event
connecting_run =
    loop_started
    ∷ connect_begun
    ∷ proceeds 0
    ∷ proceeds 0
    ∷ connect_ended true
    ∷ proceeds 0
    ∷ proceeds 0
    ∷ proceeds 0
    ∷ []

connects :
    (run observed connecting_run).1
    ≡ state_changed disconnected connecting
      ∷ dials
      ∷ state_changed connecting connected
      ∷ now_connected
      ∷ returned none
      ∷ []
unfolding run new_manager set_on_state_change set_on_connected set_on_disconnected
    set_on_reconnecting new_backoff reset
connects = refl

backoff_sequence-base : map base (0 ∷ 1 ∷ 2 ∷ 3 ∷ 4 ∷ 5 ∷ 6 ∷ []) ≡ backoff_sequence
unfolding backoff_sequence
backoff_sequence-base = refl

-- Half of the greatest jitter.
half_jitter : (next new_backoff (2 ^ 52)).1 ≡ 1125000000
unfolding next new_backoff round_product round_to excess
half_jitter = refl

greatest_jitter : add_jitter max_backoff (2 ^ 53 - 1) ≡ 74999999999
unfolding add_jitter round_product round_to excess
greatest_jitter = refl

-- Close while a Connect has yet to call onStateChange, and then succeeds.
reopened :
    is_connected
      (run observed
        (connect_begun ∷ close_called ∷ proceeds 1 ∷ proceeds 1 ∷ connect_ended true ∷ [])).0
    ≡ true
unfolding run new_manager set_on_state_change set_on_connected set_on_disconnected
    set_on_reconnecting is_connected
reopened = refl

-- Close after a Connect has set Connected, which then calls onConnected.
late_callback :
    (run observed (
      connect_begun
      ∷ proceeds 0
      ∷ proceeds 0
      ∷ connect_ended true
      ∷ close_called
      ∷ proceeds 1
      ∷ proceeds 1
      ∷ [])).1
    ≡ state_changed disconnected connecting
      ∷ dials
      ∷ state_changed connecting connected
      ∷ now_connected
      ∷ []
unfolding run new_manager set_on_state_change set_on_connected set_on_disconnected
    set_on_reconnecting
late_callback = refl

-- A Connect that fails while another has succeeded takes the connection for lost.
overwritten :
    is_connected
      (run observed (
        connect_begun
        ∷ proceeds 0
        ∷ proceeds 0
        ∷ connect_begun
        ∷ proceeds 0
        ∷ proceeds 0
        ∷ connect_ended true
        ∷ connect_ended false
        ∷ [])).0
    ≡ false
unfolding run new_manager set_on_state_change set_on_connected set_on_disconnected
    set_on_reconnecting is_connected
overwritten = refl

abbrev announcing_caller : Manager
announcing_caller = record observed {
  state = connecting;
  threads = (tell_change disconnected connecting ∷ enter ∷ []) ∷ [];
}

close-reopens_example :
    ((in_flight announcing_caller ≡ true)
      ↔ ((es : List Event) × (is_connected (run (close announcing_caller).0 es).0 ≡ true)))
    × (in_flight announcing_caller ≡ false
        → (es : List Event) → All IsQuiet (run (close announcing_caller).0 es).1)
close-reopens_example = close-reopens announcing_caller

online-IsReady : IsReady online
unfolding new_manager set_on_state_change set_on_connected set_on_disconnected set_on_reconnecting
online-IsReady = record {
  up = refl;
  retries = refl;
  stands = refl;
  state_change = refl;
  connection = refl;
  disconnection = refl;
  retry = refl;
}

online-After : After 0 online.backoff
unfolding new_manager set_on_state_change set_on_connected set_on_disconnected set_on_reconnecting
online-After = new_backoff-After

loss-Retried_example :
    IsRestored (run online (loss ++ attempts (7 ∷ 8 ∷ []) 9)).0
    × ((es : List Effect) × ((run online (loss ++ attempts (7 ∷ 8 ∷ []) 9)).1
          ≡ state_changed connected reconnecting ∷ now_disconnected ∷ es)
        × IsRetried 2 0 es)
loss-Retried_example =
    loss-Retried online 0 (7 ∷ 8 ∷ []) 9 online-IsReady online-After
      (omega arith, (omega arith, tt)) (omega arith)
