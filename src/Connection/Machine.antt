-- ===== src/Connection/Machine.antt =====
-- mash-go/pkg/connection/reconnect.go: the state of the manager of a connection, with the places where
-- its goroutines stand, and the accessors.
use mash.Base.{ℕ, Bool, true, false, Option, List, [], ◌∷◌, if◌then◌else◌}
use mash.Connection.Backoff.{new_backoff, next, reset}

pub data State : Type 0 where
  disconnected : State
  connecting : State
  connected : State
  reconnecting : State
  closed : State

pub data ConnectError : Type 0 where
  connection_closed : ConnectError
  already_connected : ConnectError
  not_established : ConnectError

-- Where the goroutine of reconnectLoop and attemptReconnect stands.
pub data Loop : Type 0 where
  not_started : Loop
  selecting : Loop
  checking : Loop
  advancing : Loop
  counting : ℕ → Loop
  reporting : ℕ → ℕ → Loop
  waiting : Loop
  rechecking : Loop
  about_to_dial : Loop
  dialing : Loop
  announcing_change : State → Loop
  announcing_connection : Loop
  ended : Loop

-- A call of connectFn, the callbacks, and the result of a Connect.
pub data Effect : Type 0 where
  dials : Effect
  state_changed : State → State → Effect
  now_connected : Effect
  now_disconnected : Effect
  reconnecting_in : ℕ → ℕ → Effect
  returned : Option ConnectError → Effect

-- What a method does after it has released the lock: the callbacks, of which tell_loss reads the state
-- again, the signal of triggerReconnect, the call of connectFn, the return and the cancel of the context.
pub data Action : Type 0 where
  tell_change : State → State → Action
  tell_loss : State → Action
  tell_connected : Action
  tell_disconnected : Action
  signal : Action
  enter : Action
  give : Option ConnectError → Action
  cancel : Action

pub record Manager : Type 0 where
  pub state : State
  pub backoff : mash.Connection.Backoff.Backoff
  pub auto_reconnect : Bool
  pub cancelled : Bool
  pub reconnect_ch : Bool
  pub callers : ℕ
  pub threads : List (List Action)
  pub loop : Loop
  pub on_state_change : Bool
  pub on_connected : Bool
  pub on_disconnected : Bool
  pub on_reconnecting : Bool

unfoldable pub new_manager : Manager
new_manager = record {
  state = disconnected;
  backoff = new_backoff;
  auto_reconnect = true;
  cancelled = false;
  reconnect_ch = false;
  callers = 0;
  threads = [];
  loop = not_started;
  on_state_change = false;
  on_connected = false;
  on_disconnected = false;
  on_reconnecting = false;
}

abbrev pub is_connected_state : State → Bool
is_connected_state connected = true
is_connected_state _ = false

abbrev pub is_closed_state : State → Bool
is_closed_state closed = true
is_closed_state _ = false

unfoldable pub is_connected : Manager → Bool
is_connected m = is_connected_state m.state

unfoldable pub set_auto_reconnect : Manager → Bool → Manager
set_auto_reconnect m enabled = record m { auto_reconnect = enabled }

-- The setters of the callbacks, nil for false.
unfoldable pub set_on_state_change : Manager → Bool → Manager
set_on_state_change m cb = record m { on_state_change = cb }

unfoldable pub set_on_connected : Manager → Bool → Manager
set_on_connected m cb = record m { on_connected = cb }

unfoldable pub set_on_disconnected : Manager → Bool → Manager
set_on_disconnected m cb = record m { on_disconnected = cb }

unfoldable pub set_on_reconnecting : Manager → Bool → Manager
set_on_reconnecting m cb = record m { on_reconnecting = cb }

unfoldable pub backoff_attempts : Manager → ℕ
backoff_attempts m = m.backoff.attempts

abbrev pub callback : Bool → Effect → List Effect
callback cb e = if cb then e ∷ [] else []
