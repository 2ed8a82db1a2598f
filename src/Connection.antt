-- ===== src/Connection.antt =====
-- mash-go/pkg/connection/reconnect.go: the manager of a connection. A step is what one goroutine does
-- while it holds the lock, or one call that it makes without it: `threads` holds, for each method that
-- has released the lock, what it still has to do, `callers` counts the Connects in connectFn, and
-- `loop` is where the goroutine of the reconnection loop stands. A callback is tested for nil and called
-- in one step. StartReconnectLoop is called once, as its comment wants.
pub mod Machine
pub mod Backoff
pub mod Closing
pub mod Retrying
mod Tests
use mash.Base.{
  ℕ, zero, suc, ◌+◌, Bool, true, false, Option, none, some, List, [], ◌∷◌, ◌++◌, if◌then◌else◌,
}
pub use mash.Connection.Machine.{
  State, ConnectError, Loop, Effect, Action, Manager, is_connected_state, is_closed_state, callback,
  disconnected, connecting, connected, reconnecting, closed, connection_closed, already_connected,
  not_established, not_started, selecting, checking, advancing, counting, reporting, waiting,
  rechecking, about_to_dial, dialing, announcing_change, announcing_connection, ended, dials,
  state_changed, now_connected, now_disconnected, reconnecting_in, returned, tell_change, tell_loss,
  tell_connected, tell_disconnected, signal, enter, give, cancel,
}
unfoldable pub use mash.Connection.Machine.{
  new_manager, is_connected, set_auto_reconnect, set_on_state_change, set_on_connected,
  set_on_disconnected, set_on_reconnecting, backoff_attempts,
}
use mash.Connection.Backoff.{new_backoff, next, reset}

abbrev pub then_does : Manager → List Action → Manager
then_does m actions = record m { threads = actions ∷ m.threads }

-- The locked part of Connect before connectFn.
unfoldable pub begin_connect : Manager → Manager × List Effect
begin_connect m =
    if is_connected_state m.state
    then (m, returned (some already_connected) ∷ [])
    else if is_closed_state m.state
    then (m, returned (some connection_closed) ∷ [])
    else (
      then_does (record m { state = connecting }) (tell_change m.state connecting ∷ enter ∷ []),
      [],
    )

-- What both ways to connect do after a success.
unfoldable pub established : Manager → Manager
established m = record m { state = connected; backoff = reset m.backoff }

-- The locked part of Connect after connectFn has returned.
unfoldable pub finish_connect : Manager → Bool → Manager × List Effect
unfolding established
finish_connect m true = (
  then_does (established m) (tell_change connecting connected ∷ tell_connected ∷ give none ∷ []),
  [],
)
finish_connect m false = (
  then_does (record m { state = disconnected })
      (tell_change connecting disconnected ∷ give (some not_established) ∷ []),
  [],
)

-- A Connect returns from connectFn, if there is one in it.
unfoldable pub end_connect : ℕ → Manager → Bool → Manager × List Effect
unfolding finish_connect
end_connect zero m ok = (m, [])
end_connect (suc n) m ok = finish_connect (record m { callers = n }) ok

-- triggerReconnect: the channel holds one signal.
unfoldable pub trigger_reconnect : Manager → Manager
trigger_reconnect m = record m { reconnect_ch = true }

-- The locked part of Disconnect and of NotifyConnectionLost.
unfoldable pub lost : Manager → Manager × List Effect
lost m = (
  if m.auto_reconnect
      then then_does (record m { state = reconnecting })
          (tell_loss m.state ∷ tell_disconnected ∷ signal ∷ [])
      else then_does (record m { state = disconnected })
          (tell_loss m.state ∷ tell_disconnected ∷ []),
  [],
)

unfoldable pub disconnect : Manager → Manager × List Effect
unfolding lost
disconnect m = if is_connected_state m.state then lost m else (m, [])

unfoldable pub notify_connection_lost : Manager → Manager × List Effect
unfolding lost
notify_connection_lost m = if is_connected_state m.state then lost m else (m, [])

abbrev started : Loop → Loop
started not_started = selecting
started l = l

unfoldable pub start_reconnect_loop : Manager → Manager
start_reconnect_loop m = record m { loop = started m.loop }

-- The locked part of Close, which at last waits for the loop to end.
unfoldable pub close : Manager → Manager × List Effect
close m =
    if is_closed_state m.state
    then (m, [])
    else (then_does (record m { state = closed }) (tell_change m.state closed ∷ cancel ∷ []), [])

unfoldable pub act : Manager → Option Action → Manager × List Effect
unfolding trigger_reconnect
act m none = (m, [])
act m (some (tell_change old new)) = (m, callback m.on_state_change (state_changed old new))
act m (some (tell_loss old)) = (m, callback m.on_state_change (state_changed old m.state))
act m (some tell_connected) = (m, callback m.on_connected now_connected)
act m (some tell_disconnected) = (m, callback m.on_disconnected now_disconnected)
act m (some signal) = (trigger_reconnect m, [])
act m (some enter) = (record m { callers = m.callers + 1 }, dials ∷ [])
act m (some (give result)) = (m, returned result ∷ [])
act m (some cancel) = (record m { cancelled = true }, [])

-- The next action of a thread, and the threads without it.
unfoldable pub pick : ℕ → List (List Action) → Option Action × List (List Action)
pick i [] = (none, [])
pick zero ([] ∷ ts) = (none, [] ∷ ts)
pick zero ((a ∷ actions) ∷ ts) = (some a, actions ∷ ts)
pick (suc i) (actions ∷ ts) = ((pick i ts).0, actions ∷ (pick i ts).1)

unfoldable pub proceed : Manager → ℕ → Manager × List Effect
unfolding pick act
proceed m i = act (record m { threads = (pick i m.threads).1 }) (pick i m.threads).0

-- What lets the loop go on: the context is done, the next statement or the other case of a select, the
-- random number of a jitter, or the return of connectFn.
pub data Wake : Type 0 where
  ctx_done : Wake
  ready : Wake
  drew : ℕ → Wake
  answered : Bool → Wake

-- The test at the head of attemptReconnect and after its wait.
abbrev pub stops : State → Bool
stops closed = true
stops connected = true
stops _ = false

unfoldable pub dial_ended : Manager → Bool → Manager × List Effect
unfolding established
dial_ended m true = (record (established m) { loop = announcing_change m.state }, [])
dial_ended m false = (record m { loop = checking }, [])

-- reconnectLoop and attemptReconnect.
unfoldable pub loop_step : Loop → Manager → Wake → Manager × List Effect
unfolding dial_ended
loop_step selecting m ctx_done = (if m.cancelled then record m { loop = ended } else m, [])
loop_step selecting m ready =
    (if m.reconnect_ch then record m { reconnect_ch = false; loop = checking } else m, [])
loop_step checking m ready =
    (record m { loop = if stops m.state then selecting else advancing }, [])
loop_step advancing m (drew k) =
    let (b, delay) = next m.backoff k in (record m { backoff = b; loop = counting delay }, [])
loop_step (counting delay) m ready = (record m { loop = reporting m.backoff.attempts delay }, [])
loop_step (reporting attempts delay) m ready =
    (record m { loop = waiting }, callback m.on_reconnecting (reconnecting_in attempts delay))
loop_step waiting m ctx_done = (if m.cancelled then record m { loop = selecting } else m, [])
loop_step waiting m ready = (record m { loop = rechecking }, [])
loop_step rechecking m ready =
    (record m { loop = if stops m.state then selecting else about_to_dial }, [])
loop_step about_to_dial m ready = (record m { loop = dialing }, dials ∷ [])
loop_step dialing m (answered ok) = dial_ended m ok
loop_step (announcing_change old) m ready = (
  record m { loop = announcing_connection },
  callback m.on_state_change (state_changed old connected),
)
loop_step announcing_connection m ready =
    (record m { loop = selecting }, callback m.on_connected now_connected)
loop_step l m w = (m, [])

pub data Event : Type 0 where
  connect_begun : Event
  connect_ended : Bool → Event
  disconnect_called : Event
  connection_lost : Event
  auto_reconnect_set : Bool → Event
  loop_started : Event
  close_called : Event
  proceeds : ℕ → Event
  looped : Wake → Event

unfoldable pub step : Manager → Event → Manager × List Effect
unfolding begin_connect end_connect disconnect notify_connection_lost set_auto_reconnect
    start_reconnect_loop close proceed loop_step
step m connect_begun = begin_connect m
step m (connect_ended ok) = end_connect m.callers m ok
step m disconnect_called = disconnect m
step m connection_lost = notify_connection_lost m
step m (auto_reconnect_set enabled) = (set_auto_reconnect m enabled, [])
step m loop_started = (start_reconnect_loop m, [])
step m close_called = close m
step m (proceeds i) = proceed m i
step m (looped w) = loop_step m.loop m w

-- The effects of a run, in the order of time.
unfoldable pub run : Manager → List Event → Manager × List Effect
unfolding step
run m [] = (m, [])
run m (e ∷ es) = let (m1, now) = step m e in let (m2, later) = run m1 es in (m2, now ++ later)
