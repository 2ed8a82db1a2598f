-- ===== src/Window.antt =====
-- mash-go/pkg/pase/window.go: the commissioning window, in which a device takes part in one PASE
-- exchange at a time. The Go runtime is part of the state: `pending` holds the deadlines of the
-- time.AfterFunc calls that have not fired and were not stopped. The sessions' ids are times that the
-- standard library formats.
pub mod Invariant
pub mod Steps
pub mod Sessions
pub mod Deadline
mod Tests
use mash.Base.{
  ℕ, suc, ◌+◌, ◌-◌, ◌*◌, Bool, true, false, ◌&&◌, ◌||◌, Option, none, some, List, [], ◌∷◌, ◌++◌,
  String, String-discrete, ite, ltb, ◌==◌, if◌then◌else◌,
}
use mash.Base.GoMap.{GoMap, nat_key, lookup, insert, delete}

abbrev second : ℕ
second = 1000000000

abbrev pub default_window_timeout : ℕ
default_window_timeout = 15 * 60 * second

abbrev pub min_window_timeout : ℕ
min_window_timeout = 3 * 60 * second

abbrev pub max_window_timeout : ℕ
max_window_timeout = 3 * 3600 * second

pub data WindowState : Type 0 where
  window_closed window_open window_pase_in_progress : WindowState

abbrev pub is_closed : WindowState → Bool
is_closed window_closed = true
is_closed _ = false

abbrev pub is_busy : WindowState → Bool
is_busy window_pase_in_progress = true
is_busy _ = false

-- `errors.New("invalid session ID")` is the last one.
pub data WindowError : Type 0 where
  closed_error busy_error not_in_pase invalid_timeout invalid_session : WindowError

pub data OpenTrigger : Type 0 where
  trigger_button trigger_command trigger_factory_reset : OpenTrigger

pub data Callback : Type 0 where
  state_change : WindowState → WindowState → Callback
  timed_out : Callback

pub record Window : Type 0 where
  pub state : WindowState
  pub timeout : ℕ
  pub timer : Option ℕ
  pub opened_at : ℕ
  pub open_trigger : OpenTrigger
  pub session_id : String
  pub on_state_change : Bool
  pub on_timeout : Bool
  pub pending : GoMap ℕ ℕ
  pub next : ℕ

unfoldable pub new : Window
new = record {
  state = window_closed;
  timeout = default_window_timeout;
  timer = none;
  opened_at = 0;
  open_trigger = trigger_button;
  session_id = "";
  on_state_change = false;
  on_timeout = false;
  pending = [];
  next = 0;
}

-- `-` stops at 0, as the test for a negative remainder makes it.
unfoldable pub remaining_time : Window → ℕ → ℕ
remaining_time w now = if is_closed w.state then 0 else w.timeout - (now - w.opened_at)

unfoldable pub set_timeout : Window → ℕ → Window × Option WindowError
set_timeout w d =
    if ltb d min_window_timeout || ltb max_window_timeout d
    then (w, some invalid_timeout)
    else (record w { timeout = d }, none)

abbrev pub changed : Window → WindowState → WindowState → List Callback
changed w old new = if w.on_state_change then state_change old new ∷ [] else []

-- `timer.Stop()` on a timer that may be nil.
abbrev pub stop_call : Option ℕ → GoMap ℕ ℕ → GoMap ℕ ℕ
stop_call none p = p
stop_call (some h) p = delete h p

unfoldable pub stop_timer : Window → Window
stop_timer w = record w { timer = none; pending = stop_call w.timer w.pending }

-- time.AfterFunc of the timeout.
unfoldable pub arm : Window → ℕ → Window
arm w now = record w {
  timer = some w.next;
  pending = insert w.next (now + w.timeout) w.pending;
  next = suc w.next;
}

unfoldable pub reset_timer : Window → ℕ → Window
unfolding stop_timer arm
reset_timer w now = arm (record (stop_timer w) { opened_at = now }) now

unfoldable pub open_window : Window → OpenTrigger → ℕ → Window × List Callback
unfolding reset_timer arm
open_window w trigger now =
    if is_closed w.state
    then (
      arm
          (record w {
            state = window_open;
            opened_at = now;
            open_trigger = trigger;
            session_id = "";
          })
          now,
      changed w w.state window_open,
    )
    else (reset_timer w now, [])

unfoldable pub close : Window → Window × List Callback
unfolding stop_timer
close w = if is_closed w.state then (w, []) else (
  record (stop_timer w) { state = window_closed; session_id = "" },
  changed w w.state window_closed,
)

-- `format` is the format of a time in generateSessionID.
unfoldable pub begin_pase :
    (ℕ → String) → Window → ℕ → Window × (Option String × Option WindowError) × List Callback
begin_pase format w now =
    if is_closed w.state
    then (w, (none, some closed_error), [])
    else if is_busy w.state
    then (w, (none, some busy_error), [])
    else (
      record w { state = window_pase_in_progress; session_id = format now },
      (some (format now), none),
      changed w w.state window_pase_in_progress,
    )

-- The window after a session that has ended.
unfoldable pub ended : Window → Bool → ℕ → Window
unfolding remaining_time stop_timer
ended w success now =
    if success
    then record (stop_timer w) { state = window_closed; session_id = "" }
    else if ltb 0 (remaining_time w now)
    then record w { state = window_open; session_id = "" }
    else record (stop_timer w) { state = window_closed; session_id = "" }

unfoldable pub end_pase : Window → String → Bool → ℕ → Window × Option WindowError × List Callback
unfolding ended
end_pase w session success now =
    if is_busy w.state
    then ite (String-discrete w.session_id session)
        (ended w success now, none, changed w w.state (ended w success now).state)
        (w, some invalid_session, [])
    else (w, some not_in_pase, [])

unfoldable pub handle_timeout : Window → Window × List Callback
handle_timeout w = if is_closed w.state then (w, []) else (
  record w { state = window_closed; session_id = ""; timer = none },
  changed w w.state window_closed ++ (if w.on_timeout then timed_out ∷ [] else []),
)

-- The runtime makes the call with this handle, at or after its deadline.
unfoldable pub fire : Window → ℕ → ℕ → Window × List Callback
unfolding handle_timeout
fire w handle now = elim (lookup handle w.pending) [
  | none ↦ (w, [])
  | some deadline ↦
      if ltb now deadline
      then (w, [])
      else handle_timeout (record w { pending = delete handle w.pending })
]

-- OnStateChange and OnTimeout; `false` is a nil function.
unfoldable pub set_on_state_change : Window → Bool → Window
set_on_state_change w f = record w { on_state_change = f }

unfoldable pub set_on_timeout : Window → Bool → Window
set_on_timeout w f = record w { on_timeout = f }
