-- ===== src/Failsafe.antt =====
-- mash-go/pkg/failsafe/timer.go: the timer that puts a device into failsafe mode when it has lost its
-- zones. The Go runtime is part of the state: `pending` holds the time.AfterFunc calls that have not
-- fired and were not stopped. Durations are nanoseconds and not negative.
pub mod Operations
pub mod Snapshot
pub mod Invariant
pub mod Steps
pub mod Deadline
mod Tests
use mash.Base.{
  ℕ, suc, ◌+◌, ◌-◌, ◌*◌, ◌/◌, Bool, true, false, not, ◌&&◌, ◌||◌, Option, none, some, List, [], ◌∷◌,
  ◌++◌, ltb, ◌==◌, if◌then◌else◌,
}
use mash.Base.Int.{ℤ, pos}
use mash.Base.GoMap.{GoMap, nat_key, lookup, insert, delete}

abbrev pub second : ℕ
second = 1000000000

abbrev pub min_duration : ℕ
min_duration = 2 * 3600 * second

abbrev pub max_duration : ℕ
max_duration = 24 * 3600 * second

abbrev pub default_duration : ℕ
default_duration = 4 * 3600 * second

abbrev pub default_grace_period : ℕ
default_grace_period = 5 * 60 * second

abbrev pub accuracy_percent : ℕ
accuracy_percent = 1

abbrev pub accuracy_absolute : ℕ
accuracy_absolute = 60 * second

pub data TimerError : Type 0 where
  invalid_duration timer_not_running nil_snapshot : TimerError

pub data State : Type 0 where
  normal timer_running failsafe grace_period : State

abbrev pub is_normal : State → Bool
is_normal normal = true
is_normal _ = false

abbrev pub is_running : State → Bool
is_running timer_running = true
is_running _ = false

abbrev pub is_in_failsafe : State → Bool
is_in_failsafe failsafe = true
is_in_failsafe _ = false

abbrev pub is_grace : State → Bool
is_grace grace_period = true
is_grace _ = false

pub record Limits : Type 0 where
  pub consumption_limit : ℤ
  pub production_limit : ℤ
  pub has_consumption_limit : Bool
  pub has_production_limit : Bool

abbrev pub no_limits : Limits
no_limits = record {
  consumption_limit = pos 0;
  production_limit = pos 0;
  has_consumption_limit = false;
  has_production_limit = false;
}

-- The two functions that the timer hands to time.AfterFunc.
pub data Action : Type 0 where
  enters exits : Action

pub record Call : Type 0 where
  pub action : Action
  pub deadline : ℕ

pub data Callback : Type 0 where
  state_change : State → State → Callback
  failsafe_enter : Limits → Callback
  failsafe_exit : Callback

pub record Timer : Type 0 where
  pub state : State
  pub duration : ℕ
  pub grace : ℕ
  pub limits : Limits
  pub failsafe_timer : Option ℕ
  pub grace_period_timer : Option ℕ
  pub started_at : ℕ
  pub persist_enabled : Bool
  pub on_state_change : Bool
  pub on_failsafe_enter : Bool
  pub on_failsafe_exit : Bool
  pub pending : GoMap ℕ Call
  pub next : ℕ

abbrev fresh : ℕ → ℕ → Limits → Bool → Timer
fresh duration grace limits persist = record {
  state = normal;
  duration = duration;
  grace = grace;
  limits = limits;
  failsafe_timer = none;
  grace_period_timer = none;
  started_at = 0;
  persist_enabled = persist;
  on_state_change = false;
  on_failsafe_enter = false;
  on_failsafe_exit = false;
  pending = [];
  next = 0;
}

unfoldable pub new_timer : Timer
new_timer = fresh default_duration default_grace_period no_limits false

pub record Config : Type 0 where
  pub duration : ℕ
  pub grace_period : ℕ
  pub limits : Limits
  pub persist_enabled : Bool

abbrev pub out_of_range : ℕ → Bool
out_of_range d = ltb d min_duration || ltb max_duration d

abbrev or_default : ℕ → ℕ → ℕ
or_default d default = if d == 0 then default else d

unfoldable pub new_timer_with_config : Config → Option Timer
new_timer_with_config cfg =
    if not (cfg.duration == 0) && out_of_range cfg.duration
    then none
    else some (
        fresh (or_default cfg.duration default_duration)
          (or_default cfg.grace_period default_grace_period) cfg.limits cfg.persist_enabled)

unfoldable pub new_test_timer : ℕ → ℕ → Limits → Timer
new_test_timer duration grace limits = fresh (or_default duration (second / 10)) grace limits false

unfoldable pub set_duration : Timer → ℕ → Timer × Option TimerError
set_duration t d =
    if out_of_range d then (t, some invalid_duration) else (record t { duration = d }, none)

unfoldable pub set_limits : Timer → Limits → Timer
set_limits t l = record t { limits = l }

-- OnStateChange, OnFailsafeEnter and OnFailsafeExit; `false` is a nil function.
unfoldable pub set_on_state_change : Timer → Bool → Timer
set_on_state_change t f = record t { on_state_change = f }

unfoldable pub set_on_failsafe_enter : Timer → Bool → Timer
set_on_failsafe_enter t f = record t { on_failsafe_enter = f }

unfoldable pub set_on_failsafe_exit : Timer → Bool → Timer
set_on_failsafe_exit t f = record t { on_failsafe_exit = f }
