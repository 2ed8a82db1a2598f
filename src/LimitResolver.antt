-- ===== src/LimitResolver.antt =====
-- mash-go/pkg/features/limit_resolver.go: the limits that zones set on a device and the effective
-- limit among them. Every method holds the lock, so it is one step at the time `now`.
pub mod SetLimit
pub mod Clearing
pub mod Applied
pub mod Branches
pub mod Stored
pub mod Refusals
pub mod Effects
pub mod Bounds
pub mod Timers
pub mod Reset
mod Tests
use mathlib.Core.Option.{map as option_map}
use mash.Base.{
  ℕ, ◌+◌, ◌*◌, ◌%◌, Bool, true, false, not, ◌&&◌, ◌||◌, Option, none, some, List, [], ◌∷◌, ◌++◌,
  map, String, String-discrete, ite, ltb, is_some, if◌then◌else◌,
}
use mash.Base.Int.{ℤ, pos, ltb_ℤ, is_neg}
use mash.Base.GoMap.{GoMap, string_key, nat_key, lookup, insert}
use mash.Zone.{ZoneType}
use mash.Zone.Value.{MultiZoneValue}
use mash.Zone.Value
use mash.Duration.{
  Manager, TimerKey, CommandType, limit_consumption, limit_production, second, set_timer,
  cancel_timer, cancel_zone_timers,
}
use mash.Duration
use mash.EnergyControl.{
  EnergyControl, ControlState, autonomous, controlled, Direction, consumption, production,
  bidirectional, RejectReason, invalid_value, device_override, SetLimitRequest, SetLimitResponse,
  ClearLimitRequest, Caller, is_override, set_effective_consumption_limit_ptr,
  set_effective_production_limit_ptr, set_control_state,
}

pub data MyAttribute : Type 0 where
  my_consumption_limit my_production_limit : MyAttribute

-- OnZoneMyChange(zoneID, changes); `none` is the value nil.
pub record Change : Type 0 where
  pub zone_id : String
  pub changes : List (MyAttribute × Option ℤ)

pub record LimitResolver : Type 0 where
  pub ec : EnergyControl
  pub consumption_limits : MultiZoneValue
  pub production_limits : MultiZoneValue
  pub timers : Manager ℤ
  pub zone_index_map : GoMap String ℕ
  pub index_zone_map : GoMap ℕ String
  pub next_index : ℕ
  pub max_consumption : ℤ
  pub max_production : ℤ
  pub on_zone_my_change : Bool

unfoldable pub new : EnergyControl → LimitResolver
unfolding Value.new Duration.new Duration.set_on_expiry
new ec = record {
  ec = ec;
  consumption_limits = Value.new;
  production_limits = Value.new;
  timers = Duration.set_on_expiry Duration.new true;
  zone_index_map = [];
  index_zone_map = [];
  next_index = 0;
  max_consumption = pos 0;
  max_production = pos 0;
  on_zone_my_change = false;
}

abbrev notify : LimitResolver → String → List (MyAttribute × Option ℤ) → List Change
notify r zone_id changes =
    if r.on_zone_my_change then record { zone_id = zone_id; changes = changes } ∷ [] else []

abbrev both_cleared : List (MyAttribute × Option ℤ)
both_cleared = (my_consumption_limit, none) ∷ (my_production_limit, none) ∷ []

-- The read hook: none is `nil, false`, where the caller reads the stored attribute instead.
unfoldable pub read_hook : LimitResolver → Caller → Option MyAttribute → Option (Option ℤ)
unfolding Value.get
read_hook r caller none = none
read_hook r caller (some attr) = ite (String-discrete caller.zone_id "") (some none) (
    some (
      option_map (λ v. v.value)
        (Value.get
          (elim attr [
            | my_consumption_limit ↦ r.consumption_limits
            | my_production_limit ↦ r.production_limits
          ])
          caller.zone_id)))

abbrev state_of : Option ℤ → Option ℤ → ControlState
state_of c p = if is_some c || is_some p then controlled else autonomous

abbrev apply : EnergyControl → Option ℤ → Option ℤ → EnergyControl
apply ec c p =
    set_control_state
      (set_effective_production_limit_ptr (set_effective_consumption_limit_ptr ec c) p)
      (state_of c p)

unfoldable pub resolve_and_apply : LimitResolver → ℕ → LimitResolver
unfolding set_control_state set_effective_production_limit_ptr set_effective_consumption_limit_ptr
resolve_and_apply r now =
    let c = Value.resolve_limits r.consumption_limits now in
    let p = Value.resolve_limits r.production_limits now in
    record r { ec = apply r.ec c.1.0 p.1.0; consumption_limits = c.0; production_limits = p.0 }

unfoldable pub clear_timers : LimitResolver → String → LimitResolver
clear_timers r zone_id = elim (lookup zone_id r.zone_index_map) [
  | none ↦ r
  | some idx ↦ record r { timers = cancel_zone_timers r.timers idx }
]

unfoldable pub clear_zone_locked : LimitResolver → String → LimitResolver
unfolding clear_timers Value.clear
clear_zone_locked r zone_id =
    clear_timers
      (record r {
        consumption_limits = Value.clear r.consumption_limits zone_id;
        production_limits = Value.clear r.production_limits zone_id;
      })
      zone_id

-- `nextIndex` is a uint8.
unfoldable pub ensure_zone_index : LimitResolver → String → LimitResolver × ℕ
ensure_zone_index r zone_id = elim (lookup zone_id r.zone_index_map) [
  | some idx ↦ (r, idx)
  | none ↦ (
    record r {
      zone_index_map = insert zone_id r.next_index r.zone_index_map;
      index_zone_map = insert r.next_index zone_id r.index_zone_map;
      next_index = (r.next_index + 1) % 256;
    },
    r.next_index,
  )
]

abbrev timer_at : ℕ → CommandType → TimerKey
timer_at idx cmd = record { zone_id = idx; cmd_type = cmd }

-- The errors of SetTimer and CancelTimer are dropped.
unfoldable pub start_or_cancel : Manager ℤ → TimerKey → ℕ → ℤ → ℕ → Manager ℤ
start_or_cancel m key dur value now =
    if ltb 0 dur then (set_timer m key dur value now).0 else (cancel_timer m key).0

unfoldable pub store_consumption : LimitResolver → Caller → ℕ → ℕ → Option ℤ → ℕ → LimitResolver
unfolding start_or_cancel Value.set
store_consumption r caller idx dur none now = r
store_consumption r caller idx dur (some v) now = record r {
  consumption_limits = Value.set r.consumption_limits caller.zone_id caller.zone_type v dur now;
  timers = start_or_cancel r.timers (timer_at idx limit_consumption) dur v now;
}

unfoldable pub store_production : LimitResolver → Caller → ℕ → ℕ → Option ℤ → ℕ → LimitResolver
unfolding start_or_cancel Value.set
store_production r caller idx dur none now = r
store_production r caller idx dur (some v) now = record r {
  production_limits = Value.set r.production_limits caller.zone_id caller.zone_type v dur now;
  timers = start_or_cancel r.timers (timer_at idx limit_production) dur v now;
}
