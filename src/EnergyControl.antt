-- ===== src/EnergyControl.antt =====
-- The part of the EnergyControl feature that the limit resolver reads and writes
-- (mash-go/pkg/features/energy_control_gen.go, energy_control.go). Its three attributes have no range,
-- so the setters, whose errors the resolver drops, always store the value.
use mash.Base.{ℕ, Bool, true, false, Option, String}
use mash.Base.Int.{ℤ}

pub data ControlState : Type 0 where
  autonomous controlled limited failsafe override : ControlState

pub data Direction : Type 0 where
  consumption production bidirectional : Direction

pub data RejectReason : Type 0 where
  below_minimum above_contractual invalid_value device_override not_supported : RejectReason

pub record EnergyControl : Type 0 where
  pub control_state : ControlState
  pub effective_consumption_limit : Option ℤ
  pub effective_production_limit : Option ℤ

unfoldable pub is_override : EnergyControl → Bool
is_override ec = elim ec.control_state [ override ↦ true | _ ↦ false ]

-- A nil pointer clears the attribute.
unfoldable pub set_effective_consumption_limit_ptr : EnergyControl → Option ℤ → EnergyControl
set_effective_consumption_limit_ptr ec v = record ec { effective_consumption_limit = v }

unfoldable pub set_effective_production_limit_ptr : EnergyControl → Option ℤ → EnergyControl
set_effective_production_limit_ptr ec v = record ec { effective_production_limit = v }

unfoldable pub set_control_state : EnergyControl → ControlState → EnergyControl
set_control_state ec s = record ec { control_state = s }

-- The cause of a request is not read. Durations are in seconds.
pub record SetLimitRequest : Type 0 where
  pub consumption_limit : Option ℤ
  pub production_limit : Option ℤ
  pub duration : Option ℕ

pub record SetLimitResponse : Type 0 where
  pub applied : Bool
  pub control_state : ControlState
  pub effective_consumption_limit : Option ℤ
  pub effective_production_limit : Option ℤ
  pub reject_reason : Option RejectReason

pub record ClearLimitRequest : Type 0 where
  pub direction : Option Direction

-- The caller that mash-go/pkg/zonecontext puts into the context: "" and 0 where it is not set.
pub record Caller : Type 0 where
  pub zone_id : String
  pub zone_type : ℕ
