-- ===== src/LimitResolver/SetLimit.antt =====
-- HandleSetLimit (mash-go/pkg/features/limit_resolver.go).
use mash.Base.{
  ℕ, ◌*◌, Bool, true, false, not, ◌&&◌, Option, none, some, List, [], ◌∷◌, ◌++◌, String-discrete,
  ite, ltb, is_some, if◌then◌else◌,
}
use mash.Base.Int.{ℤ, pos, ltb_ℤ, is_neg}
use mash.Base.GoMap.{string_key, nat_key}
use mash.Duration.{second}
use mash.EnergyControl.{
  ControlState, override, RejectReason, invalid_value, device_override, SetLimitRequest,
  SetLimitResponse, Caller, is_override,
}
use mash.LimitResolver.{
  LimitResolver, MyAttribute, my_consumption_limit, my_production_limit, Change, notify,
  both_cleared, resolve_and_apply, clear_zone_locked, ensure_zone_index, store_consumption,
  store_production,
}

-- HandleSetLimit answers, or returns a CommandError with StatusConstraintError.
pub data Reply : Type 0 where
  answer : SetLimitResponse → Reply
  constraint_error : Reply

abbrev pub Outcome : Type 0
Outcome = LimitResolver × Reply × List Change

abbrev pub reject : LimitResolver → RejectReason → ControlState → Outcome
reject r reason state = (
  r,
  answer (record {
    applied = false;
    control_state = state;
    effective_consumption_limit = none;
    effective_production_limit = none;
    reject_reason = some reason;
  }),
  [],
)

abbrev pub negative : Option ℤ → Bool
negative none = false
negative (some v) = is_neg v

abbrev pub exceeds : Option ℤ → ℤ → Bool
exceeds none max = false
exceeds (some v) max = ltb_ℤ (pos 0) max && ltb_ℤ max v

abbrev pub duration_of : Option ℕ → ℕ
duration_of none = 0
duration_of (some d) = if ltb 0 d then d * second else 0

unfoldable pub deactivate : LimitResolver → Caller → ℕ → Outcome
deactivate r caller now =
    let r' = resolve_and_apply (clear_zone_locked r caller.zone_id) now in
    (
      r',
      answer (record {
        applied = true;
        control_state = r'.ec.control_state;
        effective_consumption_limit = none;
        effective_production_limit = none;
        reject_reason = none;
      }),
      notify r' caller.zone_id both_cleared,
    )

abbrev pub set_changes : SetLimitRequest → List (MyAttribute × Option ℤ)
set_changes req =
    (elim req.consumption_limit [ none ↦ [] | some v ↦ (my_consumption_limit, some v) ∷ [] ])
    ++ (elim req.production_limit [ none ↦ [] | some v ↦ (my_production_limit, some v) ∷ [] ])

-- The per-zone values and timers, before they are resolved.
unfoldable pub store_limits : LimitResolver → Caller → SetLimitRequest → ℕ → LimitResolver
store_limits r caller req now =
    let (indexed, idx) = ensure_zone_index r caller.zone_id in
    let dur = duration_of req.duration in
    store_production (store_consumption indexed caller idx dur req.consumption_limit now) caller idx
      dur req.production_limit now

unfoldable pub activate : LimitResolver → Caller → SetLimitRequest → ℕ → Outcome
unfolding store_limits
activate r caller req now =
    let r' = resolve_and_apply (store_limits r caller req now) now in
    (
      r',
      answer (record {
        applied = true;
        control_state = r'.ec.control_state;
        effective_consumption_limit = r'.ec.effective_consumption_limit;
        effective_production_limit = r'.ec.effective_production_limit;
        reject_reason = none;
      }),
      notify r' caller.zone_id (set_changes req),
    )

unfoldable pub handle_set_limit : LimitResolver → Caller → SetLimitRequest → ℕ → Outcome
unfolding is_override
handle_set_limit r caller req now =
    ite (String-discrete caller.zone_id "") (reject r invalid_value r.ec.control_state) (
      if negative req.consumption_limit
      then reject r invalid_value r.ec.control_state
      else if negative req.production_limit
      then reject r invalid_value r.ec.control_state
      else if exceeds req.consumption_limit r.max_consumption
      then (r, constraint_error, [])
      else if exceeds req.production_limit r.max_production
      then (r, constraint_error, [])
      else if is_override r.ec
      then reject r device_override override
      else if not (is_some req.consumption_limit) && not (is_some req.production_limit)
      then deactivate r caller now
      else activate r caller req now)
