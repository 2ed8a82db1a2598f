-- ===== src/LimitResolver/Clearing.antt =====
-- ClearLimit, ClearZone, ResetAll and the expiry of timers (mash-go/pkg/features/limit_resolver.go).
use mash.Base.{
  ℕ, Bool, true, false, Option, none, some, List, [], ◌∷◌, ◌++◌, String, String-discrete, ite,
  if◌then◌else◌,
}
use mash.Base.Int.{ℤ}
use mash.Base.GoMap.{GoMap, string_key, nat_key, lookup}
use mash.Zone.Value
use mash.Duration.{
  Manager, TimerKey, CommandType, limit_consumption, limit_production, cancel_timer,
  cancel_zone_timers, Expiry, fire,
}
use mash.EnergyControl.{
  Direction, consumption, production, bidirectional, ClearLimitRequest, Caller,
}
use mash.LimitResolver.{
  LimitResolver, MyAttribute, my_consumption_limit, my_production_limit, Change, notify,
  both_cleared, resolve_and_apply, clear_zone_locked, timer_at,
}

-- Which directions a ClearLimit names; a bidirectional one names neither branch.
abbrev pub clears_consumption : Option Direction → Bool
clears_consumption none = true
clears_consumption (some consumption) = true
clears_consumption (some _) = false

abbrev pub clears_production : Option Direction → Bool
clears_production none = true
clears_production (some production) = true
clears_production (some _) = false

unfoldable pub cancel_indexed : LimitResolver → String → CommandType → LimitResolver
cancel_indexed r zone_id cmd = elim (lookup zone_id r.zone_index_map) [
  | none ↦ r
  | some idx ↦ record r { timers = (cancel_timer r.timers (timer_at idx cmd)).0 }
]

unfoldable pub clear_consumption : LimitResolver → String → LimitResolver
unfolding Value.clear cancel_indexed
clear_consumption r zone_id =
    cancel_indexed (record r { consumption_limits = Value.clear r.consumption_limits zone_id })
      zone_id limit_consumption

unfoldable pub clear_production : LimitResolver → String → LimitResolver
unfolding Value.clear cancel_indexed
clear_production r zone_id =
    cancel_indexed (record r { production_limits = Value.clear r.production_limits zone_id })
      zone_id limit_production

unfoldable pub clear_directions : LimitResolver → String → Option Direction → LimitResolver
unfolding clear_consumption clear_production
clear_directions r zone_id none = clear_production (clear_consumption r zone_id) zone_id
clear_directions r zone_id (some consumption) = clear_consumption r zone_id
clear_directions r zone_id (some production) = clear_production r zone_id
clear_directions r zone_id (some bidirectional) = r

abbrev clear_changes : Option Direction → List (MyAttribute × Option ℤ)
clear_changes d =
    (if clears_consumption d then (my_consumption_limit, none) ∷ [] else [])
    ++ (if clears_production d then (my_production_limit, none) ∷ [] else [])

-- HandleClearLimit for a caller that is known.
unfoldable pub clear_known :
    LimitResolver → Caller → ClearLimitRequest → ℕ → LimitResolver × List Change
unfolding clear_directions
clear_known r caller req now =
    let r' = resolve_and_apply (clear_directions r caller.zone_id req.direction) now in
    (r', notify r' caller.zone_id (clear_changes req.direction))

unfoldable pub handle_clear_limit :
    LimitResolver → Caller → ClearLimitRequest → ℕ → LimitResolver × List Change
unfolding clear_known
handle_clear_limit r caller req now =
    ite (String-discrete caller.zone_id "") (r, []) (clear_known r caller req now)

-- The loop of ResetAll over the indices of the known zones.
unfoldable pub cancel_all : GoMap String ℕ → Manager ℤ → Manager ℤ
cancel_all [] m = m
cancel_all ((zone_id, idx) ∷ rest) m = cancel_all rest (cancel_zone_timers m idx)

abbrev notify_all : LimitResolver → GoMap String ℕ → List Change
notify_all r [] = []
notify_all r ((zone_id, idx) ∷ rest) = notify r zone_id both_cleared ++ notify_all r rest

unfoldable pub reset_all : LimitResolver → ℕ → LimitResolver × List Change
unfolding cancel_all Value.new
reset_all r now =
    let r' =
      resolve_and_apply
        (record r {
          timers = cancel_all r.zone_index_map r.timers;
          consumption_limits = Value.new;
          production_limits = Value.new;
        })
        now in
    (r', notify_all r' r.zone_index_map)

unfoldable pub clear_zone : LimitResolver → String → ℕ → LimitResolver × List Change
clear_zone r zone_id now =
    let r' = resolve_and_apply (clear_zone_locked r zone_id) now in
    (r', notify r' zone_id both_cleared)

unfoldable pub expire_value : LimitResolver → String → CommandType → LimitResolver
unfolding Value.clear
expire_value r zone_id limit_consumption = record r {
  consumption_limits = Value.clear r.consumption_limits zone_id;
}
expire_value r zone_id limit_production = record r {
  production_limits = Value.clear r.production_limits zone_id;
}
expire_value r zone_id _ = r

abbrev expiry_changes : CommandType → List (MyAttribute × Option ℤ)
expiry_changes limit_consumption = (my_consumption_limit, none) ∷ []
expiry_changes limit_production = (my_production_limit, none) ∷ []
expiry_changes _ = []

unfoldable pub handle_timer_expiry : LimitResolver → TimerKey → ℕ → LimitResolver × List Change
unfolding expire_value
handle_timer_expiry r key now = elim (lookup key.zone_id r.index_zone_map) [
  | none ↦ (r, [])
  | some zone_id ↦
      let r' = resolve_and_apply (expire_value r zone_id key.cmd_type) now in
      (r', notify r' zone_id (expiry_changes key.cmd_type))
]

-- The duration manager calls handleTimerExpiry for what a fired timer reports.
unfoldable pub handle_expiries : LimitResolver → List (Expiry ℤ) → ℕ → LimitResolver × List Change
unfolding handle_timer_expiry
handle_expiries r [] now = (r, [])
handle_expiries r (e ∷ rest) now =
    let (r', cs) = handle_timer_expiry r e.key now in
    let (r'', ds) = handle_expiries r' rest now in (r'', cs ++ ds)

unfoldable pub fire_timer : LimitResolver → ℕ → ℕ → LimitResolver × List Change
unfolding handle_expiries
fire_timer r handle now =
    let (m, es) = fire r.timers handle now in handle_expiries (record r { timers = m }) es now
