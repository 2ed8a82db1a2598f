-- ===== src/Zone/Value.antt =====
-- mash-go/pkg/zone/zone.go: the values that zones set for one attribute, and their resolution.
-- `now` is what time.Now() returns during the call. A method that changes the receiver returns it.
pub mod Expiry
pub mod Limits
pub mod Order
pub mod Setpoints
mod Tests
use mash.Base.{
  ℕ, ◌+◌, Bool, true, false, not, ◌&&◌, Option, none, some, List, [], ◌∷◌, String, ltb, ◌==◌,
  if◌then◌else◌,
}
use mash.Base.Int.{ℤ, ltb_ℤ, is_neg}
use mash.Base.GoMap.{GoMap, string_key, lookup, insert, delete}
use mash.Zone.{ZoneType, zone_type_test, priority}

pub record ZoneValue : Type 0 where
  pub zone_id : String
  pub zone_type : ZoneType
  pub value : ℤ
  pub duration : ℕ
  pub set_at : ℕ
  pub expires_at : ℕ

unfoldable pub is_expired : ℕ → ZoneValue → Bool
is_expired now v = if v.expires_at == 0 then false else ltb v.expires_at now

pub record MultiZoneValue : Type 0 where
  pub values : GoMap String ZoneValue
  pub effective_value : Option ℤ
  pub winning_zone_id : String

unfoldable pub new : MultiZoneValue
new = record { values = []; effective_value = none; winning_zone_id = "" }

unfoldable pub new_value : String → ZoneType → ℤ → ℕ → ℕ → ZoneValue
new_value zone_id zone_type value duration now = record {
  zone_id = zone_id;
  zone_type = zone_type;
  value = value;
  duration = duration;
  set_at = now;
  expires_at = if ltb 0 duration then now + duration else 0;
}

unfoldable pub set : MultiZoneValue → String → ZoneType → ℤ → ℕ → ℕ → MultiZoneValue
unfolding new_value
set m zone_id zone_type value duration now = record m {
  values = insert zone_id (new_value zone_id zone_type value duration now) m.values;
}

unfoldable pub clear : MultiZoneValue → String → MultiZoneValue
clear m zone_id = record m { values = delete zone_id m.values }

unfoldable pub get : MultiZoneValue → String → Option ZoneValue
get m zone_id = lookup zone_id m.values

-- The loop of RemoveExpired: the entries still to visit, and the map as it stands.
unfoldable pub remove_expired_loop :
    ℕ → GoMap String ZoneValue → GoMap String ZoneValue → GoMap String ZoneValue
remove_expired_loop now [] m = m
remove_expired_loop now ((zone_id, v) ∷ todo) m =
    remove_expired_loop now todo (if is_expired now v then delete zone_id m else m)

unfoldable pub remove_expired : MultiZoneValue → ℕ → MultiZoneValue
unfolding remove_expired_loop
remove_expired m now = record m { values = remove_expired_loop now m.values m.values }

-- The loop variables `effectiveValue` and `winningZoneID`.
abbrev pub Winner : Type 0
Winner = Option ℤ × String

-- One round of the loop of ResolveLimits once a value has been seen.
unfoldable pub more_restrictive : ℤ → ℤ → Bool
more_restrictive v eff =
    if not (is_neg v) && not (is_neg eff)
    then ltb_ℤ v eff
    else if is_neg v && is_neg eff
    then ltb_ℤ eff v
    else not (is_neg v) && is_neg eff

unfoldable pub limit_round : String → ZoneValue → Winner → Winner
unfolding more_restrictive
limit_round zone_id v (none, winner) =
    if v.zone_type == zone_type_test then (none, winner) else (some v.value, zone_id)
limit_round zone_id v (some eff, winner) =
    if v.zone_type == zone_type_test
    then (some eff, winner)
    else if more_restrictive v.value eff
    then (some v.value, zone_id)
    else (some eff, winner)

unfoldable pub limit_loop : GoMap String ZoneValue → Winner → Winner
limit_loop [] w = w
limit_loop ((zone_id, v) ∷ rest) w = limit_loop rest (limit_round zone_id v w)

unfoldable pub store : MultiZoneValue → Winner → MultiZoneValue × Winner
store m (eff, winner) =
    (record m { effective_value = eff; winning_zone_id = winner }, (eff, winner))

-- On an empty map the loop leaves `nil` and `""`, which are what the early return stores.
unfoldable pub resolve_limits_live :
    MultiZoneValue → GoMap String ZoneValue → MultiZoneValue × Winner
unfolding store limit_loop
resolve_limits_live m [] = store m (none, "")
resolve_limits_live m (e ∷ es) = store m (limit_loop (e ∷ es) (none, ""))

unfoldable pub resolve_limits : MultiZoneValue → ℕ → MultiZoneValue × Winner
unfolding resolve_limits_live remove_expired
resolve_limits m now = let live = remove_expired m now in resolve_limits_live live live.values

-- The loop of ResolveSetpoints carries the priority of its winner too.
pub record Leader : Type 0 where
  pub effective : Option ℤ
  pub zone_id : String
  pub priority : ℕ

unfoldable pub setpoint_round : String → ZoneValue → Leader → Leader
unfolding priority
setpoint_round zone_id v l =
    if v.zone_type == zone_type_test
    then l
    else if ltb (priority v.zone_type) l.priority
    then record { effective = some v.value; zone_id = zone_id; priority = priority v.zone_type }
    else l

unfoldable pub setpoint_loop : GoMap String ZoneValue → Leader → Leader
setpoint_loop [] l = l
setpoint_loop ((zone_id, v) ∷ rest) l = setpoint_loop rest (setpoint_round zone_id v l)

abbrev pub no_leader : Leader
no_leader = record { effective = none; zone_id = ""; priority = 255 }

unfoldable pub resolve_setpoints_live :
    MultiZoneValue → GoMap String ZoneValue → MultiZoneValue × Winner
unfolding store setpoint_loop
resolve_setpoints_live m [] = store m (none, "")
resolve_setpoints_live m (e ∷ es) =
    let l = setpoint_loop (e ∷ es) no_leader in store m (l.effective, l.zone_id)

unfoldable pub resolve_setpoints : MultiZoneValue → ℕ → MultiZoneValue × Winner
unfolding resolve_setpoints_live remove_expired
resolve_setpoints m now = let live = remove_expired m now in resolve_setpoints_live live live.values

unfoldable pub effective : MultiZoneValue → Winner
effective m = (m.effective_value, m.winning_zone_id)
