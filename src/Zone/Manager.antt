-- ===== src/Zone/Manager.antt =====
-- mash-go/pkg/zone/manager.go: the zones that a device belongs to. Each method that takes the write
-- lock is one step on the state. It returns the manager, its error and the callbacks that it makes.
pub mod Invariant
pub mod Outcomes
pub mod Priority
mod Tests
use mash.Base.{
  ℕ, ◌+◌, Bool, true, false, ◌&&◌, ◌||◌, Option, none, some, List, [], ◌∷◌, map, String, ltb, leb,
  ◌==◌, length, is_some, if◌then◌else◌,
}
use mash.Base.GoMap.{GoMap, string_key, lookup, insert, delete}
use mash.Zone.{Zone, ZoneType, max_zones, priority}

pub data ZoneError : Type 0 where
  zone_not_found zone_exists zone_type_exists max_zones_exceeded zone_not_connected : ZoneError

pub data Callback : Type 0 where
  zone_added : Zone → Callback
  zone_removed connected disconnected : String → Callback

-- Of a callback the manager knows whether one is set.
pub record Manager : Type 0 where
  pub zones : GoMap String Zone
  pub on_zone_added : Bool
  pub on_zone_removed : Bool
  pub on_connect : Bool
  pub on_disconnect : Bool

unfoldable pub new : Manager
new = record {
  zones = [];
  on_zone_added = false;
  on_zone_removed = false;
  on_connect = false;
  on_disconnect = false;
}

abbrev pub Outcome : Type 0
Outcome = Manager × Option ZoneError × List Callback

abbrev fail : Manager → ZoneError → Outcome
fail m e = (m, some e, [])

abbrev call : Bool → Callback → List Callback
call set c = if set then c ∷ [] else []

-- The loop of AddZone over the zones.
unfoldable pub has_type : ZoneType → GoMap String Zone → Bool
has_type zt [] = false
has_type zt ((id, z) ∷ zs) = z.zone_type == zt || has_type zt zs

abbrev pub new_zone : String → ZoneType → ℕ → Zone
new_zone id zt now = record {
  id = id;
  zone_type = zt;
  connected = false;
  last_seen = 0;
  commissioned_at = now;
}

unfoldable pub add_zone : Manager → String → ZoneType → ℕ → Outcome
add_zone m id zt now =
    if is_some (lookup id m.zones)
    then fail m zone_exists
    else if has_type zt m.zones
    then fail m zone_type_exists
    else if leb max_zones (length m.zones)
    then fail m max_zones_exceeded
    else (
      record m { zones = insert id (new_zone id zt now) m.zones },
      none,
      call m.on_zone_added (zone_added (new_zone id zt now)),
    )

unfoldable pub remove_zone : Manager → String → Outcome
remove_zone m id =
    if is_some (lookup id m.zones)
    then (record m { zones = delete id m.zones }, none, call m.on_zone_removed (zone_removed id))
    else fail m zone_not_found

unfoldable pub get_zone : Manager → String → Option Zone
get_zone m id = lookup id m.zones

unfoldable pub has_zone : Manager → String → Bool
has_zone m id = is_some (lookup id m.zones)

unfoldable pub list_zones : Manager → List String
list_zones m = map (λ e. e.0) m.zones

unfoldable pub zone_count : Manager → ℕ
zone_count m = length m.zones

unfoldable pub all_zones : Manager → List Zone
all_zones m = map (λ e. e.1) m.zones

-- The three methods below write through the pointer that the map holds.
unfoldable pub set_connected : Manager → String → ℕ → Outcome
set_connected m id now = elim (lookup id m.zones) [
  | none ↦ fail m zone_not_found
  | some z ↦ (
    record m { zones = insert id (record z { connected = true; last_seen = now }) m.zones },
    none,
    call m.on_connect (connected id),
  )
]

unfoldable pub set_disconnected : Manager → String → Outcome
set_disconnected m id = elim (lookup id m.zones) [
  | none ↦ fail m zone_not_found
  | some z ↦ (
    record m { zones = insert id (record z { connected = false }) m.zones },
    none,
    call m.on_disconnect (disconnected id),
  )
]

unfoldable pub update_last_seen : Manager → String → ℕ → Outcome
update_last_seen m id now = elim (lookup id m.zones) [
  | none ↦ fail m zone_not_found
  | some z ↦ (record m { zones = insert id (record z { last_seen = now }) m.zones }, none, [])
]

connected_loop : GoMap String Zone → List String
connected_loop [] = []
connected_loop ((id, z) ∷ zs) = if z.connected then id ∷ connected_loop zs else connected_loop zs

unfoldable pub connected_zones : Manager → List String
unfolding connected_loop
connected_zones m = connected_loop m.zones

-- A round of the loops below: `highest == nil || zone.Priority() < highest.Priority()`.
unfoldable pub better : Zone → Option Zone → Option Zone
unfolding priority
better z none = some z
better z (some h) = if ltb (priority z.zone_type) (priority h.zone_type) then some z else some h

unfoldable pub highest_loop : GoMap String Zone → Option Zone → Option Zone
highest_loop [] h = h
highest_loop ((id, z) ∷ zs) h = highest_loop zs (better z h)

unfoldable pub highest_priority_zone : Manager → Option Zone
unfolding highest_loop
highest_priority_zone m = highest_loop m.zones none

unfoldable pub highest_connected_loop : GoMap String Zone → Option Zone → Option Zone
highest_connected_loop [] h = h
highest_connected_loop ((id, z) ∷ zs) h =
    highest_connected_loop zs (if z.connected then better z h else h)

unfoldable pub highest_priority_connected_zone : Manager → Option Zone
unfolding highest_connected_loop
highest_priority_connected_zone m = highest_connected_loop m.zones none

-- OnZoneAdded, OnZoneRemoved, OnConnect and OnDisconnect; `false` is a nil function.
unfoldable pub set_on_zone_added : Manager → Bool → Manager
set_on_zone_added m f = record m { on_zone_added = f }

unfoldable pub set_on_zone_removed : Manager → Bool → Manager
set_on_zone_removed m f = record m { on_zone_removed = f }

unfoldable pub set_on_connect : Manager → Bool → Manager
set_on_connect m f = record m { on_connect = f }

unfoldable pub set_on_disconnect : Manager → Bool → Manager
set_on_disconnect m f = record m { on_disconnect = f }

unfoldable pub can_remove_zone : Manager → ZoneType → String → Bool
unfolding priority
can_remove_zone m requester target = elim (lookup target m.zones) [
  | none ↦ false
  | some z ↦ ltb (priority requester) (priority z.zone_type)
]

-- The calls that change the zones.
pub data Request : Type 0 where
  adds : String → ZoneType → ℕ → Request
  removes : String → Request
  connects : String → ℕ → Request
  disconnects : String → Request
  sees : String → ℕ → Request

unfoldable pub step : Manager → Request → Manager
step m (adds id zt now) = (add_zone m id zt now).0
step m (removes id) = (remove_zone m id).0
step m (connects id now) = (set_connected m id now).0
step m (disconnects id) = (set_disconnected m id).0
step m (sees id now) = (update_last_seen m id now).0

unfoldable pub run : Manager → List Request → Manager
run m [] = m
run m (r ∷ rs) = run (step m r) rs
