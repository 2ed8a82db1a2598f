-- ===== src/Zone.antt =====
-- Zones: the zone types of mash-go/pkg/cert/types.go and the record of mash-go/pkg/zone/zone.go.
-- A time.Time is a number of nanoseconds whose 0 is the zero time, and a time.Duration is one too.
pub mod Value
pub mod Manager
use mash.Base.{ℕ, Bool, false, String}

-- `type ZoneType uint8`: a request may carry any byte.
abbrev pub ZoneType : Type 0
ZoneType = ℕ

abbrev pub zone_type_grid : ZoneType
zone_type_grid = 1

abbrev pub zone_type_local : ZoneType
zone_type_local = 2

abbrev pub zone_type_test : ZoneType
zone_type_test = 3

-- 1 is the highest priority.
unfoldable pub priority : ZoneType → ℕ
priority zt = zt

abbrev pub max_zones : ℕ
max_zones = 3

pub record Zone : Type 0 where
  pub id : String
  pub zone_type : ZoneType
  pub connected : Bool
  pub last_seen : ℕ
  pub commissioned_at : ℕ
