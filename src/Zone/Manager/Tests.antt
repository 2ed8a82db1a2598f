-- ===== src/Zone/Manager/Tests.antt =====
-- A device that joins and leaves zones (mash-go/pkg/zone/manager.go).
use mash.Base.{◌≡◌, refl, some, [], ◌∷◌, List, String-discrete, Bool-cases}
use mash.Base.GoMap.{insert, lookup}
use mash.Zone.{zone_type_grid, zone_type_local}
use mash.Zone.Manager.{
  Request, adds, connects, new, add_zone, has_type, run, step, zone_type_exists, connected_zones,
  set_connected, zone_count,
}
use mash.Zone.Manager.Invariant.{IsValid, run-new-IsValid}

abbrev joins : List Request
joins =
    adds "ems" zone_type_local 5
    ∷ adds "grid" zone_type_grid 6
    ∷ adds "other" zone_type_grid 7
    ∷ connects "ems" 8
    ∷ []

joined_zones : zone_count (run new joins) ≡ 2
unfolding run step new add_zone has_type insert lookup set_connected zone_count String-discrete
    Bool-cases
joined_zones = refl

joined_connected : connected_zones (run new joins) ≡ "ems" ∷ []
unfolding run step new add_zone has_type insert lookup set_connected connected_zones String-discrete
    Bool-cases
joined_connected = refl

second_grid : (add_zone (run new joins) "third" zone_type_grid 9).1 ≡ some zone_type_exists
unfolding run step new add_zone has_type insert lookup set_connected String-discrete Bool-cases
second_grid = refl

run-new-IsValid_example : IsValid (run new joins)
run-new-IsValid_example = run-new-IsValid joins
