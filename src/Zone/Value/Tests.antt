-- ===== src/Zone/Value/Tests.antt =====
-- Limits and setpoints of three zones (mash-go/pkg/zone/zone.go).
use mathlib.Core.List.{Memᴰ}
use mash.Base.{
  string_ne, ℕ, ◌≡◌, refl, ◌≢◌, none, some, [], ◌∷◌, String, arith, String-discrete, Bool-cases,
}
use mash.Base.Int.{pos, negsuc}
use mash.Base.GoMap.{string_key, insert, delete}
use mash.Zone.{zone_type_grid, zone_type_local}
use mash.Zone.Value.{
  ZoneValue, MultiZoneValue, new, set, new_value, resolve_limits, resolve_setpoints, remove_expired,
  limit_round, setpoint_round, is_expired,
}
use mash.Zone.Value.Expiry.{live}
use mash.Zone.Value.Limits.{Strictest, resolve_limits-Strictest}
use mash.Zone.Value.Order.{SameEntries, resolve_limits_order}
use mash.Zone.Value.Setpoints.{Foremost, resolve_setpoints-Foremost}

abbrev value_of : String → ℕ → ℕ → ZoneValue
value_of id zt v = record {
  zone_id = id;
  zone_type = zt;
  value = pos v;
  duration = 0;
  set_at = 1;
  expires_at = 0;
}

abbrev both : MultiZoneValue
both = record {
  values =
      ("grid", value_of "grid" zone_type_grid 5000)
      ∷ ("ems", value_of "ems" zone_type_local 3000)
      ∷ [];
  effective_value = none;
  winning_zone_id = "";
}

abbrev turned : MultiZoneValue
turned = record {
  values =
      ("ems", value_of "ems" zone_type_local 3000)
      ∷ ("grid", value_of "grid" zone_type_grid 5000)
      ∷ [];
  effective_value = none;
  winning_zone_id = "";
}

strictest_wins : (resolve_limits both 10).1 ≡ (some (pos 3000), "ems")
unfolding resolve_limits remove_expired limit_round is_expired String-discrete Bool-cases
strictest_wins = refl

grid_first : (resolve_setpoints both 10).1 ≡ (some (pos 5000), "grid")
unfolding resolve_setpoints remove_expired setpoint_round is_expired String-discrete Bool-cases
grid_first = refl

-- A consumption limit comes before a production limit, and an expired one does not count.
expired_gone :
    (resolve_limits
      (set (set new "ems" zone_type_local (pos 10) 5 100) "grid" zone_type_grid (negsuc 4) 0 100)
      200).1
    ≡ (some (negsuc 4), "grid")
unfolding resolve_limits remove_expired limit_round is_expired set new new_value insert delete
    String-discrete Bool-cases
expired_gone = refl

ems-ne-grid : ◌≢◌ {A = String} "ems" "grid"
ems-ne-grid = string_ne "ems" "grid" refl

resolve_limits-Strictest_example : Strictest (live 10 both.values) (resolve_limits both 10).1
resolve_limits-Strictest_example = resolve_limits-Strictest both 10 ((ems-ne-grid, tt), (tt, tt))

both_turned : SameEntries both.values turned.values
both_turned e = (there, back)
  where
    there : Memᴰ e both.values → Memᴰ e turned.values
    there (Memᴰ.head q) = Memᴰ.tail (Memᴰ.head q)
    there (Memᴰ.tail (Memᴰ.head q)) = Memᴰ.head q
    there (Memᴰ.tail (Memᴰ.tail m)) = elim m [ ]

    back : Memᴰ e turned.values → Memᴰ e both.values
    back (Memᴰ.head q) = Memᴰ.tail (Memᴰ.head q)
    back (Memᴰ.tail (Memᴰ.head q)) = Memᴰ.head q
    back (Memᴰ.tail (Memᴰ.tail m)) = elim m [ ]

resolve_limits_order_example : (resolve_limits both 10).1.0 ≡ (resolve_limits turned 10).1.0
resolve_limits_order_example =
    resolve_limits_order both turned 10 ((ems-ne-grid, tt), (tt, tt))
      ((string_ne "grid" "ems" refl, tt), (tt, tt)) both_turned

resolve_setpoints-Foremost_example : Foremost (live 10 both.values) (resolve_setpoints both 10).1
resolve_setpoints-Foremost_example =
    resolve_setpoints-Foremost both 10 ((ems-ne-grid, tt), (tt, tt)) (omega arith)
