-- ===== src/LimitResolver/Bounds.antt =====
-- A SetLimit that is stored (mash-go/pkg/features/limit_resolver.go) takes effect at once.
use mathlib.Core.Option.{some-injective}
use mash.Base.{ℕ, ◌≡◌, ap, ◌∙◌, false, Option, none, some, String, none-ne-some, arith}
use mash.Base.Int.{ℤ}
use mash.Base.GoMap.{GoMap, string_key, nat_key, lookup, lookup-insert_self}
use mash.Zone.Value.{MultiZoneValue, new_value, is_expired}
use mash.Zone.Value
use mash.Zone.Value.Limits.{◌⊑◌}
use mash.EnergyControl.{controlled, Caller, SetLimitRequest}
use mash.LimitResolver.{LimitResolver, store_consumption}
use mash.LimitResolver.SetLimit.{duration_of, store_limits}
use mash.LimitResolver.Stored.{store_production_consumption}

lookup-store_consumption :
    (r : LimitResolver) (c : Caller) (idx dur : ℕ) (o : Option ℤ) (v : ℤ) (now : ℕ)
    → o ≡ some v
    → lookup c.zone_id (store_consumption r c idx dur o now).consumption_limits.values
      ≡ some (new_value c.zone_id c.zone_type v dur now)
unfolding store_consumption Value.set
lookup-store_consumption r c idx dur none v now e = absurd (none-ne-some e)
lookup-store_consumption r c idx dur (some w) v now e =
    lookup-insert_self c.zone_id (new_value c.zone_id c.zone_type w dur now)
      r.consumption_limits.values
    ∙ ap (λ x. some (new_value c.zone_id c.zone_type x dur now)) (some-injective w v e)

-- A value that has just been set has not expired.
pub new_value_fresh :
    (z : String) (zt : ℕ) (v : ℤ) (dur now : ℕ) → is_expired now (new_value z zt v dur now) ≡ false
unfolding is_expired new_value
new_value_fresh z zt v dur now = ground arith

-- The device shows a consumption limit that is at least as strict as this one, and is under control.
abbrev pub Shows : LimitResolver → ℤ → Type 0
Shows r' v =
    (y : ℤ) × (r'.ec.effective_consumption_limit ≡ some y)
    × (y ⊑ v)
    × (r'.ec.control_state ≡ controlled)

module _ (r : LimitResolver) (c : Caller) (req : SetLimitRequest) (now : ℕ) where
  abbrev stored_limits : LimitResolver
  stored_limits = store_limits r c req now

  pub stored_lookup :
      (v : ℤ)
      → req.consumption_limit ≡ some v
      → lookup c.zone_id stored_limits.consumption_limits.values
        ≡ some (new_value c.zone_id c.zone_type v (duration_of req.duration) now)
  unfolding store_limits
  stored_lookup v e =
      ap (λ m. lookup c.zone_id m.values)
        (store_production_consumption _ c _ _ req.production_limit now)
      ∙ lookup-store_consumption _ c _ _ req.consumption_limit v now e
