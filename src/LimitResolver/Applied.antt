-- ===== src/LimitResolver/Applied.antt =====
-- resolveAndApply (mash-go/pkg/features/limit_resolver.go): the attributes show the strictest limits.
use mash.Base.{ℕ, ◌≡◌, refl, sym, ap, subst, Option, none, some, String, Option-cases, inl, inr}
use mash.Base.Int.{ℤ}
use mash.Base.GoMap.{string_key, nat_key, lookup, Distinct, insert-Distinct, delete-Distinct}
use mash.Zone.Value.{MultiZoneValue, resolve_limits, effective}
use mash.Zone.Value
use mash.Zone.Value.Expiry.{live, live-Distinct, values-resolve_limits, winner-resolve_limits}
use mash.Zone.Value.Limits.{Strictest, resolve_limits-Strictest}
use mash.EnergyControl.{Caller}
use mash.LimitResolver.{
  LimitResolver, state_of, resolve_and_apply, clear_timers, clear_zone_locked, ensure_zone_index,
  store_consumption, store_production,
}

-- Each zone has at most one value for each direction.
pub record IsValid (r : LimitResolver) : Type 0 where
  pub consumption : Distinct r.consumption_limits.values
  pub production : Distinct r.production_limits.values

-- The effective limits are the strictest of the zones' values that the last resolution left.
pub record Resolved (r : LimitResolver) : Type 0 where
  pub valid : IsValid r
  pub consumption :
      Strictest r.consumption_limits.values
        (r.ec.effective_consumption_limit, r.consumption_limits.winning_zone_id)
  pub production :
      Strictest r.production_limits.values
        (r.ec.effective_production_limit, r.production_limits.winning_zone_id)

resolve-Strictest :
    (m : MultiZoneValue) (now : ℕ)
    → Distinct m.values
    → Strictest
        (resolve_limits m now).0.values
        ((resolve_limits m now).1.0, (resolve_limits m now).0.winning_zone_id)
unfolding effective
resolve-Strictest m now d =
    subst
      (λ es. Strictest es ((resolve_limits m now).1.0, (resolve_limits m now).0.winning_zone_id))
      (sym (values-resolve_limits m now d))
      (subst (λ w. Strictest (live now m.values) ((resolve_limits m now).1.0, w))
        (sym (ap (λ w. w.1) (winner-resolve_limits m now))) (resolve_limits-Strictest m now d))

resolve-Distinct :
    (m : MultiZoneValue) (now : ℕ) → Distinct m.values → Distinct (resolve_limits m now).0.values
resolve-Distinct m now d =
    subst Distinct (sym (values-resolve_limits m now d)) (live-Distinct now m.values d)

-- Whatever the attributes held, they show the strictest limits afterwards.
pub resolve_and_apply-Resolved :
    (r : LimitResolver) (now : ℕ) → IsValid r → Resolved (resolve_and_apply r now)
unfolding resolve_and_apply
resolve_and_apply-Resolved r now v = record {
  valid = record {
    consumption = resolve-Distinct r.consumption_limits now v.consumption;
    production = resolve-Distinct r.production_limits now v.production;
  };
  consumption = resolve-Strictest r.consumption_limits now v.consumption;
  production = resolve-Strictest r.production_limits now v.production;
}

pub control_state-resolve_and_apply :
    (r : LimitResolver) (now : ℕ)
    → let ec = (resolve_and_apply r now).ec in
      ec.control_state ≡ state_of ec.effective_consumption_limit ec.effective_production_limit
unfolding resolve_and_apply
control_state-resolve_and_apply r now = refl

pub values-resolve_and_apply :
    (r : LimitResolver) (now : ℕ)
    → IsValid r
    → ((resolve_and_apply r now).consumption_limits.values ≡ live now r.consumption_limits.values)
      × ((resolve_and_apply r now).production_limits.values ≡ live now r.production_limits.values)
unfolding resolve_and_apply
values-resolve_and_apply r now v = (
  values-resolve_limits r.consumption_limits now v.consumption,
  values-resolve_limits r.production_limits now v.production,
)

clear_timers_values : (r : LimitResolver) (z : String) → IsValid r → IsValid (clear_timers r z)
unfolding clear_timers
clear_timers_values r z v = elim (Option-cases (lookup z r.zone_index_map)) [
  | inl e ↦ rw (e, clear_timers) v
  | inr (i, e) ↦
      rw (e, clear_timers) (record { consumption = v.consumption; production = v.production })
]

pub clear_zone_locked-IsValid :
    (r : LimitResolver) (z : String) → IsValid r → IsValid (clear_zone_locked r z)
unfolding clear_zone_locked Value.clear
clear_zone_locked-IsValid r z v = clear_timers_values _ z (record {
  consumption = delete-Distinct z r.consumption_limits.values v.consumption;
  production = delete-Distinct z r.production_limits.values v.production;
})

pub ensure_zone_index-IsValid :
    (r : LimitResolver) (z : String) → IsValid r → IsValid (ensure_zone_index r z).0
unfolding ensure_zone_index
ensure_zone_index-IsValid r z v = elim (Option-cases (lookup z r.zone_index_map)) [
  | inl e ↦
      rw (e, ensure_zone_index) (record { consumption = v.consumption; production = v.production })
  | inr (i, e) ↦ rw (e, ensure_zone_index) v
]

pub store_consumption-IsValid :
    (r : LimitResolver) (c : Caller) (idx dur : ℕ) (v : Option ℤ) (now : ℕ)
    → IsValid r
    → IsValid (store_consumption r c idx dur v now)
unfolding store_consumption Value.set
store_consumption-IsValid r c idx dur none now v = v
store_consumption-IsValid r c idx dur (some x) now v = record {
  consumption = insert-Distinct c.zone_id _ r.consumption_limits.values v.consumption;
  production = v.production;
}

pub store_production-IsValid :
    (r : LimitResolver) (c : Caller) (idx dur : ℕ) (v : Option ℤ) (now : ℕ)
    → IsValid r
    → IsValid (store_production r c idx dur v now)
unfolding store_production Value.set
store_production-IsValid r c idx dur none now v = v
store_production-IsValid r c idx dur (some x) now v = record {
  consumption = v.consumption;
  production = insert-Distinct c.zone_id _ r.production_limits.values v.production;
}
