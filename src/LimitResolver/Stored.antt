-- ===== src/LimitResolver/Stored.antt =====
-- What SetLimit (mash-go/pkg/features/limit_resolver.go) leaves in the maps of the zones' values.
use mash.Base.{ℕ, ◌≡◌, refl, ap, ◌∙◌, Option, none, some, String, Option-cases, inl, inr}
use mash.Base.Int.{ℤ}
use mash.Base.GoMap.{GoMap, string_key, nat_key, lookup, insert, delete}
use mash.Zone.Value.{ZoneValue, new_value}
use mash.Zone.Value
use mash.EnergyControl.{Caller, SetLimitRequest}
use mash.LimitResolver.{
  LimitResolver, ensure_zone_index, store_consumption, store_production, clear_timers,
  clear_zone_locked,
}
use mash.LimitResolver.SetLimit.{duration_of, store_limits}

-- The steps around the write leave the other direction alone.
pub ensure_zone_index_consumption :
    (r : LimitResolver) (z : String)
    → (ensure_zone_index r z).0.consumption_limits ≡ r.consumption_limits
unfolding ensure_zone_index
ensure_zone_index_consumption r z = elim (Option-cases (lookup z r.zone_index_map)) [
  | inl e ↦ rw (e, ensure_zone_index)
  | inr (i, e) ↦ rw (e, ensure_zone_index)
]

pub store_production_consumption :
    (r : LimitResolver) (c : Caller) (idx dur : ℕ) (v : Option ℤ) (now : ℕ)
    → (store_production r c idx dur v now).consumption_limits ≡ r.consumption_limits
unfolding store_production
store_production_consumption r c idx dur none now = refl
store_production_consumption r c idx dur (some v) now = refl

ensure_zone_index_production :
    (r : LimitResolver) (z : String)
    → (ensure_zone_index r z).0.production_limits ≡ r.production_limits
unfolding ensure_zone_index
ensure_zone_index_production r z = elim (Option-cases (lookup z r.zone_index_map)) [
  | inl e ↦ rw (e, ensure_zone_index)
  | inr (i, e) ↦ rw (e, ensure_zone_index)
]

store_consumption_production :
    (r : LimitResolver) (c : Caller) (idx dur : ℕ) (v : Option ℤ) (now : ℕ)
    → (store_consumption r c idx dur v now).production_limits ≡ r.production_limits
unfolding store_consumption
store_consumption_production r c idx dur none now = refl
store_consumption_production r c idx dur (some v) now = refl

-- The values with the one that a zone asks for, if it does.
abbrev pub with_limit : Caller → Option ℤ → ℕ → ℕ → GoMap String ZoneValue → GoMap String ZoneValue
with_limit c none dur now values = values
with_limit c (some v) dur now values =
    insert c.zone_id (new_value c.zone_id c.zone_type v dur now) values

store_consumption_values :
    (r : LimitResolver) (c : Caller) (idx dur : ℕ) (o : Option ℤ) (now : ℕ)
    → (store_consumption r c idx dur o now).consumption_limits.values
      ≡ with_limit c o dur now r.consumption_limits.values
unfolding store_consumption Value.set
store_consumption_values r c idx dur none now = refl
store_consumption_values r c idx dur (some v) now = refl

store_production_values :
    (r : LimitResolver) (c : Caller) (idx dur : ℕ) (o : Option ℤ) (now : ℕ)
    → (store_production r c idx dur o now).production_limits.values
      ≡ with_limit c o dur now r.production_limits.values
unfolding store_production Value.set
store_production_values r c idx dur none now = refl
store_production_values r c idx dur (some v) now = refl

module _ (r : LimitResolver) (c : Caller) (req : SetLimitRequest) (now : ℕ) where
  abbrev dur : ℕ
  dur = duration_of req.duration

  pub store_limits-values :
      ((store_limits r c req now).consumption_limits.values
        ≡ with_limit c req.consumption_limit dur now r.consumption_limits.values)
      × ((store_limits r c req now).production_limits.values
          ≡ with_limit c req.production_limit dur now r.production_limits.values)
  unfolding store_limits
  store_limits-values = (
    ap (λ m. m.values) (store_production_consumption _ c _ _ req.production_limit now)
        ∙ store_consumption_values (ensure_zone_index r c.zone_id).0 c _ _ req.consumption_limit now
        ∙ ap (λ m. with_limit c req.consumption_limit dur now m.values)
            (ensure_zone_index_consumption r c.zone_id),
    store_production_values _ c _ _ req.production_limit now
        ∙ ap (λ m. with_limit c req.production_limit dur now m.values)
            (store_consumption_production (ensure_zone_index r c.zone_id).0 c _ _
              req.consumption_limit now)
        ∙ ap (λ m. with_limit c req.production_limit dur now m.values)
            (ensure_zone_index_production r c.zone_id),
  )

-- Clearing a zone takes its values out.
pub clear_zone_locked-values :
    (r : LimitResolver) (z : String)
    → ((clear_zone_locked r z).consumption_limits.values ≡ delete z r.consumption_limits.values)
      × ((clear_zone_locked r z).production_limits.values ≡ delete z r.production_limits.values)
unfolding clear_zone_locked clear_timers Value.clear
clear_zone_locked-values r z = elim (Option-cases (lookup z r.zone_index_map)) [
  | inl e ↦ (rw (e, clear_timers) refl, rw (e, clear_timers) refl)
  | inr (i, e) ↦ (rw (e, clear_timers) refl, rw (e, clear_timers) refl)
]
