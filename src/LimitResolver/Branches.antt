-- ===== src/LimitResolver/Branches.antt =====
-- The branches of HandleSetLimit (mash-go/pkg/features/limit_resolver.go).
use mathlib.Core.Path.{ap₂}
use mash.Base.Int.{ℤ}
use mash.Base.{
  ap, ◌∙◌, ℕ, ◌≡◌, refl, ◌≢◌, ◌⊎◌, Bool, true, false, not, ◌&&◌, Option, none, some, [],
  String-discrete, if_pos, if_neg, is_some, Bool-cases, inl, inr, if◌then◌else◌,
}
use mash.EnergyControl.{
  override, invalid_value, device_override, SetLimitRequest, Caller, is_override,
}
use mash.LimitResolver.{LimitResolver}
use mash.LimitResolver.SetLimit.{
  reject, Reply, answer, constraint_error, Outcome, negative, exceeds, deactivate, activate,
  handle_set_limit,
}

-- What a request must satisfy.
pub record Acceptable (r : LimitResolver) (caller : Caller) (req : SetLimitRequest) : Type 0 where
  pub identified : caller.zone_id ≢ ""
  pub consumption_sign : negative req.consumption_limit ≡ false
  pub production_sign : negative req.production_limit ≡ false
  pub consumption_range : exceeds req.consumption_limit r.max_consumption ≡ false
  pub production_range : exceeds req.production_limit r.max_production ≡ false
  pub yielding : is_override r.ec ≡ false

-- The reply says no.
abbrev pub SaysNo : Reply → Type 0
SaysNo constraint_error = Unit
SaysNo (answer a) = (a.applied ≡ false) × (is_some a.reject_reason ≡ true)

pub data Branch (r : LimitResolver) (caller : Caller) (req : SetLimitRequest) (now : ℕ)
    : Type 0 where
  refused :
      (reply : Reply)
      → ¬ Acceptable r caller req
      → SaysNo reply
      → handle_set_limit r caller req now ≡ (r, reply, [])
      → Branch r caller req now
  cleared :
      Acceptable r caller req
      → req.consumption_limit ≡ none
      → req.production_limit ≡ none
      → handle_set_limit r caller req now ≡ deactivate r caller now
      → Branch r caller req now
  stored :
      Acceptable r caller req
      → (is_some req.consumption_limit ≡ true) ⊎ (is_some req.production_limit ≡ true)
      → handle_set_limit r caller req now ≡ activate r caller req now
      → Branch r caller req now

module _ (r : LimitResolver) (caller : Caller) (req : SetLimitRequest) (now : ℕ) where
  clash : {b : Bool} → b ≡ true → b ≡ false → ⊥
  clash p q = cc

  -- The last test of the handler.
  abbrev pick : Option ℤ → Option ℤ → Outcome
  pick c p =
      if not (is_some c) && not (is_some p)
      then deactivate r caller now
      else activate r caller req now

  pick-Branch :
      Acceptable r caller req
      → handle_set_limit r caller req now ≡ pick req.consumption_limit req.production_limit
      → Branch r caller req now
  pick-Branch a e = split req.consumption_limit req.production_limit refl refl
    where
      split :
          (c p : Option ℤ)
          → req.consumption_limit ≡ c
          → req.production_limit ≡ p
          → Branch r caller req now
      split none none ec ep = cleared a ec ep (e ∙ ap₂ pick ec ep)
      split (some x) p ec ep = stored a (inl (ap is_some ec)) (e ∙ ap₂ pick ec ep)
      split none (some x) ec ep = stored a (inr (ap is_some ep)) (e ∙ ap₂ pick ec ep)

  abbrev invalid : Reply
  invalid = (reject r invalid_value r.ec.control_state).1

  abbrev overridden : Reply
  overridden = (reject r device_override override).1

  pub handle_set_limit-Branch : Branch r caller req now
  unfolding handle_set_limit
  handle_set_limit-Branch = elim (String-discrete caller.zone_id "") [
    | yes p ↦ refused invalid (λ a. a.identified p) (refl, refl) (rw (if_pos _ p))
    | no n ↦ elim (Bool-cases (negative req.consumption_limit)) [
      | inl b ↦ refused invalid (λ a. clash b a.consumption_sign) (refl, refl) (rw (if_neg _ n, b))
      | inr b ↦ elim (Bool-cases (negative req.production_limit)) [
        | inl c ↦
            refused invalid (λ a. clash c a.production_sign) (refl, refl) (rw (if_neg _ n, b, c))
        | inr c ↦ elim (Bool-cases (exceeds req.consumption_limit r.max_consumption)) [
          | inl d ↦
              refused constraint_error (λ a. clash d a.consumption_range) tt
                (rw (if_neg _ n, b, c, d))
          | inr d ↦ elim (Bool-cases (exceeds req.production_limit r.max_production)) [
            | inl e ↦
                refused constraint_error (λ a. clash e a.production_range) tt
                  (rw (if_neg _ n, b, c, d, e))
            | inr e ↦ elim (Bool-cases (is_override r.ec)) [
              | inl f ↦
                  refused overridden (λ a. clash f a.yielding) (refl, refl)
                    (rw (if_neg _ n, b, c, d, e, f))
              | inr f ↦
                  pick-Branch
                    (record {
                      identified = n;
                      consumption_sign = b;
                      production_sign = c;
                      consumption_range = d;
                      production_range = e;
                      yielding = f;
                    })
                    (rw (if_neg _ n, b, c, d, e, f))
            ]
          ]
        ]
      ]
    ]
  ]
