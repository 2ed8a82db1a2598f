-- ===== src/LimitResolver/Refusals.antt =====
-- Which SetLimit requests (mash-go/pkg/features/limit_resolver.go) are refused, and what is answered
-- and stored for the others.
use mash.Base.{ℕ, ◌≡◌, ◌⊎◌, true, none, is_some, String, [], List}
use mash.Base.GoMap.{GoMap, string_key, delete}
use mash.Zone.Value.{ZoneValue}
use mash.Zone.Value.Expiry.{live}
use mash.EnergyControl.{SetLimitRequest, SetLimitResponse, Caller}
use mash.LimitResolver.{LimitResolver, Change}
use mash.LimitResolver.SetLimit.{Reply, answer, duration_of, handle_set_limit}
use mash.LimitResolver.Stored.{with_limit}
use mash.LimitResolver.Branches.{Acceptable, SaysNo}

-- The answer says yes, with the state that the device is in.
pub record SaysYes (r' : LimitResolver) (a : SetLimitResponse) : Type 0 where
  pub applied : a.applied ≡ true
  pub reason : a.reject_reason ≡ none
  pub state : a.control_state ≡ r'.ec.control_state

-- The zones' values that have not expired, after a change of both directions.
abbrev pub Holds : LimitResolver → ℕ → GoMap String ZoneValue → GoMap String ZoneValue → Type 0
Holds r' now cs ps =
    (r'.consumption_limits.values ≡ live now cs) × (r'.production_limits.values ≡ live now ps)

pub data Decided (r : LimitResolver) (caller : Caller) (req : SetLimitRequest) (now : ℕ)
    : Type 0 where
  refused :
      (reply : Reply)
      → ¬ Acceptable r caller req
      → SaysNo reply
      → handle_set_limit r caller req now ≡ (r, reply, [])
      → Decided r caller req now
  cleared :
      (r' : LimitResolver) (a : SetLimitResponse) (told : List Change)
      → Acceptable r caller req
      → req.consumption_limit ≡ none
      → req.production_limit ≡ none
      → handle_set_limit r caller req now ≡ (r', answer a, told)
      → SaysYes r' a
      → Holds r' now
          (delete caller.zone_id r.consumption_limits.values)
          (delete caller.zone_id r.production_limits.values)
      → Decided r caller req now
  stored :
      (r' : LimitResolver) (a : SetLimitResponse) (told : List Change)
      → Acceptable r caller req
      → (is_some req.consumption_limit ≡ true) ⊎ (is_some req.production_limit ≡ true)
      → handle_set_limit r caller req now ≡ (r', answer a, told)
      → SaysYes r' a
      → (a.effective_consumption_limit ≡ r'.ec.effective_consumption_limit)
        × (a.effective_production_limit ≡ r'.ec.effective_production_limit)
      → Holds r' now
          (with_limit caller req.consumption_limit
            (duration_of req.duration)
            now
            r.consumption_limits.values)
          (with_limit caller req.production_limit
            (duration_of req.duration)
            now
            r.production_limits.values)
      → Decided r caller req now
