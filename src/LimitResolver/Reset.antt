-- ===== src/LimitResolver/Reset.antt =====
-- ResetAll (mash-go/pkg/features/limit_resolver.go) leaves no limit and no timer of a known zone.
use mash.Base.{ℕ, ◌≡◌, refl, ◌∙◌, none, [], ◌∷◌, String, ℕ_discrete, All}
use mash.Base.Int.{ℤ}
use mash.Base.GoMap.{GoMap, string_key, nat_key, lookup}
use mash.Zone.Value
use mash.Duration.{Manager, TimerKey, timer_key, CommandType, cancel_zone_timers}
use mash.Duration.Invariant.{Synced}
use mash.Duration.Cancel.{cancel_zone_timers_lem}
use mash.EnergyControl.{autonomous}
use mash.LimitResolver.{LimitResolver, resolve_and_apply, timer_at}
use mash.LimitResolver.Clearing.{cancel_all, reset_all}

cancel_zone-none :
    (m : Manager ℤ) (zone : ℕ) (j : TimerKey)
    → Synced m
    → lookup j m.timers ≡ none
    → lookup j (cancel_zone_timers m zone).timers ≡ none
cancel_zone-none m zone j s e = elim (ℕ_discrete j.zone_id zone) [
  | yes z ↦ (cancel_zone_timers_lem m zone s).1 j z
  | no n ↦ (cancel_zone_timers_lem m zone s).2 j n ∙ e
]

cancel_all-none :
    (zs : GoMap String ℕ) (m : Manager ℤ) (j : TimerKey)
    → Synced m
    → lookup j m.timers ≡ none
    → lookup j (cancel_all zs m).timers ≡ none
unfolding cancel_all
cancel_all-none [] m j s e = e
cancel_all-none ((z, idx) ∷ zs) m j s e =
    cancel_all-none zs (cancel_zone_timers m idx) j (cancel_zone_timers_lem m idx s).0
      (cancel_zone-none m idx j s e)

-- No timer of these indices is left.
abbrev pub Idle : GoMap String ℕ → Manager ℤ → Type 0
Idle zs m = All (λ e. (c : CommandType) → lookup (timer_at e.1 c) m.timers ≡ none) zs

cancel_all-Idle : (zs : GoMap String ℕ) (m : Manager ℤ) → Synced m → Idle zs (cancel_all zs m)
unfolding cancel_all
cancel_all-Idle [] m s = tt
cancel_all-Idle ((z, idx) ∷ zs) m s = (
  λ c.
      cancel_all-none zs (cancel_zone_timers m idx) (timer_at idx c)
        (cancel_zone_timers_lem m idx s).0
        ((cancel_zone_timers_lem m idx s).1 (timer_at idx c) refl),
  cancel_all-Idle zs (cancel_zone_timers m idx) (cancel_zone_timers_lem m idx s).0,
)

-- If the timers and their calls are in step, ResetAll leaves no limit of any zone, no effective limit
-- and no timer of a zone that the resolver knows, and the device is autonomous.
pub reset_all_lem :
    (r : LimitResolver) (now : ℕ)
    → Synced r.timers
    → let r' = (reset_all r now).0 in
      (r'.consumption_limits.values ≡ [])
      × (r'.production_limits.values ≡ [])
      × (r'.ec.effective_consumption_limit ≡ none)
      × (r'.ec.effective_production_limit ≡ none)
      × (r'.ec.control_state ≡ autonomous)
      × Idle r.zone_index_map r'.timers
unfolding reset_all resolve_and_apply Value.resolve_limits Value.new
reset_all_lem r now s = (refl, refl, refl, refl, refl, cancel_all-Idle r.zone_index_map r.timers s)
