-- ===== src/LimitResolver/Effects.antt =====
-- What holds of the limit resolver (mash-go/pkg/features/limit_resolver.go) after every event.
use mash.Base.{
  refl, ℕ, sym, subst, Option, none, some, List, [], ◌∷◌, String, String-discrete, if_pos, if_neg,
  Option-cases, inl, inr,
}
use mash.Base.Int.{ℤ}
use mash.Base.GoMap.{string_key, nat_key, lookup, delete-Distinct}
use mash.Zone.Value.{MultiZoneValue}
use mash.Zone.Value
use mash.Duration.{fire, TimerKey, CommandType, limit_consumption, limit_production, Expiry}
use mash.EnergyControl.{
  EnergyControl, ControlState, Direction, consumption, production, bidirectional, set_control_state,
  Caller, SetLimitRequest, ClearLimitRequest,
}
use mash.LimitResolver.{LimitResolver, new}
use mash.LimitResolver.SetLimit.{handle_set_limit, store_limits, deactivate, activate}
use mash.LimitResolver.Clearing.{
  clear_known, clear_consumption, clear_production, clear_directions, handle_clear_limit, reset_all,
  clear_zone, expire_value, handle_timer_expiry, handle_expiries, fire_timer, cancel_indexed,
}
use mash.LimitResolver.Applied.{
  IsValid, Resolved, resolve_and_apply-Resolved, clear_zone_locked-IsValid,
  ensure_zone_index-IsValid, store_consumption-IsValid, store_production-IsValid,
}
use mash.LimitResolver.Branches.{Branch, refused, cleared, stored, handle_set_limit-Branch}

pub store_limits-IsValid :
    (r : LimitResolver) (c : Caller) (req : SetLimitRequest) (now : ℕ)
    → IsValid r
    → IsValid (store_limits r c req now)
unfolding store_limits
store_limits-IsValid r c req now v = store_production-IsValid _ c _ _ req.production_limit now (
    store_consumption-IsValid _ c _ _ req.consumption_limit now
      (ensure_zone_index-IsValid r c.zone_id v))

set_limit-Resolved :
    (r : LimitResolver) (c : Caller) (req : SetLimitRequest) (now : ℕ)
    → Resolved r
    → Resolved (handle_set_limit r c req now).0
set_limit-Resolved r c req now v = after (handle_set_limit-Branch r c req now)
  where
    after : Branch r c req now → Resolved (handle_set_limit r c req now).0
    after (refused reply _ _ e) = subst (λ o. Resolved o.0) (sym e) v
    after (cleared _ _ _ e) =
        subst (λ o. Resolved o.0) (sym e)
          (unfold deactivate in
            resolve_and_apply-Resolved _ now (clear_zone_locked-IsValid r c.zone_id v.valid))
    after (stored _ _ e) =
        subst (λ o. Resolved o.0) (sym e)
          (unfold activate in
            resolve_and_apply-Resolved _ now (store_limits-IsValid r c req now v.valid))

cancel_indexed-IsValid :
    (r : LimitResolver) (z : String) (c : CommandType) → IsValid r → IsValid (cancel_indexed r z c)
unfolding cancel_indexed
cancel_indexed-IsValid r z c v = elim (Option-cases (lookup z r.zone_index_map)) [
  | inl e ↦ rw (e, cancel_indexed) v
  | inr (i, e) ↦
      rw (e, cancel_indexed) (record { consumption = v.consumption; production = v.production })
]

clear_consumption-IsValid :
    (r : LimitResolver) (z : String) → IsValid r → IsValid (clear_consumption r z)
unfolding clear_consumption Value.clear
clear_consumption-IsValid r z v = cancel_indexed-IsValid _ z limit_consumption (record {
  consumption = delete-Distinct z r.consumption_limits.values v.consumption;
  production = v.production;
})

clear_production-IsValid :
    (r : LimitResolver) (z : String) → IsValid r → IsValid (clear_production r z)
unfolding clear_production Value.clear
clear_production-IsValid r z v = cancel_indexed-IsValid _ z limit_production (record {
  consumption = v.consumption;
  production = delete-Distinct z r.production_limits.values v.production;
})

clear_directions-IsValid :
    (r : LimitResolver) (z : String) (d : Option Direction)
    → IsValid r
    → IsValid (clear_directions r z d)
unfolding clear_directions
clear_directions-IsValid r z none v = clear_production-IsValid _ z (clear_consumption-IsValid r z v)
clear_directions-IsValid r z (some consumption) v = clear_consumption-IsValid r z v
clear_directions-IsValid r z (some production) v = clear_production-IsValid r z v
clear_directions-IsValid r z (some bidirectional) v = v

clear_limit-Resolved :
    (r : LimitResolver) (c : Caller) (req : ClearLimitRequest) (now : ℕ)
    → Resolved r
    → Resolved (handle_clear_limit r c req now).0
unfolding handle_clear_limit
clear_limit-Resolved r c req now v = elim (String-discrete c.zone_id "") [
  | yes p ↦ subst (λ o. Resolved o.0) (sym (if_pos _ p (r, []) (clear_known r c req now))) v
  | no n ↦
      subst (λ o. Resolved o.0) (sym (if_neg _ n (r, []) (clear_known r c req now)))
        (resolve_and_apply-Resolved _ now
          (clear_directions-IsValid r c.zone_id req.direction v.valid))
]

pub expire_value-IsValid :
    (r : LimitResolver) (z : String) (c : CommandType) → IsValid r → IsValid (expire_value r z c)
unfolding expire_value Value.clear
expire_value-IsValid r z limit_consumption v = record {
  consumption = delete-Distinct z r.consumption_limits.values v.consumption;
  production = v.production;
}
expire_value-IsValid r z limit_production v = record {
  consumption = v.consumption;
  production = delete-Distinct z r.production_limits.values v.production;
}
expire_value-IsValid r z _ v = v

timer_expiry-Resolved :
    (r : LimitResolver) (k : TimerKey) (now : ℕ)
    → Resolved r
    → Resolved (handle_timer_expiry r k now).0
unfolding handle_timer_expiry
timer_expiry-Resolved r k now v = elim (Option-cases (lookup k.zone_id r.index_zone_map)) [
  | inl e ↦ rw (e, handle_timer_expiry) v
  | inr (z, e) ↦
      rw (e, handle_timer_expiry)
        (resolve_and_apply-Resolved _ now (expire_value-IsValid r z k.cmd_type v.valid))
]

expiries-Resolved :
    (r : LimitResolver) (es : List (Expiry ℤ)) (now : ℕ)
    → Resolved r
    → Resolved (handle_expiries r es now).0
unfolding handle_expiries
expiries-Resolved r [] now v = v
expiries-Resolved r (e ∷ es) now v =
    expiries-Resolved (handle_timer_expiry r e.key now).0 es now
      (timer_expiry-Resolved r e.key now v)

-- The commands of the zones, the calls of the service, the runtime's timers, and the device
-- application, which sets the control state.
pub data Event : Type 0 where
  sets : Caller → SetLimitRequest → ℕ → Event
  clears : Caller → ClearLimitRequest → ℕ → Event
  clears_zone : String → ℕ → Event
  resets : ℕ → Event
  fires : ℕ → ℕ → Event
  device_sets : ControlState → Event

unfoldable pub step : LimitResolver → Event → LimitResolver
step r (sets c req now) = (handle_set_limit r c req now).0
step r (clears c req now) = (handle_clear_limit r c req now).0
step r (clears_zone z now) = (clear_zone r z now).0
step r (resets now) = (reset_all r now).0
step r (fires handle now) = (fire_timer r handle now).0
step r (device_sets s) = record r { ec = set_control_state r.ec s }

step-Resolved : (r : LimitResolver) (e : Event) → Resolved r → Resolved (step r e)
unfolding step clear_zone reset_all fire_timer set_control_state Value.new
step-Resolved r (sets c req now) v = set_limit-Resolved r c req now v
step-Resolved r (clears c req now) v = clear_limit-Resolved r c req now v
step-Resolved r (clears_zone z now) v =
    resolve_and_apply-Resolved _ now (clear_zone_locked-IsValid r z v.valid)
step-Resolved r (resets now) v =
    resolve_and_apply-Resolved _ now (record { consumption = tt; production = tt })
step-Resolved r (fires handle now) v =
    expiries-Resolved (record r { timers = (fire r.timers handle now).0 })
      (fire r.timers handle now).1 now
      (record {
        valid = record { consumption = v.valid.consumption; production = v.valid.production };
        consumption = v.consumption;
        production = v.production;
      })
step-Resolved r (device_sets s) v = record {
  valid = record { consumption = v.valid.consumption; production = v.valid.production };
  consumption = v.consumption;
  production = v.production;
}

unfoldable pub run : LimitResolver → List Event → LimitResolver
run r [] = r
run r (e ∷ es) = run (step r e) es

run-Resolved : (r : LimitResolver) (es : List Event) → Resolved r → Resolved (run r es)
unfolding run
run-Resolved r [] v = v
run-Resolved r (e ∷ es) v = run-Resolved (step r e) es (step-Resolved r e v)

-- The feature as a device registers it, before any limit.
abbrev pub unlimited : ControlState → EnergyControl
unlimited s = record {
  control_state = s;
  effective_consumption_limit = none;
  effective_production_limit = none;
}

-- After any commands, expiries and resets, in any order, each effective limit that the device shows
-- is the strictest of the values that the zones other than TEST zones hold in that direction, one of
-- those zones set it, and the device shows none exactly if they hold none.
pub run-new-Resolved : (s : ControlState) (es : List Event) → Resolved (run (new (unlimited s)) es)
unfolding new Value.new
run-new-Resolved s es = run-Resolved _ es (record {
  valid = record { consumption = tt; production = tt };
  consumption = inl (tt, refl);
  production = inl (tt, refl);
})
