-- ===== src/LimitResolver/Tests.antt =====
-- Two zones limit a device (mash-go/pkg/features/limit_resolver.go).
use mash.Base.{
  ℕ, ◌*◌, ◌≡◌, refl, none, some, [], ◌∷◌, List, Option, arith, String-discrete, Bool-cases,
  ℕ_discrete, false, true,
}
use mash.Base.Int.{ℤ, pos}
use mash.Base.GoMap.{string_key, nat_key, insert, lookup, delete}
use mash.Zone.{zone_type_grid, zone_type_local}
use mash.Zone.Value.{set, new_value, resolve_limits, remove_expired, limit_round, is_expired}
use mash.Duration.{timer_key, Timer, TimerKey, limit_consumption, second, max_duration, set_timer}
use mash.Duration
use mash.Duration.Invariant.{Synced}
use mash.Duration.Firing.{listens, run-new-Synced}
use mash.Duration.Firing
use mash.EnergyControl.{autonomous, SetLimitRequest, Caller, is_override}
use mash.LimitResolver.{
  LimitResolver, new, timer_at, store_consumption, store_production, ensure_zone_index,
  resolve_and_apply, start_or_cancel,
}
use mash.LimitResolver.SetLimit.{handle_set_limit, activate, store_limits}
use mash.LimitResolver.Clearing.{fire_timer}
use mash.LimitResolver.Applied.{IsValid, Resolved}
use mash.LimitResolver.Effects.{Event, sets, run, unlimited, run-new-Resolved}
use mash.LimitResolver.Timers.{Gone, fire_timer-Gone, LostLimit, long_limit_lost}

abbrev grid : Caller
grid = record { zone_id = "grid"; zone_type = zone_type_grid }

abbrev ems : Caller
ems = record { zone_id = "ems"; zone_type = zone_type_local }

abbrev at_most : ℕ → Option ℕ → SetLimitRequest
at_most v d = record { consumption_limit = some (pos v); production_limit = none; duration = d }

abbrev two_limits : List Event
two_limits = sets grid (at_most 5000 (some 60)) 1000 ∷ sets ems (at_most 3000 none) 2000 ∷ []

abbrev start_resolver : LimitResolver
start_resolver = new (unlimited autonomous)

run-new-Resolved_example : Resolved (run start_resolver two_limits)
run-new-Resolved_example = run-new-Resolved autonomous two_limits

limited-ems :
    (handle_set_limit start_resolver ems (at_most 3000 none) 7).0.ec.effective_consumption_limit
    ≡ some (pos 3000)
unfolding handle_set_limit activate store_limits new ensure_zone_index store_consumption
    resolve_and_apply start_or_cancel set new_value resolve_limits remove_expired limit_round
    is_expired insert delete lookup is_override String-discrete Bool-cases store_production
limited-ems = refl

-- A grid operator's limit of one minute, set at 1000.
abbrev minute : ℕ
minute = 60 * second

abbrev limited_timers : Duration.Manager ℤ
limited_timers =
    Firing.run Duration.new
      (listens true ∷ Firing.sets (timer_at 0 limit_consumption) minute (pos 5000) 1000 ∷ [])

abbrev limited_timer : Timer ℤ
limited_timer = record {
  key = timer_at 0 limit_consumption;
  start_time = 1000;
  duration = minute;
  value = pos 5000;
  timer = 0;
}

abbrev limited : LimitResolver
limited = record {
  ec = unlimited autonomous;
  consumption_limits = record {
    values = ("grid", new_value "grid" zone_type_grid (pos 5000) minute 1000) ∷ [];
    effective_value = some (pos 5000);
    winning_zone_id = "grid";
  };
  production_limits = record { values = []; effective_value = none; winning_zone_id = "" };
  timers = limited_timers;
  zone_index_map = ("grid", 0) ∷ [];
  index_zone_map = (0, "grid") ∷ [];
  next_index = 1;
  max_consumption = pos 0;
  max_production = pos 0;
  on_zone_my_change = false;
}

limited-IsValid : IsValid limited
limited-IsValid = record { consumption = (tt, tt); production = tt }

limited_listens : limited_timers.on_expiry ≡ true
unfolding Firing.run Firing.step Duration.new Duration.set_on_expiry set_timer lookup
limited_listens = refl

limited_stored : lookup (timer_at 0 limit_consumption) limited_timers.timers ≡ some limited_timer
unfolding Firing.run Firing.step Duration.new Duration.set_on_expiry set_timer lookup insert delete
    Duration.TimerKey-discrete ℕ_discrete
limited_stored = refl

limited_index : lookup 0 limited.index_zone_map ≡ some "grid"
unfolding lookup ℕ_discrete
limited_index = refl

limited_zone : lookup "grid" limited.zone_index_map ≡ some 0
unfolding lookup String-discrete Bool-cases
limited_zone = refl

limited-Synced : Synced limited_timers
limited-Synced =
    run-new-Synced
      (listens true ∷ Firing.sets (timer_at 0 limit_consumption) minute (pos 5000) 1000 ∷ [])

fire_timer-Gone_example : Gone (fire_timer limited 0 (2 * minute)).0 "grid" limit_consumption
fire_timer-Gone_example =
    fire_timer-Gone limited (timer_at 0 limit_consumption) limited_timer "grid" (2 * minute)
      limited-IsValid limited-Synced limited_listens limited_stored (omega arith) limited_index

-- A limit of two days.
long_limit_lost_example :
    LostLimit
      (activate limited grid (at_most 4000 (some 172800)) 2000).0
      "grid"
      (pos 4000)
      0
      (2 * minute)
long_limit_lost_example =
    long_limit_lost limited grid (at_most 4000 (some 172800)) 2000 0 limited_timer (pos 4000)
      (2 * minute) limited-IsValid limited-Synced limited_listens limited_zone limited_index
      limited_stored (omega arith) refl refl (omega arith) (omega arith)
