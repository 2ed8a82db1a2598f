-- ===== src/Subscription/Manager/Tests.antt =====
-- mash-go/pkg/subscription/manager.go: a manager with few subscriptions, at concrete times.
use mash.Base.{ℕ, ◌≤◌, ◌-◌, arith, false, ◌≡◌, refl, true, false, some, List, [], ◌∷◌, ℕ_discrete}
use mash.Base.Int.{pos}
use mash.Base.GoMap.{GoMap, Distinct, nat_key, lookup, insert}
use mash.Subscription.Values.{Value, int64, values_equal}
use mash.Subscription.{Subscription, new, store_all, bounces}
use mash.Subscription.Manager.{
  Config, heartbeat_full, Manager, new_manager_with_config, Wish, subscribe, refused,
  resource_exhausted, notify_change, process_notifications, FeatureKey-discrete, unsubscribe,
  subscription_not_found,
}
use mash.Subscription.Manager.Runs.{Event, subscribed, callback_set, run, IsValid, run-new-IsValid}
use mash.Subscription.Manager.Changes.{window_start}
use mash.Subscription.Manager.Delivery.{Tells, change-Tells}

abbrev two : Config
two = record {
  max_subscriptions = 2;
  max_attributes_per_sub = 3;
  heartbeat_mode = heartbeat_full;
  suppress_bounce_back = true;
  auto_correct_intervals = false;
}

abbrev power : Wish
power = record {
  endpoint_id = 1;
  feature_id = 5;
  attribute_ids = 4 ∷ [];
  min_interval = 10;
  max_interval = 60;
}

abbrev values : GoMap ℕ Value
values = (3, int64 (pos 1)) ∷ (4, int64 (pos 100)) ∷ []

abbrev joined : List Event
joined = callback_set true ∷ subscribed power values 0 ∷ subscribed power values 2 ∷ []

abbrev manager : Manager
manager = run (new_manager_with_config two 7) joined

abbrev first : Subscription
first = record (new 8 5 1 (4 ∷ []) 10 60 0) {
  last_values = (4, int64 (pos 100)) ∷ [];
  last_notified = 0;
}

first_held : lookup 8 manager.subscriptions ≡ some first
unfolding run new_manager_with_config FeatureKey-discrete lookup insert ℕ_discrete store_all new
first_held = refl

third_refused : (subscribe manager power values 3).1 ≡ refused resource_exhausted
unfolding run new_manager_with_config FeatureKey-discrete lookup insert ℕ_discrete store_all new
    subscribe
third_refused = refl

unknown_id : (unsubscribe manager 3).1 ≡ some subscription_not_found
unfolding run new_manager_with_config FeatureKey-discrete lookup insert ℕ_discrete store_all new
    unsubscribe
unknown_id = refl

manager_observed : manager.on_notification ≡ true
unfolding run new_manager_with_config insert
manager_observed = refl

not_suppressed :
    bounces manager.config.suppress_bounce_back first.last_values 4 (int64 (pos 200)) ≡ false
unfolding run new_manager_with_config bounces lookup values_equal ℕ_discrete new insert
not_suppressed = refl

first_due : first.min_interval ≤ 30 - window_start first 20
unfolding new
first_due = omega arith

no_changes : Distinct first.pending_changes
unfolding new
no_changes = tt

change-Tells_example :
    Tells 8 4
      (int64 (pos 200))
      (process_notifications (notify_change manager 1 5 4 (int64 (pos 200)) 20) 30).1
unfolding new
change-Tells_example =
    change-Tells two 7 joined 4 (int64 (pos 200)) 20 30 8 first first_held refl no_changes
      manager_observed not_suppressed first_due

run-new-IsValid_test : IsValid manager
run-new-IsValid_test = run-new-IsValid two 7 joined
