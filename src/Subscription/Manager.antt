-- ===== src/Subscription/Manager.antt =====
-- mash-go/pkg/subscription/manager.go: the subscriptions of a device. A pointer to a subscription is its
-- id here, which nextID gives out once in 2^32 calls; its generator, a variable of the package, is a
-- field. A method is one step, NotifyChange too, which goes on after it has released the lock. The order
-- of the entries is the one in which the loops visit them.
mod Invariant
mod Index
pub mod Runs
pub mod Changes
pub mod Delivery
mod Tests
use mash.Base.{
  ℕ, ◌+◌, ◌%◌, ◌^◌, Bool, true, false, Option, none, some, List, [], ◌∷◌, ◌++◌, ltb, leb, ◌==◌,
  if◌then◌else◌, length, ap, ℕ_discrete,
}
use mash.Base.GoMap.{GoMap, Key, nat_key, lookup, insert, delete}
use mash.Subscription.Values.{Value}
use mash.Subscription.{
  Subscription, new, record_change, get_pending_notification, needs_heartbeat, record_heartbeat,
  set_priming_values, store_all,
}

pub data SubscriptionError : Type 0 where
  invalid_interval : SubscriptionError
  resource_exhausted : SubscriptionError
  subscription_not_found : SubscriptionError
  invalid_attribute_id : SubscriptionError

pub data HeartbeatMode : Type 0 where
  heartbeat_empty : HeartbeatMode
  heartbeat_full : HeartbeatMode

abbrev pub default_max_subscriptions : ℕ
default_max_subscriptions = 50

abbrev pub default_max_attributes_per_sub : ℕ
default_max_attributes_per_sub = 100

-- The limits are not negative.
pub record Config : Type 0 where
  pub max_subscriptions : ℕ
  pub max_attributes_per_sub : ℕ
  pub heartbeat_mode : HeartbeatMode
  pub suppress_bounce_back : Bool
  pub auto_correct_intervals : Bool

unfoldable pub default_config : Config
default_config = record {
  max_subscriptions = default_max_subscriptions;
  max_attributes_per_sub = default_max_attributes_per_sub;
  heartbeat_mode = heartbeat_full;
  suppress_bounce_back = true;
  auto_correct_intervals = false;
}

pub record Notification : Type 0 where
  pub subscription_id : ℕ
  pub feature_id : ℕ
  pub endpoint_id : ℕ
  pub attributes : GoMap ℕ Value
  pub is_priming : Bool
  pub is_heartbeat : Bool
  pub timestamp : ℕ

-- featureKey: the endpoint and the feature.
abbrev pub FeatureKey : Type 0
FeatureKey = ℕ × ℕ

unfoldable pub FeatureKey-discrete : Discrete FeatureKey
FeatureKey-discrete (a, b) (c, d) = elim (ℕ_discrete a c) [
  | yes p ↦ elim (ℕ_discrete b d) [
    | yes q ↦ yes (λ i. (p i, q i))
    | no n ↦ no (λ e. n (ap (λ x. x.1) e))
  ]
  | no n ↦ no (λ e. n (ap (λ x. x.0) e))
]

instance abbrev pub feature_key : Key FeatureKey
feature_key = record { dec = FeatureKey-discrete }

pub record Manager : Type 0 where
  pub config : Config
  pub subscriptions : GoMap ℕ Subscription
  pub feature_index : GoMap FeatureKey (List ℕ)
  pub on_notification : Bool
  pub id_generator : ℕ

abbrev or_default : ℕ → ℕ → ℕ
or_default v d = if v == 0 then d else v

unfoldable pub new_manager_with_config : Config → ℕ → Manager
new_manager_with_config c id_generator = record {
  config = record c {
    max_subscriptions = or_default c.max_subscriptions default_max_subscriptions;
    max_attributes_per_sub = or_default c.max_attributes_per_sub default_max_attributes_per_sub;
  };
  subscriptions = [];
  feature_index = [];
  on_notification = false;
  id_generator = id_generator;
}

unfoldable pub new_manager : ℕ → Manager
unfolding new_manager_with_config default_config
new_manager = new_manager_with_config default_config

unfoldable pub next_id : ℕ → ℕ
next_id g = (g + 1) % 2 ^ 32

abbrev add_value : ℕ → Option Value → GoMap ℕ Value → GoMap ℕ Value
add_value id none result = result
add_value id (some v) result = insert id v result

-- The loop of filterAttributes over the ids.
unfoldable pub filter_ids : GoMap ℕ Value → List ℕ → GoMap ℕ Value → GoMap ℕ Value
filter_ids values [] result = result
filter_ids values (id ∷ ids) result = filter_ids values ids (add_value id (lookup id values) result)

unfoldable pub filter_attributes : GoMap ℕ Value → List ℕ → GoMap ℕ Value
unfolding filter_ids store_all
filter_attributes values [] = store_all values []
filter_attributes values (id ∷ ids) = filter_ids values (id ∷ ids) []

-- The intervals after the first checks of Subscribe: the least and the greatest.
unfoldable pub checked_intervals : Bool → ℕ → ℕ → Option (ℕ × ℕ)
checked_intervals auto_correct least greatest =
    if greatest == 0
    then none
    else if ltb greatest least
    then (if auto_correct then some (greatest, least) else none)
    else some (least, greatest)

abbrev pub or_nil : Option (List ℕ) → List ℕ
or_nil none = []
or_nil (some ids) = ids

pub data Outcome : Type 0 where
  accepted : ℕ → Outcome
  refused : SubscriptionError → Outcome

-- What a peer asks for.
pub record Wish : Type 0 where
  pub endpoint_id : ℕ
  pub feature_id : ℕ
  pub attribute_ids : List ℕ
  pub min_interval : ℕ
  pub max_interval : ℕ

abbrev priming_note : Manager → ℕ → Wish → GoMap ℕ Value → ℕ → List Notification
priming_note m id w [] now = []
priming_note m id w (e ∷ es) now =
    if m.on_notification
    then record {
      subscription_id = id;
      feature_id = w.feature_id;
      endpoint_id = w.endpoint_id;
      attributes = e ∷ es;
      is_priming = true;
      is_heartbeat = false;
      timestamp = now;
    }
      ∷ []
    else []

abbrev subscription_for : ℕ → Wish → ℕ → ℕ → GoMap ℕ Value → ℕ → Subscription
subscription_for id w least greatest priming now =
    set_priming_values (new id w.feature_id w.endpoint_id w.attribute_ids least greatest now)
      priming now

-- Subscribe once its checks have passed.
unfoldable pub admit : Manager → Wish → ℕ → ℕ → GoMap ℕ Value → ℕ → Manager
unfolding next_id filter_attributes set_priming_values new
admit m w least greatest values now =
    let id = next_id m.id_generator in
    let key : FeatureKey = (w.endpoint_id, w.feature_id) in
    record m {
      id_generator = id;
      subscriptions =
          insert id
            (subscription_for id w least greatest (filter_attributes values w.attribute_ids) now)
            m.subscriptions;
      feature_index = insert key (or_nil (lookup key m.feature_index) ++ id ∷ []) m.feature_index;
    }

unfoldable pub subscribe_within :
    Option (ℕ × ℕ) → Manager → Wish → GoMap ℕ Value → ℕ → Manager × Outcome × List Notification
unfolding admit
subscribe_within none m w values now = (m, refused invalid_interval, [])
subscribe_within (some (least, greatest)) m w values now =
    if ltb m.config.max_attributes_per_sub (length w.attribute_ids)
    then (m, refused invalid_attribute_id, [])
    else if leb m.config.max_subscriptions (length m.subscriptions)
    then (m, refused resource_exhausted, [])
    else (
      admit m w least greatest values now,
      accepted (next_id m.id_generator),
      priming_note m (next_id m.id_generator) w (filter_attributes values w.attribute_ids) now,
    )

unfoldable pub subscribe :
    Manager → Wish → GoMap ℕ Value → ℕ → Manager × Outcome × List Notification
unfolding subscribe_within checked_intervals
subscribe m w values now =
    subscribe_within
      (checked_intervals m.config.auto_correct_intervals w.min_interval w.max_interval) m w values
      now

-- The loop of Unsubscribe over the index: the first that fits is taken out.
unfoldable pub remove_id : ℕ → List ℕ → List ℕ
remove_id id [] = []
remove_id id (j ∷ js) = if j == id then js else j ∷ remove_id id js

unfoldable pub put_or_delete :
    FeatureKey → List ℕ → GoMap FeatureKey (List ℕ) → GoMap FeatureKey (List ℕ)
put_or_delete key [] index = delete key index
put_or_delete key (id ∷ ids) index = insert key (id ∷ ids) index

-- A subscription that is taken out is deactivated, and not looked at any more.
unfoldable pub unsubscribe_found :
    Option Subscription → Manager → ℕ → Manager × Option SubscriptionError
unfolding remove_id put_or_delete
unsubscribe_found none m id = (m, some subscription_not_found)
unsubscribe_found (some s) m id =
    let key : FeatureKey = (s.endpoint_id, s.feature_id) in
    (
      record m {
        subscriptions = delete id m.subscriptions;
        feature_index =
            put_or_delete key (remove_id id (or_nil (lookup key m.feature_index))) m.feature_index;
      },
      none,
    )

unfoldable pub unsubscribe : Manager → ℕ → Manager × Option SubscriptionError
unfolding unsubscribe_found
unsubscribe m id = unsubscribe_found (lookup id m.subscriptions) m id

-- A call of RecordChange through the index.
unfoldable pub record_for :
    Option Subscription → ℕ → ℕ → Value → ℕ → GoMap ℕ Subscription → GoMap ℕ Subscription
unfolding record_change
record_for none id attr value now subs = subs
record_for (some s) id attr value now subs = insert id (record_change s attr value now).0 subs

unfoldable pub record_each : List ℕ → ℕ → Value → ℕ → GoMap ℕ Subscription → GoMap ℕ Subscription
unfolding record_for
record_each [] attr value now subs = subs
record_each (id ∷ ids) attr value now subs =
    record_each ids attr value now (record_for (lookup id subs) id attr value now subs)

unfoldable pub notify_change : Manager → ℕ → ℕ → ℕ → Value → ℕ → Manager
unfolding record_each
notify_change m endpoint_id feature_id attr value now = record m {
  subscriptions =
      record_each (or_nil (lookup (endpoint_id, feature_id) m.feature_index)) attr value now
        m.subscriptions;
}

-- The loop of NotifyChanges over the changes, for one subscription.
unfoldable pub record_changes : GoMap ℕ Value → ℕ → ℕ → GoMap ℕ Subscription → GoMap ℕ Subscription
unfolding record_for
record_changes [] id now subs = subs
record_changes ((attr, value) ∷ changes) id now subs =
    record_changes changes id now (record_for (lookup id subs) id attr value now subs)

unfoldable pub record_changes_each :
    List ℕ → GoMap ℕ Value → ℕ → GoMap ℕ Subscription → GoMap ℕ Subscription
unfolding record_changes
record_changes_each [] changes now subs = subs
record_changes_each (id ∷ ids) changes now subs =
    record_changes_each ids changes now (record_changes changes id now subs)

unfoldable pub notify_changes : Manager → ℕ → ℕ → GoMap ℕ Value → ℕ → Manager
unfolding record_changes_each
notify_changes m endpoint_id feature_id changes now = record m {
  subscriptions =
      record_changes_each (or_nil (lookup (endpoint_id, feature_id) m.feature_index)) changes now
        m.subscriptions;
}

abbrev note_of : Subscription → GoMap ℕ Value → Bool → ℕ → Notification
note_of s attributes is_heartbeat now = record {
  subscription_id = s.id;
  feature_id = s.feature_id;
  endpoint_id = s.endpoint_id;
  attributes = attributes;
  is_priming = false;
  is_heartbeat = is_heartbeat;
  timestamp = now;
}

abbrev change_note : Subscription → Option (GoMap ℕ Value) → ℕ → List Notification
change_note s none now = []
change_note s (some attrs) now = note_of s attrs false now ∷ []

-- What a heartbeat holds.
abbrev heartbeat_values : HeartbeatMode → Subscription → GoMap ℕ Value
heartbeat_values heartbeat_empty s = []
heartbeat_values heartbeat_full s = s.last_values

unfoldable pub beat : Subscription → HeartbeatMode → ℕ → Subscription × List Notification
unfolding needs_heartbeat record_heartbeat
beat s mode now =
    if needs_heartbeat s now
    then (record_heartbeat s now, note_of s (heartbeat_values mode s) true now ∷ [])
    else (s, [])

-- One round of ProcessNotifications.
unfoldable pub process_one : Config → Subscription → ℕ → Subscription × List Notification
unfolding beat get_pending_notification
process_one c s now =
    let (polled, attrs) = get_pending_notification s c.suppress_bounce_back now in
    let (beaten, beats) = beat polled c.heartbeat_mode now in
    (beaten, change_note s attrs now ++ beats)

unfoldable pub process_each :
    Config → GoMap ℕ Subscription → ℕ → GoMap ℕ Subscription × List Notification
unfolding process_one
process_each c [] now = ([], [])
process_each c ((id, s) ∷ subs) now =
    let (s1, notes) = process_one c s now in
    let (rest, later) = process_each c subs now in ((id, s1) ∷ rest, notes ++ later)

unfoldable pub process_notifications : Manager → ℕ → Manager × List Notification
unfolding process_each
process_notifications m now =
    if m.on_notification
    then (
      record m { subscriptions = (process_each m.config m.subscriptions now).0 },
      (process_each m.config m.subscriptions now).1,
    )
    else (m, [])

unfoldable pub clear_all : Manager → Manager
clear_all m = record m { subscriptions = []; feature_index = [] }

unfoldable pub count : Manager → ℕ
count m = length m.subscriptions

unfoldable pub get : Manager → ℕ → Option Subscription
get m id = lookup id m.subscriptions

unfoldable pub set_on_notification : Manager → Bool → Manager
set_on_notification m cb = record m { on_notification = cb }
