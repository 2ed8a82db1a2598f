-- ===== src/Subscription.antt =====
-- mash-go/pkg/subscription/subscription.go: one subscription. Changes are gathered for the minimum
-- interval, and a value that returned to what the subscriber has is not sent again.
pub mod Values
pub mod Notification
pub mod View
pub mod Sync
pub mod Pacing
pub mod Manager
mod Tests
use mash.Base.{
  ℕ, ◌+◌, ◌-◌, ◌*◌, Bool, true, false, not, ◌&&◌, ◌||◌, Option, none, some, List, [], ◌∷◌, ltb, leb,
  ◌==◌, if◌then◌else◌, length,
}
use mash.Base.GoMap.{GoMap, nat_key, lookup, insert, delete}
use mash.Subscription.Values.{Value, values_equal}

pub record Subscription : Type 0 where
  pub id : ℕ
  pub feature_id : ℕ
  pub endpoint_id : ℕ
  pub attribute_ids : List ℕ
  pub min_interval : ℕ
  pub max_interval : ℕ
  pub last_notified : ℕ
  pub last_values : GoMap ℕ Value
  pub pending_changes : GoMap ℕ Value
  pub change_window_start : ℕ
  pub has_changes : Bool
  pub active : Bool

unfoldable pub new : ℕ → ℕ → ℕ → List ℕ → ℕ → ℕ → ℕ → Subscription
new id feature_id endpoint_id attribute_ids min_interval max_interval now = record {
  id = id;
  feature_id = feature_id;
  endpoint_id = endpoint_id;
  attribute_ids = attribute_ids;
  min_interval = min_interval;
  max_interval = max_interval;
  last_notified = now;
  last_values = [];
  pending_changes = [];
  change_window_start = 0;
  has_changes = false;
  active = true;
}

unfoldable pub deactivate : Subscription → Subscription
deactivate s = record s { active = false }

abbrev pub contains : ℕ → List ℕ → Bool
contains a [] = false
contains a (b ∷ bs) = (b == a) || contains a bs

-- An empty list subscribes to all attributes.
abbrev pub subscribed : Subscription → ℕ → Bool
subscribed s attr = (length s.attribute_ids == 0) || contains attr s.attribute_ids

unfoldable pub record_change : Subscription → ℕ → Value → ℕ → Subscription × Bool
record_change s attr value now =
    if not s.active then (s, false) else if not (subscribed s attr) then (s, false) else (
      record s {
        change_window_start = if s.has_changes then s.change_window_start else now;
        pending_changes = insert attr value s.pending_changes;
        has_changes = true;
      },
      not s.has_changes,
    )

abbrev same_as : Option Value → Value → Bool
same_as none value = false
same_as (some v) value = values_equal v value

-- Whether a changed value is what was last sent.
unfoldable pub bounces : Bool → GoMap ℕ Value → ℕ → Value → Bool
bounces suppress last attr value = suppress && same_as (lookup attr last) value

-- The loop over the pending changes: the notification so far, and the last values.
unfoldable pub notify_loop :
    Bool → GoMap ℕ Value → GoMap ℕ Value → GoMap ℕ Value → GoMap ℕ Value × GoMap ℕ Value
notify_loop suppress [] note last = (note, last)
notify_loop suppress ((attr, value) ∷ rest) note last =
    notify_loop suppress rest
      (if bounces suppress last attr value then note else insert attr value note)
      (if bounces suppress last attr value then last else insert attr value last)

abbrev nonempty : GoMap ℕ Value → Option (GoMap ℕ Value)
nonempty [] = none
nonempty (e ∷ es) = some (e ∷ es)

-- The subscription once the coalescing window is over.
unfoldable pub flush : Subscription → Bool → ℕ → Subscription × Option (GoMap ℕ Value)
unfolding notify_loop bounces
flush s suppress now =
    let (note, last) = notify_loop suppress s.pending_changes [] s.last_values in
    (
      record s {
        last_values = last;
        pending_changes = [];
        has_changes = false;
        last_notified = now;
      },
      nonempty note,
    )

unfoldable pub get_pending_notification :
    Subscription → Bool → ℕ → Subscription × Option (GoMap ℕ Value)
unfolding flush
get_pending_notification s suppress now =
    if not s.active || not s.has_changes
    then (s, none)
    else if ltb (now - s.change_window_start) s.min_interval
    then (s, none)
    else flush s suppress now

unfoldable pub needs_heartbeat : Subscription → ℕ → Bool
needs_heartbeat s now = s.active && leb s.max_interval (now - s.last_notified)

unfoldable pub record_heartbeat : Subscription → ℕ → Subscription
record_heartbeat s now = record s { last_notified = now }

-- The loop of SetPrimingValues.
unfoldable pub store_all : GoMap ℕ Value → GoMap ℕ Value → GoMap ℕ Value
store_all [] last = last
store_all ((attr, value) ∷ rest) last = store_all rest (insert attr value last)

unfoldable pub set_priming_values : Subscription → GoMap ℕ Value → ℕ → Subscription
unfolding store_all
set_priming_values s values now = record s {
  last_values = store_all values s.last_values;
  last_notified = now;
}

unfoldable pub time_until_coalesce_expiry : Subscription → ℕ → ℕ
time_until_coalesce_expiry s now =
    if not s.has_changes then 0 else s.min_interval - (now - s.change_window_start)
