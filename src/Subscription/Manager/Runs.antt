-- ===== src/Subscription/Manager/Runs.antt =====
-- mash-go/pkg/subscription/manager.go: what holds of the manager after every run of its methods.
use mash.Base.{
  ℕ, ◌≤◌, ◌<◌, ◌≢◌, inl, inr, refl, Bool, true, false, Option, none, some, List, [], ◌∷◌, ◌++◌, ltb,
  leb, ◌==◌, if◌then◌else◌, length, All, arith, Bool-cases, if_pos, if_neg, ℕ_discrete,
}
use mash.Base.GoMap.{
  GoMap, nat_key, lookup, insert, delete, All-insert, insert-Distinct, delete-Distinct,
  length-insert-le, length-delete-le,
}
use mash.Subscription.Values.{Value}
use mash.Subscription.{Subscription, new, set_priming_values}
use mash.Subscription.Manager.{
  Config, Manager, FeatureKey, feature_key, or_nil, Wish, admit, next_id, subscribe,
  subscribe_within, checked_intervals, remove_id, put_or_delete, unsubscribe, unsubscribe_found,
  notify_change, notify_changes, process_notifications, clear_all, set_on_notification,
  new_manager_with_config,
}
use mash.Subscription.Manager.Invariant.{
  Entry, Holds, All-imp, record_each-Holds, record_changes_each-Holds, process_each-Distinct,
  length-process_each, process_each-entries,
}
use mash.Subscription.Manager.Index.{listed-insert, listed-new, listed-remove}

abbrev pub IsValid : Manager → Type 0
IsValid m = Holds m.config m.feature_index m.subscriptions

admit-IsValid :
    (m : Manager) (w : Wish) (least greatest : ℕ) (values : GoMap ℕ Value) (now : ℕ)
    → length w.attribute_ids ≤ m.config.max_attributes_per_sub
    → length m.subscriptions < m.config.max_subscriptions
    → 0 < greatest
    → least ≤ greatest
    → IsValid m
    → IsValid (admit m w least greatest values now)
unfolding admit new set_priming_values
admit-IsValid m w least greatest values now few room pos order h =
    let id : ℕ = next_id m.id_generator in
    let k : FeatureKey = (w.endpoint_id, w.feature_id) in
    record {
      distinct = insert-Distinct id _ m.subscriptions h.distinct;
      bounded = omega (arith, room, length-insert-le id _ m.subscriptions);
      entries =
          All-insert
            (Entry m.config
              (insert k (or_nil (lookup k m.feature_index) ++ id ∷ []) m.feature_index))
            id _ m.subscriptions (refl, refl, pos, order, few, listed-new id k m.feature_index)
            (All-imp (Entry m.config m.feature_index)
              (Entry m.config
                (insert k (or_nil (lookup k m.feature_index) ++ id ∷ []) m.feature_index))
              m.subscriptions
              (λ e p. (
                p.0,
                p.1,
                p.2,
                p.3,
                p.4,
                listed-insert e.0 id (e.1.endpoint_id, e.1.feature_id) k m.feature_index p.5,
              ))
              h.entries);
    }

-- The intervals that pass the checks.
abbrev Fits : Option (ℕ × ℕ) → Type 0
Fits none = Unit
Fits (some (least, greatest)) = (0 < greatest) × (least ≤ greatest)

swapped-Fits :
    (auto : Bool) (least greatest : ℕ)
    → greatest < least
    → Fits (if auto then some (greatest, least) else none)
swapped-Fits true least greatest h = (omega arith, omega arith)
swapped-Fits false least greatest h = tt

checked_intervals-Fits :
    (auto : Bool) (least greatest : ℕ) → Fits (checked_intervals auto least greatest)
unfolding checked_intervals
checked_intervals-Fits auto least greatest = elim (Bool-cases (greatest == 0)) [
  | inl z ↦ rw z tt
  | inr p ↦ elim (Bool-cases (ltb greatest least)) [
    | inl s ↦ rw (p, s) (swapped-Fits auto least greatest (ground arith))
    | inr o ↦ rw (p, o) (ground arith, ground arith)
  ]
]

subscribe_within-IsValid :
    (o : Option (ℕ × ℕ)) (m : Manager) (w : Wish) (values : GoMap ℕ Value) (now : ℕ)
    → Fits o
    → IsValid m
    → IsValid (subscribe_within o m w values now).0
unfolding subscribe_within
subscribe_within-IsValid none m w values now f h = h
subscribe_within-IsValid (some (least, greatest)) m w values now f h =
    elim (Bool-cases (ltb m.config.max_attributes_per_sub (length w.attribute_ids))) [
      | inl many ↦ rw many h
      | inr few ↦ elim (Bool-cases (leb m.config.max_subscriptions (length m.subscriptions))) [
        | inl full ↦ rw (few, full) h
        | inr room ↦
            rw (few, room)
              (admit-IsValid m w least greatest values now (ground arith) (ground arith) f.0 f.1 h)
      ]
    ]

delete_others :
    (P : ℕ × Subscription → Type 0) (k : ℕ) (m : GoMap ℕ Subscription)
    → All P m
    → All (λ e. P e × (e.0 ≢ k)) (delete k m)
unfolding delete
delete_others P k [] a = tt
delete_others P k ((j, s) ∷ m) a = elim (ℕ_discrete j k) [
  | yes e ↦ rw (if_pos _ e) (delete_others P k m a.1)
  | no n ↦ rw (if_neg _ n) ((a.0, n), delete_others P k m a.1)
]

unsubscribe_found-IsValid :
    (o : Option Subscription) (m : Manager) (id : ℕ)
    → IsValid m
    → IsValid (unsubscribe_found o m id).0
unfolding unsubscribe_found
unsubscribe_found-IsValid none m id h = h
unsubscribe_found-IsValid (some s) m id h =
    let k : FeatureKey = (s.endpoint_id, s.feature_id) in
    let index : GoMap FeatureKey (List ℕ) =
      put_or_delete k (remove_id id (or_nil (lookup k m.feature_index))) m.feature_index in
    record {
      distinct = delete-Distinct id m.subscriptions h.distinct;
      bounded = omega (arith, h.bounded, length-delete-le id m.subscriptions);
      entries =
          All-imp (λ e. Entry m.config m.feature_index e × (e.0 ≢ id)) (Entry m.config index)
            (delete id m.subscriptions)
            (λ e p. (
              p.0.0,
              p.0.1,
              p.0.2,
              p.0.3,
              p.0.4,
              listed-remove e.0 id (e.1.endpoint_id, e.1.feature_id) k m.feature_index p.1 p.0.5,
            ))
            (delete_others (Entry m.config m.feature_index) id m.subscriptions h.entries);
    }

process_notifications-IsValid :
    (m : Manager) (now : ℕ) → IsValid m → IsValid (process_notifications m now).0
unfolding process_notifications
process_notifications-IsValid m now h = elim (Bool-cases m.on_notification) [
  | inl set ↦ rw set record {
    distinct = process_each-Distinct m.config m.feature_index m.subscriptions now h.distinct;
    bounded =
        omega (arith, h.bounded, length-process_each m.config m.feature_index m.subscriptions now);
    entries = process_each-entries m.config m.feature_index m.subscriptions now h.entries;
  }
  | inr off ↦ rw off h
]

pub data Event : Type 0 where
  subscribed : Wish → GoMap ℕ Value → ℕ → Event
  unsubscribed : ℕ → Event
  changed : ℕ → ℕ → ℕ → Value → ℕ → Event
  changed_all : ℕ → ℕ → GoMap ℕ Value → ℕ → Event
  processed : ℕ → Event
  cleared : Event
  callback_set : Bool → Event

unfoldable pub step : Manager → Event → Manager
unfolding subscribe unsubscribe notify_change notify_changes process_notifications clear_all
    set_on_notification
step m (subscribed w values now) = (subscribe m w values now).0
step m (unsubscribed id) = (unsubscribe m id).0
step m (changed endpoint_id feature_id attr value now) =
    notify_change m endpoint_id feature_id attr value now
step m (changed_all endpoint_id feature_id changes now) =
    notify_changes m endpoint_id feature_id changes now
step m (processed now) = (process_notifications m now).0
step m cleared = clear_all m
step m (callback_set cb) = set_on_notification m cb

unfoldable pub run : Manager → List Event → Manager
unfolding step
run m [] = m
run m (e ∷ es) = run (step m e) es

step-IsValid : (m : Manager) (e : Event) → IsValid m → IsValid (step m e)
unfolding step notify_change notify_changes clear_all set_on_notification subscribe unsubscribe
step-IsValid m (subscribed w values now) h =
    subscribe_within-IsValid
      (checked_intervals m.config.auto_correct_intervals w.min_interval w.max_interval) m w values
      now (checked_intervals-Fits m.config.auto_correct_intervals w.min_interval w.max_interval) h
step-IsValid m (unsubscribed id) h = unsubscribe_found-IsValid (lookup id m.subscriptions) m id h
step-IsValid m (changed endpoint_id feature_id attr value now) h =
    record_each-Holds m.config m.feature_index
      (or_nil (lookup (endpoint_id, feature_id) m.feature_index)) attr value now m.subscriptions h
step-IsValid m (changed_all endpoint_id feature_id changes now) h =
    record_changes_each-Holds m.config m.feature_index
      (or_nil (lookup (endpoint_id, feature_id) m.feature_index)) changes now m.subscriptions h
step-IsValid m (processed now) h = process_notifications-IsValid m now h
step-IsValid m cleared h = record { distinct = tt; bounded = omega arith; entries = tt }
step-IsValid m (callback_set cb) h = h

run-IsValid : (m : Manager) (es : List Event) → IsValid m → IsValid (run m es)
unfolding run
run-IsValid m [] h = h
run-IsValid m (e ∷ es) h = run-IsValid (step m e) es (step-IsValid m e h)

new-IsValid : (c : Config) (g : ℕ) → IsValid (new_manager_with_config c g)
unfolding new_manager_with_config
new-IsValid c g = record { distinct = tt; bounded = omega arith; entries = tt }

-- No run of the methods leaves more subscriptions than the limit, an id twice, or a subscription that
-- is not active, has intervals or attributes beyond the limits, or is missing from the index.
pub run-new-IsValid :
    (c : Config) (g : ℕ) (es : List Event) → IsValid (run (new_manager_with_config c g) es)
run-new-IsValid c g es = run-IsValid (new_manager_with_config c g) es (new-IsValid c g)
