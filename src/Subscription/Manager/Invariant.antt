-- ===== src/Subscription/Manager/Invariant.antt =====
-- mash-go/pkg/subscription/manager.go: what each subscription that the manager holds satisfies, and that
-- the loops over the subscriptions keep it.
use mash.Base.{
  ℕ, ◌≤◌, ◌<◌, ◌≡◌, refl, Bool, true, Option, none, some, List, [], ◌∷◌, length, All, arith,
}
use mash.Base.GoMap.{
  GoMap, nat_key, lookup, insert, Distinct, Absent, All-insert, All-lookup, insert-Distinct,
}
use mash.Subscription.Values.{Value}
use mash.Subscription.{Subscription, contains, record_change, get_pending_notification, flush}
use mash.Subscription.Manager.{
  Config, FeatureKey, feature_key, or_nil, record_for, record_each, record_changes,
  record_changes_each, process_one, beat, process_each,
}

-- A subscription that the manager holds: under its id, active, with intervals that fit, no more
-- attributes than allowed, and in the index under its endpoint and feature.
abbrev pub Entry : Config → GoMap FeatureKey (List ℕ) → ℕ × Subscription → Type 0
Entry c index e =
    (e.1.id ≡ e.0)
    × (e.1.active ≡ true)
    × (0 < e.1.max_interval)
    × (e.1.min_interval ≤ e.1.max_interval)
    × (length e.1.attribute_ids ≤ c.max_attributes_per_sub)
    × (contains e.0 (or_nil (lookup (e.1.endpoint_id, e.1.feature_id) index)) ≡ true)

-- What the loops over the subscriptions leave alone.
record Kept (s t : Subscription) : Type 0 where
  same_id : t.id ≡ s.id
  same_active : t.active ≡ s.active
  same_endpoint : t.endpoint_id ≡ s.endpoint_id
  same_feature : t.feature_id ≡ s.feature_id
  same_attributes : t.attribute_ids ≡ s.attribute_ids
  same_min : t.min_interval ≡ s.min_interval
  same_max : t.max_interval ≡ s.max_interval

record_change-Kept :
    (s : Subscription) (attr : ℕ) (value : Value) (now : ℕ)
    → Kept s (record_change s attr value now).0
unfolding record_change
record_change-Kept s attr value now = ground arith

poll-Kept :
    (s : Subscription) (suppress : Bool) (now : ℕ)
    → Kept s (get_pending_notification s suppress now).0
unfolding get_pending_notification flush
poll-Kept s suppress now = ground arith

process_one-Kept : (c : Config) (s : Subscription) (now : ℕ) → Kept s (process_one c s now).0
unfolding process_one beat
process_one-Kept c s now = ground (arith, poll-Kept s c.suppress_bounce_back now)

Kept-Entry :
    (c : Config) (index : GoMap FeatureKey (List ℕ)) (id : ℕ) (s t : Subscription)
    → Kept s t
    → Entry c index (id, s)
    → Entry c index (id, t)
Kept-Entry c index id s t k e = (
  omega (arith, k.same_id, e.0),
  rw k.same_active e.1,
  rw k.same_max (e.2),
  rw (k.same_min, k.same_max) (e.3),
  rw k.same_attributes (e.4),
  rw (k.same_endpoint, k.same_feature) e.5,
)

pub All-imp {ℓ κ} :
    {A : Type ℓ} (P Q : A → Type κ) (xs : List A) → ((x : A) → P x → Q x) → All P xs → All Q xs
All-imp P Q [] f a = tt
All-imp P Q (x ∷ xs) f a = (f x a.0, All-imp P Q xs f a.1)

length-insert_old :
    (k : ℕ) (v w : Subscription) (m : GoMap ℕ Subscription)
    → lookup k m ≡ some w
    → length (insert k v m) ≡ length m
unfolding lookup insert
length-insert_old k v w [] h = cc
length-insert_old k v w ((j, u) ∷ m) h = ground (arith, length-insert_old k v w m)

-- No id twice, no more subscriptions than allowed, and each as Entry says.
pub record Holds (c : Config) (index : GoMap FeatureKey (List ℕ)) (subs : GoMap ℕ Subscription)
    : Type 0 where
  pub distinct : Distinct subs
  pub bounded : length subs ≤ c.max_subscriptions
  pub entries : All (Entry c index) subs

module _ (c : Config) (index : GoMap FeatureKey (List ℕ)) where
  record_for-Holds :
      (o : Option Subscription) (id attr : ℕ) (value : Value) (now : ℕ)
      (subs : GoMap ℕ Subscription)
      → lookup id subs ≡ o
      → Holds c index subs
      → Holds c index (record_for o id attr value now subs)
  unfolding record_for
  record_for-Holds none id attr value now subs e h = h
  record_for-Holds (some s) id attr value now subs e h = record {
    distinct = insert-Distinct id (record_change s attr value now).0 subs h.distinct;
    bounded =
        omega (arith, h.bounded, length-insert_old id (record_change s attr value now).0 s subs e);
    entries =
        All-insert (Entry c index) id (record_change s attr value now).0 subs
          (Kept-Entry c index id s (record_change s attr value now).0
            (record_change-Kept s attr value now)
            (All-lookup (Entry c index) id s subs h.entries e))
          h.entries;
  }

  pub record_each-Holds :
      (ids : List ℕ) (attr : ℕ) (value : Value) (now : ℕ) (subs : GoMap ℕ Subscription)
      → Holds c index subs
      → Holds c index (record_each ids attr value now subs)
  unfolding record_each
  record_each-Holds [] attr value now subs h = h
  record_each-Holds (id ∷ ids) attr value now subs h =
      record_each-Holds ids attr value now (record_for (lookup id subs) id attr value now subs)
        (record_for-Holds (lookup id subs) id attr value now subs refl h)

  record_changes-Holds :
      (changes : GoMap ℕ Value) (id now : ℕ) (subs : GoMap ℕ Subscription)
      → Holds c index subs
      → Holds c index (record_changes changes id now subs)
  unfolding record_changes
  record_changes-Holds [] id now subs h = h
  record_changes-Holds ((attr, value) ∷ changes) id now subs h =
      record_changes-Holds changes id now (record_for (lookup id subs) id attr value now subs)
        (record_for-Holds (lookup id subs) id attr value now subs refl h)

  pub record_changes_each-Holds :
      (ids : List ℕ) (changes : GoMap ℕ Value) (now : ℕ) (subs : GoMap ℕ Subscription)
      → Holds c index subs
      → Holds c index (record_changes_each ids changes now subs)
  unfolding record_changes_each
  record_changes_each-Holds [] changes now subs h = h
  record_changes_each-Holds (id ∷ ids) changes now subs h =
      record_changes_each-Holds ids changes now (record_changes changes id now subs)
        (record_changes-Holds changes id now subs h)

  process_each-Absent :
      (k : ℕ) (subs : GoMap ℕ Subscription) (now : ℕ)
      → Absent k subs
      → Absent k (process_each c subs now).0
  unfolding process_each
  process_each-Absent k [] now a = tt
  process_each-Absent k ((id, s) ∷ subs) now a = (a.0, process_each-Absent k subs now a.1)

  pub process_each-Distinct :
      (subs : GoMap ℕ Subscription) (now : ℕ) → Distinct subs → Distinct (process_each c subs now).0
  unfolding process_each
  process_each-Distinct [] now d = tt
  process_each-Distinct ((id, s) ∷ subs) now d =
      (process_each-Absent id subs now d.0, process_each-Distinct subs now d.1)

  pub length-process_each :
      (subs : GoMap ℕ Subscription) (now : ℕ) → length (process_each c subs now).0 ≡ length subs
  unfolding process_each
  length-process_each [] now = refl
  length-process_each ((id, s) ∷ subs) now = omega (arith, length-process_each subs now)

  pub process_each-entries :
      (subs : GoMap ℕ Subscription) (now : ℕ)
      → All (Entry c index) subs
      → All (Entry c index) (process_each c subs now).0
  unfolding process_each
  process_each-entries [] now a = tt
  process_each-entries ((id, s) ∷ subs) now a = (
    Kept-Entry c index id s (process_one c s now).0 (process_one-Kept c s now) a.0,
    process_each-entries subs now a.1,
  )
