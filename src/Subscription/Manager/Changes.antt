-- ===== src/Subscription/Manager/Changes.antt =====
-- mash-go/pkg/subscription/manager.go: a change reaches every subscription that wants it.
use mathlib.Core.Option.{some-injective}
use mash.Base.{
  ap, ◌-◌, if◌then◌else◌, ◌≤◌, ℕ, ◌≡◌, ◌≢◌, refl, sym, subst, ◌∙◌, true, Option, none, some, List,
  [], ◌∷◌, arith, ℕ_discrete, none-ne-some,
}
use mash.Base.GoMap.{
  Distinct, insert-Distinct, GoMap, nat_key, lookup, lookup-insert_self, lookup-insert_ne,
}
use mash.Subscription.Values.{Value}
use mash.Subscription.{Subscription, contains, subscribed, record_change}
use mash.Subscription.Manager.{Manager, feature_key, or_nil, record_for, record_each, notify_change}
use mash.Subscription.Manager.Invariant.{Entry}

-- The change waits for the next notification.
abbrev pub IsPending : ℕ → Value → Subscription → Type 0
IsPending attr value s = (lookup attr s.pending_changes ≡ some value) × (s.has_changes ≡ true)

abbrev Wants : ℕ → Subscription → Type 0
Wants attr s = (s.active ≡ true) × (subscribed s attr ≡ true)

-- When the window of a change that comes now has started.
abbrev pub window_start : Subscription → ℕ → ℕ
window_start s now = if s.has_changes then s.change_window_start else now

-- The subscription `t` asks for the attribute and is `s` but for changes that came now.
pub record Near (attr now : ℕ) (s t : Subscription) : Type 0 where
  pub wants : Wants attr t
  pub same_id : t.id ≡ s.id
  pub same_last : t.last_values ≡ s.last_values
  pub same_interval : t.min_interval ≡ s.min_interval
  pub same_window : window_start t now ≡ window_start s now
  pub no_twice : Distinct t.pending_changes

record_change-IsPending :
    (s : Subscription) (attr : ℕ) (value : Value) (now : ℕ)
    → Wants attr s
    → IsPending attr value (record_change s attr value now).0
unfolding record_change
record_change-IsPending s attr value now w =
    rw (w.0, w.1) (lookup-insert_self attr value s.pending_changes, refl)

record_change-Near :
    (s t : Subscription) (attr : ℕ) (value : Value) (now : ℕ)
    → Near attr now s t
    → Near attr now s (record_change t attr value now).0
unfolding record_change
record_change-Near s t attr value now n =
    rw (n.wants.0, n.wants.1)
      (record {
        wants = (refl, n.wants.1);
        same_id = n.same_id;
        same_last = n.same_last;
        same_interval = n.same_interval;
        same_window = n.same_window;
        no_twice = insert-Distinct attr value t.pending_changes n.no_twice;
      })

-- A subscription under the id with the property.
abbrev pub At : ℕ → (Subscription → Type 0) → GoMap ℕ Subscription → Type 0
At id P subs = (s : Subscription) × (lookup id subs ≡ some s) × P s

module _ (id attr : ℕ) (value : Value) (now : ℕ) (first : Subscription) where
  abbrev Done : Subscription → Type 0
  Done s = IsPending attr value s × Near attr now first s

  record_for_self :
      (o : Option Subscription) (s : Subscription) (subs : GoMap ℕ Subscription)
      → o ≡ some s
      → Near attr now first s
      → At id Done (record_for o id attr value now subs)
  unfolding record_for
  record_for_self none s subs e w = absurd (none-ne-some e)
  record_for_self (some t) s subs e w =
      let near : Near attr now first t =
        subst (Near attr now first) (some-injective s t (sym e)) w in
      (
        (record_change t attr value now).0,
        lookup-insert_self id (record_change t attr value now).0 subs,
        (
          record_change-IsPending t attr value now near.wants,
          record_change-Near first t attr value now near,
        ),
      )

  record_for_other :
      (o : Option Subscription) (j : ℕ) (subs : GoMap ℕ Subscription)
      → j ≢ id
      → lookup id (record_for o j attr value now subs) ≡ lookup id subs
  unfolding record_for
  record_for_other none j subs n = refl
  record_for_other (some t) j subs n =
      lookup-insert_ne id j (record_change t attr value now).0 subs n

  -- The rest of the loop keeps the change.
  record_each_stays :
      (ids : List ℕ) (subs : GoMap ℕ Subscription)
      → At id Done subs
      → At id Done (record_each ids attr value now subs)
  unfolding record_each
  record_each_stays [] subs a = a
  record_each_stays (j ∷ ids) subs (s, e, d) =
      record_each_stays ids (record_for (lookup j subs) j attr value now subs)
        (here j (ℕ_discrete j id) subs s e d)
    where
      here :
          (j : ℕ) (c : Dec (j ≡ id)) (subs : GoMap ℕ Subscription) (s : Subscription)
          → lookup id subs ≡ some s
          → Done s
          → At id Done (record_for (lookup j subs) j attr value now subs)
      here j (yes p) subs s e d =
          subst (λ k. At id Done (record_for (lookup k subs) k attr value now subs)) (sym p)
            (record_for_self (lookup id subs) s subs e d.1)
      here j (no n) subs s e d = (s, record_for_other (lookup j subs) j subs n ∙ e, d)

  record_each_reaches :
      (ids : List ℕ) (subs : GoMap ℕ Subscription)
      → contains id ids ≡ true
      → At id (Near attr now first) subs
      → At id Done (record_each ids attr value now subs)
  unfolding record_each
  record_each_reaches [] subs c a = cc
  record_each_reaches (j ∷ ids) subs c (s, e, w) = elim (ℕ_discrete j id) [
    | yes p ↦ record_each_stays ids (record_for (lookup j subs) j attr value now subs) (
        subst (λ k. At id Done (record_for (lookup k subs) k attr value now subs)) (sym p)
          (record_for_self (lookup id subs) s subs e w))
    | no n ↦
        record_each_reaches ids (record_for (lookup j subs) j attr value now subs) (ground arith)
          (s, record_for_other (lookup j subs) j subs n ∙ e, w)
  ]

-- A change that is pending is due once its window is over.
pub due-Near :
    (attr now later : ℕ) (s t : Subscription)
    → t.has_changes ≡ true
    → Near attr now s t
    → s.min_interval ≤ later - window_start s now
    → t.min_interval ≤ later - t.change_window_start
due-Near attr now later s t h n le =
    let start : t.change_window_start ≡ window_start s now =
      sym (ap (λ b. if b then t.change_window_start else now) h) ∙ n.same_window in
    rw (n.same_interval, start) le

-- The subscription after NotifyChange.
pub change_reaches :
    (m : Manager) (attr : ℕ) (value : Value) (now id : ℕ) (s : Subscription)
    → Entry m.config m.feature_index (id, s)
    → lookup id m.subscriptions ≡ some s
    → subscribed s attr ≡ true
    → Distinct s.pending_changes
    → At id
        (λ t. IsPending attr value t × Near attr now s t)
        (notify_change m s.endpoint_id s.feature_id attr value now).subscriptions
unfolding notify_change
change_reaches m attr value now id s held e w d =
    record_each_reaches id attr value now s
      (or_nil (lookup (s.endpoint_id, s.feature_id) m.feature_index)) m.subscriptions held.5
      (
        s,
        e,
        record {
          wants = (held.1, w);
          same_id = refl;
          same_last = refl;
          same_interval = refl;
          same_window = refl;
          no_twice = d;
        },
      )
