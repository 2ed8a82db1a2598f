-- ===== src/Subscription/View.antt =====
-- What a subscriber knows (mash-go/pkg/subscription/subscription.go): the last values are what it was
-- told, and after a notification it is up to date.
use mash.Base.{
  ℕ, ◌-◌, ◌≤◌, ◌≡◌, refl, sym, ap, ◌∙◌, ◌⊎◌, subst, Bool, true, false, ◌&&◌, ◌||◌, not, Option,
  none, some, [], ◌∷◌, Bool-cases, inl, inr, ℕ_discrete, if◌then◌else◌, arith, ltb,
}
use mash.Base.GoMap.{
  GoMap, nat_key, lookup, insert, Distinct, lookup-Absent, lookup-insert_self, lookup-insert_ne,
  insert-Distinct,
}
use mash.Subscription.Values.{Value, values_equal}
use mash.Subscription.{
  Subscription, bounces, same_as, notify_loop, flush, get_pending_notification, nonempty, store_all,
}
use mash.Subscription.Notification.{
  due, or_else, notify_loop-Overwritten, lookup_here, lookup_there,
}

-- The subscriber stores what a notification holds.
abbrev pub receive : GoMap ℕ Value → Option (GoMap ℕ Value) → GoMap ℕ Value
receive view none = view
receive view (some note) = store_all note view

abbrev pub InSync : Subscription → GoMap ℕ Value → Type 0
InSync s view = (k : ℕ) → lookup k view ≡ lookup k s.last_values

pub lookup-store_all :
    (es view : GoMap ℕ Value) (k : ℕ)
    → Distinct es
    → lookup k (store_all es view) ≡ or_else (lookup k es) (lookup k view)
unfolding store_all
lookup-store_all [] view k d = unfold lookup in refl
lookup-store_all ((a, v) ∷ es) view k (n, d) = elim (ℕ_discrete a k) [
  | yes e ↦
      subst
        (λ j.
          lookup j (store_all es (insert a v view))
          ≡ or_else (lookup j ((a, v) ∷ es)) (lookup j view))
        e (here (lookup-store_all es (insert a v view) a d))
  | no m ↦
      lookup-store_all es (insert a v view) k d
      ∙ ap (or_else (lookup k es)) (lookup-insert_ne k a v view m)
      ∙ ap (λ o. or_else o (lookup k view)) (sym (lookup_there k a v es m))
]
  where
    here :
        lookup a (store_all es (insert a v view))
          ≡ or_else (lookup a es) (lookup a (insert a v view))
        → lookup a (store_all es (insert a v view))
          ≡ or_else (lookup a ((a, v) ∷ es)) (lookup a view)
    here ih =
        ih
        ∙ ap (λ o. or_else o (lookup a (insert a v view))) (lookup-Absent a es n)
        ∙ lookup-insert_self a v view
        ∙ ap (λ o. or_else o (lookup a view)) (sym (lookup_here a v es))

pub notify_loop-Distinct :
    (suppress : Bool) (p note last : GoMap ℕ Value)
    → Distinct note
    → Distinct last
    → Distinct (notify_loop suppress p note last).0 × Distinct (notify_loop suppress p note last).1
unfolding notify_loop
notify_loop-Distinct suppress [] note last d e = (d, e)
notify_loop-Distinct suppress ((a, v) ∷ p) note last d e =
    notify_loop-Distinct suppress p _ _ (pick (bounces suppress last a v) note d)
      (pick (bounces suppress last a v) last e)
  where
    pick : (b : Bool) (m : GoMap ℕ Value) → Distinct m → Distinct (if b then m else insert a v m)
    pick true m d = d
    pick false m d = insert-Distinct a v m d

receive-nonempty : (view note : GoMap ℕ Value) → receive view (nonempty note) ≡ store_all note view
unfolding store_all
receive-nonempty view [] = refl
receive-nonempty view (e ∷ es) = refl

-- What the subscriber has of an attribute after a flush.
abbrev afterwards : Subscription → Bool → ℕ → Option Value
afterwards s suppress k =
    or_else (due suppress s.last_values k (lookup k s.pending_changes)) (lookup k s.last_values)

lookup_nil : (k : ℕ) → lookup {V = Value} k [] ≡ none
unfolding lookup
lookup_nil k = refl

or_else-none : (o : Option Value) → or_else o none ≡ o
or_else-none none = refl
or_else-none (some v) = refl

pub flush_note :
    (s : Subscription) (suppress : Bool)
    → Distinct s.pending_changes
    → (k : ℕ)
    → lookup k (notify_loop suppress s.pending_changes [] s.last_values).0
      ≡ due suppress s.last_values k (lookup k s.pending_changes)
flush_note s suppress d k =
    (notify_loop-Overwritten suppress s.pending_changes [] s.last_values k d).0
    ∙ ap (or_else (due suppress s.last_values k (lookup k s.pending_changes))) (lookup_nil k)
    ∙ or_else-none _

module _ (s : Subscription) (suppress : Bool) (now : ℕ) (d : Distinct s.pending_changes)
    (e : Distinct s.last_values) where
  abbrev loop : GoMap ℕ Value × GoMap ℕ Value
  loop = notify_loop suppress s.pending_changes [] s.last_values

  flush_view :
      (view : GoMap ℕ Value) (k : ℕ)
      → InSync s view
      → lookup k (receive view (flush s suppress now).1) ≡ afterwards s suppress k
  unfolding flush
  flush_view view k i =
      ap (lookup k) (receive-nonempty view loop.0)
      ∙ lookup-store_all loop.0 view k
          (notify_loop-Distinct suppress s.pending_changes [] s.last_values tt e).0
      ∙ ap (λ o. or_else o (lookup k view)) (flush_note s suppress d k)
      ∙ ap (or_else (due suppress s.last_values k (lookup k s.pending_changes))) (i k)

  pub flush-InSync :
      (view : GoMap ℕ Value)
      → InSync s view
      → InSync (flush s suppress now).0 (receive view (flush s suppress now).1)
  unfolding flush
  flush-InSync view i k =
      flush_view view k i
      ∙ sym (notify_loop-Overwritten suppress s.pending_changes [] s.last_values k d).1

-- What a due poll of the subscription leaves the subscriber with.
abbrev pub UpToDate : GoMap ℕ Value → GoMap ℕ Value → Type 0
UpToDate pending view =
    (k : ℕ) (v : Value)
    → lookup k pending ≡ some v
    → (w : Value) × (lookup k view ≡ some w) × ((w ≡ v) ⊎ (values_equal w v ≡ true))

bounced_value :
    (o : Option Value) (suppress : Bool) (v : Value)
    → (suppress && same_as o v) ≡ true
    → (w : Value) × (o ≡ some w) × (values_equal w v ≡ true)
bounced_value none true v b = absurd (differ b)
  where
    differ : ◌≡◌ {A = Bool} false true → ⊥
    differ p = cc
bounced_value none false v b = absurd (differ b)
  where
    differ : ◌≡◌ {A = Bool} false true → ⊥
    differ p = cc
bounced_value (some w) true v b = (w, refl, b)
bounced_value (some w) false v b = absurd (differ b)
  where
    differ : ◌≡◌ {A = Bool} false true → ⊥
    differ p = cc

afterwards_current :
    (s : Subscription) (suppress : Bool) (k : ℕ) (v : Value)
    → lookup k s.pending_changes ≡ some v
    → (w : Value) × (afterwards s suppress k ≡ some w) × ((w ≡ v) ⊎ (values_equal w v ≡ true))
unfolding bounces
afterwards_current s suppress k v e = elim (Bool-cases (bounces suppress s.last_values k v)) [
  | inr b ↦ (v, shown (some v) (ap (λ t. if t then none else some v) b), inl refl)
  | inl b ↦
      let (w, f, q) = bounced_value (lookup k s.last_values) suppress v b in
      (w, shown none (ap (λ t. if t then none else some v) b) ∙ f, inr q)
]
  where
    shown :
        (o : Option Value)
        → due suppress s.last_values k (some v) ≡ o
        → afterwards s suppress k ≡ or_else o (lookup k s.last_values)
    shown o q =
        ap (λ x. or_else (due suppress s.last_values k x) (lookup k s.last_values)) e
        ∙ ap (λ x. or_else x (lookup k s.last_values)) q

module _ (s : Subscription) (suppress : Bool) (now : ℕ) where
  -- A poll that sends nothing leaves the subscription as it is; any other is a flush.
  pub data Polled : Type 0 where
    waits : get_pending_notification s suppress now ≡ (s, none) → Polled
    flushes :
        s.active ≡ true
        → s.has_changes ≡ true
        → s.min_interval ≤ now - s.change_window_start
        → get_pending_notification s suppress now ≡ flush s suppress now
        → Polled

  pub poll-Polled : Polled
  unfolding get_pending_notification
  poll-Polled = elim (Bool-cases (not s.active || not s.has_changes)) [
    | inl b ↦ waits (rw b refl)
    | inr b ↦ elim (Bool-cases (ltb (now - s.change_window_start) s.min_interval)) [
      | inl t ↦ waits (rw (b, t) refl)
      | inr t ↦ flushes (ground arith) (ground arith) (ground arith) (rw (b, t) refl)
    ]
  ]

-- If a subscriber has the last values of an active subscription, then after a poll that is due it
-- has the latest value of every attribute that changed, or one that valuesEqual takes for it,
-- whatever came in between.
pub poll-UpToDate :
    (s : Subscription) (suppress : Bool) (now : ℕ) (view : GoMap ℕ Value)
    → Distinct s.pending_changes
    → Distinct s.last_values
    → InSync s view
    → s.active ≡ true
    → s.has_changes ≡ true
    → s.min_interval ≤ now - s.change_window_start
    → UpToDate s.pending_changes (receive view (get_pending_notification s suppress now).1)
unfolding get_pending_notification
poll-UpToDate s suppress now view d l i a h t k v e =
    let due_now : get_pending_notification s suppress now ≡ flush s suppress now = ground arith in
    let (w, f, q) = afterwards_current s suppress k v e in
    (
      w,
      ap (λ r. lookup k (receive view r.1)) due_now ∙ flush_view s suppress now d l view k i ∙ f,
      q,
    )
