-- ===== src/Subscription/Sync.antt =====
-- A subscription (mash-go/pkg/subscription/subscription.go) and its subscriber over time.
use mash.Base.{
  ite, ℕ_discrete, ℕ, ◌≡◌, refl, sym, ap, ◌∙◌, subst, Bool, true, false, not, Option, none, some,
  List, [], ◌∷◌, Bool-cases, inl, inr, if◌then◌else◌,
}
use mash.Base.GoMap.{GoMap, nat_key, lookup, insert, Distinct, insert-Distinct, lookup-insert}
use mash.Subscription.Values.{Value}
use mash.Subscription.{
  Subscription, new, flush, get_pending_notification, record_change, store_all, set_priming_values,
  deactivate, subscribed, record_heartbeat,
}
use mash.Subscription.View.{
  receive, InSync, flush-InSync, Polled, waits, flushes, poll-Polled, lookup-store_all,
  notify_loop-Distinct,
}
use mash.Subscription.Notification.{or_else}

-- What happens to a subscription; a heartbeat that is full carries the last values.
pub data Event : Type 0 where
  primes : GoMap ℕ Value → ℕ → Event
  changes : ℕ → Value → ℕ → Event
  polls : Bool → ℕ → Event
  beats : Bool → ℕ → Event
  ends : Event

abbrev pub Pair : Type 0
Pair = Subscription × GoMap ℕ Value

unfoldable pub step : Pair → Event → Pair
step (s, view) (primes values now) = (set_priming_values s values now, receive view (some values))
step (s, view) (changes attr value now) = ((record_change s attr value now).0, view)
step (s, view) (polls suppress now) =
    let r = get_pending_notification s suppress now in (r.0, receive view r.1)
step (s, view) (beats full now) =
    (record_heartbeat s now, receive view (if full then some s.last_values else none))
step (s, view) ends = (deactivate s, view)

unfoldable pub run : Pair → List Event → Pair
run p [] = p
run p (e ∷ es) = run (step p e) es

-- Maps have no key twice, and the subscriber has the last values.
pub record Informed (s : Subscription) (view : GoMap ℕ Value) : Type 0 where
  pub pending : Distinct s.pending_changes
  pub last : Distinct s.last_values
  pub agree : InSync s view

record_change-Informed :
    (s : Subscription) (view : GoMap ℕ Value) (attr : ℕ) (value : Value) (now : ℕ)
    → Informed s view
    → Informed (record_change s attr value now).0 view
unfolding record_change
record_change-Informed s view attr value now v = elim (Bool-cases (not s.active)) [
  | inl a ↦ rw a v
  | inr a ↦ elim (Bool-cases (not (subscribed s attr))) [
    | inl b ↦ rw (a, b) v
    | inr b ↦
        rw (a, b)
          (record {
            pending = insert-Distinct attr value s.pending_changes v.pending;
            last = v.last;
            agree = v.agree;
          })
  ]
]

insert_same :
    (a : ℕ) (v : Value) (m n : GoMap ℕ Value)
    → ((k : ℕ) → lookup k m ≡ lookup k n)
    → (k : ℕ) → lookup k (insert a v m) ≡ lookup k (insert a v n)
insert_same a v m n f k =
    lookup-insert k a v m ∙ ap (ite (ℕ_discrete a k) (some v)) (f k) ∙ sym (lookup-insert k a v n)

store_all_same :
    (es m n : GoMap ℕ Value)
    → ((k : ℕ) → lookup k m ≡ lookup k n)
    → (k : ℕ) → lookup k (store_all es m) ≡ lookup k (store_all es n)
unfolding store_all
store_all_same [] m n f k = f k
store_all_same ((a, v) ∷ es) m n f k =
    store_all_same es (insert a v m) (insert a v n) (insert_same a v m n f) k

store_all-Distinct : (es m : GoMap ℕ Value) → Distinct m → Distinct (store_all es m)
unfolding store_all
store_all-Distinct [] m d = d
store_all-Distinct ((a, v) ∷ es) m d =
    store_all-Distinct es (insert a v m) (insert-Distinct a v m d)

poll-Informed :
    (s : Subscription) (view : GoMap ℕ Value) (suppress : Bool) (now : ℕ)
    → Informed s view
    → Informed
        (get_pending_notification s suppress now).0
        (receive view (get_pending_notification s suppress now).1)
poll-Informed s view suppress now v = pick (poll-Polled s suppress now)
  where
    pick :
        Polled s suppress now
        → Informed
            (get_pending_notification s suppress now).0
            (receive view (get_pending_notification s suppress now).1)
    pick (waits e) = subst (λ r. Informed r.0 (receive view r.1)) (sym e) v
    pick (flushes _ _ _ e) =
        subst (λ r. Informed r.0 (receive view r.1)) (sym e)
          (record {
            pending = unfold flush in tt;
            last =
                unfold flush in
                (notify_loop-Distinct suppress s.pending_changes [] s.last_values tt v.last).1;
            agree = flush-InSync s suppress now v.pending v.last view v.agree;
          })

or_else_same : (o : Option Value) → or_else o o ≡ o
or_else_same none = refl
or_else_same (some v) = refl

beat-Informed :
    (s : Subscription) (view : GoMap ℕ Value) (full : Bool) (now : ℕ)
    → Informed s view
    → Informed (record_heartbeat s now) (receive view (if full then some s.last_values else none))
unfolding record_heartbeat
beat-Informed s view false now v = record { pending = v.pending; last = v.last; agree = v.agree }
beat-Informed s view true now v = record {
  pending = v.pending;
  last = v.last;
  agree = λ k.
      lookup-store_all s.last_values view k v.last
      ∙ ap (or_else (lookup k s.last_values)) (v.agree k)
      ∙ or_else_same (lookup k s.last_values);
}

step-Informed : (p : Pair) (e : Event) → Informed p.0 p.1 → Informed (step p e).0 (step p e).1
unfolding step set_priming_values deactivate
step-Informed (s, view) (primes values now) v = record {
  pending = v.pending;
  last = store_all-Distinct values s.last_values v.last;
  agree = store_all_same values view s.last_values v.agree;
}
step-Informed (s, view) (changes attr value now) v = record_change-Informed s view attr value now v
step-Informed (s, view) (polls suppress now) v = poll-Informed s view suppress now v
step-Informed (s, view) (beats full now) v = beat-Informed s view full now v
step-Informed (s, view) ends v = record { pending = v.pending; last = v.last; agree = v.agree }

run-Informed : (p : Pair) (es : List Event) → Informed p.0 p.1 → Informed (run p es).0 (run p es).1
unfolding run
run-Informed p [] v = v
run-Informed p (e ∷ es) v = run-Informed (step p e) es (step-Informed p e v)

-- Whatever is recorded, polled and sent, in any order, the last values of a subscription are at any
-- time what its subscriber knows from the notifications that it got.
pub run-new-Informed :
    (id feature endpoint : ℕ) (attributes : List ℕ) (min max now : ℕ) (es : List Event)
    → let p = run (new id feature endpoint attributes min max now, []) es in Informed p.0 p.1
unfolding new
run-new-Informed id feature endpoint attributes min max now es =
    run-Informed _ es (record { pending = tt; last = tt; agree = λ k. refl })
