-- ===== src/Subscription/Pacing.antt =====
-- How often a subscription notifies (mash-go/pkg/subscription/subscription.go).
use mash.Base.{
  ◌∙◌, ◌<◌, ℕ, ◌+◌, ◌-◌, ◌≤◌, ◌≡◌, refl, sym, ap, subst, Bool, true, false, not, none, some, Option,
  is_some, none-ne-some, ◌++◌, List, [], ◌∷◌, Bool-cases, inl, inr, arith, if◌then◌else◌, All,
}
use mash.Base.GoMap.{GoMap, nat_key}
use mash.Subscription.Values.{Value}
use mash.Subscription.Sync.{Event, primes, changes, polls, beats, ends, Pair, step}
use mash.Subscription.{set_priming_values, record_heartbeat, deactivate, new}
use mash.Subscription.{Subscription, flush, get_pending_notification, record_change, subscribed}
use mash.Subscription.{needs_heartbeat, bounces, notify_loop, nonempty}
use mash.Subscription.Notification.{loop_bounce}
use mash.Subscription.View.{Polled, waits, flushes, poll-Polled}

-- The window, if one has started, started no earlier.
record Later (from interval : ℕ) (s : Subscription) : Type 0 where
  started : s.has_changes ≡ true → from ≤ s.change_window_start
  paced : s.min_interval ≡ interval

record_change-Later :
    (s : Subscription) (attr : ℕ) (value : Value) (now from interval : ℕ)
    → from ≤ now
    → Later from interval s
    → Later from interval (record_change s attr value now).0
unfolding record_change
record_change-Later s attr value now from interval h l = elim (Bool-cases (not s.active)) [
  | inl a ↦ rw a l
  | inr a ↦ elim (Bool-cases (not (subscribed s attr))) [
    | inl b ↦ rw (a, b) l
    | inr b ↦ rw (a, b) (record { started = λ _. opens s.has_changes refl; paced = l.paced })
  ]
]
  where
    opens : (b : Bool) → s.has_changes ≡ b → from ≤ (if b then s.change_window_start else now)
    opens true e = l.started e
    opens false e = h

-- The events come in the order of time, from `last` on.
abbrev pub Ordered : ℕ → List Event → Type 0
Ordered last [] = Unit
Ordered last (primes _ now ∷ es) = (last ≤ now) × Ordered now es
Ordered last (changes _ _ now ∷ es) = (last ≤ now) × Ordered now es
Ordered last (polls _ now ∷ es) = (last ≤ now) × Ordered now es
Ordered last (beats _ now ∷ es) = (last ≤ now) × Ordered now es
Ordered last (ends ∷ es) = Ordered last es

-- The time of a poll that sends a notification.
abbrev pub sent : Pair → Event → List ℕ
sent (s, view) (polls suppress now) =
    if is_some (get_pending_notification s suppress now).1 then now ∷ [] else []
sent p _ = []

unfoldable pub sent_at : Pair → List Event → List ℕ
sent_at p [] = []
sent_at p (e ∷ es) = sent p e ++ sent_at (step p e) es

-- Each comes at least the interval after the one before, the first after `from`.
abbrev pub Apart : ℕ → ℕ → List ℕ → Type 0
Apart interval from [] = Unit
Apart interval from (t ∷ ts) = (from + interval ≤ t) × Apart interval t ts

flush-Later :
    (s : Subscription) (suppress : Bool) (from now interval : ℕ)
    → s.min_interval ≡ interval
    → Later from interval (flush s suppress now).0
unfolding flush
flush-Later s suppress from now interval e = record { started = λ e. absurd (differ e); paced = e }
  where
    differ : ◌≡◌ {A = Bool} false true → ⊥
    differ p = cc

-- A poll: what it sends comes late enough, and the rest of the run goes on from there.
poll-Apart :
    (s : Subscription) (suppress : Bool) (from interval now : ℕ) (rest : List ℕ)
    (o : Option (GoMap ℕ Value))
    → Polled s suppress now
    → o ≡ (get_pending_notification s suppress now).1
    → Later from interval s
    → from ≤ now
    → ((f : ℕ)
        → f ≤ now
        → Later f interval (get_pending_notification s suppress now).0
        → Apart interval f rest)
    → Apart interval from ((if is_some o then now ∷ [] else []) ++ rest)
poll-Apart s suppress from interval now rest none (waits e) q l h k =
    k from h (subst (λ r. Later from interval r.0) (sym e) l)
poll-Apart s suppress from interval now rest (some note) (waits e) q l h k =
    absurd (none-ne-some (sym (q ∙ ap (λ r. r.1) e)))
poll-Apart s suppress from interval now rest none (flushes _ c t e) q l h k = k from h (
    subst (λ r. Later from interval r.0) (sym e) (flush-Later s suppress from now interval l.paced))
poll-Apart s suppress from interval now rest (some note) (flushes _ c t e) q l h k = (
  bound s.change_window_start (l.started c)
      (subst (λ i. i ≤ now - s.change_window_start) l.paced t),
  k now (omega arith) (
      subst (λ r. Later now interval r.0) (sym e)
        (flush-Later s suppress now now interval l.paced)),
)
  where
    bound : (w : ℕ) → from ≤ w → interval ≤ now - w → from + interval ≤ now
    bound w p q = omega (arith, h)

run-Apart :
    (es : List Event) (s : Subscription) (view : GoMap ℕ Value) (from interval last : ℕ)
    → from ≤ last
    → Later from interval s
    → Ordered last es
    → Apart interval from (sent_at (s, view) es)
unfolding sent_at step set_priming_values record_heartbeat deactivate
run-Apart [] s view from interval last h l o = tt
run-Apart (primes values now ∷ es) s view from interval last h l (le, o) =
    run-Apart es _ _ from interval now (omega arith)
      (record { started = l.started; paced = l.paced }) o
run-Apart (changes attr value now ∷ es) s view from interval last h l (le, o) =
    run-Apart es _ _ from interval now (omega arith)
      (record_change-Later s attr value now from interval (omega arith) l) o
run-Apart (polls suppress now ∷ es) s view from interval last h l (le, o) =
    poll-Apart s suppress from interval now _ (get_pending_notification s suppress now).1
      (poll-Polled s suppress now) refl l (omega arith)
      (λ f fn m. run-Apart es _ _ f interval now fn m o)
run-Apart (beats full now ∷ es) s view from interval last h l (le, o) =
    run-Apart es _ _ from interval now (omega arith)
      (record { started = l.started; paced = l.paced }) o
run-Apart (ends ∷ es) s view from interval last h l o =
    run-Apart es _ _ from interval last h (record { started = l.started; paced = l.paced }) o

-- Whatever is recorded, polled (early, in vain or with everything bounced back) and sent as a
-- heartbeat, in any order of events whose times do not run backwards, the notifications of changes of
-- a new subscription are at least its minimum interval apart, and the first comes at least so long
-- after the subscription.
pub notifications-Apart :
    (id feature endpoint : ℕ) (attributes : List ℕ) (min max now : ℕ) (es : List Event)
    → Ordered now es
    → Apart min now (sent_at (new id feature endpoint attributes min max now, []) es)
unfolding new
notifications-Apart id feature endpoint attributes min max now es o =
    run-Apart es (new id feature endpoint attributes min max now) [] now min now (omega arith)
      (record { started = λ e. absurd (differ e); paced = refl }) o
  where
    differ : ◌≡◌ {A = Bool} false true → ⊥
    differ p = cc

abbrev pub AllBounce : Bool → GoMap ℕ Value → GoMap ℕ Value → Type 0
AllBounce suppress last es = All (λ e. bounces suppress last e.0 e.1 ≡ true) es

bouncing_loop :
    (suppress : Bool) (es note last : GoMap ℕ Value)
    → AllBounce suppress last es
    → notify_loop suppress es note last ≡ (note, last)
unfolding notify_loop
bouncing_loop suppress [] note last a = refl
bouncing_loop suppress ((k, v) ∷ es) note last (b, a) =
    loop_bounce suppress k v es note last b ∙ bouncing_loop suppress es note last a

-- If every pending change of an active subscription has bounced back, a poll that is due sends
-- nothing and still counts as a notification: no heartbeat is due until the maximum interval has
-- passed from there, however long ago the subscriber was last notified.
pub silent_poll_heartbeat :
    (s : Subscription) (suppress : Bool) (now : ℕ)
    → s.active ≡ true
    → s.has_changes ≡ true
    → s.min_interval ≤ now - s.change_window_start
    → AllBounce suppress s.last_values s.pending_changes
    → let r = get_pending_notification s suppress now in
      (r.1 ≡ none)
      × ((at : ℕ) → now ≤ at → at < now + s.max_interval → needs_heartbeat r.0 at ≡ false)
unfolding get_pending_notification flush needs_heartbeat
silent_poll_heartbeat s suppress now a h t b =
    let e : get_pending_notification s suppress now ≡ flush s suppress now = ground arith in
    (
      ap (λ r. r.1) e
          ∙ ap (λ r. nonempty r.0) (bouncing_loop suppress s.pending_changes [] s.last_values b),
      λ at late early. ap (λ r. needs_heartbeat r.0 at) e ∙ ground arith,
    )
