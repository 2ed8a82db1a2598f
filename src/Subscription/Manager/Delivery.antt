-- ===== src/Subscription/Manager/Delivery.antt =====
-- mash-go/pkg/subscription/manager.go: ProcessNotifications sends a change that is pending and due.
use mathlib.Core.Option.{some-injective}
use mash.Base.{
  ap, inr, ◌++◌, ◌-◌, if◌then◌else◌, if_neg, inl, ◌≤◌, ◌⊎◌, false, if_pos, ℕ, ◌≡◌, refl, sym, subst,
  ◌∙◌, true, none, some, List, [], ◌∷◌, arith, ℕ_discrete, none-ne-some,
}
use mash.Base.GoMap.{Distinct, GoMap, nat_key, lookup, All-lookup}
use mash.Subscription.Values.{Value}
use mash.Subscription.Notification.{due}
use mash.Subscription.View.{flush_note}
use mash.Subscription.{
  notify_loop, flush, bounces, get_pending_notification, nonempty, Subscription, subscribed,
}
use mash.Subscription.Manager.{
  Notification, change_note, process_each, process_notifications, process_one, Config, Manager,
  feature_key, notify_change, new_manager_with_config,
}
use mash.Subscription.Manager.Invariant.{Entry}
use mash.Subscription.Manager.Runs.{Event, run, run-new-IsValid}
use mash.Subscription.Manager.Changes.{IsPending, window_start, due-Near, change_reaches}

-- One of the notifications is of the subscription and tells of a change to the value.
abbrev pub Tells : ℕ → ℕ → Value → List Notification → Type 0
Tells id attr value [] = ⊥
Tells id attr value (n ∷ ns) =
    ((n.subscription_id ≡ id)
      × (n.is_priming ≡ false)
      × (n.is_heartbeat ≡ false)
      × (lookup attr n.attributes ≡ some value))
    ⊎ Tells id attr value ns

Tells-append :
    (id attr : ℕ) (value : Value) (ns ms : List Notification)
    → Tells id attr value ns
    → Tells id attr value (ns ++ ms)
Tells-append id attr value [] ms h = absurd h
Tells-append id attr value (n ∷ ns) ms (inl h) = inl h
Tells-append id attr value (n ∷ ns) ms (inr h) = inr (Tells-append id attr value ns ms h)

append-Tells :
    (id attr : ℕ) (value : Value) (ns ms : List Notification)
    → Tells id attr value ms
    → Tells id attr value (ns ++ ms)
append-Tells id attr value [] ms h = h
append-Tells id attr value (n ∷ ns) ms h = inr (append-Tells id attr value ns ms h)

change_note-Tells :
    (s : Subscription) (attr : ℕ) (value : Value) (now : ℕ) (note : GoMap ℕ Value)
    → lookup attr note ≡ some value
    → Tells s.id attr value (change_note s (nonempty note) now)
unfolding lookup
change_note-Tells s attr value now [] e = absurd (none-ne-some e)
change_note-Tells s attr value now (x ∷ note) e = inl (refl, refl, refl, e)

-- A round for a subscription that is due and has the value pending.
process_one-Tells :
    (c : Config) (s : Subscription) (attr : ℕ) (value : Value) (now : ℕ)
    → IsPending attr value s
    → s.active ≡ true
    → Distinct s.pending_changes
    → bounces c.suppress_bounce_back s.last_values attr value ≡ false
    → s.min_interval ≤ now - s.change_window_start
    → Tells s.id attr value (process_one c s now).1
unfolding process_one get_pending_notification flush
process_one-Tells c s attr value now (e, h) a d b t =
    let due_now : get_pending_notification s c.suppress_bounce_back now
        ≡ flush s c.suppress_bounce_back now =
      ground arith in
    let note : GoMap ℕ Value =
      (notify_loop c.suppress_bounce_back s.pending_changes [] s.last_values).0 in
    let told : lookup attr note ≡ some value =
      flush_note s c.suppress_bounce_back d attr
      ∙ ap (due c.suppress_bounce_back s.last_values attr) e
      ∙ ap (λ t. if t then none else some value) b in
    Tells-append s.id attr value
      (change_note s (get_pending_notification s c.suppress_bounce_back now).1 now) _
      (subst (λ r. Tells s.id attr value (change_note s r.1 now)) (sym due_now)
        (change_note-Tells s attr value now note told))

process_each-Tells :
    (c : Config) (subs : GoMap ℕ Subscription) (id k attr : ℕ) (value : Value) (now : ℕ)
    (s : Subscription)
    → lookup k subs ≡ some s
    → Tells id attr value (process_one c s now).1
    → Tells id attr value (process_each c subs now).1
unfolding process_each lookup
process_each-Tells c [] id k attr value now s e h = absurd (none-ne-some e)
process_each-Tells c ((j, t) ∷ subs) id k attr value now s e h = elim (ℕ_discrete j k) [
  | yes p ↦
      let same : t ≡ s = some-injective t s (sym (if_pos (ℕ_discrete j k) p _ _) ∙ e) in
      Tells-append id attr value (process_one c t now).1 _
        (subst (λ u. Tells id attr value (process_one c u now).1) (sym same) h)
  | no n ↦
      append-Tells id attr value (process_one c t now).1 _ (
        process_each-Tells c subs id k attr value now s (sym (if_neg (ℕ_discrete j k) n _ _) ∙ e) h)
]

-- Whatever the manager has been through, a change that NotifyChange is told of reaches the subscriber
-- of each subscription that the manager holds for the endpoint and the feature and that asks for the
-- attribute: a ProcessNotifications that follows, once the least interval has passed since the change,
-- or since the start of the window when changes were already pending, calls the callback with a
-- notification of that subscription that holds the new value. The callback is set, the value is not
-- suppressed as the one last sent, and the map of pending changes has no key twice. Each of the two
-- methods is one step, with no other method inside it or between them.
pub change-Tells :
    (c : Config) (g : ℕ) (es : List Event) (attr : ℕ) (value : Value) (now later id : ℕ)
    (s : Subscription)
    → let m = run (new_manager_with_config c g) es in
      lookup id m.subscriptions ≡ some s
      → subscribed s attr ≡ true
      → Distinct s.pending_changes
      → m.on_notification ≡ true
      → bounces m.config.suppress_bounce_back s.last_values attr value ≡ false
      → s.min_interval ≤ later - window_start s now
      → Tells id attr value
          (process_notifications
            (notify_change m s.endpoint_id s.feature_id attr value now)
            later).1
unfolding process_notifications notify_change
change-Tells c g es attr value now later id s e w d cb b t =
    let m : Manager = run (new_manager_with_config c g) es in
    let held : Entry m.config m.feature_index (id, s) =
      All-lookup (Entry m.config m.feature_index) id s m.subscriptions
        (run-new-IsValid c g es).entries e in
    let (u, found, both) = change_reaches m attr value now id s held e w d in
    rw cb (
      process_each-Tells m.config _ id id attr value later u found (
        subst (λ i. Tells i attr value (process_one m.config u later).1) (both.1.same_id ∙ held.0)
          (process_one-Tells m.config u attr value later both.0 both.1.wants.0 both.1.no_twice
            (rw both.1.same_last b) (due-Near attr now later s u both.0.1 both.1 t))))
