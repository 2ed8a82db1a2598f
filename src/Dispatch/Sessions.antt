-- ===== src/Dispatch/Sessions.antt =====
-- mash-go/pkg/service/dispatch/protocol_handler.go and session_subscription_tracker.go: the ids of the
-- inbound subscriptions over the requests of a session.
use mash.Model.Attribute.{ModelError}
use mash.Base.{
  is_some, String, inl, inr, ℕ, suc, ◌+◌, ◌^◌, ◌<◌, ◌≤◌, ◌≡◌, refl, sym, subst, Option, none, some,
  List, [], ◌∷◌, arith, Bool-cases, ◌==◌, All, length,
}
use mash.Base.GoMap.{GoMap, nat_key, lookup, All-insert, All-delete}
use mash.Model.Values.{Any}
use mash.Model.Feature.{Feature}
use mash.Model.Device.{put_feature, Device}
use mash.Wire.{
  extract_subscribe_payload, extract_read_attribute_ids, extract_write_payload, Request, op_read,
  op_write, op_subscribe, is_valid,
}
use mash.Dispatch.Tracking.{Tracker, Subscription, add_inbound, next_id}
use mash.Dispatch.Places.{addressed_cases}
use mash.Dispatch.Protection.{run}
use mash.Dispatch.{caller_of, Handler, Handled}
use mash.Dispatch.Subscribing.{
  subscribe_feature, attributes_of, handle_subscribe, handle_unsubscribe, unsubscribe_id,
}
use mash.Dispatch.Writing.{
  write_feature, Writing, write_result, write_each, writing, finish_write, handle_write,
}
use mash.Dispatch.Reading.{read_feature, read_result, read_ids, handle_read}
use mash.Dispatch.Requests.{
  invoke_result, invoke_call, invoke_feature, invoke_command, CommandResult, done, failed,
  Application, handle_request, handle_invoke,
}

-- At most so many ids were given, and those in use are among them.
pub record Numbered (n : ℕ) (t : Tracker) : Type 0 where
  pub given : t.next_inbound_id ≤ n
  pub used : All (λ e. e.0 ≤ t.next_inbound_id) t.inbound

All-mono :
    (a b : ℕ) (m : GoMap ℕ Subscription) → a ≤ b → All (λ e. e.0 ≤ a) m → All (λ e. e.0 ≤ b) m
All-mono a b [] le h = tt
All-mono a b (e ∷ m) le h = (omega (arith, h.0), All-mono a b m le h.1)

weaken : (n : ℕ) (t : Tracker) → Numbered n t → Numbered (suc n) t
weaken n t h = record { given = omega (arith, h.given); used = h.used }

pub next_id_lem : (n : ℕ) → n + 1 < 2 ^ 32 → next_id n ≡ n + 1
next_id_lem n h = omega arith

add_inbound-Numbered :
    (n : ℕ) (t : Tracker) (e f : ℕ) (ids : List ℕ)
    → n + 1 < 2 ^ 32
    → Numbered n t
    → Numbered (suc n) (add_inbound t e f ids).0
unfolding add_inbound
add_inbound-Numbered n t e f ids lt h =
    let next : next_id t.next_inbound_id ≡ t.next_inbound_id + 1 =
      next_id_lem t.next_inbound_id (omega (arith, h.given)) in
    record {
      given = omega (arith, next, h.given);
      used =
          All-insert (λ e. e.0 ≤ next_id t.next_inbound_id) (next_id t.next_inbound_id)
            (record {
              id = next_id t.next_inbound_id;
              endpoint_id = e;
              feature_id = f;
              attributes = ids;
            })
            t.inbound (omega arith)
            (All-mono t.next_inbound_id (next_id t.next_inbound_id) t.inbound (omega (arith, next))
              h.used);
    }

handle_unsubscribe-Numbered :
    (n : ℕ) (h : Handler) (req : Request)
    → Numbered n h.subscriptions
    → Numbered n (handle_unsubscribe h req).handler.subscriptions
unfolding handle_unsubscribe
handle_unsubscribe-Numbered n h req k = elim (Bool-cases (unsubscribe_id req.payload == 0)) [
  | inl e ↦ rw e k
  | inr e ↦
      elim (Bool-cases (is_some (lookup (unsubscribe_id req.payload) h.subscriptions.inbound))) [
        | inl s ↦
            rw (e, s)
              (record {
                given = k.given;
                used =
                    All-delete (λ e. e.0 ≤ h.subscriptions.next_inbound_id)
                      (unsubscribe_id req.payload) h.subscriptions.inbound k.used;
              })
        | inr s ↦ rw (e, s) k
      ]
]

abbrev Stays : ℕ → Handled → Type 0
Stays n r = Numbered (suc n) r.handler.subscriptions

handle_subscribe-Stays :
    (n : ℕ) (h : Handler) (req : Request)
    → n + 1 < 2 ^ 32
    → Numbered n h.subscriptions
    → Stays n (handle_subscribe h req)
unfolding handle_subscribe
handle_subscribe-Stays n h req lt k = elim (Bool-cases (req.feature_id == 0)) [
  | inl e ↦ rw e (
      weaken n (handle_unsubscribe h req).handler.subscriptions
        (handle_unsubscribe-Numbered n h req k))
  | inr e ↦ rw e (
      addressed_cases (Stays n) h req
        (λ f. subscribe_feature h req (attributes_of (extract_subscribe_payload req.payload)) f)
        (weaken n h.subscriptions k) (weaken n h.subscriptions k)
        (λ p f e g.
          add_inbound-Numbered n h.subscriptions req.endpoint_id req.feature_id
            (attributes_of (extract_subscribe_payload req.payload)) lt k))
]

abbrev SameTracker : Handler → Handled → Type 0
SameTracker h r = r.handler.subscriptions ≡ h.subscriptions

handle_read-SameTracker : (h : Handler) (req : Request) → SameTracker h (handle_read h req)
unfolding handle_read
handle_read-SameTracker h req =
    addressed_cases (SameTracker h) h req
      (λ f. read_feature h req (extract_read_attribute_ids req.payload) f) refl refl
      (λ p f e g. go f (extract_read_attribute_ids req.payload))
  where
    result : (o : Option (GoMap ℕ Any)) → SameTracker h (read_result h req o)
    result none = refl
    result (some m) = refl

    go : (f : Feature) (ids : List ℕ) → SameTracker h (read_feature h req ids f)
    go f [] = refl
    go f (id ∷ ids) = result (read_ids f (caller_of h) (id ∷ ids))

handle_write-SameTracker : (h : Handler) (req : Request) → SameTracker h (handle_write h req)
unfolding handle_write finish_write
handle_write-SameTracker h req =
    addressed_cases (SameTracker h) h req
      (λ f. write_feature h req (extract_write_payload req.payload) f) refl refl
      (λ p f e g. go f (extract_write_payload req.payload))
  where
    finish :
        (l : Writing) (o : Option ModelError)
        → SameTracker h (
            write_result
              (record h { device = put_feature h.device req.endpoint_id req.feature_id l.feature })
              req
              l
              o)
    finish l none = refl
    finish l (some e) = refl

    go : (f : Feature) (o : Option (GoMap ℕ Any)) → SameTracker h (write_feature h req o f)
    go f none = refl
    go f (some m) = finish (write_each (writing f) m) (write_each (writing f) m).first_error

handle_invoke-SameTracker :
    (app : Application) (h : Handler) (req : Request) → SameTracker h (handle_invoke app h req)
unfolding handle_invoke
handle_invoke-SameTracker app h req =
    addressed_cases (SameTracker h) h req
      (λ f. invoke_feature app h req (invoke_call req.payload) f) refl refl
      (λ p f e g. go f (invoke_call req.payload))
  where
    result :
        (id : ℕ) (params : GoMap String Any) (r : Device × CommandResult)
        → SameTracker h (invoke_result h req id params r)
    result id params (d, done m) = refl
    result id params (d, failed e) = refl

    go :
        (f : Feature) (o : Option (ℕ × GoMap String Any))
        → SameTracker h (invoke_feature app h req o f)
    go f none = refl
    go f (some (id, params)) =
        result id params (
          invoke_command (app req.endpoint_id req.feature_id id (caller_of h)) f id params h.device)

handle_request-Stays :
    (app : Application) (n : ℕ) (h : Handler) (req : Request)
    → n + 1 < 2 ^ 32
    → Numbered n h.subscriptions
    → Stays n (handle_request app h req)
unfolding handle_request
handle_request-Stays app n h req lt k = elim (Bool-cases (is_valid req.operation)) [
  | inr e ↦ rw e (weaken n h.subscriptions k)
  | inl e ↦ elim (Bool-cases (req.operation == op_read)) [
    | inl r ↦ rw (e, r) (same (handle_read h req) (handle_read-SameTracker h req))
    | inr r ↦ elim (Bool-cases (req.operation == op_write)) [
      | inl w ↦ rw (e, r, w) (same (handle_write h req) (handle_write-SameTracker h req))
      | inr w ↦ elim (Bool-cases (req.operation == op_subscribe)) [
        | inl s ↦ rw (e, r, w, s) (handle_subscribe-Stays n h req lt k)
        | inr s ↦
            rw (e, r, w, s) (same (handle_invoke app h req) (handle_invoke-SameTracker app h req))
      ]
    ]
  ]
]
  where
    same : (r : Handled) → SameTracker h r → Stays n r
    same r q = subst (Numbered (suc n)) (sym q) (weaken n h.subscriptions k)

pub run-Numbered :
    (app : Application) (n : ℕ) (h : Handler) (reqs : List Request)
    → n + length reqs < 2 ^ 32
    → Numbered n h.subscriptions
    → Numbered (n + length reqs) (run app h reqs).subscriptions
unfolding run
run-Numbered app n h [] lt k = subst (λ m. Numbered m h.subscriptions) (plus_zero n) k
  where
    plus_zero : (m : ℕ) → m ≡ m + 0
    plus_zero m = omega arith
run-Numbered app n h (req ∷ reqs) lt k =
    subst (λ m. Numbered m (run app (handle_request app h req).handler reqs).subscriptions)
      (plus_suc n (length reqs))
      (run-Numbered app (suc n) (handle_request app h req).handler reqs (omega (arith, lt))
        (handle_request-Stays app n h req (omega (arith, lt)) k))
  where
    plus_suc : (m l : ℕ) → suc m + l ≡ m + suc l
    plus_suc m l = omega arith
