-- ===== src/Dispatch/Protection.antt =====
-- mash-go/pkg/service/dispatch/protocol_handler.go: what the requests of a peer may do to attributes.
use mash.Base.{
  ℕ, ◌≡◌, ◌≢◌, refl, sym, subst, ◌⊎◌, inl, inr, false, Option, none, some, List, [], ◌∷◌, arith,
  Bool-cases, Option-cases, ◌==◌, ℕ_discrete, All,
}
use mash.Base.GoMap.{GoMap, nat_key, lookup}
use mash.Model.Values.{Any}
use mash.Model.Feature.{Feature}
use mash.Model.Writing.{Written, write_attribute}
use mash.Model.Device.{Device, Endpoint, get_endpoint, get_feature, put_feature}
use mash.Wire.{
  extract_subscribe_payload, extract_read_attribute_ids, op_invoke, op_read, op_write, op_subscribe,
  is_valid, Request, op_invoke, op_read, op_write, op_subscribe, is_valid,
  extract_read_attribute_ids, extract_write_payload,
}
use mash.Model.Access.{Allowed, Allowed-refl, Allowed-trans, write_attribute-Allowed}
use mash.Dispatch.Places.{
  attribute_at, addressed_cases, get_feature-put_feature_self, get_feature-put_feature_other,
  in_feature,
}
use mash.Dispatch.{caller_of, Handler, Handled}
use mash.Dispatch.Subscribing.{
  attributes_of, handle_subscribe, handle_unsubscribe, subscribe_feature, handle_subscribe,
  handle_unsubscribe, subscribe_feature,
}
use mash.Dispatch.Writing.{
  handle_write, Writing, write_one, write_each, finish_write, after_write, writing, write_feature,
}
use mash.Dispatch.Reading.{
  read_result, read_ids, handle_read, read_feature, handle_read, read_feature,
}
use mash.Dispatch.Requests.{Application, handle_request}

write_one-Allowed :
    (l : Writing) (id j : ℕ) (v : Any)
    → Allowed j (lookup j l.feature.attributes) (lookup j (write_one l id v).feature.attributes)
unfolding write_one
write_one-Allowed l id j v =
    go (write_attribute l.feature id v) (write_attribute-Allowed l.feature id j v)
  where
    go :
        (w : Written)
        → Allowed j (lookup j l.feature.attributes) (lookup j w.feature.attributes)
        → Allowed j
            (lookup j l.feature.attributes)
            (lookup j (after_write l id w.error w.feature w.changes).feature.attributes)
    go w h = elim (Option-cases w.error) [
      | inl e ↦ rw e h
      | inr (d, e) ↦ rw e (Allowed-refl j (lookup j l.feature.attributes))
    ]

pub write_each-Allowed :
    (l : Writing) (m : GoMap ℕ Any) (j : ℕ)
    → Allowed j (lookup j l.feature.attributes) (lookup j (write_each l m).feature.attributes)
unfolding write_each
write_each-Allowed l [] j = Allowed-refl j (lookup j l.feature.attributes)
write_each-Allowed l ((id, v) ∷ m) j =
    Allowed-trans j (lookup j l.feature.attributes) (lookup j (write_one l id v).feature.attributes)
      (lookup j (write_each (write_one l id v) m).feature.attributes) (write_one-Allowed l id j v)
      (write_each-Allowed (write_one l id v) m j)

abbrev Kept : Device → Device → Type 0
Kept d d' = (e f id : ℕ) → Allowed id (attribute_at d e f id) (attribute_at d' e f id)

Kept-refl : (d : Device) → Kept d d
Kept-refl d e f id = Allowed-refl id (attribute_at d e f id)

Kept-trans : (d d1 d2 : Device) → Kept d d1 → Kept d1 d2 → Kept d d2
Kept-trans d d1 d2 p q e f id =
    Allowed-trans id (attribute_at d e f id) (attribute_at d1 e f id) (attribute_at d2 e f id)
      (p e f id) (q e f id)

put_feature-Kept :
    (d : Device) (e f : ℕ) (p : Endpoint) (old new : Feature)
    → get_endpoint d e ≡ some p
    → get_feature d e f ≡ some old
    → ((id : ℕ) → Allowed id (lookup id old.attributes) (lookup id new.attributes))
    → Kept d (put_feature d e f new)
unfolding attribute_at
put_feature-Kept d e f p old new q g k i j id = at (ℕ_discrete e i) (ℕ_discrete f j)
  where
    other :
        (e ≢ i) ⊎ (f ≢ j)
        → Allowed id
            (in_feature (get_feature d i j) id)
            (in_feature (get_feature (put_feature d e f new) i j) id)
    other ne =
        rw (get_feature-put_feature_other d e f i j new ne)
          (Allowed-refl id (in_feature (get_feature d i j) id))

    at :
        Dec (e ≡ i)
        → Dec (f ≡ j)
        → Allowed id
            (in_feature (get_feature d i j) id)
            (in_feature (get_feature (put_feature d e f new) i j) id)
    at (no n) _ = other (inl n)
    at (yes s) (no n) = other (inr n)
    at (yes s) (yes t) =
        subst
          (λ x.
            Allowed id (in_feature (get_feature d x j) id)
              (in_feature (get_feature (put_feature d e f new) x j) id))
          s
          (subst
            (λ y.
              Allowed id (in_feature (get_feature d e y) id)
                (in_feature (get_feature (put_feature d e f new) e y) id))
            t (rw (g, get_feature-put_feature_self d e f p new q) (k id)))

pub finish_write_device :
    (h : Handler) (req : Request) (l : Writing)
    → (finish_write h req l).handler.device
      ≡ put_feature h.device req.endpoint_id req.feature_id l.feature
unfolding finish_write
finish_write_device h req l = elim (Option-cases l.first_error) [
  | inl e ↦ rw e refl
  | inr (d, e) ↦ rw e refl
]

abbrev KeepsDevice : Handler → Handled → Type 0
KeepsDevice h r = Kept h.device r.handler.device

handle_write-Kept : (h : Handler) (req : Request) → KeepsDevice h (handle_write h req)
unfolding handle_write
handle_write-Kept h req =
    addressed_cases (KeepsDevice h) h req
      (λ f. write_feature h req (extract_write_payload req.payload) f) (Kept-refl h.device)
      (Kept-refl h.device) (λ p f e g. go p f e g (extract_write_payload req.payload))
  where
    go :
        (p : Endpoint) (f : Feature)
        → get_endpoint h.device req.endpoint_id ≡ some p
        → get_feature h.device req.endpoint_id req.feature_id ≡ some f
        → (o : Option (GoMap ℕ Any)) → KeepsDevice h (write_feature h req o f)
    go p f e g none = Kept-refl h.device
    go p f e g (some m) =
        subst (Kept h.device) (sym (finish_write_device h req (write_each (writing f) m))) (
          put_feature-Kept h.device req.endpoint_id req.feature_id p f
            (write_each (writing f) m).feature e g (write_each-Allowed (writing f) m))

handle_read-Kept : (h : Handler) (req : Request) → KeepsDevice h (handle_read h req)
unfolding handle_read
handle_read-Kept h req =
    addressed_cases (KeepsDevice h) h req
      (λ f. read_feature h req (extract_read_attribute_ids req.payload) f) (Kept-refl h.device)
      (Kept-refl h.device) (λ p f e g. go f (extract_read_attribute_ids req.payload))
  where
    result : (o : Option (GoMap ℕ Any)) → KeepsDevice h (read_result h req o)
    result none = Kept-refl h.device
    result (some m) = Kept-refl h.device

    go : (f : Feature) (ids : List ℕ) → KeepsDevice h (read_feature h req ids f)
    go f [] = Kept-refl h.device
    go f (id ∷ ids) = result (read_ids f (caller_of h) (id ∷ ids))

handle_unsubscribe_device :
    (h : Handler) (req : Request) → (handle_unsubscribe h req).handler.device ≡ h.device
unfolding handle_unsubscribe
handle_unsubscribe_device h req = ground arith

handle_subscribe-Kept : (h : Handler) (req : Request) → KeepsDevice h (handle_subscribe h req)
unfolding handle_subscribe
handle_subscribe-Kept h req = elim (Bool-cases (req.feature_id == 0)) [
  | inl e ↦
      rw e (subst (Kept h.device) (sym (handle_unsubscribe_device h req)) (Kept-refl h.device))
  | inr e ↦ rw e (
      addressed_cases (KeepsDevice h) h req
        (λ f. subscribe_feature h req (attributes_of (extract_subscribe_payload req.payload)) f)
        (Kept-refl h.device) (Kept-refl h.device) (λ p f e g. Kept-refl h.device))
]

abbrev pub NoInvoke : Request → Type 0
NoInvoke req = (req.operation == op_invoke) ≡ false

handle_request-Kept :
    (app : Application) (h : Handler) (req : Request)
    → NoInvoke req
    → KeepsDevice h (handle_request app h req)
unfolding handle_request is_valid
handle_request-Kept app h req no_invoke = elim (Bool-cases (is_valid req.operation)) [
  | inr e ↦ rw e (Kept-refl h.device)
  | inl e ↦ elim (Bool-cases (req.operation == op_read)) [
    | inl r ↦ rw (e, r) (handle_read-Kept h req)
    | inr r ↦ elim (Bool-cases (req.operation == op_write)) [
      | inl w ↦ rw (e, r, w) (handle_write-Kept h req)
      | inr w ↦ elim (Bool-cases (req.operation == op_subscribe)) [
        | inl s ↦ rw (e, r, w, s) (handle_subscribe-Kept h req)
        | inr s ↦ absurd (ground arith)
      ]
    ]
  ]
]

-- The requests of a session, one after the other.
unfoldable pub run : Application → Handler → List Request → Handler
unfolding handle_request
run app h [] = h
run app h (req ∷ reqs) = run app (handle_request app h req).handler reqs

run-Kept :
    (app : Application) (h : Handler) (reqs : List Request)
    → All NoInvoke reqs
    → Kept h.device (run app h reqs).device
unfolding run
run-Kept app h [] n = Kept-refl h.device
run-Kept app h (req ∷ reqs) n =
    Kept-trans h.device (handle_request app h req).handler.device
      (run app (handle_request app h req).handler reqs).device (handle_request-Kept app h req n.0)
      (run-Kept app (handle_request app h req).handler reqs n.1)

-- Whatever requests other than invokes a peer sends, and whatever their payloads, each attribute of
-- the device is there afterwards exactly when it was before, with the same metadata; and its value is
-- the one before, unless the attribute is writable and below the global ids and the new value passes
-- its checks of null, type and range.
pub run-Allowed :
    (app : Application) (h : Handler) (reqs : List Request)
    → All NoInvoke reqs
    → (e f id : ℕ)
    → Allowed id (attribute_at h.device e f id) (attribute_at (run app h reqs).device e f id)
run-Allowed app h reqs n e f id = run-Kept app h reqs n e f id
