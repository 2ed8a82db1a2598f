-- ===== src/Dispatch/Answers.antt =====
-- mash-go/pkg/service/dispatch/protocol_handler.go: what handleWrite answers, by what it stores.
use mash.Base.{
  ℕ, ◌≡◌, refl, sym, ap, ◌∙◌, inl, inr, Bool, true, false, not, some, List, [], ◌∷◌, map, arith,
  Option-cases, if◌then◌else◌, All, is_some,
}
use mash.Base.GoMap.{GoMap, nat_key, lookup, Distinct}
use mash.Model.Values.{Any}
use mash.Model.Attribute.{ModelError}
use mash.Model.Feature.{Feature, Change}
use mash.Model.Device.{Endpoint, get_endpoint, get_feature}
use mash.Model.Access.{acceptable}
use mash.Wire.{Request, is_success, extract_write_payload}
use mash.Dispatch.Places.{attribute_at, in_feature, get_feature-put_feature_self}
use mash.Dispatch.{Handler, Effect, changed, wrote}
use mash.Dispatch.Writing.{
  handle_write, Writing, write_each, finish_write, writing, write_feature, error_status,
}
use mash.Dispatch.Protection.{finish_write_device}
use mash.Dispatch.Places.{addressed_found}
use mash.Dispatch.Writes.{storing, expected, all_acceptable, write_each-EachWritten}

is_success-error_status : (e : ModelError) → is_success (error_status e) ≡ false
unfolding error_status
is_success-error_status e = ground arith

finish_write_status :
    (h : Handler) (req : Request) (l : Writing)
    → is_success (finish_write h req l).response.status ≡ not (is_some l.first_error)
unfolding finish_write
finish_write_status h req l = elim (Option-cases l.first_error) [
  | inl e ↦ rw e refl
  | inr (d, e) ↦ rw e (is_success-error_status d)
]

pub handle_write_found :
    (h : Handler) (req : Request) (f : Feature) (m : GoMap ℕ Any)
    → get_feature h.device req.endpoint_id req.feature_id ≡ some f
    → extract_write_payload req.payload ≡ some m
    → (p : Endpoint) × (get_endpoint h.device req.endpoint_id ≡ some p)
      × (handle_write h req ≡ finish_write h req (write_each (writing f) m))
unfolding handle_write
handle_write_found h req f m g x =
    let (p, e, q) =
      addressed_found h req (λ k. write_feature h req (extract_write_payload req.payload) k) f g in
    (p, e, q ∙ ap (λ o. write_feature h req o f) x)

finish_write_attribute :
    (h : Handler) (req : Request) (f : Feature) (p : Endpoint) (m : GoMap ℕ Any) (id : ℕ)
    → get_endpoint h.device req.endpoint_id ≡ some p
    → get_feature h.device req.endpoint_id req.feature_id ≡ some f
    → Distinct m
    → attribute_at
        (finish_write h req (write_each (writing f) m)).handler.device
        req.endpoint_id
        req.feature_id
        id
      ≡ expected id (lookup id m) (attribute_at h.device req.endpoint_id req.feature_id id)
unfolding attribute_at
finish_write_attribute h req f p m id e g d =
    let l : Writing = write_each (writing f) m in
    ap (λ dev. in_feature (get_feature dev req.endpoint_id req.feature_id) id)
      (finish_write_device h req l)
    ∙ ap (λ o. in_feature o id)
        (get_feature-put_feature_self h.device req.endpoint_id req.feature_id p l.feature e)
    ∙ (write_each-EachWritten (writing f) m d).stands id
    ∙ sym (ap (λ o. expected id (lookup id m) (in_feature o id)) g)

written_status :
    (h : Handler) (req : Request) (f : Feature) (m : GoMap ℕ Any)
    → Distinct m
    → is_success (finish_write h req (write_each (writing f) m)).response.status
      ≡ all_acceptable f m
written_status h req f m d =
    finish_write_status h req (write_each (writing f) m)
    ∙ ap not (write_each-EachWritten (writing f) m d).fails
    ∙ opposite (all_acceptable f m)
  where
    opposite : (b : Bool) → not (if b then false else true) ≡ b
    opposite true = refl
    opposite false = refl

-- A write request for a feature that is there, whose payload is read as a map, stores in each attribute
-- that the map names the value that the map has for it when that value is acceptable (the attribute is
-- there, writable and below the global ids, and the value passes its checks), and leaves every other
-- attribute of the feature as it is; and it answers success exactly when every value of the map is
-- acceptable.
pub handle_write-Applied :
    (h : Handler) (req : Request) (f : Feature) (m : GoMap ℕ Any)
    → get_feature h.device req.endpoint_id req.feature_id ≡ some f
    → extract_write_payload req.payload ≡ some m
    → Distinct m
    → ((id : ℕ)
        → attribute_at (handle_write h req).handler.device req.endpoint_id req.feature_id id
          ≡ expected id (lookup id m) (attribute_at h.device req.endpoint_id req.feature_id id))
      × (is_success (handle_write h req).response.status ≡ all_acceptable f m)
handle_write-Applied h req f m g x d =
    let (p, e, q) = handle_write_found h req f m g x in
    rw q (λ id. finish_write_attribute h req f p m id e g d, written_status h req f m d)

abbrev pub NoCallback : Effect → Type 0
NoCallback (wrote e f m) = ⊥
NoCallback _ = Unit {0}

changes-NoCallback : (cs : List Change) → All NoCallback (map changed cs)
changes-NoCallback [] = tt
changes-NoCallback (c ∷ cs) = (tt, changes-NoCallback cs)

failed-NoCallback :
    (h : Handler) (req : Request) (l : Writing)
    → is_some l.first_error ≡ true
    → All NoCallback (finish_write h req l).effects
unfolding finish_write
failed-NoCallback h req l s = elim (Option-cases l.first_error) [
  | inl e ↦ absurd (none_fails (sym (ap is_some e) ∙ s))
  | inr (d, e) ↦ rw e (changes-NoCallback l.changes)
]
  where
    none_fails : false ≡ true → ⊥
    none_fails p = cc

-- When one value of a write request's map is not acceptable, the request fails and the write callback is
-- not called; and yet each acceptable value of the map is stored in its attribute.
pub refused_write_stores :
    (h : Handler) (req : Request) (f : Feature) (m : GoMap ℕ Any) (id : ℕ) (v : Any)
    → get_feature h.device req.endpoint_id req.feature_id ≡ some f
    → extract_write_payload req.payload ≡ some m
    → Distinct m
    → all_acceptable f m ≡ false
    → lookup id m ≡ some v
    → acceptable id v (lookup id f.attributes) ≡ true
    → (is_success (handle_write h req).response.status ≡ false)
      × All NoCallback (handle_write h req).effects
      × (attribute_at (handle_write h req).handler.device req.endpoint_id req.feature_id id
          ≡ storing v (attribute_at h.device req.endpoint_id req.feature_id id))
unfolding attribute_at expected
refused_write_stores h req f m id v g x d bad at good =
    let (p, e, q) = handle_write_found h req f m g x in
    rw q (
      written_status h req f m d ∙ bad,
      failed-NoCallback h req (write_each (writing f) m) (
          (write_each-EachWritten (writing f) m d).fails
          ∙ ap (λ (b : Bool). if b then false else true) bad),
      finish_write_attribute h req f p m id e g d
          ∙ ap
              (λ o.
                expected id o (in_feature (get_feature h.device req.endpoint_id req.feature_id) id))
              at
          ∙ rw (g, good) refl,
    )
