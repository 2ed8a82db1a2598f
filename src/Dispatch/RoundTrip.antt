-- ===== src/Dispatch/RoundTrip.antt =====
-- mash-go/pkg/service/dispatch/protocol_handler.go: a value that a write has stored, read again.
use mash.Base.{
  ℕ, ◌<◌, ◌≡◌, refl, ap, ◌∙◌, ◌⊎◌, inl, inr, Bool, true, false, none, some, [], ◌∷◌, arith,
  Bool-cases, ◌==◌, if◌then◌else◌,
}
use mash.Base.GoMap.{GoMap, nat_key, lookup, insert, Distinct}
use mash.Model.Values.{Any, safe_not_equal}
use mash.Model.Attribute.{Attribute, store, can_read}
use mash.Model.Feature.{
  Feature, Caller, get_attribute, put_attribute, attr_id_attribute_list, attr_id_command_list,
  attr_id_global_base,
}
use mash.Model.Reading.{read_attribute_with_context}
use mash.Model.Device.{get_feature}
use mash.Model.Access.{acceptable, write_attribute-WriteOutcome}
use mash.Wire.{
  Request, success, Response, values, op_read, read_payload, extract_write_payload,
  extract_read_attribute_ids,
}
use mash.Dispatch.Places.{get_feature-put_feature_self, addressed_found}
use mash.Dispatch.Protection.{finish_write_device}
use mash.Dispatch.Writes.{expected, write_each-EachWritten}
use mash.Dispatch.Answers.{handle_write_found}
use mash.Dispatch.{Handler, caller_of}
use mash.Dispatch.Writing.{handle_write, Writing, write_one, write_each, finish_write, writing}
use mash.Dispatch.Reading.{handle_read, read_ids, read_feature}

write_one_hook :
    (l : Writing) (id : ℕ) (v : Any) → (write_one l id v).feature.read_hook ≡ l.feature.read_hook
unfolding write_one put_attribute
write_one_hook l id v = elim (write_attribute-WriteOutcome l.feature id v) [
  | inl (e, x, q) ↦ rw q refl
  | inr (a, acc) ↦ rw acc.result refl
]

write_each_hook :
    (l : Writing) (m : GoMap ℕ Any) → (write_each l m).feature.read_hook ≡ l.feature.read_hook
unfolding write_each
write_each_hook l [] = refl
write_each_hook l ((id, v) ∷ m) = write_each_hook (write_one l id v) m ∙ write_one_hook l id v

-- A request to read one attribute of a feature.
abbrev pub read_one : ℕ → ℕ → ℕ → ℕ → Request
read_one message_id e f id = record {
  message_id = message_id;
  operation = op_read;
  endpoint_id = e;
  feature_id = f;
  payload = read_payload (id ∷ []);
}

abbrev pub read_answer : ℕ → ℕ → Any → Response
read_answer message_id id v = record {
  message_id = message_id;
  status = success;
  payload = values ((id, v) ∷ []);
}

read_attribute_lem :
    (f : Feature) (c : Caller) (id : ℕ) (b : Attribute)
    → f.read_hook ≡ none
    → id < attr_id_global_base
    → lookup id f.attributes ≡ some b
    → can_read b.metadata.access ≡ true
    → read_attribute_with_context f c id ≡ some b.value
unfolding read_attribute_with_context get_attribute
read_attribute_lem f c id b hook lt found r =
    rw
      (
        below id attr_id_attribute_list lt (omega arith),
        below id attr_id_command_list lt (omega arith),
        found,
        r,
        hook,
      )
      refl
  where
    below : (a b : ℕ) → a < attr_id_global_base → attr_id_global_base < b → (a == b) ≡ false
    below a b p q = ground arith

handle_read_one :
    (h : Handler) (f : Feature) (e i id message_id : ℕ) (b : Attribute)
    → get_feature h.device e i ≡ some f
    → f.read_hook ≡ none
    → id < attr_id_global_base
    → lookup id f.attributes ≡ some b
    → can_read b.metadata.access ≡ true
    → (handle_read h (read_one message_id e i id)).response ≡ read_answer message_id id b.value
unfolding handle_read extract_read_attribute_ids read_ids insert
handle_read_one h f e i id message_id b g hook lt found r =
    let (p, q, s) =
      addressed_found h (read_one message_id e i id)
        (λ k. read_feature h (read_one message_id e i id) (id ∷ []) k) f g in
    rw (s, read_attribute_lem f (caller_of h) id b hook lt found r) refl

same_value :
    (a : Attribute) (v : Any)
    → ((store a v).value ≡ v) ⊎ (safe_not_equal (store a v).value v ≡ false)
unfolding store
same_value a v = elim (Bool-cases (safe_not_equal a.value v)) [
  | inl e ↦ rw e (inl refl)
  | inr e ↦ inr (
      ap
        (λ (b : Bool).
          safe_not_equal (if b then record a { value = v; dirty = true } else a).value v)
        e
      ∙ e)
]

store_metadata : (a : Attribute) (v : Any) → (store a v).metadata ≡ a.metadata
unfolding store
store_metadata a v = elim (Bool-cases (safe_not_equal a.value v)) [
  | inl e ↦ rw e refl
  | inr e ↦ rw e refl
]

below_global :
    (id : ℕ) (v : Any) (a : Attribute) → acceptable id v (some a) ≡ true → id < attr_id_global_base
unfolding acceptable
below_global id v a h = ground arith

-- A value of a write request's map that is acceptable for its attribute is what a read of that attribute
-- answers after the request, whether or not the request as a whole succeeds: the value itself, or the
-- value that was there when Go's == says that they are the same. The attribute is readable, and its
-- feature has no read hook.
pub handle_read-handle_write :
    (h : Handler) (req : Request) (f : Feature) (m : GoMap ℕ Any) (id message_id : ℕ) (v : Any)
    (a : Attribute)
    → get_feature h.device req.endpoint_id req.feature_id ≡ some f
    → extract_write_payload req.payload ≡ some m
    → Distinct m
    → lookup id m ≡ some v
    → lookup id f.attributes ≡ some a
    → acceptable id v (some a) ≡ true
    → can_read a.metadata.access ≡ true
    → f.read_hook ≡ none
    → (w : Any) × ((handle_read
          (handle_write h req).handler
          (read_one message_id req.endpoint_id req.feature_id id)).response
        ≡ read_answer message_id id w)
      × ((w ≡ v) ⊎ (safe_not_equal w v ≡ false))
unfolding expected
handle_read-handle_write h req f m id message_id v a g x d at found good reads hook =
    let (p, e, q) = handle_write_found h req f m g x in
    let l : Writing = write_each (writing f) m in
    (
      (store a v).value,
      ap
            (λ r.
              (handle_read r.handler
                (read_one message_id req.endpoint_id req.feature_id id)).response)
            q
          ∙ handle_read_one (finish_write h req l).handler l.feature req.endpoint_id req.feature_id
              id message_id (store a v)
              (ap (λ dev. get_feature dev req.endpoint_id req.feature_id)
                  (finish_write_device h req l)
                ∙ get_feature-put_feature_self h.device req.endpoint_id req.feature_id p l.feature
                    e)
              (write_each_hook (writing f) m ∙ hook) (below_global id v a good)
              ((write_each-EachWritten (writing f) m d).stands id
                ∙ ap (λ o. expected id o (lookup id f.attributes)) at
                ∙ rw (found, good) refl)
              (ap (λ y. can_read y.access) (store_metadata a v) ∙ reads),
      same_value a v,
    )
