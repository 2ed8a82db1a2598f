-- ===== src/Dispatch/Tests.antt =====
-- mash-go/pkg/service/dispatch/protocol_handler.go: requests on a device with one feature.
use mash.Base.{
  ℕ_discrete, ◌^◌, ◌+◌, ℕ, ◌≡◌, refl, true, false, none, some, [], ◌∷◌, arith, All, ◌⊎◌,
}
use mash.Base.Int.{pos}
use mash.Base.GoMap.{insert, GoMap, nat_key, lookup, Distinct}
use mash.Model.Values.{
  to_float64, float64, Any, integer, int64_kind, uint64_kind, dict, entry, no_entries,
  safe_not_equal,
}
use mash.Model.Attribute.{
  check_value, set_value, attribute_out_of_range, attribute_value_type, Metadata, type_int64,
  Attribute, access_read_only, access_read_write,
}
use mash.Model.Feature.{Feature}
use mash.Model.Writing.{write_attribute}
use mash.Model.Reading.{read_attribute}
use mash.Model.Device.{Device, get_feature}
use mash.Model.Access.{Allowed, acceptable}
use mash.Wire.{
  Request, success, is_success, op_write, op_subscribe, Payload, value, write_payload,
  subscribe_payload, values, extract_write_payload,
}
use mash.Dispatch.Places.{attribute_at}
use mash.Dispatch.Protection.{run, run-Allowed}
use mash.Dispatch.Writes.{storing, expected, all_acceptable}
use mash.Dispatch.Answers.{handle_write-Applied, NoCallback, refused_write_stores}
use mash.Dispatch.RoundTrip.{read_one, read_answer, handle_read-handle_write}
use mash.Dispatch.Requests.{Application, done, handle_request}
use mash.Dispatch.{Handler, new_protocol_handler}
use mash.Dispatch.Writing.{handle_write}
use mash.Dispatch.Reading.{handle_read}

abbrev bounded : ℕ → ℕ → Metadata
bounded id access = record {
  id = id;
  value_type = type_int64;
  access = access;
  nullable = false;
  min_value = integer int64_kind (pos 0);
  max_value = integer int64_kind (pos 100);
  default_value = integer int64_kind (pos 7);
}

abbrev writable_one : Attribute
writable_one = record {
  metadata = bounded 1 access_read_write;
  value = integer int64_kind (pos 7);
  dirty = false;
}

abbrev fixed_two : Attribute
fixed_two = record {
  metadata = bounded 2 access_read_only;
  value = integer int64_kind (pos 7);
  dirty = false;
}

abbrev plain : Feature
plain = record {
  feature_type = 5;
  feature_map = 0;
  attributes = (1, writable_one) ∷ (2, fixed_two) ∷ [];
  commands = [];
  subscribers = [];
  read_hook = none;
}

abbrev small_device : Device
small_device = record {
  endpoints = (1, record { id = 1; endpoint_type = 3; features = (5, plain) ∷ [] }) ∷ [];
}

abbrev no_application : Application
no_application e f c caller params d = (d, done [])

abbrev small_handler : Handler
small_handler = new_protocol_handler small_device true

abbrev to_plain : ℕ → Payload → Request
to_plain op p = record {
  message_id = 9;
  operation = op;
  endpoint_id = 1;
  feature_id = 5;
  payload = p;
}

-- The request as it comes out of CBOR, and the same map before.
abbrev decoded_write : Request
decoded_write =
    to_plain op_write
      (value (dict (entry (integer uint64_kind (pos 1)) (integer uint64_kind (pos 50)) no_entries)))

abbrev mixed : GoMap ℕ Any
mixed = (1, integer int64_kind (pos 50)) ∷ (2, integer int64_kind (pos 3)) ∷ []

decoded_write-status :
    (handle_request no_application small_handler decoded_write).response ≡ record {
      message_id = 9;
      status = success;
      payload = values ((1, integer uint64_kind (pos 50)) ∷ []);
    }
unfolding handle_request new_protocol_handler handle_write write_attribute extract_write_payload
    read_attribute set_value check_value to_float64 safe_not_equal lookup insert ℕ_discrete
decoded_write-status = refl

-- A value over the bound, and a float between two integers.
too_much : check_value (bounded 1 7) (integer int64_kind (pos 101)) ≡ some attribute_out_of_range
unfolding check_value to_float64
too_much = refl

half : check_value (bounded 1 7) (float64 0x3FE0000000000000) ≡ some attribute_value_type
unfolding check_value to_float64
half = refl

abbrev wide : Metadata
wide = record (bounded 1 7) { max_value = integer uint64_kind (pos (2 ^ 53)) }

-- The comparison rounds to a float64: one more than 2^53 is taken where 2^53 is the most.
rounded_bound : check_value wide (integer uint64_kind (pos (2 ^ 53 + 1))) ≡ none
unfolding check_value to_float64
rounded_bound = refl

run-Allowed_example : Allowed 2 (attribute_at small_device 1 5 2) (
    attribute_at
      (run no_application small_handler (to_plain op_write (write_payload mixed) ∷ [])).device
      1
      5
      2)
unfolding new_protocol_handler
run-Allowed_example =
    run-Allowed no_application small_handler (to_plain op_write (write_payload mixed) ∷ [])
      (refl, tt) 1 5 2

mixed-Distinct : Distinct mixed
mixed-Distinct = ((λ e. absurd (omega arith), tt), (tt, tt))

handle_write-Applied_example :
    ((id : ℕ)
      → attribute_at
          (handle_write small_handler (to_plain op_write (write_payload mixed))).handler.device
          1
          5
          id
        ≡ expected id (lookup id mixed) (attribute_at small_handler.device 1 5 id))
    × (is_success
          (handle_write small_handler (to_plain op_write (write_payload mixed))).response.status
        ≡ all_acceptable plain mixed)
unfolding new_protocol_handler get_feature lookup ℕ_discrete extract_write_payload
handle_write-Applied_example =
    handle_write-Applied small_handler (to_plain op_write (write_payload mixed)) plain mixed refl
      refl mixed-Distinct

refused_write_stores_example :
    (is_success
        (handle_write small_handler (to_plain op_write (write_payload mixed))).response.status
      ≡ false)
    × All NoCallback (handle_write small_handler (to_plain op_write (write_payload mixed))).effects
    × (attribute_at
          (handle_write small_handler (to_plain op_write (write_payload mixed))).handler.device
          1
          5
          1
        ≡ storing (integer int64_kind (pos 50)) (attribute_at small_handler.device 1 5 1))
unfolding new_protocol_handler get_feature lookup ℕ_discrete extract_write_payload all_acceptable
    check_value to_float64
refused_write_stores_example =
    refused_write_stores small_handler (to_plain op_write (write_payload mixed)) plain mixed 1
      (integer int64_kind (pos 50)) refl refl mixed-Distinct refl refl refl

handle_read-handle_write_example :
    (w : Any) × ((handle_read
        (handle_write small_handler (to_plain op_write (write_payload mixed))).handler
        (read_one 10 1 5 1)).response
      ≡ read_answer 10 1 w)
    × ((w ≡ integer int64_kind (pos 50)) ⊎ (safe_not_equal w (integer int64_kind (pos 50)) ≡ false))
unfolding new_protocol_handler get_feature lookup ℕ_discrete extract_write_payload acceptable
    check_value to_float64
handle_read-handle_write_example =
    handle_read-handle_write small_handler (to_plain op_write (write_payload mixed)) plain mixed 1
      10 (integer int64_kind (pos 50)) writable_one refl refl mixed-Distinct refl refl refl refl
      refl

abbrev subscribe_one : Request
subscribe_one =
    to_plain op_subscribe
      (subscribe_payload (record { attribute_ids = 1 ∷ []; min_interval = 0; max_interval = 60 }))
