-- ===== src/Wire.antt =====
-- mash-go/pkg/wire: operation.go, status.go and message.go, the messages between the two ends of a
-- session, with what a request's payload is taken for before and after it has gone through CBOR; and
-- ToUint32 of codec.go. A payload given by its Go type is not nil. Texts of errors are left out.
use mash.Base.{
  ℕ, ◌+◌, ◌-◌, ◌/◌, ◌%◌, ◌^◌, Bool, true, false, ◌&&◌, Option, none, some, List, [], ◌∷◌, String,
  leb, ◌==◌, if◌then◌else◌,
}
use mash.Base.Int.{ℤ, pos, negsuc}
use mash.Base.GoMap.{GoMap, nat_key, lookup, insert}
use mash.Model.Values.{
  Any, nil, integer, float64, array, dict, int64_kind, uint64_kind, uint_kind, Float, finite,
  item_list, entry_list, find_key, to_float64,
}

pub data Status : Type 0 where
  success invalid_endpoint invalid_feature invalid_attribute invalid_command : Status
  invalid_parameter read_only write_only not_authorized busy unsupported : Status
  constraint_error timeout resource_exhausted : Status

abbrev pub is_success : Status → Bool
is_success success = true
is_success _ = false

abbrev pub op_read : ℕ
op_read = 1

abbrev pub op_write : ℕ
op_write = 2

abbrev pub op_subscribe : ℕ
op_subscribe = 3

abbrev pub op_invoke : ℕ
op_invoke = 4

unfoldable pub is_valid : ℕ → Bool
is_valid op = leb op_read op && leb op op_invoke

pub record SubscribePayload : Type 0 where
  pub attribute_ids : List ℕ
  pub min_interval : ℕ
  pub max_interval : ℕ

-- `value` is a payload that is none of the types that follow, `uint64_map` is map[uint64]any.
pub data Payload : Type 0 where
  value : Any → Payload
  uint64_map : GoMap ℕ Any → Payload
  read_payload : List ℕ → Payload
  write_payload : GoMap ℕ Any → Payload
  subscribe_payload : SubscribePayload → Payload
  unsubscribe_payload : ℕ → Payload
  invoke_payload : ℕ → Any → Payload

pub record Request : Type 0 where
  pub message_id : ℕ
  pub operation : ℕ
  pub endpoint_id : ℕ
  pub feature_id : ℕ
  pub payload : Payload

pub data RequestError : Type 0 where
  reserved_message_id invalid_operation : RequestError

unfoldable pub validate : Request → Option RequestError
unfolding is_valid
validate r =
    if r.message_id == 0
    then some reserved_message_id
    else if is_valid r.operation
    then none
    else some invalid_operation

pub data Result : Type 0 where
  no_payload error_payload : Result
  values : GoMap ℕ Any → Result
  subscribed : ℕ → GoMap ℕ Any → Result
  returned : GoMap String Any → Result

pub record Response : Type 0 where
  pub message_id : ℕ
  pub status : Status
  pub payload : Result

pub record Notification : Type 0 where
  pub subscription_id : ℕ
  pub endpoint_id : ℕ
  pub feature_id : ℕ
  pub changes : GoMap ℕ Any

-- A conversion of an integer to an unsigned type of that many values.
abbrev pub wrap : ℕ → ℤ → ℕ
wrap m (pos n) = n % m
wrap m (negsuc n) = m - 1 - n % m

-- A conversion of a float to uint16; where the float is out of range, Go leaves the result open, and
-- this is the low bits of its integer part.
abbrev of_float : Option Float → ℕ
of_float (some (finite (pos n))) = n / 2 ^ 1074 % 65536
of_float (some (finite (negsuc n))) = (65536 - (n + 1) / 2 ^ 1074 % 65536) % 65536
of_float _ = 0

-- The ids in a []any: integers of the two kinds that CBOR makes, and floats where they are taken.
abbrev id_of : Bool → Any → Option ℕ
id_of floats (integer uint64_kind n) = some (wrap 65536 n)
id_of floats (integer int64_kind n) = some (wrap 65536 n)
id_of true (float64 f) = some (of_float (to_float64 (float64 f)))
id_of _ _ = none

abbrev cons_some : Option ℕ → List ℕ → List ℕ
cons_some none ns = ns
cons_some (some n) ns = n ∷ ns

unfoldable pub ids_of : Bool → List Any → List ℕ
ids_of floats [] = []
ids_of floats (v ∷ vs) = cons_some (id_of floats v) (ids_of floats vs)

-- `v.([]any)`, or no elements.
abbrev array_of : Any → List Any
array_of (array vs) = item_list vs
array_of _ = []

abbrev or_nil : Option Any → Any
or_nil none = nil
or_nil (some v) = v

unfoldable pub extract_read_attribute_ids : Payload → List ℕ
unfolding ids_of item_list entry_list find_key
extract_read_attribute_ids (read_payload ids) = ids
extract_read_attribute_ids (value (dict es)) = ids_of true (array_of (find_key 1 (entry_list es)))
extract_read_attribute_ids (uint64_map m) = ids_of true (array_of (or_nil (lookup 1 m)))
extract_read_attribute_ids _ = []

-- The loop over a map[any]any, which keeps the keys of the two integer kinds.
unfoldable pub write_entries : List (Any × Any) → GoMap ℕ Any → GoMap ℕ Any
write_entries [] m = m
write_entries ((integer uint64_kind n, v) ∷ es) m = write_entries es (insert (wrap 65536 n) v m)
write_entries ((integer int64_kind n, v) ∷ es) m = write_entries es (insert (wrap 65536 n) v m)
write_entries ((_, v) ∷ es) m = write_entries es m

unfoldable pub write_uint64s : GoMap ℕ Any → GoMap ℕ Any → GoMap ℕ Any
write_uint64s [] m = m
write_uint64s ((k, v) ∷ es) m = write_uint64s es (insert (k % 65536) v m)

abbrev nonempty : GoMap ℕ Any → Option (GoMap ℕ Any)
nonempty [] = none
nonempty (e ∷ es) = some (e ∷ es)

unfoldable pub extract_write_payload : Payload → Option (GoMap ℕ Any)
unfolding write_entries write_uint64s entry_list
extract_write_payload (write_payload m) = some m
extract_write_payload (value (dict es)) = nonempty (write_entries (entry_list es) [])
extract_write_payload (uint64_map m) = nonempty (write_uint64s m [])
extract_write_payload _ = none

-- `v.(uint64)` as a uint32, or 0.
abbrev uint32_of : Any → ℕ
uint32_of (integer uint64_kind n) = wrap (2 ^ 32) n
uint32_of _ = 0

abbrev subscribe_from : (ℕ → Any) → SubscribePayload
subscribe_from at = record {
  attribute_ids = ids_of false (array_of (at 1));
  min_interval = uint32_of (at 2);
  max_interval = uint32_of (at 3);
}

unfoldable pub extract_subscribe_payload : Payload → Option SubscribePayload
unfolding ids_of item_list entry_list find_key
extract_subscribe_payload (subscribe_payload s) = some s
extract_subscribe_payload (value (dict es)) =
    some (subscribe_from (λ k. find_key k (entry_list es)))
extract_subscribe_payload (uint64_map m) = some (subscribe_from (λ k. or_nil (lookup k m)))
extract_subscribe_payload _ = none

-- Every kind of integer but uint.
unfoldable pub to_uint32 : Any → Option ℕ
to_uint32 (integer uint_kind n) = none
to_uint32 (integer _ n) = some (wrap (2 ^ 32) n)
to_uint32 _ = none
