-- ===== src/Model/Attribute.antt =====
-- mash-go/pkg/model/attribute.go: an attribute, its metadata without the texts for people, and the
-- checks of a value that is to be stored. Access flags are the bits of a uint8.
use mash.Base.{
  ℕ, ◌/◌, ◌%◌, Bool, true, false, not, ◌&&◌, ◌||◌, Option, none, some, ◌==◌, if◌then◌else◌,
}
use mash.Base.Int.{pos}
use mash.Model.Values.{
  Any, boolean, text, bytes, is_nil, is_integer_type, is_numeric_type, safe_not_equal, Float,
  lt_float, to_float64,
}

abbrev pub access_read_only : ℕ
access_read_only = 5

abbrev pub access_read_write : ℕ
access_read_write = 7

abbrev pub can_read : ℕ → Bool
can_read a = a % 2 == 1

abbrev pub can_write : ℕ → Bool
can_write a = a / 2 % 2 == 1

abbrev pub can_subscribe : ℕ → Bool
can_subscribe a = a / 4 % 2 == 1

pub data DataType : Type 0 where
  type_unknown type_bool : DataType
  type_int8 type_int16 type_int32 type_int64 : DataType
  type_uint8 type_uint16 type_uint32 type_uint64 : DataType
  type_float32 type_float64 type_string type_bytes : DataType
  type_array type_map type_struct type_enum type_null : DataType

pub record Metadata : Type 0 where
  pub id : ℕ
  pub value_type : DataType
  pub access : ℕ
  pub nullable : Bool
  pub min_value : Any
  pub max_value : Any
  pub default_value : Any

pub record Attribute : Type 0 where
  pub metadata : Metadata
  pub value : Any
  pub dirty : Bool

-- The errors of the package.
pub data ModelError : Type 0 where
  attribute_not_writable attribute_not_nullable attribute_value_type : ModelError
  attribute_out_of_range attribute_not_found feature_read_only : ModelError
  feature_not_found endpoint_not_found duplicate_endpoint : ModelError

unfoldable pub new_attribute : Metadata → Attribute
new_attribute m = record { metadata = m; value = m.default_value; dirty = false }

abbrev is_bool : Any → Bool
is_bool (boolean _) = true
is_bool _ = false

abbrev is_text : Any → Bool
is_text (text _) = true
is_text _ = false

abbrev is_bytes : Any → Bool
is_bytes (bytes _) = true
is_bytes _ = false

-- The type switch of validateValue.
abbrev pub matches_type : DataType → Any → Bool
matches_type type_bool v = is_bool v
matches_type type_int8 v = is_integer_type v
matches_type type_int16 v = is_integer_type v
matches_type type_int32 v = is_integer_type v
matches_type type_int64 v = is_integer_type v
matches_type type_uint8 v = is_integer_type v
matches_type type_uint16 v = is_integer_type v
matches_type type_uint32 v = is_integer_type v
matches_type type_uint64 v = is_integer_type v
matches_type type_float32 v = is_numeric_type v
matches_type type_float64 v = is_numeric_type v
matches_type type_string v = is_text v
matches_type type_bytes v = is_bytes v
matches_type _ v = true

-- A bound that is no number counts as 0, as toFloat64 returns it.
abbrev or_zero : Option Float → Float
or_zero (some f) = f
or_zero none = Float.finite (pos 0)

unfoldable pub in_range : Metadata → Float → Bool
in_range m v =
    not (not (is_nil m.min_value) && lt_float v (or_zero (to_float64 m.min_value)))
    && not (not (is_nil m.max_value) && lt_float (or_zero (to_float64 m.max_value)) v)

abbrev range_error : Metadata → Option Float → Option ModelError
range_error m none = none
range_error m (some v) = if in_range m v then none else some attribute_out_of_range

unfoldable pub check_range : Metadata → Any → Option ModelError
unfolding in_range
check_range m v = range_error m (to_float64 v)

unfoldable pub validate_value : Metadata → Any → Option ModelError
unfolding check_range
validate_value m v =
    if matches_type m.value_type v
    then if not (is_nil m.min_value) || not (is_nil m.max_value) then check_range m v else none
    else some attribute_value_type

-- The checks of setValueInternal.
unfoldable pub check_value : Metadata → Any → Option ModelError
unfolding validate_value
check_value m v =
    if is_nil v
    then if m.nullable then none else some attribute_not_nullable
    else validate_value m v

unfoldable pub store : Attribute → Any → Attribute
store a v = if safe_not_equal a.value v then record a { value = v; dirty = true } else a

abbrev pub stored : Option ModelError → Attribute → Any → Attribute × Option ModelError
stored none a v = (store a v, none)
stored (some e) a v = (a, some e)

unfoldable pub set_value_internal : Attribute → Any → Attribute × Option ModelError
unfolding check_value store
set_value_internal a v = stored (check_value a.metadata v) a v

unfoldable pub set_value : Attribute → Any → Attribute × Option ModelError
unfolding set_value_internal
set_value a v =
    if can_write a.metadata.access then set_value_internal a v else (a, some attribute_not_writable)

unfoldable pub clear_dirty : Attribute → Attribute
clear_dirty a = record a { dirty = false }
