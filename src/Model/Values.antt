-- ===== src/Model/Values.antt =====
-- Go's `any` as attributes and payloads use it, and the helpers of mash-go/pkg/model/attribute.go on
-- it. A float is its bits. Of the types that == cannot compare there are []byte, []uint16, []any and
-- maps.
use package.text.Mathlib.Text.{◌==◌ as str_eq}
use Prim.Native.Nat.{◌^◌}
use mash.Base.{
  ℕ, zero, suc, ◌+◌, ◌-◌, ◌*◌, ◌/◌, ◌%◌, Bool, true, false, not, ◌&&◌, ◌||◌, Option, none, some,
  List, [], ◌∷◌, String, ltb, ◌==◌, if◌then◌else◌,
}
use mash.Base.Int.{ℤ, pos, negsuc, ltb_ℤ}
use mash.Subscription.Values.{int_equal, bool_equal, is_nan, float_equal}

pub data IntKind : Type 0 where
  int_kind int8_kind int16_kind int32_kind int64_kind : IntKind
  uint_kind uint8_kind uint16_kind uint32_kind uint64_kind : IntKind

abbrev kind_code : IntKind → ℕ
kind_code int_kind = 0
kind_code int8_kind = 1
kind_code int16_kind = 2
kind_code int32_kind = 3
kind_code int64_kind = 4
kind_code uint_kind = 5
kind_code uint8_kind = 6
kind_code uint16_kind = 7
kind_code uint32_kind = 8
kind_code uint64_kind = 9

-- `array` is []any, `dict` is map[any]any and `table` is map[string]any.
mutual
  pub data Any : Type 0 where
    nil : Any
    boolean : Bool → Any
    integer : IntKind → ℤ → Any
    float64 float32 : ℕ → Any
    text : String → Any
    bytes : List ℕ → Any
    uint16s : List ℕ → Any
    array : Items → Any
    dict : Entries → Any
    table : Rows → Any

  pub data Items : Type 0 where
    no_items : Items
    item : Any → Items → Items

  pub data Entries : Type 0 where
    no_entries : Entries
    entry : Any → Any → Entries → Entries

  pub data Rows : Type 0 where
    no_rows : Rows
    row : String → Any → Rows → Rows

unfoldable pub item_list : Items → List Any
item_list no_items = []
item_list (item v vs) = v ∷ item_list vs

unfoldable pub entry_list : Entries → List (Any × Any)
entry_list no_entries = []
entry_list (entry k v es) = (k, v) ∷ entry_list es

unfoldable pub row_list : Rows → List (String × Any)
row_list no_rows = []
row_list (row k v rs) = (k, v) ∷ row_list rs

abbrev pub is_nil : Any → Bool
is_nil nil = true
is_nil _ = false

abbrev pub is_integer_type : Any → Bool
is_integer_type (integer _ _) = true
is_integer_type _ = false

abbrev pub is_numeric_type : Any → Bool
is_numeric_type (integer _ _) = true
is_numeric_type (float64 _) = true
is_numeric_type (float32 _) = true
is_numeric_type _ = false

-- `a != b`, and true where the comparison panics: two values of one type that is not comparable.
unfoldable pub safe_not_equal : Any → Any → Bool
safe_not_equal nil nil = false
safe_not_equal (boolean a) (boolean b) = not (bool_equal a b)
safe_not_equal (integer k a) (integer j b) = not ((kind_code k == kind_code j) && int_equal a b)
safe_not_equal (float64 a) (float64 b) = not (float_equal 52 11 a b)
safe_not_equal (float32 a) (float32 b) = not (float_equal 23 8 a b)
safe_not_equal (text a) (text b) = not (str_eq a b)
safe_not_equal _ _ = true

-- A float64 that is a number is an integer multiple of 2^-1074; an infinity stands above them all.
pub data Float : Type 0 where
  nan : Float
  finite : ℤ → Float

abbrev pub lt_float : Float → Float → Bool
lt_float (finite a) (finite b) = ltb_ℤ a b
lt_float _ _ = false

-- The magnitude of a float with so many bits for the fraction, in multiples of the least one; an infinity is 2^2200.
magnitude : ℕ → ℕ → ℕ → ℕ
magnitude fraction exponent f =
    let e = f / 2 ^ fraction % 2 ^ exponent in
    let r = f % 2 ^ fraction in if e == 0 then r else (2 ^ fraction + r) * 2 ^ (e - 1)

signed : Bool → ℕ → ℤ
signed negative zero = pos 0
signed negative (suc n) = if negative then negsuc n else pos (suc n)

decode : ℕ → ℕ → ℕ → ℕ → Float
unfolding magnitude signed
decode fraction exponent scale f =
    if is_nan fraction exponent f
    then nan
    else finite (
        signed (f / 2 ^ (fraction + exponent) == 1) (
          if f % 2 ^ (fraction + exponent) == (2 ^ exponent - 1) * 2 ^ fraction
          then 2 ^ 2200
          else magnitude fraction exponent f * 2 ^ scale))

-- The bits that an integer of at most 64 bits has too many for the 53 of a float64.
unfoldable pub excess : ℕ → ℕ → ℕ
excess zero n = 0
excess (suc fuel) n = if ltb n (2 ^ 53) then 0 else suc (excess fuel (n / 2))

-- Rounding to 53 bits, and to even at a tie.
unfoldable pub round_to : ℕ → ℕ → ℕ
round_to zero n = n
round_to (suc s) n =
    let u = 2 ^ suc s in
    if ltb (u / 2) (n % u) || ((n % u == u / 2) && (n / u % 2 == 1))
    then (n / u + 1) * u
    else n / u * u

unfoldable pub round_float : ℕ → ℕ
unfolding excess round_to
round_float n = round_to (excess 11 n) n

of_int : ℤ → ℤ
unfolding round_float signed
of_int (pos n) = signed false (round_float n * 2 ^ 1074)
of_int (negsuc n) = signed true (round_float (suc n) * 2 ^ 1074)

unfoldable pub to_float64 : Any → Option Float
unfolding decode of_int
to_float64 (integer _ n) = some (finite (of_int n))
to_float64 (float64 f) = some (decode 52 11 0 f)
to_float64 (float32 f) = some (decode 23 8 925 f)
to_float64 _ = none

-- `m[uint64(key)]` of a map[any]any, which is nil where there is none.
unfoldable pub find_key : ℕ → List (Any × Any) → Any
find_key key [] = nil
find_key key ((integer uint64_kind (pos n), v) ∷ es) = if n == key then v else find_key key es
find_key key ((_, v) ∷ es) = find_key key es
