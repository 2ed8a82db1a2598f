-- ===== src/Subscription/Values.antt =====
-- The values of attributes and valuesEqual (mash-go/pkg/subscription/subscription.go). A float is its
-- bits, and Go compares floats as IEEE 754 says; `other` is a value of any further type.
use Prim.Native.Nat.{◌^◌}
use text.Mathlib.Text.{◌==◌ as str_eq}
use mash.Base.{ℕ, ◌+◌, ◌-◌, ◌/◌, ◌%◌, Bool, true, false, not, ◌&&◌, ◌||◌, String, ◌==◌}
use mash.Base.Int.{ℤ, pos, negsuc}

pub data Value : Type 0 where
  nil : Value
  int64 int32 int : ℤ → Value
  uint64 uint32 uint : ℕ → Value
  float64 float32 : ℕ → Value
  string : String → Value
  bool : Bool → Value
  other : ℕ → Value

abbrev pub int_equal : ℤ → ℤ → Bool
int_equal (pos m) (pos n) = m == n
int_equal (negsuc m) (negsuc n) = m == n
int_equal (pos _) (negsuc _) = false
int_equal (negsuc _) (pos _) = false

abbrev pub bool_equal : Bool → Bool → Bool
bool_equal true b = b
bool_equal false b = not b

-- A float with so many bits for the fraction and so many for the exponent, and a bit for the sign.
abbrev pub is_nan : ℕ → ℕ → ℕ → Bool
is_nan fraction exponent f =
    (f / 2 ^ fraction % 2 ^ exponent == 2 ^ exponent - 1) && not (f % 2 ^ fraction == 0)

abbrev is_zero : ℕ → ℕ → ℕ → Bool
is_zero fraction exponent f = f % 2 ^ (fraction + exponent) == 0

abbrev pub float_equal : ℕ → ℕ → ℕ → ℕ → Bool
float_equal fraction exponent f g =
    not (is_nan fraction exponent f)
    && not (is_nan fraction exponent g)
    && ((f == g) || (is_zero fraction exponent f && is_zero fraction exponent g))

unfoldable pub values_equal : Value → Value → Bool
values_equal nil nil = true
values_equal (int64 a) (int64 b) = int_equal a b
values_equal (int32 a) (int32 b) = int_equal a b
values_equal (int a) (int b) = int_equal a b
values_equal (uint64 a) (uint64 b) = a == b
values_equal (uint32 a) (uint32 b) = a == b
values_equal (uint a) (uint b) = a == b
values_equal (float64 a) (float64 b) = float_equal 52 11 a b
values_equal (float32 a) (float32 b) = float_equal 23 8 a b
values_equal (string a) (string b) = str_eq a b
values_equal (bool a) (bool b) = bool_equal a b
values_equal _ _ = false
