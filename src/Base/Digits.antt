-- ===== src/Base/Digits.antt =====
-- Numbers as digits: strconv.ParseUint with base 10 or 16, and the verbs %d, %08d and %04X of fmt.
pub mod Laws
pub mod Shape
use mash.Base.{
  ℕ, zero, suc, ◌+◌, ◌-◌, ◌*◌, ◌/◌, ◌%◌, Bool, true, false, ◌&&◌, Option, none, some, List, [], ◌∷◌,
  ◌++◌, ltb, leb, ◌==◌, if◌then◌else◌, length,
}
use mash.Base.Text.{Bytes}

-- The value of a byte as a digit; 99 for a byte that is none.
unfoldable pub digit : ℕ → ℕ
digit c =
    if leb b'0' c && leb c b'9'
    then c - b'0'
    else if leb b'a' c && leb c b'z'
    then c - b'a' + 10
    else if leb b'A' c && leb c b'Z'
    then c - b'A' + 10
    else 99

unfoldable pub value_from : ℕ → ℕ → Bytes → Option ℕ
unfolding digit
value_from base acc [] = some acc
value_from base acc (c ∷ cs) =
    let rest = value_from base (acc * base + digit c) cs in
    if ltb (digit c) base then rest else none

abbrev pub below : ℕ → Option ℕ → Option ℕ
below limit none = none
below limit (some n) = if ltb n limit then some n else none

-- strconv.ParseUint, for values below a limit.
unfoldable pub parse_uint : ℕ → ℕ → Bytes → Option ℕ
unfolding value_from
parse_uint base limit [] = none
parse_uint base limit (c ∷ cs) = below limit (value_from base 0 (c ∷ cs))

unfoldable pub symbol : ℕ → ℕ
symbol d = if ltb d 10 then b'0' + d else b'A' + d - 10

-- The digits of a number, with fuel: as much as the number itself is enough.
unfoldable pub digits : ℕ → ℕ → ℕ → Bytes
unfolding symbol
digits base zero n = symbol n ∷ []
digits base (suc fuel) n =
    let rest = digits base fuel (n / base) in
    if ltb n base then symbol n ∷ [] else rest ++ symbol (n % base) ∷ []

unfoldable pub zeros : ℕ → Bytes
zeros zero = []
zeros (suc k) = b'0' ∷ zeros k

-- %d
unfoldable pub decimal : ℕ → Bytes
unfolding digits
decimal n = digits 10 n n

-- %0wd and %0wX, by the digits without a width.
unfoldable pub padded : ℕ → Bytes → Bytes
unfolding zeros
padded w ds = zeros (w - length ds) ++ ds

-- %04X
unfoldable pub hex4 : ℕ → Bytes
unfolding digits padded
hex4 n = padded 4 (digits 16 n n)
