-- ===== src/SetupCode.antt =====
-- mash-go/pkg/commissioning/setupcode.go: setup codes and the QR codes that carry one. Texts are bytes
-- of ASCII, so that white space is of one byte each; the random numbers are arguments.
pub mod Texts
pub mod Codes
pub mod RoundTrip
pub mod Generation
mod Tests
use mash.Base.{
  ℕ, zero, suc, ◌+◌, ◌^◌, Bool, true, false, ◌&&◌, ◌||◌, Option, none, some, List, [], ◌∷◌, ◌++◌,
  ltb, leb, ◌==◌, if◌then◌else◌, length, is_some, not,
}
use mash.Base.Text.{Bytes, codes, same, split, strip_prefix}
use mash.Base.Digits.{digit, parse_uint, decimal, padded, hex4}

abbrev pub setup_code_length : ℕ
setup_code_length = 8

abbrev pub setup_code_min : ℕ
setup_code_min = 1

abbrev pub setup_code_max : ℕ
setup_code_max = 99999998

abbrev pub discriminator_max : ℕ
discriminator_max = 0xFFF

abbrev pub invalid_setup_codes : List ℕ
invalid_setup_codes =
    11111111 ∷ 22222222 ∷ 33333333 ∷ 44444444 ∷ 55555555 ∷ 66666666 ∷ 77777777 ∷ 88888888 ∷ 12345678
    ∷ 87654321 ∷ []

abbrev pub is_space : ℕ → Bool
is_space c = (leb 9 c && leb c 13) || (c == 32)

unfoldable pub trim_left : Bytes → Bytes
trim_left [] = []
trim_left (c ∷ s) = let rest = trim_left s in if is_space c then rest else c ∷ s

abbrev pub keep : ℕ → Bytes → Bytes
keep c [] = if is_space c then [] else c ∷ []
keep c (d ∷ s) = c ∷ d ∷ s

unfoldable pub trim_right : Bytes → Bytes
trim_right [] = []
trim_right (c ∷ s) = keep c (trim_right s)

-- strings.TrimSpace
unfoldable pub trim_space : Bytes → Bytes
unfolding trim_left trim_right
trim_space s = trim_right (trim_left s)

abbrev pub up_to : ℕ → Option ℕ → Option ℕ
up_to most none = none
up_to most (some n) = if ltb most n then none else some n

unfoldable pub parse_setup_code : Bytes → Option ℕ
unfolding trim_space parse_uint
parse_setup_code s =
    let t = trim_space s in
    if length t == setup_code_length then up_to 99999999 (parse_uint 10 (2 ^ 32) t) else none

-- The method String of a setup code.
unfoldable pub setup_code_string : ℕ → Bytes
unfolding decimal padded
setup_code_string code = padded 8 (decimal code)

pub data SetupCodeError : Type 0 where
  out_of_range prohibited : SetupCodeError

unfoldable pub contains : List ℕ → ℕ → Bool
contains [] code = false
contains (c ∷ cs) code = (c == code) || contains cs code

unfoldable pub validate : ℕ → Option SetupCodeError
unfolding contains
validate code =
    if ltb code setup_code_min || ltb setup_code_max code
    then some out_of_range
    else if contains invalid_setup_codes code
    then some prohibited
    else none

-- The loop of GenerateSetupCode with what rand.Int returns in each round: a number below the range, or
-- an error.
abbrev pub next_round : Option ℕ → Option ℕ → Option ℕ
next_round none rest = none
next_round (some n) rest =
    if not (is_some (validate (n + setup_code_min))) then some (n + setup_code_min) else rest

unfoldable pub generate_loop : ℕ → (ℕ → Option ℕ) → ℕ → Option ℕ
unfolding validate
generate_loop zero draw round = none
generate_loop (suc rounds) draw round =
    next_round (draw round) (generate_loop rounds draw (suc round))

unfoldable pub generate_setup_code : (ℕ → Option ℕ) → Option ℕ
unfolding generate_loop
generate_setup_code draw = generate_loop 10 draw 0

pub record QrCodeData : Type 0 where
  pub version : ℕ
  pub discriminator : ℕ
  pub setup_code : ℕ
  pub vendor_id : ℕ
  pub product_id : ℕ

pub data QrError : Type 0 where
  invalid_qr_code unsupported_version : QrError

pub data QrResult : Type 0 where
  parsed : QrCodeData → QrResult
  failed : QrError → QrResult

-- Every byte of a text is a digit of the base.
unfoldable pub all_digits : ℕ → Bytes → Bool
all_digits base [] = true
all_digits base (c ∷ s) = ltb (digit c) base && all_digits base s

-- `[0-9]+`
abbrev pub some_digits : Bytes → Bool
some_digits [] = false
some_digits (c ∷ s) = all_digits 10 (c ∷ s)

abbrev pub hex_or : Option Bytes → Bytes → Bool
hex_or (some []) s = false
hex_or (some (c ∷ t)) s = all_digits 16 (c ∷ t)
hex_or none s = some_digits s

-- `0x[0-9a-fA-F]+|[0-9]+`
abbrev pub is_id : Bytes → Bool
is_id s = hex_or (strip_prefix (codes "0x") s) s

-- The groups of the regular expression hold no colon, so it is a split at the colons.
abbrev pub groups : List Bytes → Option (Bytes × Bytes × Bytes × Bytes × Bytes)
groups (m ∷ v ∷ d ∷ c ∷ a ∷ b ∷ []) =
    if same m (codes "MASH")
      && some_digits v
      && some_digits d
      && (length c == 8)
      && all_digits 10 c
      && is_id a
      && is_id b
    then some (v, d, c, a, b)
    else none
groups _ = none

abbrev pub hex_of : Option Bytes → Bytes → Option ℕ
hex_of (some t) s = parse_uint 16 65536 t
hex_of none s = parse_uint 10 65536 s

abbrev pub upper_of : Option Bytes → Bytes → Option ℕ
upper_of (some t) s = parse_uint 16 65536 t
upper_of none s = hex_of (strip_prefix (codes "0X") s) s

unfoldable pub parse_id : Bytes → Option ℕ
unfolding strip_prefix parse_uint
parse_id s = upper_of (strip_prefix (codes "0x") s) s

abbrev pub assemble : ℕ → Option ℕ → Option ℕ → Option ℕ → Option ℕ → QrResult
assemble v (some d) (some c) (some a) (some b) =
    parsed record { version = v; discriminator = d; setup_code = c; vendor_id = a; product_id = b }
assemble v _ _ _ _ = failed invalid_qr_code

abbrev pub with_version : Option ℕ → Bytes → Bytes → Bytes → Bytes → QrResult
with_version none d c a b = failed invalid_qr_code
with_version (some v) d c a b =
    if v == 1
    then assemble v (up_to discriminator_max (parse_uint 10 65536 d)) (parse_setup_code c)
        (parse_id a) (parse_id b)
    else failed unsupported_version

abbrev pub parse_groups : Option (Bytes × Bytes × Bytes × Bytes × Bytes) → QrResult
parse_groups none = failed invalid_qr_code
parse_groups (some (v, d, c, a, b)) = with_version (parse_uint 10 (2 ^ 63) v) d c a b

unfoldable pub parse_qr_code : Bytes → QrResult
unfolding trim_space split same all_digits strip_prefix parse_uint parse_setup_code parse_id
parse_qr_code s = parse_groups (groups (split b':' (trim_space s)))

-- The method String of a QR code.
unfoldable pub qr_string : QrCodeData → Bytes
unfolding decimal setup_code_string hex4
qr_string q =
    codes "MASH"
    ++ b':'
      ∷ (decimal q.version
          ++ b':'
            ∷ (decimal q.discriminator
                ++ b':'
                  ∷ (setup_code_string q.setup_code
                      ++ b':'
                        ∷ ((codes "0x" ++ hex4 q.vendor_id)
                            ++ b':' ∷ (codes "0x" ++ hex4 q.product_id)))))
