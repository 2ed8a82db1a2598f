-- ===== src/SetupCode/Codes.antt =====
-- mash-go/pkg/commissioning/setupcode.go: setup codes and the numbers of a
-- QR code, written and read.
use mash.Base.{ℕ, ◌<◌, ◌≤◌, ◌^◌, ◌≡◌, refl, inl, inr, false, some, ltb, length, All, arith}
use mash.Base.Text.{Bytes}
use mash.Base.Digits.{digits, decimal, padded, hex4, parse_uint, value_from}
use mash.Base.Digits.Laws.{value_from-padded}
use mash.Base.Digits.Shape.{
  IsSymbol, digits-symbols, padded-symbols, length-digits-le, length-padded, parse_uint-some,
}
use mash.SetupCode.{parse_setup_code, setup_code_string}
use mash.SetupCode.Texts.{symbols-IsTrimmed, trim_left-symbols}

pub decimal-symbols : (n : ℕ) → All (IsSymbol 10) (decimal n)
unfolding decimal
decimal-symbols n = digits-symbols 10 n n (inl refl) (omega arith)

pub setup_code_string-symbols : (n : ℕ) → All (IsSymbol 10) (setup_code_string n)
unfolding setup_code_string
setup_code_string-symbols n = padded-symbols 10 8 (decimal n) (inl refl) (decimal-symbols n)

pub length-setup_code_string : (n : ℕ) → n ≤ 99999999 → length (setup_code_string n) ≡ 8
unfolding setup_code_string decimal
length-setup_code_string n le =
    length-padded 8 (digits 10 n n)
      (length-digits-le 10 7 n n (inl refl) (omega arith) (omega arith))

pub hex4-symbols : (n : ℕ) → All (IsSymbol 16) (hex4 n)
unfolding hex4
hex4-symbols n =
    padded-symbols 16 4 (digits 16 n n) (inr refl) (digits-symbols 16 n n (inr refl) (omega arith))

pub length-hex4 : (n : ℕ) → n < 65536 → length (hex4 n) ≡ 4
unfolding hex4
length-hex4 n lt =
    length-padded 4 (digits 16 n n)
      (length-digits-le 16 3 n n (inr refl) (omega arith) (omega arith))

pub parse-hex4 : (n : ℕ) → n < 65536 → parse_uint 16 65536 (hex4 n) ≡ some n
unfolding hex4
parse-hex4 n lt =
    parse_uint-some 16 65536 n (padded 4 (digits 16 n n))
      (value_from-padded 16 4 n n (inr refl) (omega arith)) (omega (arith, length-hex4 n lt)) lt

setup_code_value : (n : ℕ) → value_from 10 0 (setup_code_string n) ≡ some n
unfolding setup_code_string decimal
setup_code_value n = value_from-padded 10 8 n n (inl refl) (omega arith)

pub parse_setup_code-setup_code_string :
    (n : ℕ) → n ≤ 99999999 → parse_setup_code (setup_code_string n) ≡ some n
unfolding parse_setup_code
parse_setup_code-setup_code_string n le =
    let s : Bytes = setup_code_string n in
    let symbols : All (IsSymbol 10) s = setup_code_string-symbols n in
    let long : length s ≡ 8 = length-setup_code_string n le in
    rw
      (
        trim_left-symbols 10 s (inl refl) symbols,
        (symbols-IsTrimmed 10 s (inl refl) symbols (omega (arith, long))).0,
        long,
        parse_code n s le long (setup_code_value n),
        in_limit n le,
      )
      refl
  where
    in_limit : (k : ℕ) → k ≤ 99999999 → ltb 99999999 k ≡ false
    in_limit k h = ground arith

    parse_code :
        (k : ℕ) (t : Bytes)
        → k ≤ 99999999
        → length t ≡ 8
        → value_from 10 0 t ≡ some k
        → parse_uint 10 (2 ^ 32) t ≡ some k
    parse_code k t h l v = parse_uint-some 10 (2 ^ 32) k t v (omega (arith, l)) (omega (arith, h))
