-- ===== src/SetupCode/RoundTrip.antt =====
-- mash-go/pkg/commissioning/setupcode.go: setup codes and QR codes that are written and read.
use mash.Base.{
  ℕ, ◌<◌, ◌≤◌, ◌^◌, ◌≡◌, refl, sym, ap, ◌∙◌, inl, inr, true, false, some, List, [], ◌∷◌, ◌++◌, ltb,
  arith,
}
use mash.Base.Text.{Bytes, Free, codes, same, split, join, split-join, strip_prefix}
use mash.Base.Digits.{decimal, hex4}
use mash.Base.Digits.Shape.{length-digits-pos, parse_uint-decimal}
use mash.SetupCode.{
  setup_code_string, trim_space, trim_left, trim_right, up_to, QrCodeData, parsed, parse_qr_code,
  qr_string, parse_groups, groups, parse_id, discriminator_max, with_version, some_digits, hex_or,
}
use mash.SetupCode.Texts.{
  IsTrimmed, cons-IsTrimmed, join-IsTrimmed, symbols-IsTrimmed, all_digits-symbols,
  some_digits-symbols, hex_or-symbols, colon-Free,
}
use mash.SetupCode.Codes.{
  decimal-symbols, setup_code_string-symbols, length-setup_code_string, hex4-symbols, length-hex4,
  parse-hex4, parse_setup_code-setup_code_string,
}

-- A code whose numbers are in their ranges.
pub record IsWithin (q : QrCodeData) : Type 0 where
  pub version : q.version ≡ 1
  pub discriminator : q.discriminator ≤ discriminator_max
  pub setup_code : q.setup_code ≤ 99999999
  pub vendor : q.vendor_id < 65536
  pub product : q.product_id < 65536

abbrev pub id_text : ℕ → Bytes
id_text n = codes "0x" ++ hex4 n

abbrev pub words : QrCodeData → List Bytes
words q =
    decimal q.version
    ∷ decimal q.discriminator
    ∷ setup_code_string q.setup_code
    ∷ id_text q.vendor_id
    ∷ id_text q.product_id
    ∷ []

qr_string-words : (q : QrCodeData) → qr_string q ≡ join b':' (codes "MASH") (words q)
unfolding qr_string join
qr_string-words q = refl

decimal-IsTrimmed : (n : ℕ) → IsTrimmed (decimal n)
unfolding decimal
decimal-IsTrimmed n =
    symbols-IsTrimmed 10 (decimal n) (inl refl) (decimal-symbols n) (length-digits-pos 10 n n)

id-IsTrimmed : (n : ℕ) → n < 65536 → IsTrimmed (id_text n)
id-IsTrimmed n lt = cons-IsTrimmed b'0' (b'x' ∷ hex4 n) (
    cons-IsTrimmed b'x' (hex4 n)
      (symbols-IsTrimmed 16 (hex4 n) (inr refl) (hex4-symbols n) (omega (arith, length-hex4 n lt))))

id-Free : (n : ℕ) → Free b':' (id_text n)
id-Free n = (refl, (refl, colon-Free 16 (hex4 n) (inr refl) (hex4-symbols n)))

letters-IsTrimmed : IsTrimmed (codes "MASH")
unfolding trim_right
letters-IsTrimmed = (refl, omega arith)

trim_left-qr_string : (q : QrCodeData) → trim_left (qr_string q) ≡ qr_string q
unfolding trim_left qr_string
trim_left-qr_string q = refl

qr_string-IsTrimmed : (q : QrCodeData) → IsWithin q → IsTrimmed (qr_string q)
qr_string-IsTrimmed q w = rw (qr_string-words q) (
    join-IsTrimmed b':' (codes "MASH") (words q) (letters-IsTrimmed) (
      decimal-IsTrimmed q.version,
      (
        decimal-IsTrimmed q.discriminator,
        (
          symbols-IsTrimmed 10 (setup_code_string q.setup_code) (inl refl)
              (setup_code_string-symbols q.setup_code)
              (omega (arith, length-setup_code_string q.setup_code w.setup_code)),
          (id-IsTrimmed q.vendor_id w.vendor, (id-IsTrimmed q.product_id w.product, tt)),
        ),
      ),
    ))

trim_space-qr_string : (q : QrCodeData) → IsWithin q → trim_space (qr_string q) ≡ qr_string q
unfolding trim_space
trim_space-qr_string q w = ap trim_right (trim_left-qr_string q) ∙ (qr_string-IsTrimmed q w).0

pub split-qr_string : (q : QrCodeData) → split b':' (qr_string q) ≡ codes "MASH" ∷ words q
split-qr_string q =
    ap (split b':') (qr_string-words q)
    ∙ split-join b':' (codes "MASH") (words q) (refl, (refl, (refl, (refl, tt))))
        (
          colon-Free 10 (decimal q.version) (inl refl) (decimal-symbols q.version),
          (
            colon-Free 10 (decimal q.discriminator) (inl refl) (decimal-symbols q.discriminator),
            (
              colon-Free 10 (setup_code_string q.setup_code) (inl refl)
                  (setup_code_string-symbols q.setup_code),
              (id-Free q.vendor_id, (id-Free q.product_id, tt)),
            ),
          ),
        )

decimal_digits : (n : ℕ) → some_digits (decimal n) ≡ true
unfolding decimal
decimal_digits n = some_digits-symbols (decimal n) (decimal-symbols n) (length-digits-pos 10 n n)

id_digits : (n : ℕ) → n < 65536 → hex_or (some (hex4 n)) (id_text n) ≡ true
id_digits n lt =
    hex_or-symbols (hex4 n) (id_text n) (hex4-symbols n) (omega (arith, length-hex4 n lt))

groups-words :
    (q : QrCodeData)
    → IsWithin q
    → groups (codes "MASH" ∷ words q)
      ≡ some (
        decimal q.version,
        decimal q.discriminator,
        setup_code_string q.setup_code,
        id_text q.vendor_id,
        id_text q.product_id,
      )
unfolding same strip_prefix
groups-words q w =
    rw
      (
        decimal_digits q.version,
        decimal_digits q.discriminator,
        length-setup_code_string q.setup_code w.setup_code,
        all_digits-symbols 10 (setup_code_string q.setup_code) (inl refl)
            (setup_code_string-symbols q.setup_code),
        id_digits q.vendor_id w.vendor,
        id_digits q.product_id w.product,
      )
      refl

within_most : (n : ℕ) → n ≤ discriminator_max → up_to discriminator_max (some n) ≡ some n
within_most n le = rw (in_limit n le) refl
  where
    in_limit : (k : ℕ) → k ≤ discriminator_max → ltb discriminator_max k ≡ false
    in_limit k h = ground arith

parse_id-id_text : (n : ℕ) → n < 65536 → parse_id (id_text n) ≡ some n
unfolding parse_id
parse_id-id_text n lt = parse-hex4 n lt

parse_words :
    (q : QrCodeData)
    → IsWithin q
    → with_version
        (some 1)
        (decimal q.discriminator)
        (setup_code_string q.setup_code)
        (id_text q.vendor_id)
        (id_text q.product_id)
      ≡ parsed (record q { version = 1 })
parse_words q w =
    rw
      (
        parse_uint-decimal 65536 q.discriminator (omega (arith, w.discriminator)),
        within_most q.discriminator w.discriminator,
        parse_setup_code-setup_code_string q.setup_code w.setup_code,
        parse_id-id_text q.vendor_id w.vendor,
        parse_id-id_text q.product_id w.product,
      )
      refl

-- The text of a QR code of version 1 is read back as the same code, when its discriminator has 12 bits,
-- its setup code 8 digits, and its vendor and product are uint16s.
pub parse_qr_code-qr_string : (q : QrCodeData) → IsWithin q → parse_qr_code (qr_string q) ≡ parsed q
unfolding parse_qr_code
parse_qr_code-qr_string q w =
    ap (λ s. parse_groups (groups (split b':' s))) (trim_space-qr_string q w)
    ∙ ap (λ ws. parse_groups (groups ws)) (split-qr_string q)
    ∙ ap parse_groups (groups-words q w)
    ∙ ap
        (λ o.
          with_version o (decimal q.discriminator) (setup_code_string q.setup_code)
            (id_text q.vendor_id) (id_text q.product_id))
        (parse_uint-decimal (2 ^ 63) q.version (omega (arith, w.version)) ∙ ap some w.version)
    ∙ parse_words q w
    ∙ ap (λ v. parsed (record q { version = v })) (sym w.version)
