-- ===== src/QrCode/RoundTrip.antt =====
-- mash-go/pkg/discovery/qrcode.go: QR codes and instance names that are written and read.
use mash.Base.{
  ℕ, ◌+◌, ◌*◌, ◌%◌, ◌<◌, ◌≤◌, ◌≡◌, refl, sym, ap, ◌∙◌, inl, true, false, some, List, [], ◌∷◌, ◌++◌,
  ltb, length, All, arith,
}
use mash.Base.Text.{Bytes, codes, split, join, split-join, strip_prefix}
use mash.Base.Digits.{decimal, symbol}
use mash.Base.Digits.Shape.{IsSymbol, parse_uint-decimal}
use mash.SetupCode.{QrCodeData, qr_string, setup_code_string}
use mash.SetupCode.RoundTrip.{split-qr_string}
use mash.SetupCode.Texts.{colon-Free}
use mash.SetupCode.Codes.{decimal-symbols, setup_code_string-symbols, length-setup_code_string}
use mash.QrCode.{
  QrCode, read, refused, invalid_field_count, parse_qr_code, parse_parts, with_prefix, with_version,
  with_code, string, new_qr_code, format_setup_code, generate_qr_code, all_decimal,
  max_discriminator, version_of, discriminator_of, qr_prefix, instance_name_from_discriminator,
  discriminator_from_instance_name, is_decimal,
}

format_setup_code_eq : (n : ℕ) → format_setup_code n ≡ setup_code_string n
unfolding format_setup_code setup_code_string
format_setup_code_eq n = refl

all_decimal-symbols : (s : Bytes) → All (IsSymbol 10) s → all_decimal s ≡ true
unfolding all_decimal symbol
all_decimal-symbols [] h = refl
all_decimal-symbols (c ∷ s) ((d, lt, e), h) =
    rw (ap is_decimal e ∙ ten d lt, all_decimal-symbols s h) refl
  where
    ten : (k : ℕ) → k < 10 → is_decimal (symbol k) ≡ true
    ten k lt = ground arith

within_most : (n : ℕ) → n ≤ max_discriminator → ltb max_discriminator n ≡ false
within_most n h = ground arith

abbrev words : QrCode → List Bytes
words q = decimal q.version ∷ decimal q.discriminator ∷ q.setup_code ∷ []

split-string :
    (q : QrCode) → All (IsSymbol 10) q.setup_code → split b':' (string q) ≡ codes "MASH" ∷ words q
unfolding string join
split-string q h =
    split-join b':' (codes "MASH") (words q) (refl, (refl, (refl, (refl, tt))))
      (
        colon-Free 10 (decimal q.version) (inl refl) (decimal-symbols q.version),
        (
          colon-Free 10 (decimal q.discriminator) (inl refl) (decimal-symbols q.discriminator),
          (colon-Free 10 q.setup_code (inl refl) h, tt),
        ),
      )

-- A code whose fields are in their ranges.
pub record IsWithin (q : QrCode) : Type 0 where
  pub version : q.version ≡ 1
  pub discriminator : q.discriminator ≤ max_discriminator
  pub long : length q.setup_code ≡ 8
  pub digits : All (IsSymbol 10) q.setup_code

stripped :
    (q : QrCode)
    → strip_prefix qr_prefix (string q)
      ≡ some (decimal q.version ++ b':' ∷ (decimal q.discriminator ++ b':' ∷ q.setup_code))
unfolding strip_prefix string
stripped q = refl

with_code_read :
    (d : ℕ) (code : Bytes)
    → length code ≡ 8
    → All (IsSymbol 10) code
    → with_code 1 d code ≡ read (record { version = 1; discriminator = d; setup_code = code })
with_code_read d code long h = rw (long, all_decimal-symbols code h) refl

parse-string_eq : (q : QrCode) → IsWithin q → parse_qr_code (string q) ≡ read q
unfolding parse_qr_code
parse-string_eq q w =
    ap (λ o. with_prefix o (string q)) (stripped q)
    ∙ ap parse_parts (split-string q w.digits)
    ∙ ap (λ o. with_version (version_of o) (decimal q.discriminator) q.setup_code)
        (parse_uint-decimal 256 q.version (omega (arith, w.version)) ∙ ap some w.version)
    ∙ rw
        (
          parse_uint-decimal 65536 q.discriminator (omega (arith, w.discriminator)),
          within_most q.discriminator w.discriminator,
        )
        (with_code_read q.discriminator q.setup_code w.long w.digits)
    ∙ ap (λ v. read (record q { version = v })) (sym w.version)

instance_name_eq :
    (d : ℕ)
    → d ≤ max_discriminator
    → discriminator_from_instance_name (instance_name_from_discriminator d) ≡ some d
unfolding discriminator_from_instance_name instance_name_from_discriminator
instance_name_eq d le =
    ap discriminator_of (parse_uint-decimal 65536 d (omega (arith, le)))
    ∙ rw (within_most d le) refl

new_qr_code_read :
    (d n : ℕ)
    → d ≤ max_discriminator
    → n ≤ 99999999
    → new_qr_code d (setup_code_string n)
      ≡ read (record { version = 1; discriminator = d; setup_code = setup_code_string n })
unfolding new_qr_code
new_qr_code_read d n le small = rw (within_most d le) (
    with_code_read d (setup_code_string n) (length-setup_code_string n small)
      (setup_code_string-symbols n))

-- Whatever six bytes are drawn, GenerateQRCode makes a code, the code is read back from its text, and
-- its discriminator from the instance name made of it.
pub parse_qr_code-string :
    (a b c d e f : ℕ)
    → (q : QrCode) × (generate_qr_code a b c d e f ≡ read q)
      × (parse_qr_code (string q) ≡ read q)
      × (discriminator_from_instance_name (instance_name_from_discriminator q.discriminator)
          ≡ some q.discriminator)
unfolding generate_qr_code
parse_qr_code-string a b c d e f =
    let disc : ℕ = (a * 256 + b) % (max_discriminator + 1) in
    let code : ℕ = (((c * 256 + d) * 256 + e) * 256 + f) % 100000000 in
    let q : QrCode = record {
      version = 1;
      discriminator = disc;
      setup_code = setup_code_string code;
    } in
    (
      q,
      ap (new_qr_code disc) (format_setup_code_eq code)
          ∙ new_qr_code_read disc code (omega arith) (omega arith),
      parse-string_eq q (record {
        version = refl;
        discriminator = omega arith;
        long = length-setup_code_string code (omega arith);
        digits = setup_code_string-symbols code;
      }),
      instance_name_eq disc (omega arith),
    )

stripped_other :
    (q : QrCodeData) → (rest : Bytes) × (strip_prefix qr_prefix (qr_string q) ≡ some rest)
unfolding strip_prefix qr_string
stripped_other q = (_, refl)

-- The text of any QR code of the package commissioning is refused by the parser of the package discovery.
pub parse_qr_code-qr_string-refused :
    (q : QrCodeData) → parse_qr_code (qr_string q) ≡ refused invalid_field_count
unfolding parse_qr_code
parse_qr_code-qr_string-refused q =
    let (rest, e) = stripped_other q in
    ap (λ o. with_prefix o (qr_string q)) e ∙ ap parse_parts (split-qr_string q)
