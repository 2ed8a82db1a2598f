-- ===== src/SetupCode/Tests.antt =====
-- mash-go/pkg/commissioning/setupcode.go: setup codes and QR codes as texts.
use mash.Base.{◌+◌, ℕ, ◌≡◌, refl, Option, none, some, arith}
use mash.Base.Text.{codes}
use mash.SetupCode.{
  parse_setup_code, validate, prohibited, generate_setup_code, QrCodeData, parsed, failed,
  invalid_qr_code, unsupported_version, parse_qr_code, qr_string,
}
use mash.SetupCode.RoundTrip.{parse_qr_code-qr_string}

spaces : parse_setup_code (codes " 00001234 ") ≡ some 1234
unfolding parse_setup_code
spaces = refl

short : parse_setup_code (codes "1234") ≡ none
unfolding parse_setup_code
short = refl

low_entropy : validate 12345678 ≡ some prohibited
unfolding validate
low_entropy = refl

-- The first number drawn gives a prohibited code.
abbrev draws : ℕ → Option ℕ
draws round = some (11111110 + round)

second_round : generate_setup_code draws ≡ some 11111112
unfolding generate_setup_code
second_round = refl

abbrev heat_pump : QrCodeData
heat_pump = record {
  version = 1;
  discriminator = 1234;
  setup_code = 20202021;
  vendor_id = 0x1234;
  product_id = 0xAB;
}

heat_pump-text : qr_string heat_pump ≡ codes "MASH:1:1234:20202021:0x1234:0x00AB"
unfolding qr_string
heat_pump-text = refl

decimal_ids : parse_qr_code (codes "MASH:1:1234:20202021:4660:171") ≡ parsed heat_pump
unfolding parse_qr_code
decimal_ids = refl

later_version : parse_qr_code (codes "MASH:2:1234:20202021:4660:171") ≡ failed unsupported_version
unfolding parse_qr_code
later_version = refl

wide_discriminator : parse_qr_code (codes "MASH:1:4096:20202021:4660:171") ≡ failed invalid_qr_code
unfolding parse_qr_code
wide_discriminator = refl

parse_qr_code-qr_string_example : parse_qr_code (qr_string heat_pump) ≡ parsed heat_pump
parse_qr_code-qr_string_example = parse_qr_code-qr_string heat_pump (omega arith)
