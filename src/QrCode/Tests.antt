-- ===== src/QrCode/Tests.antt =====
-- mash-go/pkg/discovery/qrcode.go: QR codes and instance names as texts.
use mash.Base.{◌≡◌, refl, some}
use mash.Base.Text.{codes}
use mash.SetupCode.{qr_string}
use mash.QrCode.{
  QrCode, read, refused, invalid_field_count, invalid_version, invalid_setup_code, parse_qr_code,
  string, generate_qr_code, discriminator_from_instance_name, instance_name_from_discriminator,
  parse_operational_instance_name,
}
use mash.QrCode.RoundTrip.{parse_qr_code-string, parse_qr_code-qr_string-refused}

version_zero : parse_qr_code (codes "MASH:0:1:20202021") ≡ refused invalid_version
unfolding parse_qr_code
version_zero = refl

not_digits : parse_qr_code (codes "MASH:1:1:2020202x") ≡ refused invalid_setup_code
unfolding parse_qr_code
not_digits = refl

operational :
    parse_operational_instance_name (codes "0123456789abcdef-FEDCBA9876543210")
    ≡ some (codes "0123456789abcdef", codes "FEDCBA9876543210")
unfolding parse_operational_instance_name
operational = refl

parse_qr_code-string_example :
    (q : QrCode) × (generate_qr_code 255 255 0 0 4 210 ≡ read q)
    × (parse_qr_code (string q) ≡ read q)
    × (discriminator_from_instance_name (instance_name_from_discriminator q.discriminator)
        ≡ some q.discriminator)
parse_qr_code-string_example = parse_qr_code-string 255 255 0 0 4 210

parse_qr_code-qr_string-refused_example :
    parse_qr_code (
      qr_string (record {
        version = 1;
        discriminator = 7;
        setup_code = 20202021;
        vendor_id = 1;
        product_id = 2;
      }))
    ≡ refused invalid_field_count
parse_qr_code-qr_string-refused_example = parse_qr_code-qr_string-refused (record {
  version = 1;
  discriminator = 7;
  setup_code = 20202021;
  vendor_id = 1;
  product_id = 2;
})
