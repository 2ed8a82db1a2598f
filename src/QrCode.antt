-- ===== src/QrCode.antt =====
-- mash-go/pkg/discovery/qrcode.go: QR codes of four fields, and the instance names of discovery. Texts
-- are bytes; what crypto/rand reads is an argument.
pub mod RoundTrip
mod Tests
use mash.Base.{
  ℕ, ◌+◌, ◌*◌, ◌%◌, Bool, true, false, ◌&&◌, ◌||◌, not, Option, none, some, List, [], ◌∷◌, ◌++◌,
  ltb, leb, ◌==◌, if◌then◌else◌, length,
}
use mash.Base.Text.{Bytes, codes, split, strip_prefix}
use mash.Base.Digits.{parse_uint, decimal, padded}

abbrev pub max_discriminator : ℕ
max_discriminator = 4095

abbrev pub id_length : ℕ
id_length = 16

abbrev pub qr_prefix : Bytes
qr_prefix = codes "MASH:"

abbrev pub qr_version : ℕ
qr_version = 1

abbrev pub setup_code_length : ℕ
setup_code_length = 8

pub record QrCode : Type 0 where
  pub version : ℕ
  pub discriminator : ℕ
  pub setup_code : Bytes

pub data QrError : Type 0 where
  invalid_prefix invalid_field_count invalid_version : QrError
  invalid_discriminator invalid_setup_code : QrError

pub data QrResult : Type 0 where
  read : QrCode → QrResult
  refused : QrError → QrResult

abbrev is_decimal : ℕ → Bool
is_decimal c = leb b'0' c && leb c b'9'

unfoldable pub all_decimal : Bytes → Bool
all_decimal [] = true
all_decimal (c ∷ s) = is_decimal c && all_decimal s

-- The version and the discriminator, each with its check.
abbrev pub version_of : Option ℕ → Option ℕ
version_of none = none
version_of (some v) = if ltb v 1 || ltb 255 v then none else some v

abbrev pub discriminator_of : Option ℕ → Option ℕ
discriminator_of none = none
discriminator_of (some d) = if ltb max_discriminator d then none else some d

abbrev pub with_code : ℕ → ℕ → Bytes → QrResult
with_code v d code =
    if length code == setup_code_length
    then if all_decimal code
      then read (record { version = v; discriminator = d; setup_code = code })
      else refused invalid_setup_code
    else refused invalid_setup_code

abbrev pub with_discriminator : ℕ → Option ℕ → Bytes → QrResult
with_discriminator v none code = refused invalid_discriminator
with_discriminator v (some d) code = with_code v d code

abbrev pub with_version : Option ℕ → Bytes → Bytes → QrResult
with_version none d code = refused invalid_version
with_version (some v) d code = with_discriminator v (discriminator_of (parse_uint 10 65536 d)) code

abbrev pub parse_parts : List Bytes → QrResult
parse_parts (m ∷ v ∷ d ∷ code ∷ []) = with_version (version_of (parse_uint 10 256 v)) d code
parse_parts _ = refused invalid_field_count

abbrev pub with_prefix : Option Bytes → Bytes → QrResult
with_prefix none content = refused invalid_prefix
with_prefix (some rest) content = parse_parts (split b':' content)

unfoldable pub parse_qr_code : Bytes → QrResult
unfolding strip_prefix split parse_uint all_decimal
parse_qr_code content = with_prefix (strip_prefix qr_prefix content) content

-- The method String.
unfoldable pub string : QrCode → Bytes
unfolding decimal
string q =
    codes "MASH"
    ++ b':' ∷ (decimal q.version ++ b':' ∷ (decimal q.discriminator ++ b':' ∷ q.setup_code))

unfoldable pub new_qr_code : ℕ → Bytes → QrResult
unfolding all_decimal
new_qr_code d code =
    if ltb max_discriminator d then refused invalid_discriminator else with_code qr_version d code

unfoldable pub format_setup_code : ℕ → Bytes
unfolding decimal padded
format_setup_code code = padded 8 (decimal code)

-- GenerateQRCode after a read of six random bytes.
unfoldable pub generate_qr_code : ℕ → ℕ → ℕ → ℕ → ℕ → ℕ → QrResult
unfolding new_qr_code format_setup_code
generate_qr_code a b c d e f =
    new_qr_code ((a * 256 + b) % (max_discriminator + 1))
      (format_setup_code ((((c * 256 + d) * 256 + e) * 256 + f) % 100000000))

unfoldable pub parse_setup_code : Bytes → Option ℕ
unfolding parse_uint
parse_setup_code s = if length s == setup_code_length then parse_uint 10 4294967296 s else none

abbrev instance_prefix : Bytes
instance_prefix = codes "MASH-"

unfoldable pub instance_name_from_discriminator : ℕ → Bytes
unfolding decimal
instance_name_from_discriminator d = instance_prefix ++ decimal d

abbrev from_suffix : Option Bytes → Option ℕ
from_suffix none = none
from_suffix (some s) = discriminator_of (parse_uint 10 65536 s)

unfoldable pub discriminator_from_instance_name : Bytes → Option ℕ
unfolding strip_prefix parse_uint
discriminator_from_instance_name name = from_suffix (strip_prefix instance_prefix name)

unfoldable pub operational_instance_name : Bytes → Bytes → Bytes
operational_instance_name zone_id device_id = zone_id ++ b'-' ∷ device_id

abbrev is_hex : ℕ → Bool
is_hex c = is_decimal c || (leb b'a' c && leb c b'f') || (leb b'A' c && leb c b'F')

unfoldable pub is_hex_string : Bytes → Bool
is_hex_string [] = true
is_hex_string (c ∷ s) = is_hex c && is_hex_string s

-- strings.SplitN with 2: the text before the first separator and the text after it.
abbrev before : ℕ → Option (Bytes × Bytes) → Option (Bytes × Bytes)
before c none = none
before c (some (a, b)) = some (c ∷ a, b)

unfoldable pub cut : ℕ → Bytes → Option (Bytes × Bytes)
cut sep [] = none
cut sep (c ∷ s) = let rest = cut sep s in if c == sep then some ([], s) else before c rest

abbrev checked_ids : Option (Bytes × Bytes) → Option (Bytes × Bytes)
checked_ids none = none
checked_ids (some (a, b)) =
    if (length a == id_length) && (length b == id_length)
    then if is_hex_string a && is_hex_string b then some (a, b) else none
    else none

unfoldable pub parse_operational_instance_name : Bytes → Option (Bytes × Bytes)
unfolding cut is_hex_string
parse_operational_instance_name name = checked_ids (cut b'-' name)
