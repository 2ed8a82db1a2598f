-- ===== src/Version.antt =====
-- mash-go/pkg/version/version.go: versions as text and as ALPN protocols, and the check of a device's
-- version in mash-go/pkg/service/version_check.go. Texts are bytes, and an error is none.
pub mod RoundTrip
mod Tests
use mash.Base.{ℕ, Bool, true, false, Option, none, some, List, [], ◌∷◌, ◌++◌, ◌==◌, if◌then◌else◌}
use mash.Base.Text.{Bytes, codes, split, strip_prefix}
use mash.Base.Digits.{parse_uint, decimal}

abbrev pub current : Bytes
current = codes "1.0"

-- The two fields are uint16s.
pub record SpecVersion : Type 0 where
  pub major : ℕ
  pub minor : ℕ

abbrev uint16_limit : ℕ
uint16_limit = 65536

abbrev version_of : Option ℕ → Option ℕ → Option SpecVersion
version_of (some major) (some minor) = some (record { major = major; minor = minor })
version_of _ _ = none

abbrev parse_parts : List Bytes → Option SpecVersion
parse_parts (major ∷ minor ∷ []) =
    version_of (parse_uint 10 uint16_limit major) (parse_uint 10 uint16_limit minor)
parse_parts _ = none

unfoldable pub parse : Bytes → Option SpecVersion
unfolding split parse_uint
parse s = parse_parts (split b'.' s)

-- The method String.
unfoldable pub string : SpecVersion → Bytes
unfolding decimal
string v = decimal v.major ++ b'.' ∷ decimal v.minor

unfoldable pub compatible : SpecVersion → SpecVersion → Bool
compatible v other = v.major == other.major

abbrev pub operational_prefix : Bytes
operational_prefix = codes "mash/"

abbrev pub commissioning_prefix : Bytes
commissioning_prefix = codes "mash-comm/"

unfoldable pub alpn_protocol : ℕ → Bytes
unfolding decimal
alpn_protocol major = operational_prefix ++ decimal major

abbrev major_of : Option Bytes → Option ℕ
major_of none = none
major_of (some suffix) = parse_uint 10 uint16_limit suffix

abbrev operational_or : Option Bytes → Bytes → Option ℕ
operational_or (some suffix) alpn = parse_uint 10 uint16_limit suffix
operational_or none alpn = major_of (strip_prefix operational_prefix alpn)

unfoldable pub major_from_alpn : Bytes → Option ℕ
unfolding strip_prefix parse_uint
major_from_alpn alpn = operational_or (strip_prefix commissioning_prefix alpn) alpn

abbrev major_or_zero : Option SpecVersion → ℕ
major_or_zero none = 0
major_or_zero (some v) = v.major

unfoldable pub supported_alpn_protocols : List Bytes
unfolding parse alpn_protocol
supported_alpn_protocols = alpn_protocol (major_or_zero (parse current)) ∷ []

abbrev compatible_with : Option SpecVersion → Option SpecVersion → Bool
compatible_with ours none = false
compatible_with none (some v) = false
compatible_with (some ours) (some v) = compatible ours v

-- checkVersionCompatibility: whether there is no error.
unfoldable pub check_version_compatibility : Bytes → Bool
unfolding parse compatible
check_version_compatibility [] = true
check_version_compatibility (c ∷ s) = compatible_with (parse current) (parse (c ∷ s))
