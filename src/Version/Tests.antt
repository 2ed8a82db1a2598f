-- ===== src/Version/Tests.antt =====
-- mash-go/pkg/version/version.go: versions and protocols as texts.
use mash.Base.{◌≡◌, refl, none, some, arith, false, [], ◌∷◌, ◌++◌, ◌==◌}
use mash.Base.Text.{codes}
use mash.Base.Digits.{decimal}
use mash.Version.{
  SpecVersion, parse, string, check_version_compatibility, major_from_alpn, alpn_protocol,
  commissioning_prefix, supported_alpn_protocols,
}
use mash.Version.RoundTrip.{parse-string}

abbrev two_eleven : SpecVersion
two_eleven = record { major = 2; minor = 11 }

two_eleven-string : string two_eleven ≡ codes "2.11"
unfolding string
two_eleven-string = refl

leading_zero : parse (codes "01.0") ≡ some (record { major = 1; minor = 0 })
unfolding parse
leading_zero = refl

three_parts : parse (codes "1.0.0") ≡ none
unfolding parse
three_parts = refl

too_large : parse (codes "65536.0") ≡ none
unfolding parse
too_large = refl

no_minor : parse (codes "1.") ≡ none
unfolding parse
no_minor = refl

supported : supported_alpn_protocols ≡ codes "mash/1" ∷ []
unfolding supported_alpn_protocols
supported = refl

unknown_device : check_version_compatibility (codes "2.0") ≡ false
unfolding check_version_compatibility
unknown_device = refl

parse-string_example :
    (parse (string two_eleven) ≡ some two_eleven)
    × (check_version_compatibility (string two_eleven) ≡ (1 == 2))
    × (major_from_alpn (alpn_protocol 2) ≡ some 2)
    × (major_from_alpn (commissioning_prefix ++ decimal 2) ≡ some 2)
parse-string_example = parse-string two_eleven (omega arith) (omega arith)
