-- ===== src/Version/RoundTrip.antt =====
-- mash-go/pkg/version/version.go: versions that are written and read.
use mash.Base.{
  length-append, ℕ, ◌<◌, ◌≡◌, refl, ap, ◌∙◌, inl, false, some, [], ◌∷◌, ◌++◌, ◌==◌, arith, length,
}
use mash.Base.Text.{Bytes, Free, split, split-append, split-Free, strip_prefix-append}
use mash.Base.Digits.{decimal, symbol}
use mash.Base.Digits.Shape.{parse_uint-decimal, digits-symbols, Free-symbols}
use mash.Version.{
  SpecVersion, current, parse, parse_parts, string, compatible, alpn_protocol, major_from_alpn,
  commissioning_prefix, check_version_compatibility, compatible_with, operational_or,
}

decimal-Free : (sep n : ℕ) → sep < 48 → Free sep (decimal n)
unfolding decimal symbol
decimal-Free sep n lt =
    Free-symbols 10 sep (decimal n) (λ d h. apart sep d lt h)
      (digits-symbols 10 n n (inl refl) (omega arith))
  where
    apart : (s d : ℕ) → s < 48 → d < 10 → (symbol d == s) ≡ false
    apart s d p q = ground arith

split-string : (v : SpecVersion) → split b'.' (string v) ≡ decimal v.major ∷ decimal v.minor ∷ []
unfolding string
split-string v =
    split-append b'.' (decimal v.major) (decimal v.minor) (decimal-Free b'.' v.major (omega arith))
    ∙ ap (◌∷◌ (decimal v.major))
        (split-Free b'.' (decimal v.minor) (decimal-Free b'.' v.minor (omega arith)))

parse-string_eq : (v : SpecVersion) → v.major < 65536 → v.minor < 65536 → parse (string v) ≡ some v
unfolding parse
parse-string_eq v p q =
    ap parse_parts (split-string v)
    ∙ rw (parse_uint-decimal 65536 v.major p, parse_uint-decimal 65536 v.minor q) refl

current_version : parse current ≡ some (record { major = 1; minor = 0 })
unfolding parse
current_version = refl

check_nonempty :
    (s : Bytes)
    → 0 < length s
    → check_version_compatibility s ≡ compatible_with (parse current) (parse s)
unfolding check_version_compatibility
check_nonempty [] h = absurd (omega arith)
check_nonempty (c ∷ s) h = refl

length-string : (v : SpecVersion) → 0 < length (string v)
unfolding string decimal
length-string v = omega (arith, length-append (decimal v.major) (b'.' ∷ decimal v.minor))

check-string :
    (v : SpecVersion)
    → v.major < 65536
    → v.minor < 65536
    → check_version_compatibility (string v) ≡ (1 == v.major)
unfolding compatible
check-string v p q =
    check_nonempty (string v) (length-string v) ∙ rw (current_version, parse-string_eq v p q) refl

operational_major : (n : ℕ) → n < 65536 → major_from_alpn (alpn_protocol n) ≡ some n
unfolding major_from_alpn alpn_protocol
operational_major n h = parse_uint-decimal 65536 n h

commissioning_major :
    (n : ℕ) → n < 65536 → major_from_alpn (commissioning_prefix ++ decimal n) ≡ some n
unfolding major_from_alpn
commissioning_major n h =
    ap (λ o. operational_or o (commissioning_prefix ++ decimal n))
      (strip_prefix-append commissioning_prefix (decimal n))
    ∙ parse_uint-decimal 65536 n h

-- A version whose numbers are uint16s is read back from its text; a device that has this version is
-- accepted exactly when its major number is that of the current version; and a major number is read
-- back from its operational and its commissioning ALPN protocol.
pub parse-string :
    (v : SpecVersion)
    → v.major < 65536
    → v.minor < 65536
    → (parse (string v) ≡ some v)
      × (check_version_compatibility (string v) ≡ (1 == v.major))
      × (major_from_alpn (alpn_protocol v.major) ≡ some v.major)
      × (major_from_alpn (commissioning_prefix ++ decimal v.major) ≡ some v.major)
parse-string v p q = (
  parse-string_eq v p q,
  check-string v p q,
  operational_major v.major p,
  commissioning_major v.major p,
)
