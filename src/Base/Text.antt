-- ===== src/Base/Text.antt =====
-- Go's strings as lists of bytes, with what the code uses of the package strings.
use mash.Base.{
  ap, ◌∙◌, ℕ, ◌≡◌, refl, Bool, true, false, ◌&&◌, Option, none, some, List, [], ◌∷◌, ◌++◌, String,
  ◌==◌, if◌then◌else◌, All, arith,
}
use Prim.Native.Char.{code}

abbrev pub Bytes : Type 0
Bytes = List ℕ

-- The bytes of a literal, whose characters are ASCII.
abbrev pub codes : String → Bytes
codes String.[] = []
codes (String.◌∷◌ c s) = code c ∷ codes s

-- Equality of texts.
unfoldable pub same : Bytes → Bytes → Bool
same [] [] = true
same (a ∷ as_) (b ∷ bs) = (a == b) && same as_ bs
same _ _ = false

-- strings.Split by a separator of one byte.
abbrev push : ℕ → List Bytes → List Bytes
push c [] = (c ∷ []) ∷ []
push c (w ∷ ws) = (c ∷ w) ∷ ws

unfoldable pub split : ℕ → Bytes → List Bytes
split sep [] = [] ∷ []
split sep (c ∷ cs) = if c == sep then [] ∷ split sep cs else push c (split sep cs)

-- No byte of a text is the separator.
abbrev pub Free : ℕ → Bytes → Type 0
Free sep = All (λ c. (c == sep) ≡ false)

pub split-Free : (sep : ℕ) (w : Bytes) → Free sep w → split sep w ≡ w ∷ []
unfolding split
split-Free sep [] h = refl
split-Free sep (c ∷ w) h = rw (h.0, split-Free sep w h.1) refl

pub split-append :
    (sep : ℕ) (w rest : Bytes) → Free sep w → split sep (w ++ sep ∷ rest) ≡ w ∷ split sep rest
unfolding split
split-append sep [] rest h = rw (self sep) refl
  where
    self : (s : ℕ) → (s == s) ≡ true
    self s = ground arith
split-append sep (c ∷ w) rest h = rw (h.0, split-append sep w rest h.1) refl

-- The rest of a text that has this prefix (strings.HasPrefix, and a slice).
unfoldable pub strip_prefix : Bytes → Bytes → Option Bytes
strip_prefix [] cs = some cs
strip_prefix (p ∷ ps) [] = none
strip_prefix (p ∷ ps) (c ∷ cs) = let rest = strip_prefix ps cs in if p == c then rest else none

pub strip_prefix-append : (p cs : Bytes) → strip_prefix p (p ++ cs) ≡ some cs
unfolding strip_prefix
strip_prefix-append [] cs = refl
strip_prefix-append (c ∷ p) cs = rw (self c, strip_prefix-append p cs) refl
  where
    self : (s : ℕ) → (s == s) ≡ true
    self s = ground arith

-- Words with a separator between them.
unfoldable pub join : ℕ → Bytes → List Bytes → Bytes
join sep w [] = w
join sep w (v ∷ vs) = w ++ sep ∷ join sep v vs

pub split-join :
    (sep : ℕ) (w : Bytes) (ws : List Bytes)
    → Free sep w
    → All (Free sep) ws
    → split sep (join sep w ws) ≡ w ∷ ws
unfolding join
split-join sep w [] h hs = split-Free sep w h
split-join sep w (v ∷ vs) h hs =
    split-append sep w (join sep v vs) h ∙ ap (◌∷◌ w) (split-join sep v vs hs.0 hs.1)
