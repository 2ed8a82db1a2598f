-- ===== src/SetupCode/Texts.antt =====
-- mash-go/pkg/commissioning/setupcode.go: texts that have no white space at their end, and texts of
-- digits.
use mash.Base.{
  ◌==◌, ℕ, ◌<◌, ◌≡◌, refl, ap, ◌∙◌, inl, inr, true, false, some, List, [], ◌∷◌, ◌++◌, ltb, length,
  All, arith,
}
use mash.Base.Text.{Free, Bytes, join}
use mash.Base.Digits.{digit, symbol}
use mash.Base.Digits.Laws.{TenOrSixteen}
use mash.Base.Digits.Shape.{Free-symbols, IsSymbol}
use mash.SetupCode.{trim_left, trim_right, is_space, keep, all_digits, some_digits, hex_or}

-- A text that is not empty and does not end in white space.
abbrev pub IsTrimmed : Bytes → Type 0
IsTrimmed s = (trim_right s ≡ s) × (0 < length s)

pub cons-IsTrimmed : (c : ℕ) (s : Bytes) → IsTrimmed s → IsTrimmed (c ∷ s)
unfolding trim_right
cons-IsTrimmed c s (e, pos) = (ap (keep c) e ∙ kept c s pos, omega arith)
  where
    kept : (d : ℕ) (t : Bytes) → 0 < length t → keep d t ≡ d ∷ t
    kept d [] h = absurd (omega arith)
    kept d (x ∷ t) h = refl

append-IsTrimmed : (xs s : Bytes) → IsTrimmed s → IsTrimmed (xs ++ s)
append-IsTrimmed [] s h = h
append-IsTrimmed (c ∷ xs) s h = cons-IsTrimmed c (xs ++ s) (append-IsTrimmed xs s h)

pub join-IsTrimmed :
    (sep : ℕ) (w : Bytes) (ws : List Bytes)
    → IsTrimmed w
    → All IsTrimmed ws
    → IsTrimmed (join sep w ws)
unfolding join
join-IsTrimmed sep w [] h hs = h
join-IsTrimmed sep w (v ∷ vs) h hs =
    append-IsTrimmed w (sep ∷ join sep v vs)
      (cons-IsTrimmed sep (join sep v vs) (join-IsTrimmed sep v vs hs.0 hs.1))

pub symbol_facts :
    (b d : ℕ)
    → TenOrSixteen b
    → d < b
    → (is_space (symbol d) ≡ false) × (ltb (digit (symbol d)) b ≡ true)
unfolding symbol digit
symbol_facts b d (inl e) lt = ground arith
symbol_facts b d (inr e) lt = ground arith

pub symbols-IsTrimmed :
    (b : ℕ) (s : Bytes) → TenOrSixteen b → All (IsSymbol b) s → 0 < length s → IsTrimmed s
unfolding trim_right
symbols-IsTrimmed b [] base h pos = absurd (omega arith)
symbols-IsTrimmed b (c ∷ []) base ((d, lt, e), h) pos =
    (rw (ap is_space e ∙ (symbol_facts b d base lt).0) refl, omega arith)
symbols-IsTrimmed b (c ∷ x ∷ s) base (_, h) pos =
    cons-IsTrimmed c (x ∷ s) (symbols-IsTrimmed b (x ∷ s) base h (omega arith))

pub all_digits-symbols :
    (b : ℕ) (s : Bytes) → TenOrSixteen b → All (IsSymbol b) s → all_digits b s ≡ true
unfolding all_digits
all_digits-symbols b [] base h = refl
all_digits-symbols b (c ∷ s) base ((d, lt, e), h) =
    rw
      (
        ap (λ (x : ℕ). ltb (digit x) b) e ∙ (symbol_facts b d base lt).1,
        all_digits-symbols b s base h,
      )
      refl

pub some_digits-symbols : (s : Bytes) → All (IsSymbol 10) s → 0 < length s → some_digits s ≡ true
some_digits-symbols [] h pos = absurd (omega arith)
some_digits-symbols (c ∷ s) h pos = all_digits-symbols 10 (c ∷ s) (inl refl) h

pub hex_or-symbols : (s t : Bytes) → All (IsSymbol 16) s → 0 < length s → hex_or (some s) t ≡ true
hex_or-symbols [] t h pos = absurd (omega arith)
hex_or-symbols (c ∷ s) t h pos = all_digits-symbols 16 (c ∷ s) (inr refl) h

pub trim_left-symbols : (b : ℕ) (s : Bytes) → TenOrSixteen b → All (IsSymbol b) s → trim_left s ≡ s
unfolding trim_left
trim_left-symbols b [] base h = refl
trim_left-symbols b (c ∷ s) base ((d, lt, e), h) =
    rw (ap is_space e ∙ (symbol_facts b d base lt).0) refl

pub colon-Free : (b : ℕ) (s : Bytes) → TenOrSixteen b → All (IsSymbol b) s → Free b':' s
unfolding symbol
colon-Free b s base h = Free-symbols b b':' s (λ d lt. apart b d base lt) h
  where
    apart : (b d : ℕ) → TenOrSixteen b → d < b → (symbol d == b':') ≡ false
    apart b d (inl e) lt = ground arith
    apart b d (inr e) lt = ground arith
