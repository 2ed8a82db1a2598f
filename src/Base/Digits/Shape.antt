-- ===== src/Base/Digits/Shape.antt =====
-- Numbers as digits: how many there are, what bytes they are, and the reading of such a text.
use mash.Base.{
  All-append, ℕ, zero, suc, ◌-◌, ◌*◌, ◌/◌, ◌%◌, ◌<◌, ◌≤◌, ◌≡◌, refl, sym, ap, ◌∙◌, subst, inl, inr,
  true, false, some, [], ◌∷◌, ◌++◌, ltb, ◌==◌, length, length-append, All, arith, Bool-cases,
}
use mash.Base.Text.{Bytes, Free}
use mash.Base.Digits.{value_from, parse_uint, symbol, digits, zeros, decimal, padded}
use mash.Base.Digits.Laws.{TenOrSixteen, quotient-le, division, positive, value_from-decimal}

pub length-digits-pos : (b f n : ℕ) → 0 < length (digits b f n)
unfolding digits
length-digits-pos b zero n = omega arith
length-digits-pos b (suc f) n = elim (Bool-cases (ltb n b)) [
  | inl e ↦ rw e (omega arith)
  | inr e ↦ rw e (
      omega (
        arith,
        length-append (digits b f (n / b)) (symbol (n % b) ∷ []),
        length-digits-pos b f (n / b),
      ))
]

-- The least number that needs one digit more.
abbrev pub power : ℕ → ℕ → ℕ
power b zero = 1
power b (suc k) = b * power b k

pub length-digits-le :
    (b k f n : ℕ) → TenOrSixteen b → n ≤ f → n < power b (suc k) → length (digits b f n) ≤ suc k
unfolding digits
length-digits-le b k zero n base le lt = omega arith
length-digits-le b k (suc f) n base le lt = elim (Bool-cases (ltb n b)) [
  | inl e ↦ rw e (omega arith)
  | inr e ↦ rw e (
      more b k n base lt e
        (λ j h. length-digits-le b j f (n / b) base (quotient-le b n f base e le) h))
]
  where
    smaller : (b p n : ℕ) → TenOrSixteen b → n < b * (b * p) → n / b < b * p
    smaller b p n (inl e) lt =
        subst (λ x. n < x * (x * p) → n / x < x * p) (sym e)
          (λ (h : n < 10 * (10 * p)). omega arith) lt
    smaller b p n (inr e) lt =
        subst (λ x. n < x * (x * p) → n / x < x * p) (sym e)
          (λ (h : n < 16 * (16 * p)). omega arith) lt

    more :
        (b k n : ℕ)
        → TenOrSixteen b
        → n < power b (suc k)
        → ltb n b ≡ false
        → ((j : ℕ) → n / b < power b (suc j) → length (digits b f (n / b)) ≤ suc j)
        → length (digits b f (n / b) ++ symbol (n % b) ∷ []) ≤ suc k
    more b zero n base lt e ih = absurd (ground arith)
    more b (suc j) n base lt e ih = omega (
      arith,
      length-append (digits b f (n / b)) (symbol (n % b) ∷ []),
      ih j (smaller b (power b j) n base lt),
    )

length-zeros : (k : ℕ) → length (zeros k) ≡ k
unfolding zeros
length-zeros zero = refl
length-zeros (suc k) = omega (arith, length-zeros k)

pub length-padded : (w : ℕ) (s : Bytes) → length s ≤ w → length (padded w s) ≡ w
unfolding padded
length-padded w s le =
    omega (arith, length-append (zeros (w - length s)) s, length-zeros (w - length s))

-- A text of digits is read as their value, below the limit.
pub parse_uint-some :
    (b limit n : ℕ) (s : Bytes)
    → value_from b 0 s ≡ some n
    → 0 < length s
    → n < limit
    → parse_uint b limit s ≡ some n
unfolding parse_uint
parse_uint-some b limit n [] v pos lt = absurd (omega arith)
parse_uint-some b limit n (c ∷ s) v pos lt = rw (v, is_below n limit lt) refl
  where
    is_below : (m k : ℕ) → m < k → ltb m k ≡ true
    is_below m k q = ground arith

pub parse_uint-decimal : (limit n : ℕ) → n < limit → parse_uint 10 limit (decimal n) ≡ some n
unfolding decimal
parse_uint-decimal limit n lt =
    parse_uint-some 10 limit n (digits 10 n n) (value_from-decimal n) (length-digits-pos 10 n n) lt

-- The bytes of the digits: of a decimal, the ten digits.
abbrev pub IsSymbol : ℕ → ℕ → Type 0
IsSymbol b c = (d : ℕ) × (d < b) × (c ≡ symbol d)

pub digits-symbols : (b f n : ℕ) → TenOrSixteen b → n ≤ f → All (IsSymbol b) (digits b f n)
unfolding digits
digits-symbols b zero n base le = ((n, omega (arith, positive b base), refl), tt)
digits-symbols b (suc f) n base le = elim (Bool-cases (ltb n b)) [
  | inl e ↦ rw e ((n, ground arith, refl), tt)
  | inr e ↦ rw e (
      All-append (IsSymbol b) (digits b f (n / b)) (symbol (n % b) ∷ [])
        (digits-symbols b f (n / b) base (quotient-le b n f base e le))
        ((n % b, (division b n base).1, refl), tt))
]

zeros-symbols : (b k : ℕ) → TenOrSixteen b → All (IsSymbol b) (zeros k)
unfolding zeros symbol
zeros-symbols b zero base = tt
zeros-symbols b (suc k) base = ((0, positive b base, refl), zeros-symbols b k base)

pub padded-symbols :
    (b w : ℕ) (s : Bytes) → TenOrSixteen b → All (IsSymbol b) s → All (IsSymbol b) (padded w s)
unfolding padded
padded-symbols b w s base h =
    All-append (IsSymbol b) (zeros (w - length s)) s (zeros-symbols b (w - length s) base) h

-- Text of digits holds no separator.
pub Free-symbols :
    (b sep : ℕ) (s : Bytes)
    → ((d : ℕ) → d < b → (symbol d == sep) ≡ false)
    → All (IsSymbol b) s
    → Free sep s
Free-symbols b sep [] differs h = tt
Free-symbols b sep (c ∷ s) differs ((d, lt, e), h) =
    (ap (λ (x : ℕ). x == sep) e ∙ differs d lt, Free-symbols b sep s differs h)
