-- ===== src/Base/Digits/Laws.antt =====
-- Numbers as digits: what is printed is read back.
use mash.Base.{
  ℕ, zero, suc, ◌+◌, ◌-◌, ◌*◌, ◌/◌, ◌%◌, ◌<◌, ◌≤◌, ◌≡◌, refl, sym, ap, ◌∙◌, subst, ◌⊎◌, inl, inr,
  true, false, Option, none, some, [], ◌∷◌, ◌++◌, ltb, length, arith, Bool-cases,
}
use mash.Base.Text.{Bytes}
use mash.Base.Digits.{digit, value_from, symbol, digits, zeros, decimal, padded}

abbrev pub TenOrSixteen : ℕ → Type 0
TenOrSixteen b = (b ≡ 10) ⊎ (b ≡ 16)

digit-symbol : (d : ℕ) → d < 36 → digit (symbol d) ≡ d
unfolding digit symbol
digit-symbol d h = ground arith

abbrev then_value : ℕ → Bytes → Option ℕ → Option ℕ
then_value b ys none = none
then_value b ys (some a) = value_from b a ys

value_from-append :
    (b acc : ℕ) (xs ys : Bytes)
    → value_from b acc (xs ++ ys) ≡ then_value b ys (value_from b acc xs)
unfolding value_from
value_from-append b acc [] ys = refl
value_from-append b acc (c ∷ xs) ys = elim (Bool-cases (ltb (digit c) b)) [
  | inl e ↦ rw e (value_from-append b (acc * b + digit c) xs ys)
  | inr e ↦ rw e refl
]

one_digit :
    (b acc d : ℕ) → TenOrSixteen b → d < b → value_from b acc (symbol d ∷ []) ≡ some (acc * b + d)
unfolding value_from
one_digit b acc d base lt =
    let e : digit (symbol d) ≡ d = digit-symbol d (small base lt) in rw (e, is_below d b lt) refl
  where
    small : TenOrSixteen b → d < b → d < 36
    small (inl p) q = omega (arith, p)
    small (inr p) q = omega (arith, p)

    is_below : (m n : ℕ) → m < n → ltb m n ≡ true
    is_below m n q = ground arith

pub quotient-le : (b n f : ℕ) → TenOrSixteen b → ltb n b ≡ false → n ≤ suc f → n / b ≤ f
quotient-le b n f (inl e) h le =
    subst (λ x. ltb n x ≡ false → n / x ≤ f) (sym e) (λ (k : ltb n 10 ≡ false). ground arith) h
quotient-le b n f (inr e) h le =
    subst (λ x. ltb n x ≡ false → n / x ≤ f) (sym e) (λ (k : ltb n 16 ≡ false). ground arith) h

pub division : (b n : ℕ) → TenOrSixteen b → (n / b * b + n % b ≡ n) × (n % b < b)
division b n (inl e) = subst (λ x. (n / x * x + n % x ≡ n) × (n % x < x)) (sym e) (omega arith)
division b n (inr e) = subst (λ x. (n / x * x + n % x ≡ n) × (n % x < x)) (sym e) (omega arith)

pub positive : (b : ℕ) → TenOrSixteen b → 0 < b
positive b (inl e) = omega (arith, e)
positive b (inr e) = omega (arith, e)

value_from-digits : (b f n : ℕ) → TenOrSixteen b → n ≤ f → value_from b 0 (digits b f n) ≡ some n
unfolding digits
value_from-digits b zero n base le =
    one_digit b 0 n base (omega (arith, positive b base)) ∙ ap some (omega arith)
value_from-digits b (suc f) n base le = elim (Bool-cases (ltb n b)) [
  | inl e ↦ rw e (one_digit b 0 n base (ground arith) ∙ ap some (omega arith))
  | inr e ↦ rw e (
      value_from-append b 0 (digits b f (n / b)) (symbol (n % b) ∷ [])
      ∙ ap (then_value b (symbol (n % b) ∷ []))
          (value_from-digits b f (n / b) base (quotient-le b n f base e le))
      ∙ one_digit b (n / b) (n % b) base (division b n base).1
      ∙ ap some (division b n base).0)
]

pub value_from-decimal : (n : ℕ) → value_from 10 0 (decimal n) ≡ some n
unfolding decimal
value_from-decimal n = value_from-digits 10 n n (inl refl) (omega arith)

pub value_from-zeros :
    (b k : ℕ) (s : Bytes) → TenOrSixteen b → value_from b 0 (zeros k ++ s) ≡ value_from b 0 s
unfolding zeros value_from
value_from-zeros b zero s base = refl
value_from-zeros b (suc k) s base =
    let e : ltb 0 b ≡ true = is_positive b (positive b base) in
    let z : 0 * b + 0 ≡ 0 = omega arith in rw (e, z) (value_from-zeros b k s base)
  where
    is_positive : (m : ℕ) → 0 < m → ltb 0 m ≡ true
    is_positive m q = ground arith

pub value_from-padded :
    (b w n f : ℕ) → TenOrSixteen b → n ≤ f → value_from b 0 (padded w (digits b f n)) ≡ some n
unfolding padded
value_from-padded b w n f base le =
    value_from-zeros b (w - length (digits b f n)) (digits b f n) base
    ∙ value_from-digits b f n base le
