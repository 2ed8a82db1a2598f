-- ===== src/Connection/Backoff/Jitter.antt =====
-- mash-go/pkg/connection/backoff.go: the float64 arithmetic of the jitter. A rounded product exceeds
-- the exact one by less than one part in 2^53, so the jitter is at most a quarter of the delay.
use mash.Base.{
  ℕ, zero, suc, ◌+◌, ◌-◌, ◌*◌, ◌/◌, ◌%◌, ◌^◌, ◌≤◌, ◌<◌, ◌≡◌, ◌⊎◌, refl, inl, inr, ltb, arith,
  Bool-cases, Bool, true, false, if◌then◌else◌, ◌&&◌, ◌||◌, ◌==◌,
}
use mash.Model.Values.{excess, round_to}

-- A product of an int64 and 53 bits has at most 116 bits, of which 53 stay.
unfoldable pub round_product : ℕ → ℕ
round_product n = round_to (excess 64 n) n

pub pow_suc : (s : ℕ) → 2 ^ suc s ≡ 2 * 2 ^ s
pow_suc s = omega arith

doubled_bound : (e n : ℕ) → 2 ^ 53 ≤ n → (e ≡ 0) ⊎ (2 ^ e * 2 ^ 52 ≤ n / 2) → 2 ^ suc e * 2 ^ 52 ≤ n
doubled_bound e n big (inl none_left) = rw none_left (omega arith)
doubled_bound e n big (inr p) = omega (arith, pow_suc e)

excess_bound : (fuel n : ℕ) → (excess fuel n ≡ 0) ⊎ (2 ^ excess fuel n * 2 ^ 52 ≤ n)
unfolding excess
excess_bound zero n = inl refl
excess_bound (suc fuel) n = elim (Bool-cases (ltb n (2 ^ 53))) [
  | inl small ↦ inl (rw small refl)
  | inr big ↦
      inr
        (rw big (doubled_bound (excess fuel (n / 2)) n (ground arith) (excess_bound fuel (n / 2))))
]

-- Rounding to a multiple of an even number adds at most half of it.
multiple_bound :
    (h n : ℕ) (up : Bool)
    → 0 < h
    → (up ≡ true → h ≤ n % (2 * h))
    → (if up then (n / (2 * h) + 1) * (2 * h) else n / (2 * h) * (2 * h)) ≤ n + h
multiple_bound h n true p up = grind (arith, up refl)
multiple_bound h n false p up = grind arith

abbrev rounds_up : ℕ → ℕ → Bool
rounds_up u n = ltb (u / 2) (n % u) || ((n % u == u / 2) && (n / u % 2 == 1))

rounds_up_half : (h n : ℕ) → rounds_up (2 * h) n ≡ true → h ≤ n % (2 * h)
rounds_up_half h n e = ground arith

pow_pos : (s : ℕ) → 0 < 2 ^ s
pow_pos zero = omega arith
pow_pos (suc s) = omega (arith, pow_pos s, pow_suc s)

round_add : (s n : ℕ) → round_to (suc s) n ≤ n + 2 ^ s
unfolding round_to
round_add s n =
    rw (pow_suc s)
      (multiple_bound (2 ^ s) n (rounds_up (2 * 2 ^ s) n) (pow_pos s) (rounds_up_half (2 ^ s) n))

round_bound : (s n : ℕ) → 2 ^ s * 2 ^ 52 ≤ n → round_to s n * 2 ^ 53 ≤ n * (2 ^ 53 + 1)
round_bound zero n h = unfold round_to in omega arith
round_bound (suc s) n h = omega (arith, round_add s n, pow_suc s)

pub round_product_bound : (n : ℕ) → round_product n * 2 ^ 53 ≤ n * (2 ^ 53 + 1)
unfolding round_product
round_product_bound n = elim (excess_bound 64 n) [
  | inl e ↦ rw e (unfold round_to in omega arith)
  | inr p ↦ round_bound (excess 64 n) n p
]

pub jitter_bound : (d k : ℕ) → k < 2 ^ 53 → round_product (d * k) / 2 ^ 55 ≤ d / 4
jitter_bound d k h = omega (arith, round_product_bound (d * k), below d k h)
  where
    below : (d k : ℕ) → k < 2 ^ 53 → d * k ≤ d * (2 ^ 53 - 1)
    below d k h = grind arith
