-- ===== src/Connection/Backoff/Delays.antt =====
-- mash-go/pkg/connection/backoff.go: how long the delays are.
use mash.Base.{ℕ, suc, ◌+◌, ◌*◌, ◌/◌, ◌^◌, ◌≤◌, ◌<◌, ◌≡◌, refl, ltb, if◌then◌else◌, arith}
use mash.Connection.Backoff.{
  reset, Backoff, new_backoff, next, add_jitter, initial_backoff, max_backoff,
}
use mash.Connection.Backoff.Jitter.{jitter_bound, pow_suc}

-- The delay after `n` attempts without the jitter: a second, doubled each time, up to a minute.
abbrev pub base : ℕ → ℕ
base n = if ltb max_backoff (initial_backoff * 2 ^ n) then max_backoff else initial_backoff * 2 ^ n

-- The delay of attempt `n + 1`, with at most a quarter more.
abbrev pub IsDelay : ℕ → ℕ → Type 0
IsDelay n delay = (base n ≤ delay) × (delay ≤ base n + base n / 4)

-- A backoff after `n` calls of Next since its last Reset.
pub record After (n : ℕ) (b : Backoff) : Type 0 where
  pub at : b.current ≡ base n
  pub start : b.initial ≡ initial_backoff
  pub bound : b.max ≡ max_backoff
  pub count : b.attempts ≡ n

pub new_backoff-After : After 0 new_backoff
unfolding new_backoff
new_backoff-After = omega arith

base_next :
    (n : ℕ) → (if ltb max_backoff (base n * 2) then max_backoff else base n * 2) ≡ base (suc n)
base_next n = rw (pow_suc n) (ground arith)

pub next-After : (n k : ℕ) (b : Backoff) → After n b → After (suc n) (next b k).0
unfolding next
next-After n k b a = record {
  at = rw (a.at, a.bound) (base_next n);
  start = a.start;
  bound = a.bound;
  count = omega (arith, a.count);
}

pub next-IsDelay : (n k : ℕ) (b : Backoff) → After n b → k < 2 ^ 53 → IsDelay n (next b k).1
unfolding next add_jitter
next-IsDelay n k b a h = rw a.at (omega (arith, jitter_bound (base n) k h))

pub reset-After : (n : ℕ) (b : Backoff) → After n b → After 0 (reset b)
unfolding reset
reset-After n b a = record { at = rw a.start refl; start = a.start; bound = a.bound; count = refl }
