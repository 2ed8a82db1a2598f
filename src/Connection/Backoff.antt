-- ===== src/Connection/Backoff.antt =====
-- mash-go/pkg/connection/backoff.go: the delays between attempts, with the settings of NewBackoff, so
-- that the multiplier is 2 and the jitter at most a quarter. The random number of math/rand's Float64
-- is given by its numerator over 2^53.
pub mod Jitter
pub mod Delays
use mash.Base.{ℕ, ◌+◌, ◌*◌, ◌/◌, ◌^◌, List, [], ◌∷◌, ltb, if◌then◌else◌}
use mash.Connection.Backoff.Jitter.{round_product}

abbrev pub initial_backoff : ℕ
initial_backoff = 1000000000

abbrev pub max_backoff : ℕ
max_backoff = 60000000000

abbrev pub backoff_multiplier : ℕ
backoff_multiplier = 2

pub record Backoff : Type 0 where
  pub current : ℕ
  pub initial : ℕ
  pub max : ℕ
  pub attempts : ℕ

unfoldable pub new_backoff : Backoff
new_backoff = record {
  current = initial_backoff;
  initial = initial_backoff;
  max = max_backoff;
  attempts = 0;
}

-- time.Duration(float64(d) * 0.25 * r) for r = k / 2^53: the product with 0.25 is exact, the second is
-- rounded to a float64, and the conversion drops the fraction.
unfoldable pub add_jitter : ℕ → ℕ → ℕ
add_jitter d k = d + round_product (d * k) / 2 ^ 55

-- The new backoff and the delay.
unfoldable pub next : Backoff → ℕ → Backoff × ℕ
unfolding add_jitter
next b k =
    let doubled = b.current * backoff_multiplier in
    (
      record b {
        current = if ltb b.max doubled then b.max else doubled;
        attempts = b.attempts + 1;
      },
      add_jitter b.current k,
    )

unfoldable pub peek : Backoff → ℕ → ℕ
unfolding add_jitter
peek b k = add_jitter b.current k

unfoldable pub reset : Backoff → Backoff
reset b = record b { current = b.initial; attempts = 0 }

unfoldable pub backoff_sequence : List ℕ
backoff_sequence =
    1000000000 ∷ 2000000000 ∷ 4000000000 ∷ 8000000000 ∷ 16000000000 ∷ 32000000000 ∷ 60000000000 ∷ []
