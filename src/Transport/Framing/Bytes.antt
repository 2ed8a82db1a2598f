-- ===== src/Transport/Framing/Bytes.antt =====
-- The four bytes of a length (mash-go/pkg/transport/framing.go) and the number they stand for.
use mash.Base.{ℕ, ◌+◌, ◌*◌, ◌/◌, ◌%◌, ◌<◌, ◌≡◌, [], ◌∷◌, arith}
use mash.Transport.Framing.{put_uint32, uint32}

pub uint32-put_uint32 : (n : ℕ) → n < 4294967296 → uint32 (put_uint32 n) ≡ n
unfolding uint32 put_uint32
uint32-put_uint32 n h = omega arith

pub put_uint32-uint32 :
    (a b c d : ℕ)
    → a < 256
    → b < 256
    → c < 256
    → d < 256
    → put_uint32 (uint32 (a ∷ b ∷ c ∷ d ∷ [])) ≡ a ∷ b ∷ c ∷ d ∷ []
unfolding uint32 put_uint32
put_uint32-uint32 a b c d p q r s =
    let n : ℕ = a * 16777216 + b * 65536 + c * 256 + d in
    let w : n / 16777216 % 256 ≡ a = omega arith in
    let x : n / 65536 % 256 ≡ b = omega arith in
    let y : n / 256 % 256 ≡ c = omega arith in
    let z : n % 256 ≡ d = omega arith in λ i. w i ∷ x i ∷ y i ∷ z i ∷ []
