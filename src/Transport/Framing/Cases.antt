-- ===== src/Transport/Framing/Cases.antt =====
-- Every outcome of ReadFrame (mash-go/pkg/transport/framing.go) and the input that it comes from.
use mathlib.Core.List.{append_assoc}
use Prim.Native.Nat.{zero, suc}
use mash.Base.{
  ℕ_discrete, ℕ, ◌<◌, ◌≤◌, ◌≡◌, refl, sym, ap, ◌∙◌, subst, ◌⊎◌, true, false, List, [], ◌∷◌, ◌++◌,
  length, take, drop, arith, length-take, leb, ltb, ◌==◌, Bool-cases, inl, inr, All,
}
use mash.Transport.Framing.{
  put_uint32, uint32, Reader, FrameReader, payload, error, message_empty, message_too_large,
  frame_truncated, end_of_file, failed, end_error, with_payload, read_body, read_frame, with_prefix,
  log_frame, incoming, eof, broken, unexpected_eof, ReadError, payload_error, prefix_error,
}
use mash.Transport.Framing.Bytes.{uint32-put_uint32, put_uint32-uint32}
use mash.Transport.Framing.Reading.{
  frame, left, read_full_short, read_frame-frame, read_full-append,
}

-- What is left is less than the prefix, or less than it says.
abbrev pub Short : List ℕ → Type 0
Short input =
    (length input < 4)
    ⊎ ((n : ℕ) × (rest : List ℕ) × (input ≡ put_uint32 n ++ rest) × (length rest < n))

pub data Read (fr : FrameReader) : Type 0 where
  carried :
      (d rest : List ℕ)
      → fr.r.input ≡ frame d ++ rest
      → 0 < length d
      → length d ≤ fr.max_message_size
      → read_frame fr ≡ (left fr rest, payload d, log_frame fr.logger d incoming)
      → Read fr
  empty :
      (rest : List ℕ)
      → fr.r.input ≡ put_uint32 0 ++ rest
      → read_frame fr ≡ (left fr rest, error message_empty, [])
      → Read fr
  oversized :
      (n : ℕ) (rest : List ℕ)
      → fr.r.input ≡ put_uint32 n ++ rest
      → fr.max_message_size < n
      → read_frame fr ≡ (left fr rest, error message_too_large, [])
      → Read fr
  ended :
      fr.r.input ≡ []
      → fr.r.breaks ≡ false
      → read_frame fr ≡ (left fr [], error end_of_file, [])
      → Read fr
  truncated :
      Short fr.r.input
      → 0 < length fr.r.input
      → fr.r.breaks ≡ false
      → read_frame fr ≡ (left fr [], error frame_truncated, [])
      → Read fr
  broke :
      Short fr.r.input
      → fr.r.breaks ≡ true
      → read_frame fr ≡ (left fr [], error failed, [])
      → Read fr

append-take-drop : (n : ℕ) (xs : List ℕ) → take n xs ++ drop n xs ≡ xs
append-take-drop zero xs = refl
append-take-drop (suc n) [] = refl
append-take-drop (suc n) (x ∷ xs) = ap (◌∷◌ x) (append-take-drop n xs)

end_error_broken : (r : Reader) → r.breaks ≡ true → end_error r ≡ broken
end_error_broken r b = ground arith

end_error_eof : (r : Reader) → r.breaks ≡ false → length r.input ≡ 0 → end_error r ≡ eof
end_error_eof r b e = ground arith

end_error_inside :
    (r : Reader) → r.breaks ≡ false → 0 < length r.input → end_error r ≡ unexpected_eof
end_error_inside r b p = ground arith

end_error_whole : (r : Reader) → r.breaks ≡ false → payload_error (end_error r) ≡ frame_truncated
end_error_whole r b = ground arith

length-nil : (xs : List ℕ) → length xs ≡ 0 → xs ≡ []
length-nil [] e = refl
length-nil (x ∷ xs) e = absurd (omega (arith, e))

module _ (fr : FrameReader) where
  fails_with :
      (e : ReadError)
      → length fr.r.input < 4
      → end_error fr.r ≡ e
      → read_frame fr ≡ (left fr [], error (prefix_error e), [])
  unfolding read_frame with_prefix
  fails_with e h p =
      ap (with_prefix fr) (read_full_short fr.r 4 h)
      ∙ ap (λ x. (left fr [], error (prefix_error x), [])) p

  -- Fewer than four bytes.
  short_prefix : length fr.r.input < 4 → Read fr
  short_prefix h = elim (Bool-cases fr.r.breaks) [
    | inl b ↦ broke (inl h) b (fails_with broken h (end_error_broken fr.r b))
    | inr b ↦ elim (ℕ_discrete (length fr.r.input) 0) [
      | yes z ↦ ended (length-nil fr.r.input z) b (fails_with eof h (end_error_eof fr.r b z))
      | no n ↦
          let p : 0 < length fr.r.input = omega (arith, n) in
          truncated (inl h) p b (fails_with unexpected_eof h (end_error_inside fr.r b p))
    ]
  ]

  -- ReadFrame after a whole prefix.
  after_prefix :
      (n : ℕ) (rest : List ℕ)
      → fr.r.input ≡ put_uint32 n ++ rest
      → n < 4294967296
      → read_frame fr ≡ read_body (left fr rest) n
  unfolding read_frame with_prefix put_uint32
  after_prefix n rest e w =
      ap (with_prefix fr) (read_full-append fr.r (put_uint32 n) rest e)
      ∙ ap (read_body (left fr rest)) (uint32-put_uint32 n w)

  prefixed : (n : ℕ) (rest : List ℕ) → fr.r.input ≡ put_uint32 n ++ rest → 0 < length fr.r.input
  unfolding put_uint32
  prefixed n rest e = subst (λ xs. 0 < length xs) (sym e) (omega arith)

  -- A prefix of the value n, and fewer bytes after it.
  short_payload :
      (n : ℕ) (rest : List ℕ)
      → fr.r.input ≡ put_uint32 n ++ rest
      → n < 4294967296
      → 0 < n
      → n ≤ fr.max_message_size
      → length rest < n
      → Read fr
  unfolding read_body with_payload
  short_payload n rest e w p q h =
      let nonempty : (n == 0) ≡ false = ground arith in
      let small : ltb fr.max_message_size n ≡ false = ground arith in
      let step : read_body (left fr rest) n
          ≡ (left fr [], error (payload_error (end_error (left fr rest).r)), []) =
        rw (nonempty, small)
          (ap (with_payload (left fr rest)) (read_full_short (left fr rest).r n h)) in
      let cause = (inr (n, rest, e, h)) in
      elim (Bool-cases fr.r.breaks) [
        | inl b ↦ broke cause b (
            after_prefix n rest e w
            ∙ step
            ∙ ap (λ x. (left fr [], error (payload_error x), []))
                (end_error_broken (left fr rest).r b))
        | inr b ↦ truncated cause (prefixed n rest e) b (
            after_prefix n rest e w
            ∙ step
            ∙ ap (λ x. (left fr [], error x, [])) (end_error_whole (left fr rest).r b))
      ]

  whole_prefix :
      (n : ℕ) (rest : List ℕ) → fr.r.input ≡ put_uint32 n ++ rest → n < 4294967296 → Read fr
  unfolding read_body
  whole_prefix n rest e w = elim (ℕ_discrete n 0) [
    | yes z ↦
        empty rest (subst (λ k. fr.r.input ≡ put_uint32 k ++ rest) z e)
          (after_prefix n rest e w ∙ ap (read_body (left fr rest)) z)
    | no nz ↦ elim (Bool-cases (ltb fr.max_message_size n)) [
      | inl big ↦
          let nonempty : (n == 0) ≡ false = ground arith in
          oversized n rest e (ground arith) (after_prefix n rest e w ∙ rw (nonempty, big) refl)
      | inr small ↦ elim (Bool-cases (leb n (length rest))) [
        | inl fits ↦
            let size : length (take n rest) ≡ n =
              omega (arith, length-take n rest, fits_le n rest fits) in
            let split : fr.r.input ≡ frame (take n rest) ++ drop n rest =
              e
              ∙ ap (λ k. put_uint32 k ++ rest) (sym size)
              ∙ ap (λ xs. put_uint32 (length (take n rest)) ++ xs) (sym (append-take-drop n rest))
              ∙ sym
                  (append_assoc (put_uint32 (length (take n rest))) (take n rest) (drop n rest)) in
            let p : 0 < length (take n rest) = omega (arith, size, nz) in
            let q : length (take n rest) ≤ fr.max_message_size =
              omega (arith, size, not_above n fr.max_message_size small) in
            carried (take n rest) (drop n rest) split p q
              (read_frame-frame fr (take n rest) (drop n rest) split p q (omega (arith, size)))
        | inr short ↦ short_payload n rest e w (omega (arith, nz)) (ground arith) (ground arith)
      ]
    ]
  ]
    where
      not_above : (n max : ℕ) → ltb max n ≡ false → n ≤ max
      not_above n max f = ground arith

      fits_le : (n : ℕ) (rest : List ℕ) → leb n (length rest) ≡ true → n ≤ length rest
      fits_le n rest f = ground arith

  -- On bytes, ReadFrame returns a payload only if the input starts with the payload's frame and
  -- its length is in range, and then takes just that frame; it tells an empty, an oversized and a
  -- truncated frame, the end of the input and a broken connection from each other, each only
  -- where it is the case.
  pub read_frame-Read : All (λ b. b < 256) fr.r.input → Read fr
  unfolding uint32
  read_frame-Read bytes = split fr.r.input refl bytes
    where
      split : (xs : List ℕ) → fr.r.input ≡ xs → All (λ b. b < 256) xs → Read fr
      split [] e a = short_prefix (rw e (omega arith))
      split (b ∷ []) e a = short_prefix (rw e (omega arith))
      split (b ∷ c ∷ []) e a = short_prefix (rw e (omega arith))
      split (b ∷ c ∷ d ∷ []) e a = short_prefix (rw e (omega arith))
      split (b ∷ c ∷ d ∷ f ∷ rest) e (p, (q, (r, (s, a)))) =
          whole_prefix (uint32 (b ∷ c ∷ d ∷ f ∷ [])) rest
            (e ∙ ap (λ x. x ++ rest) (sym (put_uint32-uint32 b c d f p q r s))) (omega arith)
