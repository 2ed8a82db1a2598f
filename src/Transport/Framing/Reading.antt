-- ===== src/Transport/Framing/Reading.antt =====
-- ReadFrame (mash-go/pkg/transport/framing.go) on every input.
use mash.Base.{
  ℕ, ◌<◌, ◌≤◌, ◌≡◌, refl, ap, ◌∙◌, true, false, none, some, List, [], ◌++◌, length, take, drop,
  arith, length-append, take-append, drop-append, leb, ltb, ◌==◌,
}
use mash.Transport.Framing.{
  put_uint32, Reader, FrameReader, payload, read_full, end_error, with_payload, read_body,
  read_frame, with_prefix, log_frame, incoming, eof,
}
use mash.Transport.Framing.Bytes.{uint32-put_uint32}

-- The bytes that WriteFrame sends for a message.
abbrev pub frame : List ℕ → List ℕ
frame d = put_uint32 (length d) ++ d

pub read_full-append :
    (r : Reader) (xs rest : List ℕ)
    → r.input ≡ xs ++ rest
    → read_full r (length xs) ≡ (record r { input = rest }, (some xs, eof))
unfolding read_full
read_full-append r xs rest e =
    let fits : leb (length xs) (length r.input) ≡ true =
      rw (e, length-append xs rest) (ground arith) in
    rw fits (λ i. (
      record r { input = (ap (drop (length xs)) e ∙ drop-append xs rest) i },
      (some ((ap (take (length xs)) e ∙ take-append xs rest) i), eof),
    ))

pub read_full_short :
    (r : Reader) (n : ℕ)
    → length r.input < n
    → read_full r n ≡ (record r { input = [] }, (none, end_error r))
unfolding read_full
read_full_short r n h = ground arith

pub read_full_rest :
    (r : Reader) (n : ℕ)
    → n ≤ length r.input
    → read_full r n ≡ (record r { input = drop n r.input }, (some (take n r.input), eof))
unfolding read_full
read_full_rest r n h = ground arith

module _ (fr : FrameReader) where
  abbrev pub left : List ℕ → FrameReader
  left rest = record fr { r = record fr.r { input = rest } }

  body_ok :
      (d rest : List ℕ)
      → 0 < length d
      → length d ≤ fr.max_message_size
      → read_body (left (d ++ rest)) (length d)
        ≡ (left rest, payload d, log_frame fr.logger d incoming)
  unfolding read_body with_payload
  body_ok d rest p q =
      let nonempty : (length d == 0) ≡ false = ground arith in
      let small : ltb fr.max_message_size (length d) ≡ false = ground arith in
      rw (nonempty, small)
        (ap (with_payload (left (d ++ rest))) (read_full-append (left (d ++ rest)).r d rest refl))

  -- A frame in front of the input is read whole, and what follows it is left.
  pub read_frame-frame :
      (d rest : List ℕ)
      → fr.r.input ≡ frame d ++ rest
      → 0 < length d
      → length d ≤ fr.max_message_size
      → length d < 4294967296
      → read_frame fr ≡ (left rest, payload d, log_frame fr.logger d incoming)
  unfolding read_frame with_prefix put_uint32
  read_frame-frame d rest e p q w =
      ap (with_prefix fr) (read_full-append fr.r (put_uint32 (length d)) (d ++ rest) e)
      ∙ ap (read_body (left (d ++ rest))) (uint32-put_uint32 (length d) w)
      ∙ body_ok d rest p q
