-- ===== src/Transport/Framing/RoundTrip.antt =====
-- What a FrameWriter writes, a FrameReader reads (mash-go/pkg/transport/framing.go).
use mathlib.Core.List.{append_assoc, append-nil}
use Prim.Native.Nat.{zero, suc}
use mash.Base.{
  ℕ, ◌%◌, ◌<◌, ◌≤◌, ◌≡◌, refl, sym, ap, ◌∙◌, Bool, true, false, not, ◌&&◌, List, [], ◌∷◌, ◌++◌, map,
  length, arith, leb, ltb, ◌==◌, if◌then◌else◌, Bool-cases, inl, inr, All,
}
use mash.Transport.Framing.{
  put_uint32, FrameWriter, write_frame, write_parts, FrameReader, ReadResult, payload, read_frame,
}
use mash.Transport.Framing.Reading.{frame, read_frame-frame, left}

-- An io.Writer that takes every byte, such as a bytes.Buffer.
abbrev pub buffer_write : List ℕ → List ℕ → List ℕ × Bool
buffer_write buffer bytes = (buffer ++ bytes, true)

unfoldable pub write_frames : FrameWriter (List ℕ) → List (List ℕ) → FrameWriter (List ℕ)
write_frames fw [] = fw
write_frames fw (d ∷ ds) = write_frames (write_frame buffer_write fw d).0 ds

-- The results of this many calls of ReadFrame.
unfoldable pub read_frames : ℕ → FrameReader → List ReadResult
read_frames zero fr = []
read_frames (suc n) fr = (read_frame fr).1 ∷ read_frames n (read_frame fr).0

abbrev pub fits : ℕ → List ℕ → Bool
fits max d = not (length d == 0) && leb (length d) max

-- The messages that are neither empty nor too large.
abbrev pub accepted : ℕ → List (List ℕ) → List (List ℕ)
accepted max [] = []
accepted max (d ∷ ds) = if fits max d then d ∷ accepted max ds else accepted max ds

abbrev pub stream : List (List ℕ) → List ℕ
stream [] = []
stream (d ∷ ds) = frame d ++ stream ds

write_fits :
    (fw : FrameWriter (List ℕ)) (d : List ℕ)
    → length d < 4294967296
    → fits fw.max_message_size d ≡ true
    → (write_frame buffer_write fw d).0 ≡ record fw { w = fw.w ++ frame d }
unfolding write_frame write_parts
write_fits fw d w f =
    let some_bytes : (length d == 0) ≡ false = ground arith in
    let small : ltb fw.max_message_size (length d % 4294967296) ≡ false = ground arith in
    rw (some_bytes, small)
      (ap (λ b. record fw { w = b }) (append_assoc fw.w (put_uint32 (length d)) d))

write_refused :
    (fw : FrameWriter (List ℕ)) (d : List ℕ)
    → length d < 4294967296
    → fits fw.max_message_size d ≡ false
    → (write_frame buffer_write fw d).0 ≡ fw
unfolding write_frame write_parts
write_refused fw d w f = ground arith

write_frames-stream :
    (fw : FrameWriter (List ℕ)) (ds : List (List ℕ))
    → All (λ d. length d < 4294967296) ds
    → (write_frames fw ds).w ≡ fw.w ++ stream (accepted fw.max_message_size ds)
unfolding write_frames
write_frames-stream fw [] a = sym (append-nil fw.w)
write_frames-stream fw (d ∷ ds) (w, a) = elim (Bool-cases (fits fw.max_message_size d)) [
  | inl f ↦ rw f (
      ap (λ x. (write_frames x ds).w) (write_fits fw d w f)
      ∙ write_frames-stream (record fw { w = fw.w ++ frame d }) ds a
      ∙ append_assoc fw.w (frame d) (stream (accepted fw.max_message_size ds)))
  | inr f ↦
      rw f (ap (λ x. (write_frames x ds).w) (write_refused fw d w f) ∙ write_frames-stream fw ds a)
]

abbrev Fits : ℕ → List ℕ → Type 0
Fits max d = (0 < length d) × (length d ≤ max)

accepted-Fits : (max : ℕ) (ds : List (List ℕ)) → All (Fits max) (accepted max ds)
accepted-Fits max [] = tt
accepted-Fits max (d ∷ ds) = elim (Bool-cases (fits max d)) [
  | inl f ↦ rw f (bounds f, accepted-Fits max ds)
  | inr f ↦ rw f (accepted-Fits max ds)
]
  where
    bounds : fits max d ≡ true → Fits max d
    bounds f = (ground arith, ground arith)

-- A reader that reads a stream of frames.
read_frames-stream :
    (fr : FrameReader) (max : ℕ) (ds : List (List ℕ))
    → All (Fits max) ds
    → max ≤ fr.max_message_size
    → max < 4294967296
    → fr.r.input ≡ stream ds
    → read_frames (length ds) fr ≡ map payload ds
unfolding read_frames
read_frames-stream fr max [] a m w e = refl
read_frames-stream fr max (d ∷ ds) ((p, q), a) m w e =
    let first = read_frame-frame fr d (stream ds) e p (omega arith) (omega arith) in
    λ i.
      (first i).1
      ∷ (ap (λ x. read_frames (length ds) x.0) first
            ∙ read_frames-stream (left fr (stream ds)) max ds a m w refl)
          i

-- Whatever messages are written to a connection, the peer reads exactly those that were neither empty
-- nor larger than the writer's maximum, whole and in this order, if its own maximum is not smaller and
-- every message is shorter than 2 ^ 32 bytes.
pub read_frames-write_frames :
    (fw : FrameWriter (List ℕ)) (fr : FrameReader) (ds : List (List ℕ))
    → All (λ d. length d < 4294967296) ds
    → fw.max_message_size ≤ fr.max_message_size
    → fw.max_message_size < 4294967296
    → fw.w ≡ []
    → fr.r.input ≡ (write_frames fw ds).w
    → read_frames (length (accepted fw.max_message_size ds)) fr
      ≡ map payload (accepted fw.max_message_size ds)
read_frames-write_frames fw fr ds a m w n e =
    read_frames-stream fr fw.max_message_size (accepted fw.max_message_size ds)
      (accepted-Fits fw.max_message_size ds) m w
      (e ∙ write_frames-stream fw ds a ∙ ap (λ b. b ++ stream (accepted fw.max_message_size ds)) n)
