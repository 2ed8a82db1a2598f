-- ===== src/Transport/Framing/Tests.antt =====
-- Two messages over a connection (mash-go/pkg/transport/framing.go).
use mash.Base.{ℕ, ◌≡◌, refl, List, [], ◌∷◌, map, length, arith, false, true}
use mash.Transport.Framing.{
  FrameWriter, FrameReader, payload, default_max_message_size, write_frame, write_parts, put_uint32,
  read_frame, with_prefix, with_payload, read_body, read_full, uint32, error, frame_truncated,
}
use mash.Transport.Framing.Cases.{Read, read_frame-Read}
use mash.Transport.Framing.RoundTrip.{accepted, read_frames, write_frames, read_frames-write_frames}

abbrev writer : FrameWriter (List ℕ)
writer = record { w = []; max_message_size = 3; logger = true }

abbrev messages : List (List ℕ)
messages = (7 ∷ 8 ∷ []) ∷ [] ∷ (1 ∷ 2 ∷ 3 ∷ 4 ∷ []) ∷ (9 ∷ []) ∷ []

abbrev reading : List ℕ → FrameReader
reading bytes = record {
  r = record { input = bytes; breaks = false };
  max_message_size = default_max_message_size;
  logger = false;
}

written : (write_frames writer messages).w ≡ 0 ∷ 0 ∷ 0 ∷ 2 ∷ 7 ∷ 8 ∷ 0 ∷ 0 ∷ 0 ∷ 1 ∷ 9 ∷ []
unfolding write_frames write_frame write_parts put_uint32
written = refl

cut : (read_frame (reading (0 ∷ 0 ∷ 0 ∷ 2 ∷ 7 ∷ []))).1 ≡ error frame_truncated
unfolding read_frame with_prefix with_payload read_body read_full uint32
cut = refl

read_frames-write_frames_example :
    read_frames (length (accepted 3 messages)) (reading (write_frames writer messages).w)
    ≡ map payload (accepted 3 messages)
read_frames-write_frames_example =
    read_frames-write_frames writer (reading (write_frames writer messages).w) messages
      (omega arith, (omega arith, (omega arith, (omega arith, tt)))) (omega arith) (omega arith)
      refl refl

read_frame-Read_example : Read (reading (0 ∷ 0 ∷ 0 ∷ 2 ∷ 7 ∷ []))
read_frame-Read_example =
    read_frame-Read (reading (0 ∷ 0 ∷ 0 ∷ 2 ∷ 7 ∷ []))
      (omega arith, (omega arith, (omega arith, (omega arith, (omega arith, tt)))))
