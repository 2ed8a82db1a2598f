-- ===== src/Transport/Framing.antt =====
-- mash-go/pkg/transport/framing.go: messages as frames with a length in front. Bytes are numbers below
-- 256. An io.Writer is a parameter; an io.Reader is what it still delivers and how that ends.
pub mod Bytes
pub mod Reading
pub mod Cases
pub mod RoundTrip
mod Tests
use mash.Base.{
  ℕ, ◌+◌, ◌*◌, ◌/◌, ◌%◌, Bool, true, false, Option, none, some, List, [], ◌∷◌, ◌++◌, ltb, leb, ◌==◌,
  if◌then◌else◌, length, take, drop,
}

abbrev pub length_prefix_size : ℕ
length_prefix_size = 4

abbrev pub default_max_message_size : ℕ
default_max_message_size = 8192

abbrev pub max_log_frame_data_size : ℕ
max_log_frame_data_size = 4096

pub data FrameError : Type 0 where
  message_too_large message_empty frame_truncated end_of_file failed : FrameError

-- binary.BigEndian.PutUint32
unfoldable pub put_uint32 : ℕ → List ℕ
put_uint32 n = n / 16777216 % 256 ∷ n / 65536 % 256 ∷ n / 256 % 256 ∷ n % 256 ∷ []

-- binary.BigEndian.Uint32, of the four bytes that ReadFull has filled.
unfoldable pub uint32 : List ℕ → ℕ
uint32 (a ∷ b ∷ c ∷ d ∷ rest) = a * 16777216 + b * 65536 + c * 256 + d
uint32 _ = 0

pub data Direction : Type 0 where
  incoming outgoing : Direction

-- The frame of a log event.
pub record FrameEvent : Type 0 where
  pub direction : Direction
  pub size : ℕ
  pub content : List ℕ
  pub truncated : Bool

unfoldable pub make_frame_event : List ℕ → Direction → FrameEvent
make_frame_event bytes direction = record {
  direction = direction;
  size = length_prefix_size + length bytes;
  content =
      if ltb max_log_frame_data_size (length bytes)
      then take max_log_frame_data_size bytes
      else bytes;
  truncated = ltb max_log_frame_data_size (length bytes);
}

abbrev log_frame : Bool → List ℕ → Direction → List FrameEvent
log_frame logger bytes direction = if logger then make_frame_event bytes direction ∷ [] else []

pub record FrameWriter (W : Type 0) : Type 0 where
  pub w : W
  pub max_message_size : ℕ
  pub logger : Bool

-- `write` is the Write of the io.Writer: what it then is, and whether it took the bytes.
module _ {W : Type 0} (write : W → List ℕ → W × Bool) where
  -- The two writes, of which the second is not made if the first fails.
  unfoldable pub write_parts :
      FrameWriter W → List ℕ → FrameWriter W × Option FrameError × List FrameEvent
  write_parts fw bytes =
      let (w, prefixed) = write fw.w (put_uint32 (length bytes)) in
      let (w', written) = write w bytes in
      if prefixed
      then (if written
          then (record fw { w = w' }, none, log_frame fw.logger bytes outgoing)
          else (record fw { w = w' }, some failed, []))
      else (record fw { w = w }, some failed, [])

  -- `uint32(len(data))` wraps.
  unfoldable pub write_frame :
      FrameWriter W → List ℕ → FrameWriter W × Option FrameError × List FrameEvent
  unfolding write_parts
  write_frame fw bytes =
      if length bytes == 0
      then (fw, some message_empty, [])
      else if ltb fw.max_message_size (length bytes % 4294967296)
      then (fw, some message_too_large, [])
      else write_parts fw bytes

-- What the connection still delivers; after that it ends, or breaks with another error.
pub record Reader : Type 0 where
  pub input : List ℕ
  pub breaks : Bool

pub data ReadError : Type 0 where
  eof unexpected_eof broken : ReadError

-- Why ReadFull gets too few bytes.
abbrev pub end_error : Reader → ReadError
end_error r = if r.breaks then broken else if length r.input == 0 then eof else unexpected_eof

-- io.ReadFull of n bytes, n not 0. What was there is consumed in any case.
unfoldable pub read_full : Reader → ℕ → Reader × (Option (List ℕ) × ReadError)
read_full r n =
    if leb n (length r.input)
    then (record r { input = drop n r.input }, (some (take n r.input), eof))
    else (record r { input = [] }, (none, end_error r))

pub record FrameReader : Type 0 where
  pub r : Reader
  pub max_message_size : ℕ
  pub logger : Bool

pub data ReadResult : Type 0 where
  payload : List ℕ → ReadResult
  error : FrameError → ReadResult

-- The errors of the two calls of ReadFull, which differ at the end of the file.
abbrev prefix_error : ReadError → FrameError
prefix_error eof = end_of_file
prefix_error unexpected_eof = frame_truncated
prefix_error broken = failed

abbrev payload_error : ReadError → FrameError
payload_error broken = failed
payload_error _ = frame_truncated

-- ReadFrame from the result of the second ReadFull on.
unfoldable pub with_payload :
    FrameReader
    → Reader × (Option (List ℕ) × ReadError)
    → FrameReader × ReadResult × List FrameEvent
with_payload fr (r, (none, e)) = (record fr { r = r }, error (payload_error e), [])
with_payload fr (r, (some d, e)) = (record fr { r = r }, payload d, log_frame fr.logger d incoming)

-- What follows the length prefix.
unfoldable pub read_body : FrameReader → ℕ → FrameReader × ReadResult × List FrameEvent
unfolding with_payload read_full
read_body fr n =
    if n == 0
    then (fr, error message_empty, [])
    else if ltb fr.max_message_size n
    then (fr, error message_too_large, [])
    else with_payload fr (read_full fr.r n)

-- ReadFrame from the result of the first ReadFull on.
unfoldable pub with_prefix :
    FrameReader
    → Reader × (Option (List ℕ) × ReadError)
    → FrameReader × ReadResult × List FrameEvent
unfolding read_body uint32
with_prefix fr (r, (none, e)) = (record fr { r = r }, error (prefix_error e), [])
with_prefix fr (r, (some buf, e)) = read_body (record fr { r = r }) (uint32 buf)

unfoldable pub read_frame : FrameReader → FrameReader × ReadResult × List FrameEvent
unfolding with_prefix read_full
read_frame fr = with_prefix fr (read_full fr.r length_prefix_size)

unfoldable pub set_max_message_size : FrameReader → ℕ → FrameReader
set_max_message_size fr size = record fr { max_message_size = size }

-- A nil logger is `false`.
unfoldable pub set_writer_logger : {W : Type 0} → FrameWriter W → Bool → FrameWriter W
set_writer_logger fw logger = record fw { logger = logger }

unfoldable pub set_reader_logger : FrameReader → Bool → FrameReader
set_reader_logger fr logger = record fr { logger = logger }

unfoldable pub frame_size : ℕ → ℕ
frame_size payload_size = length_prefix_size + payload_size
