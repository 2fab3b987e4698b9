-- ===== src/Peerlink/Streams.antt =====
-- internal/agency/peerlink/frame.go: writing a frame to a stream and reading it back. The stream is
-- the list of its bytes; a writer is the answers to its calls in their order.
use mnemon.Prelude.{
  ℕ, zero, suc, ◌+◌, ◌*◌, ◌/◌, ◌%◌, ◌^◌, ◌||◌, Option, none, some, List, [], ◌∷◌, ◌++◌, ◌==◌, ltb,
  if◌then◌else◌, length,
}
use mnemon.Prelude.Int.{ℤ, pos, negsuc}
use mnemon.Peerlink.Hex.{Bytes, bytes_eq}
use mnemon.Peerlink.Frames.{
  Codec, Frame, FrameWire, FrameError, transport, malformed, Result, ok, err, max_header_size,
  wire_to_frame, frame_to_wire, sums,
}

-- What `Write` answers: how many bytes it took, with an error (`breaks`) or without one.
pub data Written : Type 0 where
  wrote breaks : ℕ → Written

-- A writer, by its answer to a call of that number on a value.
abbrev pub Writer : Type 0
Writer = ℕ → Bytes → Written

-- `stuck` is no outcome of the code: the loop ran out of fuel.
pub data Outcome : Type 0 where
  done failed short_write stuck : Outcome

abbrev pub take : ℕ → Bytes → Bytes
take zero v = []
take (suc n) [] = []
take (suc n) (b ∷ v) = b ∷ take n v

abbrev pub drop : ℕ → Bytes → Bytes
drop zero v = v
drop (suc n) [] = []
drop (suc n) (b ∷ v) = drop n v

-- The bytes taken, the calls made so far, and how the loop ended.
abbrev pub Sent : Type 0
Sent = Bytes × ℕ × Outcome

abbrev pub after_chunk : Bytes → Sent → Sent
after_chunk chunk (sent, calls, end) = (chunk ++ sent, calls, end)

unfoldable pub write_all : Writer → ℕ → ℕ → Bytes → Sent
write_all w fuel calls [] = ([], calls, done)
write_all w zero calls (b ∷ v) = ([], calls, stuck)
write_all w (suc fuel) calls (b ∷ v) = elim (w calls (b ∷ v)) [
  | breaks n ↦ (take n (b ∷ v), suc calls, failed)
  | wrote n ↦ elim n [
    | zero ↦ ([], suc calls, short_write)
    | suc k ↦ after_chunk (take (suc k) (b ∷ v)) (write_all w fuel (suc calls) (drop k v))
  ]
]

-- binary.BigEndian
abbrev pub put_uint32 : ℕ → Bytes
put_uint32 n = (n / 2 ^ 24 % 256) ∷ (n / 2 ^ 16 % 256) ∷ (n / 2 ^ 8 % 256) ∷ (n % 256) ∷ []

abbrev pub uint32 : Bytes → ℕ
uint32 [] = 0
uint32 (a ∷ []) = a
uint32 (a ∷ (b ∷ [])) = a * 256 + b
uint32 (a ∷ (b ∷ (c ∷ []))) = (a * 256 + b) * 256 + c
uint32 (a ∷ (b ∷ (c ∷ (d ∷ v)))) = ((a * 256 + b) * 256 + c) * 256 + d

abbrev pub then_write : Sent → (ℕ → Sent) → Sent
then_write (sent, calls, done) next = after_chunk sent (next calls)
then_write (sent, calls, failed) next = (sent, calls, failed)
then_write (sent, calls, short_write) next = (sent, calls, short_write)
then_write (sent, calls, stuck) next = (sent, calls, stuck)

-- The parts in turn, as long as each is written whole. A call of Write takes a byte or more, so
-- as many rounds as there are bytes are enough.
unfoldable pub write_parts : Writer → ℕ → List Bytes → Sent
write_parts w calls [] = ([], calls, done)
write_parts w calls (part ∷ parts) =
    then_write (write_all w (length part) calls part) (λ later. write_parts w later parts)

abbrev pub write_error : Outcome → Option FrameError
write_error done = none
write_error _ = some transport

abbrev pub written : Sent → Bytes × Option FrameError
written (sent, calls, end) = (sent, write_error end)

module _ (c : Codec) where
  -- The prefix, the header and the body of a frame.
  unfoldable pub header_parts : Bytes → Option Bytes → Option (List Bytes)
  header_parts body none = none
  header_parts body (some header) =
      if (length header == 0) || ltb max_header_size (length header)
      then none
      else some (put_uint32 (length header) ∷ header ∷ body ∷ [])

  unfoldable pub wire_parts : Bytes → Option FrameWire → Option (List Bytes)
  wire_parts body none = none
  wire_parts body (some wire) = header_parts body (c.marshal wire)

  unfoldable pub write_found : Writer → Option (List Bytes) → Bytes × Option FrameError
  write_found w none = ([], some malformed)
  write_found w (some parts) = written (write_parts w 0 parts)

  -- The bytes that the stream took, and the error.
  unfoldable pub write_frame : Writer → Frame → Bytes × Option FrameError
  write_frame w value = write_found w (wire_parts value.body (frame_to_wire c value))

  -- parseFrameWire: the header must be the text that Marshal gives it.
  unfoldable pub same_text : Bytes → FrameWire → Option Bytes → Option FrameWire
  same_text raw wire none = none
  same_text raw wire (some text) = if bytes_eq text raw then some wire else none

  unfoldable pub canonical_wire : Bytes → Option FrameWire → Option FrameWire
  canonical_wire raw none = none
  canonical_wire raw (some wire) = same_text raw wire (c.marshal wire)

  unfoldable pub parse_frame_wire : Bytes → Option FrameWire
  parse_frame_wire raw = if c.utf8_valid raw then canonical_wire raw (c.decode raw) else none

-- io.ReadFull, with what it leaves of the stream.
unfoldable pub push_byte : ℕ → Option (Bytes × Bytes) → Option (Bytes × Bytes)
push_byte b none = none
push_byte b (some (x, rest)) = some (b ∷ x, rest)

unfoldable pub read_full : ℕ → Bytes → Option (Bytes × Bytes)
read_full zero stream = some ([], stream)
read_full (suc n) [] = none
read_full (suc n) (b ∷ stream) = push_byte b (read_full n stream)

unfoldable pub body_of : ℤ → Bytes → Option (Bytes × Bytes)
body_of (pos n) stream = read_full n stream
body_of (negsuc n) stream = some ([], stream)

module _ (c : Codec) where
  unfoldable pub read_body : FrameWire → Frame → Option (Bytes × Bytes) → Result (Frame × Bytes)
  read_body wire f none = err transport
  read_body wire f (some (body, rest)) =
      if sums c wire.kind body f.object_digest
      then ok (record f { body = body }, rest)
      else err malformed

  unfoldable pub read_value : FrameWire → Option Frame → Bytes → Result (Frame × Bytes)
  read_value wire none rest = err malformed
  read_value wire (some f) rest = read_body wire f (body_of wire.body_bytes rest)

  unfoldable pub read_wire : Option FrameWire → Bytes → Result (Frame × Bytes)
  read_wire none rest = err malformed
  read_wire (some wire) rest = read_value wire (wire_to_frame c wire) rest

  unfoldable pub read_header : Option (Bytes × Bytes) → Result (Frame × Bytes)
  read_header none = err transport
  read_header (some (raw, rest)) = read_wire (parse_frame_wire c raw) rest

  unfoldable pub read_prefix : Option (Bytes × Bytes) → Result (Frame × Bytes)
  read_prefix none = err transport
  read_prefix (some (prefix, rest)) =
      if (uint32 prefix == 0) || ltb max_header_size (uint32 prefix)
      then err malformed
      else read_header (read_full (uint32 prefix) rest)

  unfoldable pub read_frame : Bytes → Result (Frame × Bytes)
  read_frame stream = read_prefix (read_full 4 stream)
