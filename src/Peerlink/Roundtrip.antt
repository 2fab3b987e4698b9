-- ===== src/Peerlink/Roundtrip.antt =====
-- internal/agency/peerlink/frame.go: readFrame takes off a stream what writeFrame put there.
use mnemon.Prelude.{
  ℕ, ◌≤◌, ◌<◌, ◌^◌, ◌≡◌, refl, sym, subst, ap, true, false, ◌||◌, none, some, [], ◌∷◌, ◌++◌, ◌==◌,
  ltb, length, arith,
}
use mathlib.Core.List.{append_assoc, append-nil}
use mnemon.Prelude.Int.{pos}
use mnemon.Peerlink.Hex.{Bytes, bytes_eq_iff}
use mnemon.Peerlink.Frames.{
  Codec, Frame, FrameWire, ok, max_header_size, wire_to_frame, frame_to_wire, sums,
}
use mnemon.Peerlink.Shapes.{frame_to_wire-exact}
use mnemon.Peerlink.Streams.{
  Writer, put_uint32, uint32, header_parts, wire_parts, write_found, write_frame, same_text,
  canonical_wire, parse_frame_wire, push_byte, read_full, body_of, read_body, read_value, read_wire,
  read_header, read_prefix, read_frame,
}
use mnemon.Peerlink.Writes.{Healthy, write_parts-Healthy}

-- A codec that decodes the header it made of an accepted frame.
abbrev pub Decodes : Codec → Type 0
Decodes c =
    (wire : FrameWire) (f : Frame) (header : Bytes)
    → wire_to_frame c wire ≡ some f
    → c.marshal wire ≡ some header
    → (c.utf8_valid header ≡ true) × (c.decode header ≡ some wire)

uint32-put_uint32 : (n : ℕ) → n < 2 ^ 32 → uint32 (put_uint32 n) ≡ n
uint32-put_uint32 n h = omega (arith, h)

pub read_full-append : (x rest : Bytes) → read_full (length x) (x ++ rest) ≡ some (x, rest)
unfolding read_full push_byte
read_full-append [] rest = refl
read_full-append (b ∷ x) rest = rw (read_full-append x rest) refl

read_prefix-bounded :
    (c : Codec) (p stream : Bytes) (n : ℕ)
    → uint32 p ≡ n
    → 0 < n
    → n ≤ max_header_size
    → read_prefix c (some (p, stream)) ≡ read_header c (read_full n stream)
unfolding read_prefix
read_prefix-bounded c p stream n e some_bytes bounded =
    let small : ((n == 0) || ltb max_header_size n) ≡ false = ground (arith, some_bytes, bounded) in
    rw (e, small) refl

module _ (c : Codec) (law : Decodes c) (wire : FrameWire) (header : Bytes)
    (made : c.marshal wire ≡ some header) where
  parse_frame_wire-marshal :
      (f : Frame) → wire_to_frame c wire ≡ some f → parse_frame_wire c header ≡ some wire
  unfolding parse_frame_wire canonical_wire same_text
  parse_frame_wire-marshal f parsed =
      let (valid, decoded) = law wire f header parsed made in
      rw (valid, decoded, made, (bytes_eq_iff header header).1 refl) refl

  read_wire-body :
      (f g : Frame) (rest : Bytes)
      → wire_to_frame c wire ≡ some g
      → wire.body_bytes ≡ pos (length f.body)
      → sums c wire.kind f.body g.object_digest ≡ true
      → record g { body = f.body } ≡ f
      → read_wire c (some wire) (f.body ++ rest) ≡ ok (f, rest)
  unfolding read_wire read_value read_body body_of
  read_wire-body f g rest parsed size sum back =
      rw (parsed, size, read_full-append f.body rest, sum) (ap (λ (x : Frame). ok (x, rest)) back)

  read_frame-parts :
      (f : Frame)
      → frame_to_wire c f ≡ some wire
      → 0 < length header
      → length header ≤ max_header_size
      → (rest : Bytes)
      → read_frame c (put_uint32 (length header) ++ (header ++ (f.body ++ rest))) ≡ ok (f, rest)
  unfolding read_frame read_header
  read_frame-parts f h some_bytes bounded rest =
      let n = length header in
      let (same, (g, parsed, back), sum) = frame_to_wire-exact c f wire h in
      let size : wire.body_bytes ≡ pos (length f.body) =
        ap (λ (x : FrameWire). x.body_bytes) same in
      let kind : wire.kind ≡ f.kind = ap (λ (x : FrameWire). x.kind) same in
      let object : g.object_digest ≡ f.object_digest = ap (λ (x : Frame). x.object_digest) back in
      rw
        (
          read_full-append (put_uint32 n) (header ++ (f.body ++ rest)),
          read_prefix-bounded c (put_uint32 n) (header ++ (f.body ++ rest)) n
              (uint32-put_uint32 n (omega (arith, bounded))) some_bytes bounded,
          read_full-append header (f.body ++ rest),
          parse_frame_wire-marshal g parsed,
        )
        (read_wire-body f g rest parsed size
          (subst (λ k. sums c k f.body g.object_digest ≡ true) (sym kind)
            (subst (λ d. sums c f.kind f.body d ≡ true) (sym object) sum))
          back)

-- What a healthy writer takes of a frame: its prefix, its header and its body.
pub write_frame-parts :
    (c : Codec) (w : Writer)
    → Healthy w
    → (f : Frame) (wire : FrameWire) (header : Bytes) → frame_to_wire c f ≡ some wire
    → c.marshal wire ≡ some header
    → 0 < length header
    → length header ≤ max_header_size
    → write_frame c w f ≡ (put_uint32 (length header) ++ (header ++ (f.body ++ [])), none)
unfolding write_frame wire_parts header_parts write_found
write_frame-parts c w healthy f wire header h made some_bytes bounded =
    let n = length header in
    let parts = put_uint32 n ∷ header ∷ f.body ∷ [] in
    let small : ((n == 0) || ltb max_header_size n) ≡ false = ground (arith, some_bytes, bounded) in
    let (sent, end) = write_parts-Healthy w healthy parts 0 in
    rw (h, made, small, end) (ap (λ (x : Bytes). (x, none)) sent)

-- A valid frame whose header Marshal makes within the bound is written without an error by a writer
-- whose calls take a byte or more each, however many; and readFrame takes from the stream that
-- begins with what was written exactly that frame, and leaves the rest. The codec must decode the
-- headers it made.
pub read_frame-write_frame :
    (c : Codec)
    → Decodes c
    → (w : Writer) → Healthy w
    → (f : Frame) (wire : FrameWire) (header : Bytes) → frame_to_wire c f ≡ some wire
    → c.marshal wire ≡ some header
    → 0 < length header
    → length header ≤ max_header_size
    → ((write_frame c w f).1 ≡ none)
      × ((rest : Bytes) → read_frame c ((write_frame c w f).0 ++ rest) ≡ ok (f, rest))
read_frame-write_frame c law w healthy f wire header h made some_bytes bounded =
    rw (write_frame-parts c w healthy f wire header h made some_bytes bounded) (
      refl,
      λ rest.
          rw (append-nil f.body, append_assoc header f.body rest)
            (read_frame-parts c law wire header made f h some_bytes bounded rest),
    )
