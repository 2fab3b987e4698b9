-- ===== src/Peerlink/Canonical.antt =====
-- internal/agency/peerlink/frame.go: readFrame accepts only what writeFrame sends.
use mnemon.Prelude.{◌≤◌, ◌<◌, ◌≡◌, refl, sym, subst, ap, ◌∙◌, none, some, ◌++◌, length, All, arith}
use mathlib.Core.List.{append_assoc, append-nil}
use mnemon.Prelude.Int.{ℤ, pos}
use mnemon.Peerlink.Hex.{Bytes, IsByte}
use mnemon.Peerlink.Frames.{
  Codec, Frame, FrameWire, ok, max_header_size, wire_to_frame, frame_to_wire,
}
use mnemon.Peerlink.Shapes.{wire_to_frame-size}
use mnemon.Peerlink.Streams.{
  Writer, put_uint32, uint32, write_frame, parse_frame_wire, read_full, body_of, read_value,
  read_frame,
}
use mnemon.Peerlink.Writes.{Healthy}
use mnemon.Peerlink.Roundtrip.{write_frame-parts}
use mnemon.Peerlink.Reads.{
  read_full-exact, read_body-exact, read_value-exact, read_wire-exact, read_header-exact,
  read_prefix-exact, parse_frame_wire-exact, put_uint32-uint32, All-front, frame_to_wire-read,
}

-- What a frame that was read stood for on the stream.
pub record OnStream (c : Codec) (f : Frame) (stream rest : Bytes) : Type 0 where
  pub wire : FrameWire
  pub header : Bytes
  pub valid : frame_to_wire c f ≡ some wire
  pub made : c.marshal wire ≡ some header
  pub nonempty : 0 < length header
  pub bounded : length header ≤ max_header_size
  pub bytes : stream ≡ put_uint32 (length header) ++ (header ++ (f.body ++ rest))

module _ (c : Codec) (f : Frame) (stream rest : Bytes) where
  read_wire-OnStream :
      (wire : FrameWire)
      → read_value c wire (wire_to_frame c wire) stream ≡ ok (f, rest)
      → (frame_to_wire c f ≡ some wire) × (stream ≡ f.body ++ rest)
  unfolding body_of
  read_wire-OnStream wire h =
      let (g, parsed, found) = read_value-exact c f rest wire (wire_to_frame c wire) stream h in
      let (body, taken, same, sum) =
        read_body-exact c f rest wire g (body_of wire.body_bytes stream) found in
      let (n, size) = wire_to_frame-size c wire g parsed in
      let (text, count) =
        read_full-exact n stream body rest
          (subst (λ (z : ℤ). body_of z stream ≡ some (body, rest)) size taken) in
      let value = frame_to_wire-read c wire g body parsed (size ∙ ap pos (sym count)) sum in
      subst (λ (x : Frame). (frame_to_wire c x ≡ some wire) × (stream ≡ x.body ++ rest)) (sym same)
        (value, text)

pub read_frame-OnStream :
    (c : Codec) (f : Frame) (stream rest : Bytes)
    → All IsByte stream
    → read_frame c stream ≡ ok (f, rest)
    → OnStream c f stream rest
unfolding read_frame
read_frame-OnStream c f stream rest bytes h =
    let (p, s1, taken, nonempty, bounded, h1) = read_prefix-exact c f rest (read_full 4 stream) h in
    let (text, four) = read_full-exact 4 stream p s1 taken in
    let prefix =
      put_uint32-uint32 p four (All-front p s1 (subst (λ (x : Bytes). All IsByte x) text bytes)) in
    let (raw, s2, taken_header, h2) = read_header-exact c f rest (read_full (uint32 p) s1) h1 in
    let (text_header, size) = read_full-exact (uint32 p) s1 raw s2 taken_header in
    let (wire, parsed, h3) = read_wire-exact c f rest (parse_frame_wire c raw) s2 h2 in
    let (valid, text_body) = read_wire-OnStream c f s2 rest wire h3 in
    record {
      wire = wire;
      header = raw;
      valid = valid;
      made = parse_frame_wire-exact c raw wire parsed;
      nonempty = omega (arith, nonempty, size);
      bounded = omega (arith, bounded, size);
      bytes =
          text
          ∙ ap (λ (x : Bytes). p ++ x) (text_header ∙ ap (λ (x : Bytes). raw ++ x) text_body)
          ∙ ap (λ (x : Bytes). x ++ (raw ++ (f.body ++ rest))) (sym (ap put_uint32 size ∙ prefix));
    }

-- Bytes from which readFrame takes a frame are that frame as writeFrame sends it, then the rest:
-- a healthy writer is sent the same bytes for it, without an error. So no two encodings are one frame.
pub write_frame-read_frame :
    (c : Codec) (w : Writer)
    → Healthy w
    → (f : Frame) (stream rest : Bytes) → All IsByte stream
    → read_frame c stream ≡ ok (f, rest)
    → ((write_frame c w f).0 ++ rest ≡ stream) × ((write_frame c w f).1 ≡ none)
write_frame-read_frame c w healthy f stream rest bytes h =
    let s = read_frame-OnStream c f stream rest bytes h in
    rw (write_frame-parts c w healthy f s.wire s.header s.valid s.made s.nonempty s.bounded)
      (rw (append-nil f.body, append_assoc s.header f.body rest) (sym s.bytes), refl)
