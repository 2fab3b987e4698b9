-- ===== src/Peerlink/Reads.antt =====
-- internal/agency/peerlink/frame.go: what readFrame found when it comes to a frame.
use mnemon.Prelude.{
  ℕ, zero, suc, ◌+◌, ◌*◌, ◌/◌, ◌%◌, ◌≤◌, ◌<◌, ◌^◌, ◌≡◌, refl, sym, subst, ap, Bool, true, false,
  ◌||◌, Option, none, some, [], ◌∷◌, ◌++◌, ◌==◌, ltb, if◌then◌else◌, length, All, arith, guarded,
  required,
}
use mnemon.Prelude.Int.{pos}
use mnemon.Peerlink.Hex.{Bytes, IsByte, bytes_eq, bytes_eq_iff}
use mnemon.Peerlink.Frames.{
  Codec, Frame, FrameWire, FrameError, malformed, Result, ok, err, max_header_size, wire_to_frame,
  frame_to_wire, checked_wire, sums,
}
use mnemon.Peerlink.Shapes.{wire_of-exact}
use mnemon.Peerlink.Streams.{
  put_uint32, uint32, same_text, canonical_wire, parse_frame_wire, push_byte, read_full, body_of,
  read_body, read_value, read_wire, read_header, read_prefix,
}

from_ok : {A : Type 0} → A → Result A → A
from_ok x (ok y) = y
from_ok x (err e) = x

ok_if :
    {A : Type 0} (b : Bool) (e : FrameError) (x y : A)
    → (if b then ok x else err e) ≡ ok y
    → (b ≡ true) × (x ≡ y)
unfolding from_ok
ok_if true e x y h = (refl, ap (λ r. from_ok x r) h)
ok_if false e x y h = absurd (ground (arith, h))

err_if :
    {A : Type 0} (b : Bool) (e : FrameError) (r : Result A) (y : A)
    → (if b then err e else r) ≡ ok y
    → (b ≡ false) × (r ≡ ok y)
err_if true e r y h = absurd (ground (arith, h))
err_if false e r y h = (refl, h)

push_byte-exact :
    (b : ℕ) (o : Option (Bytes × Bytes)) (x rest : Bytes)
    → push_byte b o ≡ some (x, rest)
    → (y : Bytes) × (x ≡ b ∷ y) × (o ≡ some (y, rest))
unfolding push_byte
push_byte-exact b none x rest h = absurd (ground (arith, h))
push_byte-exact b (some (y, stream)) x rest h = (y, ground (arith, h), ground (arith, h))

pub read_full-exact :
    (n : ℕ) (stream x rest : Bytes)
    → read_full n stream ≡ some (x, rest)
    → (stream ≡ x ++ rest) × (length x ≡ n)
unfolding read_full
read_full-exact zero stream x rest h = ground (arith, h)
read_full-exact (suc n) [] x rest h = absurd (ground (arith, h))
read_full-exact (suc n) (b ∷ stream) x rest h =
    let (y, text, more) = push_byte-exact b (read_full n stream) x rest h in
    ground (arith, text, read_full-exact n stream y rest more)

-- A read that came to a frame found each of its parts.
module _ (c : Codec) (f : Frame) (rest : Bytes) where
  pub read_body-exact :
      (wire : FrameWire) (g : Frame) (o : Option (Bytes × Bytes))
      → read_body c wire g o ≡ ok (f, rest)
      → (body : Bytes) × (o ≡ some (body, rest))
        × (f ≡ record g { body = body })
        × (sums c wire.kind body g.object_digest ≡ true)
  unfolding read_body
  read_body-exact wire g none h = absurd (ground (arith, h))
  read_body-exact wire g (some (body, stream)) h =
      let (sum, same) =
        ok_if (sums c wire.kind body g.object_digest) malformed (record g { body = body }, stream)
          (f, rest) h in
      (
        body,
        ap (λ (s : Frame × Bytes). some (body, s.1)) same,
        sym (ap (λ (s : Frame × Bytes). s.0) same),
        sum,
      )

  pub read_value-exact :
      (wire : FrameWire) (o : Option Frame) (stream : Bytes)
      → read_value c wire o stream ≡ ok (f, rest)
      → (g : Frame) × (o ≡ some g)
        × (read_body c wire g (body_of wire.body_bytes stream) ≡ ok (f, rest))
  unfolding read_value
  read_value-exact wire none stream h = absurd (ground (arith, h))
  read_value-exact wire (some g) stream h = (g, refl, h)

  pub read_wire-exact :
      (o : Option FrameWire) (stream : Bytes)
      → read_wire c o stream ≡ ok (f, rest)
      → (wire : FrameWire) × (o ≡ some wire)
        × (read_value c wire (wire_to_frame c wire) stream ≡ ok (f, rest))
  unfolding read_wire
  read_wire-exact none stream h = absurd (ground (arith, h))
  read_wire-exact (some wire) stream h = (wire, refl, h)

  pub read_header-exact :
      (o : Option (Bytes × Bytes))
      → read_header c o ≡ ok (f, rest)
      → (raw : Bytes) × (stream : Bytes) × (o ≡ some (raw, stream))
        × (read_wire c (parse_frame_wire c raw) stream ≡ ok (f, rest))
  unfolding read_header
  read_header-exact none h = absurd (ground (arith, h))
  read_header-exact (some (raw, stream)) h = (raw, stream, refl, h)

  pub read_prefix-exact :
      (o : Option (Bytes × Bytes))
      → read_prefix c o ≡ ok (f, rest)
      → (p : Bytes) × (stream : Bytes) × (o ≡ some (p, stream))
        × (0 < uint32 p)
        × (uint32 p ≤ max_header_size)
        × (read_header c (read_full (uint32 p) stream) ≡ ok (f, rest))
  unfolding read_prefix
  read_prefix-exact none h = absurd (ground (arith, h))
  read_prefix-exact (some (p, stream)) h =
      let (bounded, more) =
        err_if ((uint32 p == 0) || ltb max_header_size (uint32 p)) malformed
          (read_header c (read_full (uint32 p) stream)) (f, rest) h in
      (p, stream, refl, ground (arith, bounded), ground (arith, bounded), more)

same_text-exact :
    (c : Codec) (raw : Bytes) (w wire : FrameWire) (o : Option Bytes)
    → same_text c raw w o ≡ some wire
    → (w ≡ wire) × (o ≡ some raw)
unfolding same_text
same_text-exact c raw w wire none h = absurd (ground (arith, h))
same_text-exact c raw w wire (some text) h =
    let (same, value) = guarded (bytes_eq text raw) w wire h in
    (value, ap (λ (x : Bytes). some x) ((bytes_eq_iff text raw).0 same))

canonical_wire-exact :
    (c : Codec) (raw : Bytes) (wire : FrameWire) (o : Option FrameWire)
    → canonical_wire c raw o ≡ some wire
    → c.marshal wire ≡ some raw
unfolding canonical_wire
canonical_wire-exact c raw wire none h = absurd (ground (arith, h))
canonical_wire-exact c raw wire (some w) h =
    let (value, text) = same_text-exact c raw w wire (c.marshal w) h in
    subst (λ (x : FrameWire). c.marshal x ≡ some raw) value text

pub parse_frame_wire-exact :
    (c : Codec) (raw : Bytes) (wire : FrameWire)
    → parse_frame_wire c raw ≡ some wire
    → c.marshal wire ≡ some raw
unfolding parse_frame_wire
parse_frame_wire-exact c raw wire h =
    canonical_wire-exact c raw wire (c.decode raw)
      (required (c.utf8_valid raw) (canonical_wire c raw (c.decode raw)) wire h).1

pub put_uint32-uint32 : (p : Bytes) → length p ≡ 4 → All IsByte p → put_uint32 (uint32 p) ≡ p
put_uint32-uint32 [] h k = absurd (omega (arith, h))
put_uint32-uint32 (a ∷ []) h k = absurd (omega (arith, h))
put_uint32-uint32 (a ∷ (b ∷ [])) h k = absurd (omega (arith, h))
put_uint32-uint32 (a ∷ (b ∷ (c ∷ []))) h k = absurd (omega (arith, h))
put_uint32-uint32 (a ∷ (b ∷ (c ∷ (d ∷ [])))) h (ka, (kb, (kc, (kd, kk)))) =
    let n = ((a * 256 + b) * 256 + c) * 256 + d in
    let ea : n / 2 ^ 24 % 256 ≡ a = omega (arith, ka, kb, kc, kd) in
    let eb : n / 2 ^ 16 % 256 ≡ b = omega (arith, ka, kb, kc, kd) in
    let ec : n / 2 ^ 8 % 256 ≡ c = omega (arith, ka, kb, kc, kd) in
    let ed : n % 256 ≡ d = omega (arith, ka, kb, kc, kd) in cc
put_uint32-uint32 (a ∷ (b ∷ (c ∷ (d ∷ (e ∷ p))))) h k = absurd (omega (arith, h))

pub All-front : (x y : Bytes) → All IsByte (x ++ y) → All IsByte x
All-front [] y h = tt
All-front (b ∷ x) y h = (h.0, All-front x y h.1)

-- The header of the frame that was read.
pub frame_to_wire-read :
    (c : Codec) (wire : FrameWire) (g : Frame) (body : Bytes)
    → wire_to_frame c wire ≡ some g
    → wire.body_bytes ≡ pos (length body)
    → sums c wire.kind body g.object_digest ≡ true
    → frame_to_wire c (record g { body = body }) ≡ some wire
unfolding frame_to_wire checked_wire
frame_to_wire-read c wire g body parsed size sum =
    let same = wire_of-exact c wire g body parsed size in
    let kind : g.kind ≡ wire.kind = ap (λ (x : FrameWire). x.kind) same in
    let summed : sums c g.kind body g.object_digest ≡ true =
      subst (λ k. sums c k body g.object_digest ≡ true) (sym kind) sum in
    subst
      (λ (x : FrameWire).
        checked_wire c x (record g { body = body }) (wire_to_frame c x) ≡ some wire)
      (sym same) (rw (parsed, summed) refl)
