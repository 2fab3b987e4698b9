-- ===== src/Peerlink/Accepts.antt =====
-- internal/agency/peerlink/frame.go: what frameToWire asks of a frame.
use mnemon.Prelude.{
  ℕ, zero, suc, ◌≡◌, refl, sym, subst, ap, ◌∙◌, Bool, true, false, some, [], if◌then◌else◌, length,
  All, arith, Bool-cases, inl, inr,
}
use mnemon.Peerlink.Hex.{IsByte, bytes_eq_iff}
use mnemon.Peerlink.Digests.{
  Digest, zeros, zero_digest, is_zero, parse_digest, digest_string, delivery_string, IsDigest,
  parse_digest-digest_string, parse_delivery_id-delivery_string,
}
use mnemon.Peerlink.Frames.{
  Frame, Codec, valid_shape, object_of, frame_of, parsed_frame, wire_to_frame, wire_of, sums,
  checked_wire, frame_to_wire,
}

-- A value of Go's [32]byte.
abbrev pub IsArray : Digest → Type 0
IsArray d = (length d ≡ 32) × All IsByte d

pub digest_of : (d : Digest) → IsArray d → is_zero d ≡ false → IsDigest d
digest_of d a nonzero = record { size = a.0; bytes = a.1; nonzero = nonzero }

object_of-digest_string :
    (d : Digest) → object_of (digest_string d) ≡ parse_digest (digest_string d)
unfolding object_of digest_string
object_of-digest_string d = refl

-- The text of an object's digest, or of none.
object_of-text :
    (d : Digest) → IsArray d → object_of (if is_zero d then [] else digest_string d) ≡ some d
unfolding object_of is_zero
object_of-text d a = elim (Bool-cases (is_zero d)) [
  | inl e ↦
      subst (λ (b : Bool). object_of (if b then [] else digest_string d) ≡ some d) (sym e)
        (ap (λ (x : Digest). some x) (sym ((bytes_eq_iff d zero_digest).0 e)))
  | inr e ↦
      subst (λ (b : Bool). object_of (if b then [] else digest_string d) ≡ some d) (sym e)
        (object_of-digest_string d
          ∙ (parse_digest-digest_string (digest_string d) d).1 (refl, digest_of d a e))
]

-- What a valid frame needs.
pub frame_to_wire-wire_of :
    (c : Codec) (f : Frame)
    → IsDigest f.delivery_id
    → IsDigest f.envelope_digest
    → IsArray f.object_digest
    → valid_shape c f.kind
        (wire_of c f)
        (frame_of (wire_of c f) f.delivery_id f.envelope_digest f.object_digest)
      ≡ true
    → sums c f.kind f.body f.object_digest ≡ true
    → frame_to_wire c f ≡ some (wire_of c f)
unfolding frame_to_wire checked_wire wire_to_frame parsed_frame
frame_to_wire-wire_of c f id envelope object shape sum =
    rw
      (
        (parse_delivery_id-delivery_string (delivery_string f.delivery_id) f.delivery_id).1
            (refl, id),
        (parse_digest-digest_string (digest_string f.envelope_digest) f.envelope_digest).1
            (refl, envelope),
        object_of-text f.object_digest object,
        shape,
        sum,
      )
      refl

zeros-All : (n : ℕ) → All IsByte (zeros n)
zeros-All zero = tt
zeros-All (suc n) = (omega arith, zeros-All n)

pub zeros-IsArray : IsArray zero_digest
zeros-IsArray = (refl, zeros-All 32)

pub is_zero-zero_digest : is_zero zero_digest ≡ true
unfolding is_zero
is_zero-zero_digest = refl
