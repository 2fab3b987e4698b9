-- ===== src/Peerlink/Shapes.antt =====
-- internal/agency/peerlink/frame.go: a header that wireToFrame accepts is the header of its frame.
use mnemon.Prelude.{
  ℕ, ◌≡◌, refl, sym, subst, ap, ◌∙◌, Bool, true, Option, none, some, some-injective, [], ◌∷◌, ◌==◌,
  if◌then◌else◌, length, arith, guarded, required, ==_iff, Bool-cases, inl, inr,
}
use mnemon.Prelude.Int.{ℤ, pos, negsuc, leb_ℤ}
use mnemon.Peerlink.Hex.{Bytes, bytes_eq_iff, strip_iff, hex_encode, hex_encode-injective}
use mnemon.Peerlink.Digests.{
  digest_prefix, delivery_prefix, Digest, DeliveryId, is_zero, zero_digest, parse_digest,
  digest_string, parse_delivery_id, delivery_string, parse_digest-digest_string,
  parse_delivery_id-delivery_string,
}
use mnemon.Peerlink.Frames.{
  FrameType, delivery_offer, transport_ack, admission_receipt, artifact_request, artifact_response,
  unknown, FrameWire, Frame, Codec, signed_json, valid_ack, valid_request, valid_response,
  valid_shape, object_of, frame_of, parsed_frame, wire_to_frame, wire_of, frame_version, no_bytes,
  sums, checked_wire, frame_to_wire,
}

-- What wireToFrame found in a header.
pub record Accepted (c : Codec) (wire : FrameWire) (f : Frame) : Type 0 where
  pub version : wire.version ≡ frame_version
  pub id : parse_delivery_id wire.delivery_id ≡ some f.delivery_id
  pub envelope : parse_digest wire.envelope_digest ≡ some f.envelope_digest
  pub object : object_of wire.object_digest ≡ some f.object_digest
  pub shape : valid_shape c wire.kind wire f ≡ true
  pub rest : f ≡ frame_of wire f.delivery_id f.envelope_digest f.object_digest

module _ (c : Codec) where
  parsed_frame-accepts :
      (wire : FrameWire) (i : Option DeliveryId) (e o : Option Digest) (f : Frame)
      → parsed_frame c wire i e o ≡ some f
      → (i ≡ some f.delivery_id)
        × (e ≡ some f.envelope_digest)
        × (o ≡ some f.object_digest)
        × (valid_shape c wire.kind wire f ≡ true)
        × (f ≡ frame_of wire f.delivery_id f.envelope_digest f.object_digest)
  unfolding parsed_frame
  parsed_frame-accepts wire (some id) (some envelope) (some object) f h =
      let value = frame_of wire id envelope object in
      let (shape, same) = guarded (valid_shape c wire.kind wire value) value f h in
      subst
        (λ (x : Frame).
          (some id ≡ some x.delivery_id)
          × (some envelope ≡ some x.envelope_digest)
          × (some object ≡ some x.object_digest)
          × (valid_shape c wire.kind wire x ≡ true)
          × (x ≡ frame_of wire x.delivery_id x.envelope_digest x.object_digest))
        {x = value} same (refl, refl, refl, shape, refl)
  parsed_frame-accepts wire (some id) (some envelope) none f h = absurd (ground (arith, h))
  parsed_frame-accepts wire (some id) none o f h = absurd (ground (arith, h))
  parsed_frame-accepts wire none e o f h = absurd (ground (arith, h))

  pub wire_to_frame-accepts :
      (wire : FrameWire) (f : Frame) → wire_to_frame c wire ≡ some f → Accepted c wire f
  unfolding wire_to_frame
  wire_to_frame-accepts wire f h =
      let (version, parsed) =
        required (wire.version == frame_version)
          (parsed_frame c wire (parse_delivery_id wire.delivery_id)
            (parse_digest wire.envelope_digest) (object_of wire.object_digest))
          f h in
      let (id, envelope, object, shape, rest) =
        parsed_frame-accepts wire (parse_delivery_id wire.delivery_id)
          (parse_digest wire.envelope_digest) (object_of wire.object_digest) f parsed in
      record {
        version = (==_iff wire.version frame_version).0 version;
        id = id;
        envelope = envelope;
        object = object;
        shape = shape;
        rest = rest;
      }

-- The text of an accepted object digest.
object_of-exact :
    (text : Bytes) (d : Digest)
    → object_of text ≡ some d
    → text ≡ (if is_zero d then [] else digest_string d)
unfolding object_of is_zero
object_of-exact [] d h =
    subst (λ (x : Digest). [] ≡ (if is_zero x then [] else digest_string x)) {x = zero_digest}
      (some-injective zero_digest d h) refl
object_of-exact (b ∷ text) d h =
    let (same, digest) = (parse_digest-digest_string (b ∷ text) d).0 h in rw digest.nonzero same

no_bytes-pos : (z : ℤ) → no_bytes z ≡ true → (n : ℕ) × (z ≡ pos n)
no_bytes-pos (pos n) h = (n, refl)
no_bytes-pos (negsuc n) h = absurd (ground (arith, h))

leb-pos : (z : ℤ) → leb_ℤ (pos 0) z ≡ true → (n : ℕ) × (z ≡ pos n)
leb-pos (pos n) h = (n, refl)
leb-pos (negsuc n) h = absurd (ground (arith, h))

-- Only an Artifact's response has a body, and its size is not negative.
shape-body :
    (c : Codec) (k : FrameType) (wire : FrameWire) (f : Frame)
    → valid_shape c k wire f ≡ true
    → (n : ℕ) × (wire.body_bytes ≡ pos n)
unfolding valid_shape signed_json valid_ack valid_request valid_response
shape-body c delivery_offer wire f h = no_bytes-pos wire.body_bytes (ground (arith, h))
shape-body c transport_ack wire f h = no_bytes-pos wire.body_bytes (ground (arith, h))
shape-body c admission_receipt wire f h = no_bytes-pos wire.body_bytes (ground (arith, h))
shape-body c artifact_request wire f h = no_bytes-pos wire.body_bytes (ground (arith, h))
shape-body c artifact_response wire f h = leb-pos wire.body_bytes (ground (arith, h))
shape-body c (unknown text) wire f h = absurd (ground (arith, h))

-- The header of an accepted frame, with a body of the size that the header gives, is the header
-- that was read.
pub wire_of-exact :
    (c : Codec) (wire : FrameWire) (f : Frame) (body : Bytes)
    → wire_to_frame c wire ≡ some f
    → wire.body_bytes ≡ pos (length body)
    → wire_of c (record f { body = body }) ≡ wire
wire_of-exact c wire f body h size =
    let a = wire_to_frame-accepts c wire f h in
    let id = (parse_delivery_id-delivery_string wire.delivery_id f.delivery_id).0 a.id in
    let envelope =
      (parse_digest-digest_string wire.envelope_digest f.envelope_digest).0 a.envelope in
    let object = object_of-exact wire.object_digest f.object_digest a.object in
    let kind : f.kind ≡ wire.kind = ap (λ (x : Frame). x.kind) a.rest in
    let canonical : f.canonical ≡ wire.canonical = ap (λ (x : Frame). x.canonical) a.rest in
    let signature : f.signature ≡ wire.signature = ap (λ (x : Frame). x.signature) a.rest in
    let version = a.version in let same_id = id.0 in let same_envelope = envelope.0 in cc

pub digest_string-injective : (x y : Digest) → digest_string x ≡ digest_string y → x ≡ y
unfolding digest_string
digest_string-injective x y h =
    hex_encode-injective x y
      (some-injective _ _ ((strip_iff digest_prefix (digest_string x) (hex_encode y)).1 h))

pub delivery_string-injective : (x y : DeliveryId) → delivery_string x ≡ delivery_string y → x ≡ y
unfolding delivery_string
delivery_string-injective x y h =
    hex_encode-injective x y
      (some-injective _ _ ((strip_iff delivery_prefix (delivery_string x) (hex_encode y)).1 h))

object_of-text :
    (x y : Digest) → object_of (digest_string x) ≡ some y → digest_string x ≡ digest_string y
unfolding object_of digest_string
object_of-text x y h = ((parse_digest-digest_string (digest_string x) y).0 h).0

object_of-injective :
    (x y : Digest) → object_of (if is_zero x then [] else digest_string x) ≡ some y → y ≡ x
unfolding object_of is_zero
object_of-injective x y h = elim (Bool-cases (is_zero x)) [
  | inl e ↦
      let absent : some zero_digest ≡ some y =
        subst (λ (b : Bool). object_of (if b then [] else digest_string x) ≡ some y) e h in
      sym (some-injective zero_digest y absent) ∙ sym ((bytes_eq_iff x zero_digest).0 e)
  | inr e ↦ sym (
      digest_string-injective x y (
        object_of-text x y
          (subst (λ (b : Bool). object_of (if b then [] else digest_string x) ≡ some y) e h)))
]

checked_wire-exact :
    (c : Codec) (w wire : FrameWire) (f : Frame) (o : Option Frame)
    → checked_wire c w f o ≡ some wire
    → (w ≡ wire) × ((g : Frame) × (o ≡ some g)) × (sums c f.kind f.body f.object_digest ≡ true)
unfolding checked_wire
checked_wire-exact c w wire f none h = absurd (ground (arith, h))
checked_wire-exact c w wire f (some g) h =
    let (sum, same) = guarded (sums c f.kind f.body f.object_digest) w wire h in
    (same, (g, refl), sum)

-- The frame that is read back from a frame's own header.
read_back :
    (c : Codec) (f g : Frame)
    → wire_to_frame c (wire_of c f) ≡ some g
    → record g { body = f.body } ≡ f
read_back c f g h =
    let a = wire_to_frame-accepts c (wire_of c f) g h in
    let id : f.delivery_id ≡ g.delivery_id =
      delivery_string-injective f.delivery_id g.delivery_id
        ((parse_delivery_id-delivery_string (delivery_string f.delivery_id) g.delivery_id).0
          a.id).0 in
    let envelope : f.envelope_digest ≡ g.envelope_digest =
      digest_string-injective f.envelope_digest g.envelope_digest
        ((parse_digest-digest_string (digest_string f.envelope_digest) g.envelope_digest).0
          a.envelope).0 in
    let object : g.object_digest ≡ f.object_digest =
      object_of-injective f.object_digest g.object_digest a.object in
    let kind : g.kind ≡ f.kind = ap (λ (x : Frame). x.kind) a.rest in
    let canonical : g.canonical ≡ f.canonical = ap (λ (x : Frame). x.canonical) a.rest in
    let signature : g.signature ≡ f.signature = ap (λ (x : Frame). x.signature) a.rest in cc

-- What a frame that frameToWire accepts is read back as.
pub frame_to_wire-exact :
    (c : Codec) (f : Frame) (wire : FrameWire)
    → frame_to_wire c f ≡ some wire
    → (wire ≡ wire_of c f)
      × ((g : Frame) × (wire_to_frame c wire ≡ some g) × (record g { body = f.body } ≡ f))
      × (sums c f.kind f.body f.object_digest ≡ true)
unfolding frame_to_wire
frame_to_wire-exact c f wire h =
    let (same, (g, parsed), sum) =
      checked_wire-exact c (wire_of c f) wire f (wire_to_frame c (wire_of c f)) h in
    (
      sym same,
      (
        g,
        subst (λ (x : FrameWire). wire_to_frame c x ≡ some g) same parsed,
        read_back c f g parsed,
      ),
      sum,
    )

-- The size that an accepted header gives is a number.
pub wire_to_frame-size :
    (c : Codec) (wire : FrameWire) (f : Frame)
    → wire_to_frame c wire ≡ some f
    → (n : ℕ) × (wire.body_bytes ≡ pos n)
wire_to_frame-size c wire f h =
    shape-body c wire.kind wire f (wire_to_frame-accepts c wire f h).shape
