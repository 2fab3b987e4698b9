-- ===== src/Peerlink/Frames.antt =====
-- internal/agency/peerlink/frame.go: the frames, their headers and the checks on their shape. JSON,
-- SHA-256 and UTF-8 are the operations of a `Codec`.
use mnemon.Prelude.{
  ℕ, ◌*◌, ◌^◌, Bool, true, false, not, ◌&&◌, ◌||◌, Option, none, some, [], ◌∷◌, ◌==◌, leb,
  if◌then◌else◌, length,
}
use mnemon.Prelude.Int.{ℤ, pos, negsuc, leb_ℤ}
use mnemon.Peerlink.Hex.{Bytes, bytes_eq}
use mnemon.Peerlink.Digests.{
  Digest, DeliveryId, zero_digest, is_zero, parse_digest, digest_string, parse_delivery_id,
  delivery_string,
}

abbrev pub frame_version : ℕ
frame_version = 1

abbrev pub max_header_size : ℕ
max_header_size = 48 * 2 ^ 10

abbrev pub max_delivery_bytes : ℕ
max_delivery_bytes = 32 * 2 ^ 10

abbrev pub max_receipt_bytes : ℕ
max_receipt_bytes = 4 * 2 ^ 10

abbrev pub max_object_bytes : ℕ
max_object_bytes = 4 * 2 ^ 20

-- ed25519.SignatureSize
abbrev pub signature_size : ℕ
signature_size = 64

-- The types of frames; `unknown` is any other text.
pub data FrameType : Type 0 where
  delivery_offer transport_ack admission_receipt artifact_request artifact_response : FrameType
  unknown : Bytes → FrameType

pub record FrameWire : Type 0 where
  pub version : ℕ
  pub kind : FrameType
  pub delivery_id : Bytes
  pub envelope_digest : Bytes
  pub object_digest : Bytes
  pub canonical : Bytes
  pub signature : Bytes
  pub body_bytes : ℤ

pub record Frame : Type 0 where
  pub kind : FrameType
  pub delivery_id : DeliveryId
  pub envelope_digest : Digest
  pub object_digest : Digest
  pub canonical : Bytes
  pub signature : Bytes
  pub body : Bytes

-- ErrTransport and ErrFrame.
pub data FrameError : Type 0 where
  transport malformed : FrameError

pub data Result (A : Type 0) : Type 0 where
  ok : A → Result A
  err : FrameError → Result A

-- json.Marshal of a header; its decoder, with unknown fields and trailing input refused; json.Valid;
-- json.Compact; utf8.Valid; and sha256.Sum256.
pub record Codec : Type 0 where
  pub marshal : FrameWire → Option Bytes
  pub decode : Bytes → Option FrameWire
  pub json_valid : Bytes → Bool
  pub json_compact : Bytes → Option Bytes
  pub utf8_valid : Bytes → Bool
  pub sum : Bytes → Digest

abbrev pub is_compact : Bytes → Option Bytes → Bool
is_compact raw none = false
is_compact raw (some text) = bytes_eq text raw

abbrev pub no_bytes : ℤ → Bool
no_bytes (pos n) = n == 0
no_bytes (negsuc n) = false

module _ (c : Codec) where
  unfoldable pub embedded_json : Bytes → ℕ → Bool
  embedded_json raw maximum =
      not (length raw == 0)
      && leb (length raw) maximum
      && c.utf8_valid raw
      && c.json_valid raw
      && is_compact raw (c.json_compact raw)

  -- validateDeliveryOffer and validateAdmissionReceipt.
  unfoldable pub signed_json : ℕ → FrameWire → Frame → Bool
  signed_json maximum wire value =
      is_zero value.object_digest
      && no_bytes wire.body_bytes
      && (length wire.signature == signature_size)
      && embedded_json wire.canonical maximum

  unfoldable pub valid_ack : FrameWire → Frame → Bool
  valid_ack wire value =
      is_zero value.object_digest
      && no_bytes wire.body_bytes
      && (length wire.canonical == 0)
      && (length wire.signature == 0)

  unfoldable pub valid_request : FrameWire → Frame → Bool
  valid_request wire value =
      not (is_zero value.object_digest)
      && no_bytes wire.body_bytes
      && (length wire.canonical == 0)
      && (length wire.signature == 0)

  unfoldable pub valid_response : FrameWire → Frame → Bool
  valid_response wire value =
      not (is_zero value.object_digest)
      && (length wire.canonical == 0)
      && (length wire.signature == 0)
      && leb_ℤ (pos 0) wire.body_bytes
      && leb_ℤ wire.body_bytes (pos max_object_bytes)

  unfoldable pub valid_shape : FrameType → FrameWire → Frame → Bool
  valid_shape delivery_offer wire value = signed_json max_delivery_bytes wire value
  valid_shape transport_ack wire value = valid_ack wire value
  valid_shape admission_receipt wire value = signed_json max_receipt_bytes wire value
  valid_shape artifact_request wire value = valid_request wire value
  valid_shape artifact_response wire value = valid_response wire value
  valid_shape (unknown text) wire value = false

-- The object's digest of a header: none is the empty text.
unfoldable pub object_of : Bytes → Option Digest
object_of [] = some zero_digest
object_of (b ∷ text) = parse_digest (b ∷ text)

abbrev pub frame_of : FrameWire → DeliveryId → Digest → Digest → Frame
frame_of wire id envelope object = record {
  kind = wire.kind;
  delivery_id = id;
  envelope_digest = envelope;
  object_digest = object;
  canonical = wire.canonical;
  signature = wire.signature;
  body = [];
}

module _ (c : Codec) where
  unfoldable pub parsed_frame :
      FrameWire → Option DeliveryId → Option Digest → Option Digest → Option Frame
  parsed_frame wire (some id) (some envelope) (some object) =
      if valid_shape c wire.kind wire (frame_of wire id envelope object)
      then some (frame_of wire id envelope object)
      else none
  parsed_frame wire (some id) (some envelope) none = none
  parsed_frame wire (some id) none object = none
  parsed_frame wire none envelope object = none

  -- Every error of wireToFrame is ErrFrame.
  unfoldable pub wire_to_frame : FrameWire → Option Frame
  wire_to_frame wire =
      if wire.version == frame_version
      then parsed_frame wire (parse_delivery_id wire.delivery_id)
          (parse_digest wire.envelope_digest) (object_of wire.object_digest)
      else none

  abbrev pub is_response : FrameType → Bool
  is_response artifact_response = true
  is_response _ = false

  abbrev pub wire_of : Frame → FrameWire
  wire_of value = record {
    version = frame_version;
    kind = value.kind;
    delivery_id = delivery_string value.delivery_id;
    envelope_digest = digest_string value.envelope_digest;
    object_digest = if is_zero value.object_digest then [] else digest_string value.object_digest;
    canonical = value.canonical;
    signature = value.signature;
    body_bytes = pos (length value.body);
  }

  -- An Artifact's body has the digest that its frame names.
  abbrev pub sums : FrameType → Bytes → Digest → Bool
  sums kind body digest = not (is_response kind) || bytes_eq (c.sum body) digest

  unfoldable pub checked_wire : FrameWire → Frame → Option Frame → Option FrameWire
  checked_wire wire value none = none
  checked_wire wire value (some f) =
      if sums value.kind value.body value.object_digest then some wire else none

  unfoldable pub frame_to_wire : Frame → Option FrameWire
  frame_to_wire value = checked_wire (wire_of value) value (wire_to_frame (wire_of value))
