-- ===== src/Peerlink/Builds.antt =====
-- internal/agency/peerlink/frame.go, lines 113-186: the frames that are built of deliveries, responses
-- and requests. Ed25519 is the argument `sign`, of a private key and a message.
use mnemon.Prelude.{
  ℕ, Bool, false, not, ◌&&◌, ◌||◌, Option, none, some, List, [], ◌∷◌, ◌==◌, ltb, if◌then◌else◌,
  length,
}
use mnemon.Peerlink.Hex.{Bytes, bytes_eq}
use mnemon.Peerlink.Digests.{Digest, DeliveryId, zero_digest, is_zero}
use mnemon.Peerlink.Frames.{
  FrameType, delivery_offer, transport_ack, admission_receipt, artifact_request, artifact_response,
  Frame, Codec, max_object_bytes,
}

-- What the frames read of an agency.PeerDelivery.
pub record Delivery : Type 0 where
  pub id : DeliveryId
  pub envelope : Digest
  pub canonical : Bytes
  pub message : Bytes
  pub artifacts : List Digest

-- And of an agency.PeerAdmissionReceipt.
pub record Receipt : Type 0 where
  pub id : DeliveryId
  pub envelope : Digest
  pub canonical : Bytes
  pub message : Bytes

pub record DeliveryOffer : Type 0 where
  pub id : DeliveryId
  pub envelope : Digest

pub record DeliveryResponse : Type 0 where
  pub transport_ack : Bool
  pub receipt : Receipt
  pub signature : Bytes

pub record ArtifactRequest : Type 0 where
  pub id : DeliveryId
  pub envelope : Digest
  pub object : Digest

abbrev pub private_key_size : ℕ
private_key_size = 64

abbrev pub is_empty : Bytes → Bool
is_empty v = length v == 0

unfoldable pub complete_receipt : Receipt → Bool
complete_receipt r =
    not (is_zero r.id)
    && not (is_zero r.envelope)
    && not (is_empty r.canonical)
    && not (is_empty r.message)

abbrev pub references : List Digest → Digest → Bool
references [] d = false
references (a ∷ rest) d = bytes_eq a d || references rest d

abbrev pub bare_frame : FrameType → DeliveryId → Digest → Frame
bare_frame kind id envelope = record {
  kind = kind;
  delivery_id = id;
  envelope_digest = envelope;
  object_digest = zero_digest;
  canonical = [];
  signature = [];
  body = [];
}

module _ (sign : Bytes → Bytes → Bytes) (key : Bytes) where
  -- Every error of these is ErrInput.
  unfoldable pub delivery_offer_frame : Delivery → Option Frame
  delivery_offer_frame d =
      if is_zero d.id
        || is_zero d.envelope
        || is_empty d.canonical
        || not (length key == private_key_size)
      then none
      else some (record (bare_frame delivery_offer d.id d.envelope) {
        canonical = d.canonical;
        signature = sign key d.message;
      })

  unfoldable pub ack_frame : DeliveryOffer → DeliveryResponse → Option Frame
  ack_frame offer response =
      if complete_receipt response.receipt || not (is_empty response.signature)
      then none
      else some (bare_frame transport_ack offer.id offer.envelope)

  unfoldable pub receipt_frame : DeliveryOffer → DeliveryResponse → Option Frame
  receipt_frame offer response =
      let receipt = response.receipt in
      if not (complete_receipt receipt)
        || not (length key == private_key_size)
        || not (bytes_eq receipt.id offer.id)
        || not (bytes_eq receipt.envelope offer.envelope)
      then none
      else some (record (bare_frame admission_receipt offer.id offer.envelope) {
        canonical = receipt.canonical;
        signature = sign key receipt.message;
      })

  unfoldable pub delivery_response_frame : DeliveryOffer → DeliveryResponse → Option Frame
  delivery_response_frame offer response =
      if is_zero offer.id || is_zero offer.envelope
      then none
      else (if response.transport_ack
          then ack_frame offer response
          else receipt_frame offer response)

unfoldable pub artifact_request_frame : Delivery → Digest → Option Frame
artifact_request_frame d digest =
    if is_zero d.id || is_zero d.envelope || is_zero digest || not (references d.artifacts digest)
    then none
    else some (record (bare_frame artifact_request d.id d.envelope) { object_digest = digest })

unfoldable pub artifact_response_frame : Codec → ArtifactRequest → Bytes → Option Frame
artifact_response_frame c request body =
    if is_zero request.id
      || is_zero request.envelope
      || is_zero request.object
      || ltb max_object_bytes (length body)
      || not (bytes_eq (c.sum body) request.object)
    then none
    else some (record (bare_frame artifact_response request.id request.envelope) {
      object_digest = request.object;
      body = body;
    })
