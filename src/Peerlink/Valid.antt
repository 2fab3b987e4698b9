-- ===== src/Peerlink/Valid.antt =====
-- internal/agency/peerlink/frame.go: the frames that are built pass the checks of frameToWire.
use mnemon.Prelude.{
  ◌≡◌, refl, subst, Bool, true, false, not, ◌||◌, Option, none, some, ◌==◌, ltb, if◌then◌else◌,
  length, arith, unless_refused, if-cases,
}
use mnemon.Peerlink.Hex.{Bytes, bytes_eq}
use mnemon.Peerlink.Digests.{Digest, is_zero, IsDigest}
use mnemon.Peerlink.Frames.{
  delivery_offer, transport_ack, admission_receipt, artifact_request, artifact_response, Frame,
  Codec, max_object_bytes, max_delivery_bytes, max_receipt_bytes, signature_size, embedded_json,
  signed_json, valid_ack, valid_request, valid_response, valid_shape, wire_of, frame_to_wire,
}
use mnemon.Peerlink.Builds.{
  Delivery, DeliveryOffer, DeliveryResponse, ArtifactRequest, private_key_size, complete_receipt,
  references, is_empty, bare_frame, delivery_offer_frame, ack_frame, receipt_frame,
  delivery_response_frame, artifact_request_frame, artifact_response_frame,
}
use mnemon.Peerlink.Accepts.{
  IsArray, digest_of, frame_to_wire-wire_of, zeros-IsArray, is_zero-zero_digest,
}

-- frameToWire accepts what is built.
abbrev pub Builds : Codec → Option Frame → Type 0
Builds c o = (f : Frame) → o ≡ some f → frame_to_wire c f ≡ some (wire_of c f)

module _ (c : Codec) where
  if-Builds :
      (b : Bool) (value : Frame)
      → (b ≡ false → frame_to_wire c value ≡ some (wire_of c value))
      → Builds c (if b then none else some value)
  if-Builds b value valid f h =
      let (passed, same) = unless_refused b value f h in
      subst (λ (x : Frame). frame_to_wire c x ≡ some (wire_of c x)) same (valid passed)

  artifact_request_frame-Builds :
      (d : Delivery) (digest : Digest)
      → IsArray d.id
      → IsArray d.envelope
      → IsArray digest
      → Builds c (artifact_request_frame d digest)
  unfolding artifact_request_frame valid_shape valid_request
  artifact_request_frame-Builds d digest id envelope object =
      if-Builds
        (is_zero d.id
          || is_zero d.envelope
          || is_zero digest
          || not (references d.artifacts digest))
        (record (bare_frame artifact_request d.id d.envelope) { object_digest = digest })
        (λ h.
          frame_to_wire-wire_of c
            (record (bare_frame artifact_request d.id d.envelope) { object_digest = digest })
            (digest_of d.id id (ground (arith, h)))
            (digest_of d.envelope envelope (ground (arith, h))) object (ground (arith, h)) refl)

  artifact_response_frame-Builds :
      (r : ArtifactRequest) (body : Bytes)
      → IsArray r.id
      → IsArray r.envelope
      → IsArray r.object
      → Builds c (artifact_response_frame c r body)
  unfolding artifact_response_frame valid_shape valid_response
  artifact_response_frame-Builds r body id envelope object =
      let value : Frame = record (bare_frame artifact_response r.id r.envelope) {
        object_digest = r.object;
        body = body;
      } in
      if-Builds
        (is_zero r.id
          || is_zero r.envelope
          || is_zero r.object
          || ltb max_object_bytes (length body)
          || not (bytes_eq (c.sum body) r.object))
        value
        (λ h.
          frame_to_wire-wire_of c value (digest_of r.id id (ground (arith, h)))
            (digest_of r.envelope envelope (ground (arith, h))) object (ground (arith, h))
            (ground (arith, h)))

  module _ (sign : Bytes → Bytes → Bytes) (key : Bytes)
      (signs : (k message : Bytes) → length (sign k message) ≡ signature_size) where
    delivery_offer_frame-Builds :
        (d : Delivery)
        → IsArray d.id
        → IsArray d.envelope
        → embedded_json c d.canonical max_delivery_bytes ≡ true
        → Builds c (delivery_offer_frame sign key d)
    unfolding delivery_offer_frame valid_shape signed_json
    delivery_offer_frame-Builds d id envelope json =
        let value : Frame = record (bare_frame delivery_offer d.id d.envelope) {
          canonical = d.canonical;
          signature = sign key d.message;
        } in
        if-Builds
          (is_zero d.id
            || is_zero d.envelope
            || is_empty d.canonical
            || not (length key == private_key_size))
          value
          (λ h.
            frame_to_wire-wire_of c value (digest_of d.id id (ground (arith, h)))
              (digest_of d.envelope envelope (ground (arith, h))) zeros-IsArray
              (ground (arith, is_zero-zero_digest, signs key d.message, json)) refl)

    -- Either frame of a response, to an offer whose identifiers are not zero.
    module _ (offer : DeliveryOffer) (response : DeliveryResponse) (id : IsDigest offer.id)
        (envelope : IsDigest offer.envelope) where
      ack_frame-Builds : Builds c (ack_frame sign key offer response)
      unfolding ack_frame valid_shape valid_ack
      ack_frame-Builds =
          if-Builds (complete_receipt response.receipt || not (is_empty response.signature))
            (bare_frame transport_ack offer.id offer.envelope)
            (λ h.
              frame_to_wire-wire_of c (bare_frame transport_ack offer.id offer.envelope) id envelope
                zeros-IsArray (ground (arith, is_zero-zero_digest)) refl)

      receipt_frame-Builds :
          (complete_receipt response.receipt ≡ true
            → embedded_json c response.receipt.canonical max_receipt_bytes ≡ true)
          → Builds c (receipt_frame sign key offer response)
      unfolding receipt_frame valid_shape signed_json
      receipt_frame-Builds json =
          let receipt = response.receipt in
          let value : Frame = record (bare_frame admission_receipt offer.id offer.envelope) {
            canonical = receipt.canonical;
            signature = sign key receipt.message;
          } in
          if-Builds
            (not (complete_receipt receipt)
              || not (length key == private_key_size)
              || not (bytes_eq receipt.id offer.id)
              || not (bytes_eq receipt.envelope offer.envelope))
            value
            (λ h.
              frame_to_wire-wire_of c value id envelope zeros-IsArray
                (ground
                  (arith, is_zero-zero_digest, signs key receipt.message, json (ground (arith, h))))
                refl)

    delivery_response_frame-Builds :
        (offer : DeliveryOffer) (response : DeliveryResponse)
        → IsArray offer.id
        → IsArray offer.envelope
        → (response.transport_ack ≡ false
            → complete_receipt response.receipt ≡ true
            → embedded_json c response.receipt.canonical max_receipt_bytes ≡ true)
        → Builds c (delivery_response_frame sign key offer response)
    unfolding delivery_response_frame
    delivery_response_frame-Builds offer response id envelope json =
        if-cases (Builds c) (is_zero offer.id || is_zero offer.envelope) none
          (if response.transport_ack
            then ack_frame sign key offer response
            else receipt_frame sign key offer response)
          (λ h f e. absurd (ground (arith, e)))
          (λ h.
            let i = digest_of offer.id id (ground (arith, h)) in
            let n = digest_of offer.envelope envelope (ground (arith, h)) in
            if-cases (Builds c) response.transport_ack (ack_frame sign key offer response)
              (receipt_frame sign key offer response) (λ k. ack_frame-Builds offer response i n)
              (λ k. receipt_frame-Builds offer response i n (json k)))

    -- Whatever frame is built of a delivery, of a response to an offer, of a request for an Artifact or of
    -- its body, frameToWire accepts it, and its header is the frame's. Identifiers and digests are 32
    -- bytes, a signature 64, and the canonical texts are compact JSON within their limits: the delivery's, and
    -- of a response other than a transport ACK, those of a complete receipt.
    pub built_frames_valid :
        (d : Delivery) (digest : Digest) (offer : DeliveryOffer) (response : DeliveryResponse)
        (r : ArtifactRequest) (body : Bytes)
        → IsArray d.id × IsArray d.envelope × IsArray digest
        → IsArray offer.id × IsArray offer.envelope
        → IsArray r.id × IsArray r.envelope × IsArray r.object
        → embedded_json c d.canonical max_delivery_bytes ≡ true
        → (response.transport_ack ≡ false
            → complete_receipt response.receipt ≡ true
            → embedded_json c response.receipt.canonical max_receipt_bytes ≡ true)
        → Builds c (delivery_offer_frame sign key d)
          × Builds c (delivery_response_frame sign key offer response)
          × Builds c (artifact_request_frame d digest)
          × Builds c (artifact_response_frame c r body)
    built_frames_valid d digest offer response r body (i, e, o) (i', e') (i'', e'', o'') json
          json' =
        (
          delivery_offer_frame-Builds d i e json,
          delivery_response_frame-Builds offer response i' e' json',
          artifact_request_frame-Builds d digest i e o,
          artifact_response_frame-Builds r body i'' e'' o'',
        )
