-- ===== src/Peerlink/Examples.antt =====
-- internal/agency/peerlink/frame.go: a codec, a writer and a frame, on which the theorems are used.
use mnemon.Prelude.{◌≤◌, ◌<◌, ◌≡◌, ◌↔◌, refl, true, none, some, [], ◌∷◌, ◌++◌, length, All, arith}
use mnemon.Peerlink.Hex.{Bytes, IsByte}
use mnemon.Peerlink.Digests.{
  zeros, zero_digest, is_zero, parse_hex, parse_rest, parse_digest, digest_string,
  parse_delivery_rest, parse_delivery_id, delivery_string, IsDigest, parse_digest-digest_string,
}
use mnemon.Peerlink.Frames.{
  transport_ack, Frame, ok, max_header_size, valid_shape, valid_ack, object_of, parsed_frame,
  wire_to_frame, wire_of, checked_wire, frame_to_wire, embedded_json, max_delivery_bytes,
}
use mnemon.Peerlink.Builds.{
  Delivery, DeliveryOffer, DeliveryResponse, ArtifactRequest, delivery_offer_frame,
  delivery_response_frame, ack_frame, complete_receipt, artifact_request_frame,
  artifact_response_frame,
}
use mnemon.Peerlink.Accepts.{IsArray}
use mnemon.Peerlink.Valid.{Builds, built_frames_valid}
use mnemon.Peerlink.Streams.{
  wrote, Writer, write_all, write_parts, header_parts, wire_parts, write_found, write_frame,
  read_frame,
}
use mnemon.Peerlink.Writes.{Healthy, Ends, write_all-Ends}
use mnemon.Peerlink.Roundtrip.{read_frame-write_frame}
use mnemon.Peerlink.Canonical.{write_frame-read_frame}
use mnemon.Peerlink.Samples.{ones, codec, codec-Decodes, fields, all_bytes-All}

-- A writer that takes a byte at each call.
abbrev slow : Writer
slow calls v = wrote 1

slow-Healthy : Healthy slow
slow-Healthy calls v h = (0, refl)

write_all-Ends_example : Ends slow (5 ∷ 6 ∷ []) (write_all slow 2 0 (5 ∷ 6 ∷ []))
write_all-Ends_example = write_all-Ends slow 2 0 (5 ∷ 6 ∷ []) (omega arith)

-- The text of a digest of ones.
parse_digest-digest_string_example :
    (parse_digest (digest_string (ones 32)) ≡ some (ones 32))
    ↔ ((digest_string (ones 32) ≡ digest_string (ones 32)) × IsDigest (ones 32))
parse_digest-digest_string_example = parse_digest-digest_string (digest_string (ones 32)) (ones 32)

abbrev ack : Frame
ack = record {
  kind = transport_ack;
  delivery_id = ones 32;
  envelope_digest = ones 32;
  object_digest = zero_digest;
  canonical = [];
  signature = [];
  body = [];
}

abbrev ack_header : Bytes
ack_header = fields (wire_of codec ack) 0

ack-valid : frame_to_wire codec ack ≡ some (wire_of codec ack)
unfolding frame_to_wire checked_wire wire_to_frame parsed_frame object_of parse_delivery_id
    parse_delivery_rest parse_digest parse_rest parse_hex is_zero digest_string delivery_string
    valid_shape valid_ack
ack-valid = refl

ack-size : (0 < length ack_header) × (length ack_header ≤ max_header_size)
unfolding is_zero digest_string delivery_string
ack-size = (omega arith, omega arith)

read_frame-write_frame_example :
    ((write_frame codec slow ack).1 ≡ none)
    × ((rest : Bytes) → read_frame codec ((write_frame codec slow ack).0 ++ rest) ≡ ok (ack, rest))
read_frame-write_frame_example =
    read_frame-write_frame codec codec-Decodes slow slow-Healthy ack (wire_of codec ack) ack_header
      ack-valid refl ack-size.0 ack-size.1

abbrev ack_bytes : Bytes
ack_bytes = (write_frame codec slow ack).0 ++ (9 ∷ [])

ack_bytes-All : All IsByte ack_bytes
unfolding write_frame write_found wire_parts header_parts write_parts write_all frame_to_wire
    checked_wire wire_to_frame parsed_frame object_of parse_delivery_id parse_delivery_rest
    parse_digest parse_rest parse_hex is_zero digest_string delivery_string valid_shape valid_ack
ack_bytes-All = all_bytes-All ack_bytes refl

write_frame-read_frame_example :
    ((write_frame codec slow ack).0 ++ (9 ∷ []) ≡ ack_bytes)
    × ((write_frame codec slow ack).1 ≡ none)
write_frame-read_frame_example =
    write_frame-read_frame codec slow slow-Healthy ack ack_bytes (9 ∷ []) ack_bytes-All
      (read_frame-write_frame_example.1 (9 ∷ []))

-- A delivery and its answers, with signatures of zeros.
abbrev ones_IsArray : IsArray (ones 32)
ones_IsArray = (refl, all_bytes-All (ones 32) refl)

abbrev delivery : Delivery
delivery = record {
  id = ones 32;
  envelope = ones 32;
  canonical = 0x7b ∷ 0x7d ∷ [];
  message = 1 ∷ [];
  artifacts = ones 32 ∷ [];
}

abbrev no_sign : Bytes → Bytes → Bytes
no_sign key message = zeros 64

abbrev offer : DeliveryOffer
offer = record { id = ones 32; envelope = ones 32 }

-- NewTransportACK: a receipt of zeros, with no text.
abbrev response : DeliveryResponse
response = record {
  transport_ack = true;
  receipt = record { id = zero_digest; envelope = zero_digest; canonical = []; message = [] };
  signature = [];
}

-- The frame of it is built.
ack_built : delivery_response_frame no_sign (zeros 64) offer response ≡ some ack
unfolding delivery_response_frame ack_frame complete_receipt is_zero
ack_built = refl

abbrev request : ArtifactRequest
request = record { id = ones 32; envelope = ones 32; object = ones 32 }

braces_delivery : embedded_json codec (0x7b ∷ 0x7d ∷ []) max_delivery_bytes ≡ true
unfolding embedded_json
braces_delivery = refl

built_frames_valid_example :
    Builds codec (delivery_offer_frame no_sign (zeros 64) delivery)
    × Builds codec (delivery_response_frame no_sign (zeros 64) offer response)
    × Builds codec (artifact_request_frame delivery (ones 32))
    × Builds codec (artifact_response_frame codec request (7 ∷ []))
built_frames_valid_example =
    built_frames_valid codec no_sign (zeros 64) (λ k message. refl) delivery (ones 32) offer
      response request (7 ∷ []) (ones_IsArray, ones_IsArray, ones_IsArray)
      (ones_IsArray, ones_IsArray) (ones_IsArray, ones_IsArray, ones_IsArray) braces_delivery
      (λ receipt complete. absurd (ground (arith, receipt)))
