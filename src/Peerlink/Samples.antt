-- ===== src/Peerlink/Samples.antt =====
-- internal/agency/peerlink/frame.go: a codec that decodes what it makes, for the examples.
use mnemon.Prelude.{
  ℕ, zero, suc, ◌≡◌, refl, subst, Bool, true, false, ◌&&◌, Option, none, some, [], ◌∷◌, ◌++◌, ltb,
  if◌then◌else◌, length, All, arith, guarded,
}
use mnemon.Prelude.Int.{ℤ, pos, negsuc}
use mnemon.Peerlink.Hex.{Bytes, IsByte}
use mnemon.Peerlink.Frames.{
  FrameType, delivery_offer, transport_ack, admission_receipt, artifact_request, artifact_response,
  unknown, FrameWire, Codec,
}
use mnemon.Peerlink.Shapes.{wire_to_frame-size}
use mnemon.Peerlink.Streams.{read_full}
use mnemon.Peerlink.Roundtrip.{Decodes, read_full-append}

abbrev pub ones : ℕ → Bytes
ones zero = []
ones (suc n) = 1 ∷ ones n

-- A codec that writes each field after its length.
abbrev pub field : Bytes → Bytes → Bytes
field x rest = length x ∷ (x ++ rest)

abbrev pub code : FrameType → ℕ
code delivery_offer = 0
code transport_ack = 1
code admission_receipt = 2
code artifact_request = 3
code artifact_response = 4
code (unknown text) = 5

abbrev pub is_known : FrameType → Bool
is_known (unknown text) = false
is_known _ = true

abbrev pub kind_of : ℕ → FrameType
kind_of zero = delivery_offer
kind_of (suc zero) = transport_ack
kind_of (suc (suc zero)) = admission_receipt
kind_of (suc (suc (suc zero))) = artifact_request
kind_of (suc (suc (suc (suc n)))) = artifact_response

kind_of-code : (k : FrameType) → is_known k ≡ true → kind_of (code k) ≡ k
kind_of-code delivery_offer h = refl
kind_of-code transport_ack h = refl
kind_of-code admission_receipt h = refl
kind_of-code artifact_request h = refl
kind_of-code artifact_response h = refl
kind_of-code (unknown text) h = absurd (ground (arith, h))

abbrev pub fields : FrameWire → ℕ → Bytes
fields wire n =
    wire.version
    ∷ (code wire.kind
        ∷ field wire.delivery_id (
            field wire.envelope_digest
              (field wire.object_digest (field wire.canonical (field wire.signature (n ∷ []))))))

abbrev pub encode_as : FrameWire → ℤ → Option Bytes
encode_as wire (pos n) = if is_known wire.kind then some (fields wire n) else none
encode_as wire (negsuc n) = none

unfoldable pub take_field : Bytes → Option (Bytes × Bytes)
take_field [] = none
take_field (n ∷ s) = read_full n s

abbrev pub next_field :
    Option (Bytes × Bytes) → (Bytes → Bytes → Option FrameWire) → Option FrameWire
next_field none next = none
next_field (some (x, s)) next = next x s

abbrev pub last_field : ℕ → ℕ → Bytes → Bytes → Bytes → Bytes → Bytes → Bytes → Option FrameWire
last_field version kind id envelope object canonical signature [] = none
last_field version kind id envelope object canonical signature (n ∷ s) = some (record {
  version = version;
  kind = kind_of kind;
  delivery_id = id;
  envelope_digest = envelope;
  object_digest = object;
  canonical = canonical;
  signature = signature;
  body_bytes = pos n;
})

unfoldable pub decode_fields : Bytes → Option FrameWire
decode_fields [] = none
decode_fields (version ∷ []) = none
decode_fields (version ∷ (kind ∷ s)) = next_field (take_field s) (λ id s1.
    next_field (take_field s1) (λ envelope s2. next_field (take_field s2) (λ object s3.
      next_field (take_field s3) (λ canonical s4.
        next_field (take_field s4)
          (λ signature s5. last_field version kind id envelope object canonical signature s5)))))

abbrev pub codec : Codec
codec = record {
  marshal = λ wire. encode_as wire wire.body_bytes;
  decode = decode_fields;
  json_valid = λ raw. true;
  json_compact = λ raw. some raw;
  utf8_valid = λ raw. true;
  sum = λ body. ones 32;
}

take_field-field : (x rest : Bytes) → take_field (field x rest) ≡ some (x, rest)
unfolding take_field
take_field-field x rest = read_full-append x rest

decode-fields :
    (wire : FrameWire) (n : ℕ)
    → is_known wire.kind ≡ true
    → wire.body_bytes ≡ pos n
    → decode_fields (fields wire n) ≡ some wire
unfolding decode_fields
decode-fields wire n known size =
    let sig = n ∷ [] in
    let can = field wire.signature sig in
    let obj = field wire.canonical can in
    let env = field wire.object_digest obj in
    let ids = field wire.envelope_digest env in
    let kind = kind_of-code wire.kind known in
    rw
      (
        take_field-field wire.delivery_id ids,
        take_field-field wire.envelope_digest env,
        take_field-field wire.object_digest obj,
        take_field-field wire.canonical can,
        take_field-field wire.signature sig,
      )
      cc

pub codec-Decodes : Decodes codec
codec-Decodes wire f header accepted made =
    let (n, size) = wire_to_frame-size codec wire f accepted in
    let (known, text) =
      guarded (is_known wire.kind) (fields wire n) header
        (subst (λ (z : ℤ). encode_as wire z ≡ some header) size made) in
    (
      refl,
      subst (λ (x : Bytes). decode_fields x ≡ some wire) text (decode-fields wire n known size),
    )

abbrev pub all_bytes : Bytes → Bool
all_bytes [] = true
all_bytes (b ∷ bs) = ltb b 256 && all_bytes bs

pub all_bytes-All : (bs : Bytes) → all_bytes bs ≡ true → All IsByte bs
all_bytes-All [] h = tt
all_bytes-All (b ∷ bs) h = (ground (arith, h), all_bytes-All bs (ground (arith, h)))
