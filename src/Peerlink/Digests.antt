-- ===== src/Peerlink/Digests.antt =====
-- internal/agency/value.go, lines 65-91, and peer_delivery.go, lines 25-39: digests and delivery
-- identifiers, and their texts. A digest is the list of its 32 bytes.
use mnemon.Prelude.{
  ℕ, zero, suc, ◌≡◌, ◌↔◌, refl, sym, subst, ap, Bool, false, not, ◌&&◌, Option, none, some, [], ◌∷◌,
  ◌++◌, ◌==◌, if◌then◌else◌, length, All, arith, guarded,
}
use mnemon.Peerlink.Hex.{
  Bytes, IsByte, bytes_eq, bytes_eq_iff, strip, strip_iff, hex_encode, hex_decode, to_lower,
  decode-encode, lower-encode, hex_decode-Exact,
}

abbrev pub Digest : Type 0
Digest = Bytes

abbrev pub DeliveryId : Type 0
DeliveryId = Digest

abbrev pub zeros : ℕ → Bytes
zeros zero = []
zeros (suc n) = 0 ∷ zeros n

-- Digest{}, which stands for no digest.
abbrev pub zero_digest : Digest
zero_digest = zeros 32

unfoldable pub is_zero : Digest → Bool
is_zero d = bytes_eq d zero_digest

-- "sha256:"
abbrev pub digest_prefix : Bytes
digest_prefix = 0x73 ∷ 0x68 ∷ 0x61 ∷ 0x32 ∷ 0x35 ∷ 0x36 ∷ 0x3a ∷ []

-- "delivery:"
abbrev pub delivery_prefix : Bytes
delivery_prefix = 0x64 ∷ 0x65 ∷ 0x6c ∷ 0x69 ∷ 0x76 ∷ 0x65 ∷ 0x72 ∷ 0x79 ∷ 0x3a ∷ []

unfoldable pub parse_hex : Bytes → Option Bytes → Option Digest
parse_hex hex none = none
parse_hex hex (some d) =
    if (length d == 32) && bytes_eq hex (to_lower hex) && not (is_zero d) then some d else none

unfoldable pub parse_rest : Option Bytes → Option Digest
parse_rest none = none
parse_rest (some hex) = parse_hex hex (hex_decode hex)

unfoldable pub parse_digest : Bytes → Option Digest
parse_digest v = parse_rest (strip digest_prefix v)

unfoldable pub digest_string : Digest → Bytes
digest_string d = digest_prefix ++ hex_encode d

unfoldable pub parse_delivery_rest : Option Bytes → Option DeliveryId
parse_delivery_rest none = none
parse_delivery_rest (some hex) = parse_digest (digest_prefix ++ hex)

unfoldable pub parse_delivery_id : Bytes → Option DeliveryId
parse_delivery_id v = parse_delivery_rest (strip delivery_prefix v)

unfoldable pub delivery_string : DeliveryId → Bytes
delivery_string d = delivery_prefix ++ hex_encode d

-- The digests that have a text: 32 bytes, not all of them zero.
pub record IsDigest (d : Digest) : Type 0 where
  pub size : length d ≡ 32
  pub bytes : All IsByte d
  pub nonzero : is_zero d ≡ false

parse_hex-accepts :
    (hex : Bytes) (o : Option Bytes) (d : Digest)
    → parse_hex hex o ≡ some d
    → (o ≡ some d) × (length d ≡ 32) × (to_lower hex ≡ hex) × (is_zero d ≡ false)
unfolding parse_hex
parse_hex-accepts hex none d h = absurd (ground (arith, h))
parse_hex-accepts hex (some x) d h =
    let ok = (length x == 32) && bytes_eq hex (to_lower hex) && not (is_zero x) in
    let (accepted, same) = guarded ok x d h in
    subst
      (λ (y : Digest).
        (some x ≡ some y) × (length y ≡ 32) × (to_lower hex ≡ hex) × (is_zero y ≡ false))
      {x = x} same (ground (arith, accepted, bytes_eq_iff hex (to_lower hex)))

parse_hex-exact :
    (hex : Bytes) (d : Digest)
    → parse_hex hex (hex_decode hex) ≡ some d
    → (hex ≡ hex_encode d) × IsDigest d
parse_hex-exact hex d h =
    let (decoded, size, lower, nonzero) = parse_hex-accepts hex (hex_decode hex) d h in
    let exact = hex_decode-Exact hex d decoded in
    (sym (exact.1 lower), record { size = size; bytes = exact.0; nonzero = nonzero })

parse_hex-encode : (d : Digest) → IsDigest d → parse_hex (hex_encode d) (some d) ≡ some d
unfolding parse_hex
parse_hex-encode d h =
    let lower = lower-encode d h.bytes in
    rw (h.size, lower, h.nonzero, (bytes_eq_iff (hex_encode d) (hex_encode d)).1 refl) refl

parse_rest-exact :
    (o : Option Bytes) (d : Digest) → parse_rest o ≡ some d → (o ≡ some (hex_encode d)) × IsDigest d
unfolding parse_rest
parse_rest-exact none d h = absurd (ground (arith, h))
parse_rest-exact (some hex) d h =
    let (text, digest) = parse_hex-exact hex d h in (ap (λ (x : Bytes). some x) text, digest)

parse_rest-encode :
    (o : Option Bytes) (d : Digest) → IsDigest d → o ≡ some (hex_encode d) → parse_rest o ≡ some d
unfolding parse_rest
parse_rest-encode o d h e = rw (e, decode-encode d h.bytes) (parse_hex-encode d h)

-- A text parses to a digest exactly when it is that digest's own text: 32 bytes in lowercase
-- hexadecimal that are not all zero. So no two texts stand for one digest.
pub parse_digest-digest_string :
    (v : Bytes) (d : Digest) → (parse_digest v ≡ some d) ↔ ((v ≡ digest_string d) × IsDigest d)
unfolding parse_digest digest_string
parse_digest-digest_string v d = (
  λ h.
      let (text, digest) = parse_rest-exact (strip digest_prefix v) d h in
      ((strip_iff digest_prefix v (hex_encode d)).0 text, digest),
  λ h.
      parse_rest-encode (strip digest_prefix v) d h.1
        ((strip_iff digest_prefix v (hex_encode d)).1 h.0),
)

parse_delivery_rest_iff :
    (o : Option Bytes) (d : DeliveryId)
    → (parse_delivery_rest o ≡ some d) ↔ ((o ≡ some (hex_encode d)) × IsDigest d)
unfolding parse_delivery_rest digest_string
parse_delivery_rest_iff none d = (λ h. absurd (ground (arith, h)), λ h. absurd (ground (arith, h)))
parse_delivery_rest_iff (some hex) d =
    let v = digest_prefix ++ hex in
    let parsed = parse_digest-digest_string v d in
    (
      λ h. ((strip_iff digest_prefix v (hex_encode d)).1 (parsed.0 h).0, (parsed.0 h).1),
      λ h. parsed.1 ((strip_iff digest_prefix v (hex_encode d)).0 h.0, h.1),
    )

-- And so it is with delivery identifiers.
pub parse_delivery_id-delivery_string :
    (v : Bytes) (d : DeliveryId)
    → (parse_delivery_id v ≡ some d) ↔ ((v ≡ delivery_string d) × IsDigest d)
unfolding parse_delivery_id delivery_string
parse_delivery_id-delivery_string v d =
    let rest = parse_delivery_rest_iff (strip delivery_prefix v) d in
    let text = strip_iff delivery_prefix v (hex_encode d) in
    (λ h. (text.0 (rest.0 h).0, (rest.0 h).1), λ h. rest.1 (text.1 h.0, h.1))
