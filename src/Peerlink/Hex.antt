-- ===== src/Peerlink/Hex.antt =====
-- Go's encoding/hex, strings.HasPrefix with TrimPrefix, and the comparison of byte strings, which the
-- digests of internal/agency/value.go use. A string is the list of its bytes.
use mnemon.Prelude.{
  ℕ, ◌+◌, ◌-◌, ◌*◌, ◌/◌, ◌%◌, ◌<◌, ◌≡◌, ◌↔◌, refl, subst, ap, Bool, true, false, ◌&&◌, Option, none,
  some, List, [], ◌∷◌, ◌++◌, ◌==◌, ltb, leb, if◌then◌else◌, All, arith, Option-cases, inl, inr,
}
use mathlib.Core.List.{head-eq_of_cons-eq, tail-eq_of_cons-eq}

abbrev pub Bytes : Type 0
Bytes = List ℕ

abbrev pub IsByte : ℕ → Type 0
IsByte b = b < 256

abbrev pub bytes_eq : Bytes → Bytes → Bool
bytes_eq [] [] = true
bytes_eq [] (y ∷ ys) = false
bytes_eq (x ∷ xs) [] = false
bytes_eq (x ∷ xs) (y ∷ ys) = (x == y) && bytes_eq xs ys

pub bytes_eq_iff : (xs ys : Bytes) → (bytes_eq xs ys ≡ true) ↔ (xs ≡ ys)
bytes_eq_iff [] [] = ground arith
bytes_eq_iff [] (y ∷ ys) = ground arith
bytes_eq_iff (x ∷ xs) [] = ground arith
bytes_eq_iff (x ∷ xs) (y ∷ ys) = ground (arith, bytes_eq_iff xs ys)

-- What follows a prefix, if the string begins with it.
abbrev pub strip : Bytes → Bytes → Option Bytes
strip [] v = some v
strip (p ∷ ps) [] = none
strip (p ∷ ps) (c ∷ v) = let rest = strip ps v in if p == c then rest else none

pub strip_iff : (p v x : Bytes) → (strip p v ≡ some x) ↔ (v ≡ p ++ x)
strip_iff [] v x = ground arith
strip_iff (p ∷ ps) [] x = ground arith
strip_iff (p ∷ ps) (c ∷ v) x = ground (arith, strip_iff ps v x)

abbrev pub hex_digit : ℕ → ℕ
hex_digit n = if ltb n 10 then n + 48 else n + 87

abbrev pub hex_encode : Bytes → Bytes
hex_encode [] = []
hex_encode (b ∷ bs) = hex_digit (b / 16) ∷ hex_digit (b % 16) ∷ hex_encode bs

-- The digits of both cases.
abbrev pub hex_value : ℕ → Option ℕ
hex_value c =
    if leb 48 c && leb c 57
    then some (c - 48)
    else (if leb 97 c && leb c 102
        then some (c - 87)
        else (if leb 65 c && leb c 70 then some (c - 55) else none))

abbrev pub hex_pair : Option ℕ → Option ℕ → Option Bytes → Option Bytes
hex_pair (some hi) (some lo) (some bs) = some ((hi * 16 + lo) ∷ bs)
hex_pair (some hi) (some lo) none = none
hex_pair (some hi) none bs = none
hex_pair none lo bs = none

abbrev pub hex_decode : Bytes → Option Bytes
hex_decode [] = some []
hex_decode (c ∷ []) = none
hex_decode (c ∷ (d ∷ cs)) = hex_pair (hex_value c) (hex_value d) (hex_decode cs)

-- strings.ToLower on the bytes of hexadecimal digits.
abbrev pub to_lower : Bytes → Bytes
to_lower [] = []
to_lower (c ∷ cs) = (if leb 65 c && leb c 90 then c + 32 else c) ∷ to_lower cs

value-digit : (n : ℕ) → n < 16 → hex_value (hex_digit n) ≡ some n
value-digit n h = ground arith

pub decode-encode : (bs : Bytes) → All IsByte bs → hex_decode (hex_encode bs) ≡ some bs
decode-encode [] h = refl
decode-encode (b ∷ bs) h =
    rw
      (
        value-digit (b / 16) (omega (arith, h.0)),
        value-digit (b % 16) (omega arith),
        decode-encode bs h.1,
      )
      (ap (λ x. some (x ∷ bs)) (omega arith))

pub lower-encode : (bs : Bytes) → All IsByte bs → to_lower (hex_encode bs) ≡ hex_encode bs
lower-encode [] h = refl
lower-encode (b ∷ bs) h = ground (arith, h.0, lower-encode bs h.1)

digit-value :
    (c n : ℕ) → hex_value c ≡ some n → (n < 16) × (to_lower (c ∷ []) ≡ c ∷ [] → hex_digit n ≡ c)
digit-value c n h = ground arith

abbrev pub Exact : Bytes → Bytes → Type 0
Exact cs bs = All IsByte bs × (to_lower cs ≡ cs → hex_encode bs ≡ cs)

pair-Exact :
    (c d hi lo : ℕ) (cs rest : Bytes)
    → (hi < 16) × (to_lower (c ∷ []) ≡ c ∷ [] → hex_digit hi ≡ c)
    → (lo < 16) × (to_lower (d ∷ []) ≡ d ∷ [] → hex_digit lo ≡ d)
    → Exact cs rest
    → Exact (c ∷ (d ∷ cs)) ((hi * 16 + lo) ∷ rest)
pair-Exact c d hi lo cs rest first second tail =
    let high : (hi * 16 + lo) / 16 ≡ hi = omega (arith, first.0, second.0) in
    let low : (hi * 16 + lo) % 16 ≡ lo = omega (arith, first.0, second.0) in
    (
      (omega (arith, first.0, second.0), tail.0),
      λ same. rw (high, low) (ground (arith, same, first.1, second.1, tail.1)),
    )

-- A digest text that decodes is made of bytes, and is their encoding if it is in lower case.
pub hex_decode-Exact : (cs bs : Bytes) → hex_decode cs ≡ some bs → Exact cs bs
hex_decode-Exact [] bs h = ground arith
hex_decode-Exact (c ∷ []) bs h = absurd (ground (arith, h))
hex_decode-Exact (c ∷ (d ∷ cs)) bs h = elim (Option-cases (hex_value c)) [
  | inl e ↦ absurd (ground (arith, h, e))
  | inr (hi, e) ↦ elim (Option-cases (hex_value d)) [
    | inl f ↦ absurd (ground (arith, h, e, f))
    | inr (lo, f) ↦ elim (Option-cases (hex_decode cs)) [
      | inl g ↦ absurd (ground (arith, h, e, f, g))
      | inr (rest, g) ↦
          subst (λ (x : Bytes). Exact (c ∷ (d ∷ cs)) x) {x = (hi * 16 + lo) ∷ rest}
            (ground (arith, h, e, f, g))
            (pair-Exact c d hi lo cs rest (digit-value c hi e) (digit-value d lo f)
              (hex_decode-Exact cs rest g))
    ]
  ]
]

digit-injective : (a b : ℕ) → hex_digit a ≡ hex_digit b → a ≡ b
digit-injective a b h = ground arith

-- Two strings have different texts.
pub hex_encode-injective : (xs ys : Bytes) → hex_encode xs ≡ hex_encode ys → xs ≡ ys
hex_encode-injective [] [] h = refl
hex_encode-injective [] (y ∷ ys) h = absurd (ground (arith, h))
hex_encode-injective (x ∷ xs) [] h = absurd (ground (arith, h))
hex_encode-injective (x ∷ xs) (y ∷ ys) h =
    let high : x / 16 ≡ y / 16 = digit-injective (x / 16) (y / 16) (head-eq_of_cons-eq h) in
    let low : x % 16 ≡ y % 16 =
      digit-injective (x % 16) (y % 16) (head-eq_of_cons-eq (tail-eq_of_cons-eq h)) in
    let tail : xs ≡ ys = hex_encode-injective xs ys (tail-eq_of_cons-eq (tail-eq_of_cons-eq h)) in
    let head : x ≡ y = omega (arith, high, low) in cc
