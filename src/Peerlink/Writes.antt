-- ===== src/Peerlink/Writes.antt =====
-- internal/agency/peerlink/frame.go, writeAll: its loop ends, and what the stream took is what it
-- was given, up to where a call failed.
use mnemon.Prelude.{
  ℕ, zero, suc, ◌≤◌, ◌<◌, ◌≡◌, ◌≢◌, refl, sym, ap, subst, ◌∙◌, List, [], ◌∷◌, ◌++◌, length, arith,
  ◌⊎◌, inl, inr,
}
use mathlib.Core.List.{append_assoc}
use mnemon.Peerlink.Hex.{Bytes}
use mnemon.Peerlink.Streams.{
  Written, wrote, breaks, Writer, done, failed, short_write, stuck, take, drop, Sent, after_chunk,
  write_all, then_write, write_parts,
}

-- Every call takes a byte or more.
abbrev pub Healthy : Writer → Type 0
Healthy w = (calls : ℕ) (v : Bytes) → 0 < length v → (k : ℕ) × (w calls v ≡ wrote (suc k))

take-drop : (n : ℕ) (v : Bytes) → take n v ++ drop n v ≡ v
take-drop zero v = refl
take-drop (suc n) [] = refl
take-drop (suc n) (b ∷ v) = ap (λ (x : Bytes). b ∷ x) (take-drop n v)

length-drop : (n : ℕ) (v : Bytes) → length (drop n v) ≤ length v
length-drop zero v = omega arith
length-drop (suc n) [] = omega arith
length-drop (suc n) (b ∷ v) = omega (arith, length-drop n v)

Written-cases : (x : Written) → ((n : ℕ) × (x ≡ breaks n)) ⊎ ((n : ℕ) × (x ≡ wrote n))
Written-cases (breaks n) = inl (n, refl)
Written-cases (wrote n) = inr (n, refl)

abbrev pub Ends : Writer → Bytes → Sent → Type 0
Ends w v (sent, calls, end) =
    (end ≢ stuck)
    × ((rest : Bytes) × (v ≡ sent ++ rest))
    × (end ≡ done → sent ≡ v)
    × (Healthy w → end ≡ done)

chunk-Ends :
    (w : Writer) (chunk v : Bytes) (s : Sent)
    → Ends w v s
    → Ends w (chunk ++ v) (after_chunk chunk s)
chunk-Ends w chunk v (sent, calls, end) (ends, (rest, text), whole, healthy) = (
  ends,
  (rest, ap (λ (x : Bytes). chunk ++ x) text ∙ sym (append_assoc chunk sent rest)),
  λ e. ap (λ (x : Bytes). chunk ++ x) (whole e),
  healthy,
)

module _ (w : Writer) (fuel calls b : ℕ) (v : Bytes) where
  write_all-fails :
      (n : ℕ)
      → w calls (b ∷ v) ≡ breaks n
      → write_all w (suc fuel) calls (b ∷ v) ≡ (take n (b ∷ v), suc calls, failed)
  unfolding write_all
  write_all-fails n e = ground (arith, e)

  write_all-short :
      w calls (b ∷ v) ≡ wrote 0
      → write_all w (suc fuel) calls (b ∷ v) ≡ ([], suc calls, short_write)
  unfolding write_all
  write_all-short e = ground (arith, e)

  write_all-more :
      (k : ℕ)
      → w calls (b ∷ v) ≡ wrote (suc k)
      → write_all w (suc fuel) calls (b ∷ v)
        ≡ after_chunk (take (suc k) (b ∷ v)) (write_all w fuel (suc calls) (drop k v))
  unfolding write_all
  write_all-more k e = ground (arith, e)

-- With as many rounds as the value has bytes, the loop of writeAll ends: the stream took a front part
-- of the value, with what a call took before it failed, and all of it when none failed; a writer whose
-- calls take a byte or more each never fails.
pub write_all-Ends :
    (w : Writer) (fuel calls : ℕ) (v : Bytes)
    → length v ≤ fuel
    → Ends w v (write_all w fuel calls v)
unfolding write_all
write_all-Ends w fuel calls [] h = ((λ e. cc), ([], refl), (λ e. refl), (λ k. refl))
write_all-Ends w zero calls (b ∷ v) h = absurd (omega (arith, h))
write_all-Ends w (suc fuel) calls (b ∷ v) h = elim (Written-cases (w calls (b ∷ v))) [
  | inl (n, e) ↦ rw (write_all-fails w fuel calls b v n e) (
    (λ p. cc),
    (drop n (b ∷ v), sym (take-drop n (b ∷ v))),
    (λ p. absurd (ground (arith, p))),
    λ healthy. absurd (ground (arith, e, (healthy calls (b ∷ v) (omega arith)).1)),
  )
  | inr (zero, e) ↦ rw (write_all-short w fuel calls b v e) (
    (λ p. cc),
    (b ∷ v, refl),
    (λ p. absurd (ground (arith, p))),
    λ healthy. absurd (ground (arith, e, (healthy calls (b ∷ v) (omega arith)).1)),
  )
  | inr (suc k, e) ↦ rw (write_all-more w fuel calls b v k e) (
      subst
        (λ (x : Bytes).
          Ends w x (after_chunk (take (suc k) (b ∷ v)) (write_all w fuel (suc calls) (drop k v))))
        {x = take (suc k) (b ∷ v) ++ drop k v} (take-drop (suc k) (b ∷ v))
        (chunk-Ends w (take (suc k) (b ∷ v)) (drop k v) (write_all w fuel (suc calls) (drop k v))
          (write_all-Ends w fuel (suc calls) (drop k v) (omega (arith, h, length-drop k v)))))
]

abbrev pub join : List Bytes → Bytes
join [] = []
join (part ∷ parts) = part ++ join parts

then_write-done :
    (part : Bytes) (s : Sent) (next : ℕ → Sent) (whole : Bytes)
    → (s.0 ≡ part) × (s.2 ≡ done)
    → ((later : ℕ) → ((next later).0 ≡ whole) × ((next later).2 ≡ done))
    → ((then_write s next).0 ≡ part ++ whole) × ((then_write s next).2 ≡ done)
then_write-done part (sent, calls, done) next whole (a, b) rest =
    let (c, d) = rest calls in (ground (arith, a, c), d)
then_write-done part (sent, calls, failed) next whole (a, b) rest = absurd (ground (arith, b))
then_write-done part (sent, calls, short_write) next whole (a, b) rest = absurd (ground (arith, b))
then_write-done part (sent, calls, stuck) next whole (a, b) rest = absurd (ground (arith, b))

-- A healthy writer takes all the parts.
pub write_parts-Healthy :
    (w : Writer)
    → Healthy w
    → (parts : List Bytes) (calls : ℕ)
    → ((write_parts w calls parts).0 ≡ join parts) × ((write_parts w calls parts).2 ≡ done)
unfolding write_parts
write_parts-Healthy w healthy [] calls = (refl, refl)
write_parts-Healthy w healthy (part ∷ parts) calls =
    let (ends, text, whole, good) = write_all-Ends w (length part) calls part (omega arith) in
    then_write-done part (write_all w (length part) calls part) (λ later. write_parts w later parts)
      (join parts) (whole (good healthy), good healthy)
      (λ later. write_parts-Healthy w healthy parts later)
