-- ===== src/Resilience/Window.antt =====
-- internal/memoryagent/resilience.go, retryBudget: the ring against the log of all calls and retries.
use mnemon.Prelude.{
  ℕ, zero, suc, ◌+◌, ◌-◌, ◌%◌, ◌≤◌, ◌<◌, ◌≡◌, ◌⊎◌, refl, sym, ◌∙◌, Bool, true, false, ◌&&◌, not,
  List, [], ◌∷◌, ltb, ◌==◌, if◌then◌else◌, one_if, All, arith, Bool-cases, inl, inr,
}
use mnemon.Resilience.Retries.{RetrySlot, RetryBudget, slot, counts}

-- A call begun, or a retry taken, in a second.
pub record Entry : Type 0 where
  pub second : ℕ
  pub retry : Bool

abbrev pub same_kind : Bool → Bool → Bool
same_kind true k = k
same_kind false k = not k

-- What a slot counts of a kind.
abbrev pub amount : Bool → RetrySlot → ℕ
amount true s = s.retries
amount false s = s.calls

-- The entries of a kind in one second, when the slot is the second's.
abbrev pub count_at : Bool → ℕ → ℕ → List Entry → ℕ
count_at k i t [] = 0
count_at k i t (e ∷ log) =
    one_if (same_kind k e.retry && e.second == t && (e.second % 60) == i) + count_at k i t log

-- The retries of one second.
abbrev pub taken_at : ℕ → List Entry → ℕ
taken_at t [] = 0
taken_at t (e ∷ log) = one_if (e.retry && e.second == t) + taken_at t log

-- The entries of a kind over the last minute.
abbrev pub in_window : Bool → ℕ → List Entry → ℕ
in_window k now [] = 0
in_window k now (e ∷ log) =
    one_if (same_kind k e.retry && ltb (now - e.second) 60) + in_window k now log

-- Those of one slot.
abbrev pub in_slot : Bool → ℕ → ℕ → List Entry → ℕ
in_slot k i now [] = 0
in_slot k i now (e ∷ log) =
    one_if (same_kind k e.retry && ltb (now - e.second) 60 && (e.second % 60) == i)
    + in_slot k i now log

-- Those of the first slots.
abbrev pub in_slots : Bool → ℕ → ℕ → List Entry → ℕ
in_slots k zero now log = 0
in_slots k (suc n) now log = in_slot k n now log + in_slots k n now log

abbrev pub NoLater : ℕ → ℕ → List Entry → Type 0
NoLater i t log = All (λ (e : Entry). e.second % 60 ≡ i → e.second ≤ t) log

-- What a slot says of the log.
pub record Slot (i : ℕ) (s : RetrySlot) (now : ℕ) (log : List Entry) : Type 0 where
  pub amounts : (k : Bool) → amount k s ≡ count_at k i s.second log
  pub latest : NoLater i s.second log
  pub past : s.second ≤ now
  pub place : (s.second ≡ 0) ⊎ (s.second % 60 ≡ i)

count_at-later :
    (k : Bool) (i s t : ℕ) (log : List Entry) → NoLater i s log → s < t → count_at k i t log ≡ 0
count_at-later k i s t [] h p = refl
count_at-later k i s t (e ∷ log) h p = ground (arith, h.0, count_at-later k i s t log h.1 p)

NoLater-mono : (i s t : ℕ) (log : List Entry) → s ≤ t → NoLater i s log → NoLater i t log
NoLater-mono i s t [] p h = tt
NoLater-mono i s t (e ∷ log) p h =
    (λ q. let r = h.0 q in omega (arith, p, r), NoLater-mono i s t log p h.1)

pub amount-empty : (k : Bool) (t : ℕ) → amount k (record { second = t; calls = 0; retries = 0 }) ≡ 0
amount-empty true t = refl
amount-empty false t = refl

pub slot-Slot :
    (n now : ℕ) (b : RetryBudget) (log : List Entry)
    → n ≤ now
    → Slot (now % 60) (b (now % 60)) n log
    → Slot (now % 60) (slot now b) now log × ((slot now b).second ≡ now)
unfolding slot
slot-Slot n now b log p h = elim (Bool-cases ((b (now % 60)).second == now)) [
  | inl here ↦ rw here (
    record {
      amounts = h.amounts;
      latest = h.latest;
      past = omega (arith, p, h.past);
      place = h.place;
    },
    ground (arith, here),
  )
  | inr older ↦
      let before : (b (now % 60)).second < now = ground (arith, h.past) in
      rw older (
        record {
          amounts = λ k.
              amount-empty k now
              ∙ sym (count_at-later k (now % 60) (b (now % 60)).second now log h.latest before);
          latest = NoLater-mono (now % 60) (b (now % 60)).second now log (omega arith) h.latest;
          past = omega arith;
          place = inr refl;
        },
        refl,
      )
]

in_slot-near :
    (k : Bool) (i now t : ℕ) (log : List Entry)
    → t ≤ now
    → (t ≡ 0) ⊎ (t % 60 ≡ i)
    → NoLater i t log
    → now - t < 60
    → in_slot k i now log ≡ count_at k i t log
in_slot-near k i now t [] p q h near = refl
in_slot-near k i now t (e ∷ log) p q h near =
    let same : ((ltb (now - e.second) 60 && (e.second % 60) == i)
        ≡ (e.second == t && (e.second % 60) == i)) =
      ground (arith, h.0, q) in
    ground (arith, same, in_slot-near k i now t log p q h.1 near)

in_slot-far :
    (k : Bool) (i now t : ℕ) (log : List Entry)
    → NoLater i t log
    → 60 ≤ now - t
    → in_slot k i now log ≡ 0
in_slot-far k i now t [] h far = refl
in_slot-far k i now t (e ∷ log) h far = ground (arith, h.0, in_slot-far k i now t log h.1 far)

pub in_slot-amount :
    (k : Bool) (i now n : ℕ) (s : RetrySlot) (log : List Entry)
    → n ≤ now
    → Slot i s n log
    → in_slot k i now log ≡ (if counts now s then amount k s else 0)
in_slot-amount k i now n s log p h = elim (Bool-cases (counts now s)) [
  | inl near ↦ rw near (
      in_slot-near k i now s.second log (omega (arith, p, h.past)) h.place h.latest (ground arith)
      ∙ sym (h.amounts k))
  | inr far ↦ rw far (in_slot-far k i now s.second log h.latest (ground arith))
]

slots_one :
    (k : Bool) (now n : ℕ) (e : Entry) (log : List Entry)
    → in_slots k n now (e ∷ log)
      ≡ one_if (same_kind k e.retry && ltb (now - e.second) 60 && ltb (e.second % 60) n)
        + in_slots k n now log
slots_one k now zero e log = ground arith
slots_one k now (suc n) e log = ground (arith, slots_one k now n e log)

in_slots-empty : (k : Bool) (now n : ℕ) → in_slots k n now [] ≡ 0
in_slots-empty k now zero = refl
in_slots-empty k now (suc n) = omega (arith, in_slots-empty k now n)

pub in_slots-all :
    (k : Bool) (now n : ℕ) (log : List Entry) → n ≡ 60 → in_slots k n now log ≡ in_window k now log
in_slots-all k now n [] h = in_slots-empty k now n
in_slots-all k now n (e ∷ log) h =
    ground (arith, slots_one k now n e log, in_slots-all k now n log h, h)
