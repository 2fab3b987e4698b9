-- ===== src/Resilience/Ring.antt =====
-- internal/memoryagent/resilience.go, retryBudget: its ring agrees with the log of all calls and retries.
use mnemon.Prelude.{
  ℕ, zero, suc, ◌+◌, ◌*◌, ◌%◌, ◌≤◌, ◌<◌, ◌≡◌, ◌⊎◌, ◌↔◌, refl, sym, subst, ◌∙◌, ap, Bool, true,
  false, List, [], ◌∷◌, ◌==◌, if◌then◌else◌, if-cases, arith, Bool-cases, inl, inr,
}
use mnemon.Prelude.Store.{update}
use mnemon.Resilience.Retries.{
  RetrySlot, RetryBudget, retry_window, empty_ring, slot, called, calls_in, retries_in, has_retry,
  allow,
}
use mnemon.Resilience.Window.{
  Entry, amount, count_at, taken_at, in_window, in_slots, Slot, slot-Slot, in_slot-amount,
  in_slots-all, amount-empty,
}

-- The rings that calls and retries make of an empty one, with the log of what was counted, the latest
-- first, under a clock that does not go back.
pub data Rings : ℕ → List Entry → RetryBudget → Type 0 where
  empty : Rings 0 [] empty_ring
  begun :
      {n : ℕ} {log : List Entry} {b : RetryBudget} (now : ℕ)
      → n ≤ now
      → Rings n log b
      → Rings now (record { second = now; retry = false } ∷ log) (called now b)
  taken :
      {n : ℕ} {log : List Entry} {b : RetryBudget} (now : ℕ)
      → n ≤ now
      → Rings n log b
      → (allow now b).0 ≡ true
      → Rings now (record { second = now; retry = true } ∷ log) (allow now b).1
  refused :
      {n : ℕ} {log : List Entry} {b : RetryBudget} (now : ℕ)
      → n ≤ now
      → Rings n log b
      → (allow now b).0 ≡ false
      → Rings now log (allow now b).1

-- Every slot of a ring agrees with the log.
abbrev Slots : RetryBudget → ℕ → List Entry → Type 0
Slots b now log = (i : ℕ) → i < 60 → Slot i (b i) now log

keep-Slot :
    (i n now : ℕ) (s : RetrySlot) (log : List Entry) → n ≤ now → Slot i s n log → Slot i s now log
keep-Slot i n now s log p h = record {
  amounts = h.amounts;
  latest = h.latest;
  past = omega (arith, p, h.past);
  place = h.place;
}

count_at-other :
    (k : Bool) (i t : ℕ) (e : Entry) (log : List Entry)
    → ((e.second % 60) == i) ≡ false
    → count_at k i t (e ∷ log) ≡ count_at k i t log
count_at-other k i t e log h = ground (arith, h)

-- An entry of another slot.
other-Slot :
    (i now : ℕ) (s : RetrySlot) (e : Entry) (log : List Entry)
    → ((e.second % 60) == i) ≡ false
    → Slot i s now log
    → Slot i s now (e ∷ log)
other-Slot i now s e log p h = record {
  amounts = λ k. h.amounts k ∙ sym (count_at-other k i s.second e log p);
  latest = (λ q. absurd (ground (arith, p)), h.latest);
  past = h.past;
  place = h.place;
}

abbrev counted : Bool → RetrySlot → RetrySlot
counted true s = record s { retries = s.retries + 1 }
counted false s = record s { calls = s.calls + 1 }

-- An entry of the slot, which is the moment's.
amount-counted :
    (now : ℕ) (k j : Bool) (s : RetrySlot) (log : List Entry)
    → s.second ≡ now
    → amount j s ≡ count_at j (now % 60) s.second log
    → amount j (counted k s)
      ≡ count_at j (now % 60) (counted k s).second (record { second = now; retry = k } ∷ log)
amount-counted now true true s log e h = ground (arith, e, h)
amount-counted now true false s log e h = ground (arith, e, h)
amount-counted now false true s log e h = ground (arith, e, h)
amount-counted now false false s log e h = ground (arith, e, h)

own-Slot :
    (now : ℕ) (k : Bool) (s : RetrySlot) (log : List Entry)
    → s.second ≡ now
    → Slot (now % 60) s now log
    → Slot (now % 60) (counted k s) now (record { second = now; retry = k } ∷ log)
own-Slot now true s log e h = record {
  amounts = λ j. amount-counted now true j s log e (h.amounts j);
  latest = (λ q. omega (arith, e), h.latest);
  past = h.past;
  place = h.place;
}
own-Slot now false s log e h = record {
  amounts = λ j. amount-counted now false j s log e (h.amounts j);
  latest = (λ q. omega (arith, e), h.latest);
  past = h.past;
  place = h.place;
}

-- Writing the moment's slot.
write-Slots :
    (now n : ℕ) (b : RetryBudget) (s : RetrySlot) (e : Entry) (log : List Entry)
    → n ≤ now
    → e.second ≡ now
    → Slots b n log
    → Slot (now % 60) s now (e ∷ log)
    → Slots (update b (now % 60) s) now (e ∷ log)
write-Slots now n b s e log p q h own i small = elim (Bool-cases ((now % 60) == i)) [
  | inl here ↦
      let same : now % 60 ≡ i = ground (arith, here) in
      rw here (subst (λ (z : ℕ). Slot z s now (e ∷ log)) same own)
  | inr other ↦ rw other (
      other-Slot i now (b i) e log (ground (arith, q, other))
        (keep-Slot i n now (b i) log p (h i small)))
]

keep-Slots :
    (now n : ℕ) (b : RetryBudget) (s : RetrySlot) (log : List Entry)
    → n ≤ now
    → Slots b n log
    → Slot (now % 60) s now log
    → Slots (update b (now % 60) s) now log
keep-Slots now n b s log p h own i small = elim (Bool-cases ((now % 60) == i)) [
  | inl here ↦
      let same : now % 60 ≡ i = ground (arith, here) in
      rw here (subst (λ (z : ℕ). Slot z s now log) same own)
  | inr other ↦ rw other (keep-Slot i n now (b i) log p (h i small))
]

called-Slots :
    (now n : ℕ) (b : RetryBudget) (log : List Entry)
    → n ≤ now
    → Slots b n log
    → Slots (called now b) now (record { second = now; retry = false } ∷ log)
unfolding called
called-Slots now n b log p h =
    let o = slot-Slot n now b log p (h (now % 60) (omega arith)) in
    write-Slots now n b _ (record { second = now; retry = false }) log p refl h
      (own-Slot now false (slot now b) log o.1 o.0)

-- What allow gives keeps the slots.
abbrev Allows : ℕ → List Entry → Bool × RetryBudget → Type 0
Allows now log x =
    (x.0 ≡ true → Slots x.1 now (record { second = now; retry = true } ∷ log))
    × (x.0 ≡ false → Slots x.1 now log)

allow-Slots :
    (now n : ℕ) (b : RetryBudget) (log : List Entry)
    → n ≤ now
    → Slots b n log
    → ((allow now b).0 ≡ true
        → Slots (allow now b).1 now (record { second = now; retry = true } ∷ log))
      × ((allow now b).0 ≡ false → Slots (allow now b).1 now log)
unfolding allow
allow-Slots now n b log p h =
    let o = slot-Slot n now b log p (h (now % 60) (omega arith)) in
    let current = slot now b in
    let at_now : RetryBudget = update b (now % retry_window) current in
    let before : Slots at_now now log = keep-Slots now n b current log p h o.0 in
    let after : RetryBudget = update at_now (now % retry_window) (counted true current) in
    if-cases (Allows now log)
      (has_retry current (calls_in retry_window now at_now) (retries_in retry_window now at_now))
      (true, after) (false, at_now)
      (λ left. (
        λ e.
            write-Slots now now at_now (counted true current)
              (record { second = now; retry = true }) log (omega arith) refl before
              (own-Slot now true current log o.1 o.0),
        λ e. absurd (ground arith),
      ))
      (λ none_left. (λ e. absurd (ground arith), λ e. before))

Rings-Slots : {now : ℕ} {log : List Entry} {b : RetryBudget} → Rings now log b → Slots b now log
Rings-Slots empty = λ i small. record {
  amounts = λ k. amount-empty k 0;
  latest = tt;
  past = omega arith;
  place = inl refl;
}
Rings-Slots (begun {n} {log} {b} now p r) = called-Slots now n b log p (Rings-Slots r)
Rings-Slots (taken {n} {log} {b} now p r e) = (allow-Slots now n b log p (Rings-Slots r)).0 e
Rings-Slots (refused {n} {log} {b} now p r e) = (allow-Slots now n b log p (Rings-Slots r)).1 e

sums-in_slots :
    (now later n : ℕ) (b : RetryBudget) (log : List Entry)
    → n ≤ 60
    → now ≤ later
    → Slots b now log
    → (calls_in n later b ≡ in_slots false n later log)
      × (retries_in n later b ≡ in_slots true n later log)
sums-in_slots now later zero b log p q h = (refl, refl)
sums-in_slots now later (suc n) b log p q h =
    let rest = sums-in_slots now later n b log (omega arith) q h in
    let own = h n (omega arith) in
    (
      omega (arith, rest.0, in_slot-amount false n later now (b n) log q own),
      omega (arith, rest.1, in_slot-amount true n later now (b n) log q own),
    )

-- Under a clock that does not go back, at any moment from the last event on, what the ring sums for its window is exactly how many calls
-- began and how many retries were taken over the last 60 seconds, however long the log.
pub window-exact :
    (now later : ℕ) (log : List Entry) (b : RetryBudget)
    → Rings now log b
    → now ≤ later
    → (calls_in retry_window later b ≡ in_window false later log)
      × (retries_in retry_window later b ≡ in_window true later log)
window-exact now later log b r p =
    let s = sums-in_slots now later 60 b log (omega arith) p (Rings-Slots r) in
    (s.0 ∙ in_slots-all false later 60 log refl, s.1 ∙ in_slots-all true later 60 log refl)

has_retry-exact :
    (current : RetrySlot) (calls retries : ℕ)
    → (has_retry current calls retries ≡ true)
      ↔ ((current.retries < 5) ⊎ (5 * (retries + 1) ≤ calls))
unfolding has_retry
has_retry-exact current calls retries = ground arith

count_at-taken : (now : ℕ) (log : List Entry) → count_at true (now % 60) now log ≡ taken_at now log
count_at-taken now [] = refl
count_at-taken now (e ∷ log) = ground (arith, count_at-taken now log)

if-first :
    (t : Bool) (x y : RetryBudget)
    → (if◌then◌else◌ {A = Bool × RetryBudget} t (true, x) (false, y)).0 ≡ t
if-first true x y = refl
if-first false x y = refl

allowed_iff :
    (t : Bool) (current : RetrySlot) (calls retries calls' retries' taken_now : ℕ)
    → t ≡ has_retry current calls retries
    → calls ≡ calls'
    → retries ≡ retries'
    → current.retries ≡ taken_now
    → (t ≡ true) ↔ ((taken_now < 5) ⊎ (5 * (retries' + 1) ≤ calls'))
allowed_iff t current calls retries calls' retries' taken_now e c r k =
    let h = has_retry-exact current calls retries in ground (arith, h)

-- After any events under a clock that does not go back, a retry is allowed exactly when fewer than five were taken in the same second, or
-- when with it the retries of the last 60 seconds are at most a fifth of the calls begun in them.
pub allow-exact :
    (n now : ℕ) (log : List Entry) (b : RetryBudget)
    → Rings n log b
    → n ≤ now
    → ((allow now b).0 ≡ true)
      ↔ ((taken_at now log < 5) ⊎ (5 * (in_window true now log + 1) ≤ in_window false now log))
unfolding allow
allow-exact n now log b r p =
    let h = Rings-Slots r in
    let o = slot-Slot n now b log p (h (now % 60) (omega arith)) in
    let current = slot now b in
    let at_now : RetryBudget = update b (now % retry_window) current in
    let sums =
      sums-in_slots now now 60 at_now log (omega arith) (omega arith)
        (keep-Slots now n b current log p h o.0) in
    let calls = sums.0 ∙ in_slots-all false now 60 log refl in
    let retries = sums.1 ∙ in_slots-all true now 60 log refl in
    allowed_iff (allow now b).0 current (calls_in retry_window now at_now)
      (retries_in retry_window now at_now) (in_window false now log) (in_window true now log)
      (taken_at now log)
      (if-first
        (has_retry current (calls_in retry_window now at_now) (retries_in retry_window now at_now))
        (update at_now (now % retry_window) (counted true current)) at_now)
      calls retries
      (o.0.amounts true
        ∙ ap (λ (t : ℕ). count_at true (now % 60) t log) o.1
        ∙ count_at-taken now log)
