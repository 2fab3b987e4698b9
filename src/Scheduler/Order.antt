-- ===== src/Scheduler/Order.antt =====
-- internal/aml/scheduler.go: who runs next, and when a user that backs off returns to the queue.
use mnemon.Prelude.{
  ℕ, ◌<◌, ◌≡◌, refl, ap, sym, ◌∙◌, Bool, true, false, Option, none, some, List, [], ◌∷◌, ◌++◌, leb,
  ◌==◌, if◌then◌else◌, erase, All, arith, Bool-cases, inl, inr,
}
use mathlib.Core.List.{append-nil, append_assoc}
use mnemon.Prelude.Store.{Ref, update}
use mnemon.Scheduler.State.{SchedUser, Scheduler, queued}
use mnemon.Scheduler.Locked.{
  less, enqueue_locked, retry_due_rounds, retry_due_locked, first_unheld, first_unheld_locked,
}
use mnemon.Scheduler.Ops.{Next, exits, runs, sleeps, pick, next}
use mnemon.Scheduler.System.Retries.{Before, Ordered, Ordered-keep}

-- The users of the list whose backoff has ended, and those whose has not.
abbrev pub due : (Ref → SchedUser) → ℕ → List Ref → List Ref
due heap now [] = []
due heap now (r ∷ l) =
    let rest = due heap now l in if leb (heap r).retry_at now then r ∷ rest else rest

abbrev pub not_due : (Ref → SchedUser) → ℕ → List Ref → List Ref
not_due heap now [] = []
not_due heap now (r ∷ l) =
    let rest = not_due heap now l in if leb (heap r).retry_at now then rest else r ∷ rest

-- After one that is not due, none is.
none_due :
    (heap : Ref → SchedUser) (now : ℕ) (r : Ref) (l : List Ref)
    → leb (heap r).retry_at now ≡ false
    → Before heap r l
    → (due heap now l ≡ []) × (not_due heap now l ≡ l)
unfolding less
none_due heap now r [] h b = (refl, refl)
none_due heap now r (x ∷ l) h b = ground (arith, none_due heap now r l, b.0)

due-update :
    (heap : Ref → SchedUser) (now : ℕ) (r : Ref) (u : SchedUser) (l : List Ref)
    → u.retry_at ≡ (heap r).retry_at
    → (due (update heap r u) now l ≡ due heap now l)
      × (not_due (update heap r u) now l ≡ not_due heap now l)
due-update heap now r u [] h = (refl, refl)
due-update heap now r u (x ∷ l) h = ground (arith, due-update heap now r u l h)

rounds-due :
    (l : List Ref) (now : ℕ) (s : Scheduler)
    → Ordered s.heap l
    → let t = retry_due_rounds l now s in
      (t.queue ≡ s.queue ++ due s.heap now l) × (t.retries ≡ not_due s.heap now l)
unfolding retry_due_rounds enqueue_locked
rounds-due [] now s o = (sym (append-nil s.queue), refl)
rounds-due (r ∷ rest) now s o = elim (Bool-cases (leb (s.heap r).retry_at now)) [
  | inl h ↦
      let u = record (s.heap r) { state = queued } in
      let moved = due-update s.heap now r u rest refl in
      let later =
        rounds-due rest now (enqueue_locked r (record s { retries = rest }))
          (Ordered-keep s.heap r u rest refl refl o.1) in
      rw h (
        later.0
            ∙ ap (λ (l : List Ref). (s.queue ++ r ∷ []) ++ l) moved.0
            ∙ append_assoc s.queue (r ∷ []) (due s.heap now rest),
        later.1 ∙ moved.1,
      )
  | inr h ↦
      let rest_stays = none_due s.heap now r rest h o.0 in
      rw h
        (sym (ap (◌++◌ s.queue) rest_stays.0 ∙ append-nil s.queue), sym (ap (◌∷◌ r) rest_stays.1))
]

-- When the retry heap is in order, retryDueLocked moves exactly the users whose backoff has ended
-- to the back of the queue, in the order of the heap, and leaves the others.
pub retry_due-exact :
    (now : ℕ) (s : Scheduler)
    → Ordered s.heap s.retries
    → ((retry_due_locked now s).queue ≡ s.queue ++ due s.heap now s.retries)
      × ((retry_due_locked now s).retries ≡ not_due s.heap now s.retries)
unfolding retry_due_locked
retry_due-exact now s o = rounds-due s.retries now s o

-- The first user that nobody holds, with the held ones before it.
first_unheld-split :
    (heap : Ref → SchedUser) (queue : List Ref) (r : Ref)
    → first_unheld heap queue ≡ some r
    → (before : List Ref) × (after : List Ref) × (queue ≡ before ++ (r ∷ after))
      × All (λ x. 0 < (heap x).holds) before
      × ((heap r).holds ≡ 0)
      × (erase queue r ≡ before ++ after)
unfolding first_unheld
first_unheld-split heap [] r e = cc
first_unheld-split heap (x ∷ queue) r e = elim (Bool-cases ((heap x).holds == 0)) [
  | inl free ↦
      let same : x ≡ r = ground arith in ([], queue, ground arith, tt, ground arith, ground arith)
  | inr held ↦
      let (before, after, split, all, unheld, left) =
        first_unheld-split heap queue r (ground arith) in
      (x ∷ before, after, ap (◌∷◌ x) split, (ground arith, all), unheld, ground arith)
]

holds-rounds :
    (l : List Ref) (now : ℕ) (s : Scheduler) (x : Ref)
    → ((retry_due_rounds l now s).heap x).holds ≡ (s.heap x).holds
unfolding retry_due_rounds enqueue_locked
holds-rounds [] now s x = refl
holds-rounds (r ∷ rest) now s x = elim (Bool-cases (leb (s.heap r).retry_at now)) [
  | inl h ↦
      let later = holds-rounds rest now (enqueue_locked r (record s { retries = rest })) x in
      rw h (later ∙ ground arith)
  | inr h ↦ rw h refl
]

first_unheld-same :
    (heap heap' : Ref → SchedUser) (l : List Ref)
    → ((x : Ref) → (heap' x).holds ≡ (heap x).holds)
    → first_unheld heap' l ≡ first_unheld heap l
unfolding first_unheld
first_unheld-same heap heap' [] h = refl
first_unheld-same heap heap' (x ∷ l) h = rw (h x) (rw (first_unheld-same heap heap' l h))

-- The queue that `next` looks through: what was queued, and behind it the users now due.
abbrev pub lineup : ℕ → Scheduler → List Ref
lineup now s = s.queue ++ due s.heap now s.retries

found-lineup :
    (now : ℕ) (s : Scheduler)
    → Ordered s.heap s.retries
    → first_unheld_locked (retry_due_locked now s) ≡ first_unheld s.heap (lineup now s)
unfolding first_unheld_locked retry_due_locked
found-lineup now s o =
    let t = retry_due_rounds s.retries now s in
    first_unheld-same s.heap t.heap t.queue (holds-rounds s.retries now s)
    ∙ ap (first_unheld s.heap) (retry_due-exact now s o).0

pick-runs :
    (found : Option Ref) (now : ℕ) (s : Scheduler) (r : Ref)
    → (pick found now s).1 ≡ runs r
    → (found ≡ some r) × ((pick found now s).0.queue ≡ erase s.queue r)
unfolding pick
pick-runs none now s r e = absurd (ground arith)
pick-runs (some q) now s r e =
    let same : q ≡ r = ground arith in (ap some same, ap (erase s.queue) same)

next-pick :
    (now : ℕ) (s : Scheduler)
    → s.draining ≡ false
    → let t = retry_due_locked now s in next now s ≡ pick (first_unheld_locked t) now t
unfolding next
next-pick now s d =
    ap
      (λ (b : Bool).
        if b
        then (s, exits)
        else pick (first_unheld_locked (retry_due_locked now s)) now (retry_due_locked now s))
      d

pub next-draining : (now : ℕ) (s : Scheduler) → s.draining ≡ true → next now s ≡ (s, exits)
unfolding next
next-draining now s d =
    ap
      (λ (b : Bool).
        if b
        then (s, exits)
        else pick (first_unheld_locked (retry_due_locked now s)) now (retry_due_locked now s))
      d

next-runs_first_live :
    (now : ℕ) (s : Scheduler) (r : Ref)
    → Ordered s.heap s.retries
    → (next now s).1 ≡ runs r
    → s.draining ≡ false
    → ((s.heap r).holds ≡ 0)
      × ((before : List Ref) × (after : List Ref) × (lineup now s ≡ before ++ (r ∷ after))
          × All (λ x. 0 < (s.heap x).holds) before
          × ((next now s).0.queue ≡ before ++ after))
next-runs_first_live now s r o e d =
    let t = retry_due_locked now s in
    let p = next-pick now s d in
    let (found, queue) =
      pick-runs (first_unheld_locked t) now t r (sym (ap (λ (a : Scheduler × Next). a.1) p) ∙ e) in
    let (before, after, split, all, unheld, left) =
      first_unheld-split s.heap (lineup now s) r (sym (found-lineup now s o) ∙ found) in
    (
      unheld,
      (
        before,
        after,
        split,
        all,
        ap (λ (a : Scheduler × Next). a.0.queue) p
            ∙ queue
            ∙ ap (λ (l : List Ref). erase l r) (retry_due-exact now s o).0
            ∙ left,
      ),
    )

-- When the retry heap is in order and `next` runs a user, the scheduler does not drain, no Search
-- holds the user, every user
-- before it in the line (the queue, then the users now due in the order of their retries) is held,
-- and the rest of the line keeps its order.
pub next-runs_first :
    (now : ℕ) (s : Scheduler) (r : Ref)
    → Ordered s.heap s.retries
    → (next now s).1 ≡ runs r
    → (s.draining ≡ false)
      × ((s.heap r).holds ≡ 0)
      × ((before : List Ref) × (after : List Ref) × (lineup now s ≡ before ++ (r ∷ after))
          × All (λ x. 0 < (s.heap x).holds) before
          × ((next now s).0.queue ≡ before ++ after))
next-runs_first now s r o e = elim (Bool-cases s.draining) [
  | inl d ↦ absurd (ground (arith, ap (λ (a : Scheduler × Next). a.1) (next-draining now s d)))
  | inr d ↦ let (unheld, line) = next-runs_first_live now s r o e d in (d, unheld, line)
]

all_held :
    (heap : Ref → SchedUser) (l : List Ref)
    → first_unheld heap l ≡ none
    → All (λ x. 0 < (heap x).holds) l
unfolding first_unheld
all_held heap [] e = tt
all_held heap (x ∷ l) e = (ground arith, all_held heap l (ground arith))

pick-sleeps :
    (found : Option Ref) (now wait : ℕ) (s : Scheduler)
    → (pick found now s).1 ≡ sleeps wait
    → found ≡ none
unfolding pick
pick-sleeps none now wait s e = refl
pick-sleeps (some q) now wait s e = absurd (ground arith)

-- When the retry heap is in order and `next` sleeps, though the scheduler does not drain, a Search
-- holds every user of the line.
pub next-sleeps_held :
    (now wait : ℕ) (s : Scheduler)
    → Ordered s.heap s.retries
    → s.draining ≡ false
    → (next now s).1 ≡ sleeps wait
    → All (λ x. 0 < (s.heap x).holds) (lineup now s)
next-sleeps_held now wait s o d e =
    let t = retry_due_locked now s in
    let p = next-pick now s d in
    all_held s.heap (lineup now s) (
      sym (found-lineup now s o)
      ∙ pick-sleeps (first_unheld_locked t) now wait t
          (sym (ap (λ (a : Scheduler × Next). a.1) p) ∙ e))
