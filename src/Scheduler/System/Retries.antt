-- ===== src/Scheduler/System/Retries.antt =====
-- The retry heap stands in the order of retryHeap's Less.
use mnemon.Prelude.{◌≡◌, true, false, List, [], ◌∷◌, ◌==◌, count, All, arith, Bool-cases, inl, inr}
use mnemon.Prelude.Store.{Ref, update}
use mnemon.Scheduler.State.{SchedUser}
use mnemon.Scheduler.Locked.{less, push_retry}

-- `x` may stand before every user of the list.
abbrev pub Before : (Ref → SchedUser) → Ref → List Ref → Type 0
Before heap x l = All (λ y. less heap y x ≡ false) l

abbrev pub Ordered : (Ref → SchedUser) → List Ref → Type 0
Ordered heap [] = Unit
Ordered heap (x ∷ l) = Before heap x l × Ordered heap l

module _ (heap : Ref → SchedUser) where
  less-asym : (x y : Ref) → less heap x y ≡ true → less heap y x ≡ false
  unfolding less
  less-asym x y h = ground arith

  le_trans : (x y z : Ref) → less heap y x ≡ false → less heap z y ≡ false → less heap z x ≡ false
  unfolding less
  le_trans x y z h k = ground arith

  Before-trans :
      (x y : Ref) (l : List Ref) → less heap y x ≡ false → Before heap y l → Before heap x l
  Before-trans x y [] h b = tt
  Before-trans x y (z ∷ l) h b = (le_trans x y z h b.0, Before-trans x y l h b.1)

  Before-push_retry :
      (x r : Ref) (l : List Ref)
      → less heap r x ≡ false
      → Before heap x l
      → Before heap x (push_retry heap r l)
  unfolding push_retry
  Before-push_retry x r [] h b = (h, tt)
  Before-push_retry x r (y ∷ l) h b = ground (arith, Before-push_retry x r l)

  pub Ordered-push_retry :
      (r : Ref) (l : List Ref) → Ordered heap l → Ordered heap (push_retry heap r l)
  unfolding push_retry
  Ordered-push_retry r [] o = (tt, tt)
  Ordered-push_retry r (y ∷ l) o = elim (Bool-cases (less heap r y)) [
    | inl h ↦ rw h ((less-asym r y h, Before-trans r y l (less-asym r y h) o.0), o)
    | inr h ↦ rw h (Before-push_retry y r l h o.0, Ordered-push_retry r l o.1)
  ]

module _ (heap : Ref → SchedUser) (r : Ref) (u : SchedUser) where
  Before-keep :
      (x : Ref) (l : List Ref)
      → u.retry_at ≡ (heap r).retry_at
      → u.seq ≡ (heap r).seq
      → Before heap x l
      → Before (update heap r u) x l
  unfolding less
  Before-keep x [] h k b = tt
  Before-keep x (y ∷ l) h k b = (ground (arith, b.0), Before-keep x l h k b.1)

  -- The user's time and number stay.
  pub Ordered-keep :
      (l : List Ref)
      → u.retry_at ≡ (heap r).retry_at
      → u.seq ≡ (heap r).seq
      → Ordered heap l
      → Ordered (update heap r u) l
  Ordered-keep [] h k o = tt
  Ordered-keep (x ∷ l) h k o = (Before-keep x l h k o.0, Ordered-keep l h k o.1)

  Before-absent :
      (x : Ref) (l : List Ref)
      → (x == r) ≡ false
      → count r l ≡ 0
      → Before heap x l
      → Before (update heap r u) x l
  unfolding less
  Before-absent x [] h k b = tt
  Before-absent x (y ∷ l) h k b = (ground (arith, b.0), Before-absent x l h (ground arith) b.1)

  -- The user does not back off.
  pub Ordered-absent : (l : List Ref) → count r l ≡ 0 → Ordered heap l → Ordered (update heap r u) l
  Ordered-absent [] k o = tt
  Ordered-absent (x ∷ l) k o =
      (Before-absent x l (ground arith) (ground arith) o.0, Ordered-absent l (ground arith) o.1)
