-- ===== src/Prelude/Lists.antt =====
-- Lists counted and measured by native numbers.
use Prim.Native.Nat.{ℕ, suc, ◌+◌, ◌<◌}
use mathlib.Core.Path.{◌≡◌, refl}
use mathlib.Core.List.{List, [], ◌∷◌, ◌++◌}
use native.Mathlib.Omega.{arith}
use mnemon.Prelude.Tests.{◌==◌, if◌then◌else◌, one_if}

module _ {ℓ} {A : Type ℓ} where
  abbrev pub length : List A → ℕ
  length [] = 0
  length (x ∷ xs) = suc (length xs)

  pub length-append : (xs ys : List A) → length (xs ++ ys) ≡ length xs + length ys
  length-append [] ys = omega arith
  length-append (x ∷ xs) ys = omega (arith, length-append xs ys)

  -- A property of every item.
  abbrev pub All {κ} : (A → Type κ) → List A → Type κ
  All P [] = Unit
  All P (x ∷ xs) = P x × All P xs

-- How often a number stands in a list.
abbrev pub count : ℕ → List ℕ → ℕ
count r [] = 0
count r (x ∷ xs) = one_if (x == r) + count r xs

-- The list without the first place of a number.
abbrev pub erase : List ℕ → ℕ → List ℕ
erase [] r = []
erase (x ∷ xs) r = if x == r then xs else x ∷ erase xs r

pub count-append : (r : ℕ) (xs ys : List ℕ) → count r (xs ++ ys) ≡ count r xs + count r ys
count-append r [] ys = omega arith
count-append r (x ∷ xs) ys = omega (arith, count-append r xs ys)

pub count-erase :
    (r y : ℕ) (xs : List ℕ) → 0 < count y xs → count r (erase xs y) + one_if (y == r) ≡ count r xs
count-erase r y [] h = absurd (omega arith)
count-erase r y (x ∷ xs) h = ground (arith, count-erase r y xs)

pub length-erase : (r : ℕ) (xs : List ℕ) → 0 < count r xs → length (erase xs r) + 1 ≡ length xs
length-erase r [] h = absurd (omega arith)
length-erase r (x ∷ xs) h = ground (arith, length-erase r xs)

pub erase-append :
    (r : ℕ) (xs ys : List ℕ)
    → erase (xs ++ ys) r ≡ (if count r xs == 0 then xs ++ erase ys r else erase xs r ++ ys)
erase-append r [] ys = refl
erase-append r (x ∷ xs) ys = ground (arith, erase-append r xs ys)

pub erase-missing : (r : ℕ) (xs : List ℕ) → count r xs ≡ 0 → erase xs r ≡ xs
erase-missing r [] h = refl
erase-missing r (x ∷ xs) h = ground (arith, erase-missing r xs)
