-- ===== src/Prelude/Dict.antt =====
-- A Go map with string keys, as an association list; a key that is missing reads `none`.
use Prim.Native.Nat.{suc}
use Prim.Native.String.{String}
use mathlib.Core.Path.{◌≡◌, refl}
use mathlib.Core.Option.{Option, none, some}
use mathlib.Core.List.{List, [], ◌∷◌}
use native.Mathlib.Omega.{arith}
use text.Mathlib.Text.{◌==◌ as str_eq}
use text.Mathlib.TextEquality.{eq_iff}
use mnemon.Prelude.Tests.{if◌then◌else◌, if-cases}
use mnemon.Prelude.Lists.{length}

module _ {ℓ} {V : Type ℓ} where
  abbrev pub lookup : String → List (String × V) → Option V
  lookup k [] = none
  lookup k ((j, v) ∷ m) = if str_eq j k then some v else lookup k m

  abbrev pub insert : String → V → List (String × V) → List (String × V)
  insert k v [] = (k, v) ∷ []
  insert k v ((j, w) ∷ m) = if str_eq j k then (k, v) ∷ m else (j, w) ∷ insert k v m

  abbrev pub delete : String → List (String × V) → List (String × V)
  delete k [] = []
  delete k ((j, v) ∷ m) = let rest = delete k m in if str_eq j k then rest else (j, v) ∷ rest

  pub lookup-insert :
      (k j : String) (v : V) (m : List (String × V))
      → lookup j (insert k v m) ≡ (if str_eq k j then some v else lookup j m)
  lookup-insert k j v [] = refl
  lookup-insert k j v ((i, w) ∷ m) =
      ground (arith, eq_iff k j, eq_iff i k, eq_iff i j, lookup-insert k j v m)

  pub lookup-delete :
      (k j : String) (m : List (String × V))
      → lookup j (delete k m) ≡ (if str_eq k j then none else lookup j m)
  lookup-delete k j [] = ground arith
  lookup-delete k j ((i, w) ∷ m) =
      ground (arith, eq_iff k j, eq_iff i k, eq_iff i j, lookup-delete k j m)

  -- No key stands twice.
  abbrev pub Distinct : List (String × V) → Type ℓ
  Distinct [] = Unit
  Distinct ((k, v) ∷ m) = (lookup k m ≡ none) × Distinct m

  pub delete-Distinct : (k : String) (m : List (String × V)) → Distinct m → Distinct (delete k m)
  delete-Distinct k [] d = tt
  delete-Distinct k ((j, v) ∷ m) d =
      if-cases Distinct (str_eq j k) (delete k m) ((j, v) ∷ delete k m)
        (λ h. delete-Distinct k m d.1)
        (λ h. (ground (arith, lookup-delete k j m, d.0), delete-Distinct k m d.1))

  pub length-delete-missing :
      (k : String) (m : List (String × V)) → lookup k m ≡ none → length (delete k m) ≡ length m
  length-delete-missing k [] h = refl
  length-delete-missing k ((j, v) ∷ m) h = ground (arith, length-delete-missing k m, h)

  pub length-delete :
      (k : String) (m : List (String × V)) (v : V)
      → Distinct m
      → lookup k m ≡ some v
      → suc (length (delete k m)) ≡ length m
  length-delete k [] v d h = absurd (ground (arith, h))
  length-delete k ((j, w) ∷ m) v d h =
      ground (arith, eq_iff j k, d.0, length-delete k m v d.1, length-delete-missing k m)

  pub insert-Distinct :
      (k : String) (v : V) (m : List (String × V)) → Distinct m → Distinct (insert k v m)
  insert-Distinct k v [] d = (refl, tt)
  insert-Distinct k v ((j, w) ∷ m) d =
      if-cases Distinct (str_eq j k) ((k, v) ∷ m) ((j, w) ∷ insert k v m)
        (λ h. (ground (arith, eq_iff j k, d.0), d.1))
        (λ h. (
          ground (arith, eq_iff k j, eq_iff j k, lookup-insert k j v m, d.0),
          insert-Distinct k v m d.1,
        ))

  pub length-insert :
      (k : String) (v : V) (m : List (String × V))
      → lookup k m ≡ none
      → length (insert k v m) ≡ suc (length m)
  length-insert k v [] h = refl
  length-insert k v ((j, w) ∷ m) h = ground (arith, length-insert k v m, h)
