-- ===== src/Prelude/Store.antt =====
-- A store of shared objects, indexed by reference.
use Prim.Native.Nat.{ℕ}
use mnemon.Prelude.Tests.{◌==◌, if◌then◌else◌}

-- The address of an object.
abbrev pub Ref : Type 0
Ref = ℕ

-- Writing through a reference.
abbrev pub update {ℓ} : {A : Type ℓ} → (Ref → A) → Ref → A → Ref → A
update heap r a x = if r == x then a else heap x
