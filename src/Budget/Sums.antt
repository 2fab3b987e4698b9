-- ===== src/Budget/Sums.antt =====
-- Sums over the attempts of a budget file, and what marking one attempt changes in them.
use mnemon.Prelude.{
  ℕ, ◌+◌, ◌≤◌, ◌<◌, ◌≡◌, refl, subst, true, ◌&&◌, String, none, some, List, [], ◌∷◌, str_eq, eq_iff,
  if◌then◌else◌, one_if, arith, Bool-cases, inl, inr,
}
use mnemon.Prelude.Int.{ℤ, pos, ◌+ℤ◌, int_laws, parts_of_eq}
use mnemon.Budget.State.{Attempt, is_open}
use mnemon.Budget.Ops.{find_open, mark}

abbrev pub open_part : String → Attempt → ℤ
open_part k a = if str_eq a.kind k && is_open a then a.reserved else pos 0

abbrev pub actual_of : Attempt → ℤ
actual_of a = elim a.actual [ none ↦ pos 0 | some cost ↦ cost ]

abbrev pub spent_part : String → Attempt → ℤ
spent_part k a = if str_eq a.kind k then actual_of a else pos 0

-- What the open attempts of a kind reserve.
abbrev pub open_sum : String → List Attempt → ℤ
open_sum k [] = pos 0
open_sum k (a ∷ rest) = open_part k a +ℤ open_sum k rest

-- What the settled attempts of a kind cost.
abbrev pub spent_sum : String → List Attempt → ℤ
spent_sum k [] = pos 0
spent_sum k (a ∷ rest) = spent_part k a +ℤ spent_sum k rest

abbrev pub kind_count : String → List Attempt → ℕ
kind_count k [] = 0
kind_count k (a ∷ rest) = one_if (str_eq a.kind k) + kind_count k rest

abbrev pub id_count : String → List Attempt → ℕ
id_count id [] = 0
id_count id (a ∷ rest) = one_if (str_eq a.id id) + id_count id rest

-- What marking the open attempt `a` of the identifier makes of the list.
pub record Marked (a : Attempt) (cost : ℤ) (l m : List Attempt) : Type 0 where
  pub opens :
      (k : String) → open_sum k l ≡ open_sum k m +ℤ (if str_eq a.kind k then a.reserved else pos 0)
  pub costs :
      (k : String) → spent_sum k m ≡ spent_sum k l +ℤ (if str_eq a.kind k then cost else pos 0)
  pub kinds : (k : String) → kind_count k m ≡ kind_count k l
  pub ids : (k : String) → id_count k m ≡ id_count k l
  pub present : 0 < kind_count a.kind l

mark-absent :
    (id : String) (cost input output : ℤ) (l : List Attempt)
    → id_count id l ≡ 0
    → mark id cost input output l ≡ l
unfolding mark
mark-absent id cost input output [] h = refl
mark-absent id cost input output (a ∷ l) h = ground (arith, mark-absent id cost input output l)

-- Marking the head of the list.
mark_head :
    (b : Attempt) (cost input output : ℤ) (l : List Attempt)
    → is_open b ≡ true
    → Marked b cost (b ∷ l) (
        record b { actual = some cost; input_tokens = some input; output_tokens = some output } ∷ l)
mark_head b cost input output l open_b = record {
  opens = λ k. elim (Bool-cases (str_eq b.kind k)) [
    | inl e ↦ rw (e, open_b) (omega int_laws)
    | inr e ↦ rw e (omega int_laws)
  ];
  costs = λ k. elim (Bool-cases (str_eq b.kind k)) [
    | inl e ↦ let unpaid : actual_of b ≡ pos 0 = ground arith in rw e (rw unpaid (omega int_laws))
    | inr e ↦ rw e (omega int_laws)
  ];
  kinds = λ k. refl;
  ids = λ k. refl;
  present = ground (arith, eq_iff b.kind b.kind);
}

mark_tail :
    (a b : Attempt) (cost : ℤ) (l m : List Attempt)
    → Marked a cost l m
    → Marked a cost (b ∷ l) (b ∷ m)
mark_tail a b cost l m ih = record {
  opens = λ k. omega (int_laws, parts_of_eq (ih.opens k));
  costs = λ k. omega (int_laws, parts_of_eq (ih.costs k));
  kinds = λ k. omega (arith, ih.kinds k);
  ids = λ k. omega (arith, ih.ids k);
  present = omega (arith, ih.present);
}

pub find_open-Marked :
    (id : String) (cost input output : ℤ) (l : List Attempt) (a : Attempt)
    → id_count id l ≤ 1
    → find_open id l ≡ some a
    → Marked a cost l (mark id cost input output l)
unfolding find_open mark
find_open-Marked id cost input output [] a h e = cc
find_open-Marked id cost input output (b ∷ l) a h e =
    elim (Bool-cases (str_eq b.id id && is_open b)) [
      | inl here ↦
          let same : b ≡ a = ground arith in
          let rest : mark id cost input output l ≡ l =
            mark-absent id cost input output l (ground arith) in
          rw (here, rest)
            (subst
              (λ (c : Attempt). Marked c cost (b ∷ l) (
                record b {
                  actual = some cost;
                  input_tokens = some input;
                  output_tokens = some output;
                }
                ∷ l))
              same (mark_head b cost input output l (ground arith)))
      | inr later ↦ rw later (
          mark_tail a b cost l (mark id cost input output l)
            (find_open-Marked id cost input output l a (ground arith) (ground arith)))
    ]
