-- ===== src/Registry/Eviction.antt =====
-- Which entries an eviction takes: the least recently used of the idle ones, no more than needed.
use mnemon.Prelude.{
  ℕ, zero, suc, ◌-◌, ◌≤◌, ◌<◌, ◌≡◌, true, false, List, [], ◌∷◌, ◌++◌, ◌==◌, ltb, if◌then◌else◌,
  length, length-erase, count, erase, count-append, erase-append, erase-missing, refl, sym, ◌∙◌, ap,
  arith, Bool-cases, inl, inr,
}
use mathlib.Core.List.{append_assoc, append-nil}
use mnemon.Prelude.Store.{Ref}
use mnemon.Registry.State.{Registry, backwards}
use mnemon.Registry.Ops.{evict_each, evict}
use mnemon.Registry.Invariant.{Tidy, add_at}
use mnemon.Registry.Evict.{
  retire, retire-Leaves, is_live, retired-lru, idle_Tidy, evict_each-under, evict_each-busy,
  evict_each-idle, count-backwards,
}

-- The first `n` of a list that nobody holds, and the list without them.
abbrev pub free_ones : (Ref → ℕ) → ℕ → List Ref → List Ref
free_ones held zero rs = []
free_ones held (suc n) [] = []
free_ones held (suc n) (r ∷ rs) =
    if held r == 0 then r ∷ free_ones held n rs else free_ones held (suc n) rs

abbrev pub without_free : (Ref → ℕ) → ℕ → List Ref → List Ref
without_free held zero rs = rs
without_free held (suc n) [] = []
without_free held (suc n) (r ∷ rs) =
    if held r == 0 then without_free held n rs else r ∷ without_free held (suc n) rs

backwards-erase :
    (r : Ref) (rs : List Ref) → count r rs ≤ 1 → backwards (erase rs r) ≡ erase (backwards rs) r
backwards-erase r [] one = refl
backwards-erase r (q ∷ rs) one = ground (
  arith,
  backwards-erase r rs,
  erase-append r (backwards rs) (q ∷ []),
  erase-missing r (backwards rs),
  erase-missing r rs,
  count-backwards r rs,
  append-nil (backwards rs),
)

-- Taking out the item after `front`.
backwards-drop :
    (r : Ref) (front rs lru : List Ref)
    → backwards lru ≡ front ++ (r ∷ rs)
    → count r lru ≤ 1
    → backwards (erase lru r) ≡ front ++ rs
backwards-drop r front rs lru e one = ground (
  arith,
  e,
  backwards-erase r lru one,
  erase-append r front (r ∷ rs),
  count-append r front (r ∷ rs),
  count-backwards r lru,
)

-- The lists that the loop ends with are those of the specification; `front` is the part of the
-- list that it has passed.
abbrev Takes : (Ref → ℕ) → ℕ → List Ref → List Ref → Registry × List Ref → Type 0
Takes held n front rs (h, victims) =
    (backwards h.lru ≡ front ++ without_free held n rs) × (victims ≡ free_ones held n rs)

without_free-nil : (held : Ref → ℕ) (n : ℕ) → without_free held n [] ≡ []
without_free-nil held zero = refl
without_free-nil held (suc n) = refl

free_ones-nil : (held : Ref → ℕ) (n : ℕ) → free_ones held n [] ≡ []
free_ones-nil held zero = refl
free_ones-nil held (suc n) = refl

module _ (held : Ref → ℕ) where
  module _ (r : Ref) (rs front : List Ref) (g : Registry) (closes : Ref → ℕ)
      (t : Tidy g held closes) (e : backwards g.lru ≡ front ++ (r ∷ rs)) where
    listed_once : (q : Ref) → count q (r ∷ rs) ≤ count q g.lru
    listed_once q = ground (
      arith,
      count-backwards q g.lru,
      count-append q front (r ∷ rs),
      ap (λ (l : List Ref). count q l) e,
    )

    free_Takes :
        (n : ℕ)
        → length g.entries - g.limit ≡ suc n
        → (held r == 0) ≡ true
        → Takes held n front rs (evict_each rs (retire r g))
        → Takes held
            (length g.entries - g.limit)
            front
            (r ∷ rs)
            ((evict_each rs (retire r g)).0, r ∷ (evict_each rs (retire r g)).1)
    free_Takes n m free (kept, taken) = rw m (ground (arith, free, kept, taken))

    -- The entry taken out brings the map one closer to its limit.
    excess :
        ltb g.limit (length g.entries) ≡ true
        → ((g.heap r).refs == 0) ≡ true
        → length g.entries - g.limit ≡ suc (length (retire r g).entries - (retire r g).limit)
    excess over free = ground (
      arith,
      t.sizes,
      (idle_Tidy r rs g held closes t listed_once free).sizes,
      retired-lru r rs g held closes t listed_once,
      length-erase r g.lru,
      t.listed r,
      is_live r rs g held closes t listed_once,
      (retire-Leaves r g).limit,
    )

  none_over :
      (g : Registry) → ltb g.limit (length g.entries) ≡ false → length g.entries - g.limit ≡ 0
  none_over g under = ground (arith, under)

  -- An entry in use is passed.
  busy_Takes :
      (r : Ref) (rs front : List Ref) (n : ℕ)
      → 0 < n
      → (held r == 0) ≡ false
      → (p : Registry × List Ref) → Takes held n (front ++ (r ∷ [])) rs p
      → Takes held n front (r ∷ rs) p
  busy_Takes r rs front zero over busy p takes = absurd (omega (arith, over))
  busy_Takes r rs front (suc n) over busy (h, victims) (kept, taken) =
      ground (arith, busy, kept, taken, append_assoc front (r ∷ []) (without_free held (suc n) rs))

  evict_each-Takes :
      (rs front : List Ref) (g : Registry) (closes : Ref → ℕ)
      → Tidy g held closes
      → backwards g.lru ≡ front ++ rs
      → Takes held (length g.entries - g.limit) front rs (evict_each rs g)
  unfolding evict_each
  evict_each-Takes [] front g closes t e =
      let n = length g.entries - g.limit in
      rw (without_free-nil held n, free_ones-nil held n) (e, refl)
  evict_each-Takes (r ∷ rs) front g closes t e =
      let inside = listed_once r rs front g closes t e in
      elim (Bool-cases (ltb g.limit (length g.entries))) [
        | inl over ↦ elim (Bool-cases ((g.heap r).refs == 0)) [
          | inl free ↦ rw (evict_each-idle r rs g over free) (
              free_Takes r rs front g closes t e (length (retire r g).entries - (retire r g).limit)
                (excess r rs front g closes t e over free) (ground (arith, free, t.refs r))
                (evict_each-Takes rs front (retire r g) (add_at r closes)
                  (idle_Tidy r rs g held closes t inside free)
                  (rw (retired-lru r rs g held closes t inside)
                    (backwards-drop r front rs g.lru e (ground (arith, t.listed r))))))
          | inr busy ↦ rw (evict_each-busy r rs g over busy) (
              busy_Takes r rs front (length g.entries - g.limit) (ground (arith, over))
                (ground (arith, busy, t.refs r)) (evict_each rs g)
                (evict_each-Takes rs (front ++ (r ∷ [])) g closes t
                  (e ∙ sym (append_assoc front (r ∷ []) rs))))
        ]
        | inr under ↦ rw (evict_each-under r rs g under, none_over g under) (e, refl)
      ]

-- An eviction takes exactly the least recently used of the entries that nobody holds, as many as
-- the map has over its limit or as there are; the others stay in the order of their use.
pub evict-oldest :
    (g : Registry) (held closes : Ref → ℕ)
    → Tidy g held closes
    → let n = length g.entries - g.limit in
      (backwards (evict g).0.lru ≡ without_free held n (backwards g.lru))
      × ((evict g).1 ≡ free_ones held n (backwards g.lru))
unfolding evict
evict-oldest g held closes t = evict_each-Takes held (backwards g.lru) [] g closes t refl
