-- ===== src/Registry/Evict.antt =====
-- The eviction of idle entries keeps the registry tidy, and leaves it over its limit only when
-- every entry is in use.
use mnemon.Prelude.{
  ℕ, ◌+◌, ◌≤◌, ◌<◌, ◌≡◌, true, false, List, [], ◌∷◌, ◌==◌, ltb, length, count, erase, count-append,
  count-erase, refl, ◌∙◌, arith, Bool-cases, inl, inr,
}
use mnemon.Prelude.Store.{Ref}
use mnemon.Registry.State.{Registry, backwards}
use mnemon.Registry.Ops.{remove, mark_closed, evict_each, evict}
use mnemon.Registry.Invariant.{Tidy, Tidy-counts, stays-Tidy, add_at, remove-Tidy, mark_closed-Tidy}

-- An entry that is out of the cache and free has been closed.
abbrev pub Settled : Registry → Ref → Type 0
Settled g r = (g.heap r).evicted ≡ true → (g.heap r).refs ≡ 0 → (g.heap r).closed ≡ true

-- What evictions leave alone: all of an entry but its place in the cache.
pub record Leaves (g h : Registry) : Type 0 where
  pub limit : h.limit ≡ g.limit
  pub closing : h.closing ≡ g.closing
  pub next_ref : h.next_ref ≡ g.next_ref
  pub refs : (r : Ref) → (h.heap r).refs ≡ (g.heap r).refs
  pub key : (r : Ref) → (h.heap r).key ≡ (g.heap r).key
  pub ready : (r : Ref) → (h.heap r).ready ≡ (g.heap r).ready
  pub err : (r : Ref) → (h.heap r).err ≡ (g.heap r).err
  pub gone : (r : Ref) → (g.heap r).evicted ≡ true → (h.heap r).evicted ≡ true
  pub settled : (r : Ref) → Settled g r → Settled h r

pub Leaves-refl : (g : Registry) → Leaves g g
Leaves-refl g = record {
  limit = refl;
  closing = refl;
  next_ref = refl;
  refs = λ r. refl;
  key = λ r. refl;
  ready = λ r. refl;
  err = λ r. refl;
  gone = λ r e. e;
  settled = λ r e. e;
}

pub Leaves-trans : (g h i : Registry) → Leaves g h → Leaves h i → Leaves g i
Leaves-trans g h i a b = record {
  limit = cc;
  closing = cc;
  next_ref = cc;
  refs = λ r. ground (arith, a.refs r, b.refs r);
  key = λ r. ground (arith, a.key r, b.key r);
  ready = λ r. ground (arith, a.ready r, b.ready r);
  err = λ r. ground (arith, a.err r, b.err r);
  gone = λ r e. b.gone r (a.gone r e);
  settled = λ r e. b.settled r (a.settled r e);
}

-- An idle entry is taken out and closed.
abbrev pub retire : Ref → Registry → Registry
retire r g = mark_closed r (remove r g)

pub retire-Leaves : (r : Ref) (g : Registry) → Leaves g (retire r g)
unfolding mark_closed remove
retire-Leaves r g = record {
  limit = ground arith;
  closing = ground arith;
  next_ref = ground arith;
  refs = λ q. ground arith;
  key = λ q. ground arith;
  ready = λ q. ground arith;
  err = λ q. ground arith;
  gone = λ q. ground arith;
  settled = λ q. ground arith;
}

removed-facts :
    (r : Ref) (g : Registry)
    → (((remove r g).heap r).evicted ≡ true)
      × (((remove r g).heap r).refs ≡ (g.heap r).refs)
      × (((remove r g).heap r).closed ≡ (g.heap r).closed)
unfolding remove
removed-facts r g = ground arith

pub retired-evicted : (r : Ref) (g : Registry) → ((retire r g).heap r).evicted ≡ true
unfolding mark_closed remove
retired-evicted r g = ground arith

pub retire-Tidy :
    (g : Registry) (held closes : Ref → ℕ) (r : Ref)
    → Tidy g held closes
    → r < g.next_ref
    → (g.heap r).refs ≡ 0
    → (g.heap r).closed ≡ false
    → Tidy (retire r g) held (add_at r closes)
retire-Tidy g held closes r t here free unclosed =
    let (gone, same, shut) = removed-facts r g in
    mark_closed-Tidy (remove r g) held closes r (remove-Tidy g held closes r t here) gone
      (same ∙ free) (shut ∙ unclosed)

module _ (r : Ref) (rs : List Ref) (g : Registry) where
  pub evict_each-under : ltb g.limit (length g.entries) ≡ false → evict_each (r ∷ rs) g ≡ (g, [])
  unfolding evict_each
  evict_each-under e = ground (arith, e)

  pub evict_each-busy :
      ltb g.limit (length g.entries) ≡ true
      → ((g.heap r).refs == 0) ≡ false
      → evict_each (r ∷ rs) g ≡ evict_each rs g
  unfolding evict_each
  evict_each-busy e f = ground (arith, e, f)

  pub evict_each-idle :
      ltb g.limit (length g.entries) ≡ true
      → ((g.heap r).refs == 0) ≡ true
      → evict_each (r ∷ rs) g ≡ ((evict_each rs (retire r g)).0, r ∷ (evict_each rs (retire r g)).1)
  unfolding evict_each
  evict_each-idle e f = ground (arith, e, f)

abbrev pub Evicts : Registry → (Ref → ℕ) → (Ref → ℕ) → List Ref → Registry × List Ref → Type 0
Evicts g held closes rs (h, victims) =
    Tidy h held (λ q. count q victims + closes q)
    × Leaves g h
    × ((r : Ref) → h.limit < length h.entries → 0 < count r rs → 0 < count r h.lru → 0 < held r)

module _ (r : Ref) (rs : List Ref) (g : Registry) (held closes : Ref → ℕ) (t : Tidy g held closes)
    (inside : (q : Ref) → count q (r ∷ rs) ≤ count q g.lru) where
  pub is_live : (r < g.next_ref) × ((g.heap r).evicted ≡ false)
  is_live = ground (arith, inside r, t.listed r)

  pub retired-lru : (retire r g).lru ≡ erase g.lru r
  unfolding mark_closed remove
  retired-lru = ground (arith, is_live)

  idle_inside : (q : Ref) → count q rs ≤ count q (retire r g).lru
  idle_inside q =
      rw retired-lru (ground (arith, inside q, inside r, t.listed q, count-erase q r g.lru))

  module _ (free : ((g.heap r).refs == 0) ≡ true) where
    pub idle_Tidy : Tidy (retire r g) held (add_at r closes)
    idle_Tidy =
        retire-Tidy g held closes r t is_live.0 (ground (arith, free))
          (ground (arith, t.idle r, is_live.1))

    free_step :
        Evicts (retire r g) held (add_at r closes) rs (evict_each rs (retire r g))
        → Evicts g held closes
            (r ∷ rs)
            ((evict_each rs (retire r g)).0, r ∷ (evict_each rs (retire r g)).1)
    free_step e =
        let h = (evict_each rs (retire r g)).0 in
        let victims = (evict_each rs (retire r g)).1 in
        (
          Tidy-counts h held (λ q. count q victims + add_at r closes q) held
              (λ q. count q (r ∷ victims) + closes q) e.0 (λ q. refl) (λ q. omega arith),
          Leaves-trans g (retire r g) h (retire-Leaves r g) e.1,
          λ q full here there. ground (arith, e.2 q, e.0.listed q, e.1.gone q, retired-evicted r g),
        )

pub evict_each-Evicts :
    (rs : List Ref) (g : Registry) (held closes : Ref → ℕ)
    → Tidy g held closes
    → ((r : Ref) → count r rs ≤ count r g.lru)
    → Evicts g held closes rs (evict_each rs g)
unfolding evict_each
evict_each-Evicts [] g held closes t inside =
    (stays-Tidy g held closes t, Leaves-refl g, λ r over here. absurd (omega arith))
evict_each-Evicts (r ∷ rs) g held closes t inside =
    elim (Bool-cases (ltb g.limit (length g.entries))) [
      | inl over ↦ elim (Bool-cases ((g.heap r).refs == 0)) [
        | inl free ↦ rw (evict_each-idle r rs g over free) (
            free_step r rs g held closes t inside free (
              evict_each-Evicts rs (retire r g) held (add_at r closes)
                (idle_Tidy r rs g held closes t inside free)
                (idle_inside r rs g held closes t inside)))
        | inr busy ↦ rw (evict_each-busy r rs g over busy) (
            let e : Evicts g held closes rs (evict_each rs g) =
              evict_each-Evicts rs g held closes t (λ q. omega (arith, inside q)) in
            (e.0, e.1, λ q full here there. ground (arith, e.2 q, t.refs q, busy)))
      ]
      | inr under ↦
          rw (evict_each-under r rs g under)
            (stays-Tidy g held closes t, Leaves-refl g, λ q over. absurd (ground arith))
    ]

pub count-backwards : (r : Ref) (rs : List Ref) → count r (backwards rs) ≡ count r rs
count-backwards r [] = refl
count-backwards r (q ∷ rs) =
    omega (arith, count-append r (backwards rs) (q ∷ []), count-backwards r rs)

pub evict-Evicts :
    (g : Registry) (held closes : Ref → ℕ)
    → Tidy g held closes
    → Evicts g held closes (backwards g.lru) (evict g)
unfolding evict
evict-Evicts g held closes t =
    evict_each-Evicts (backwards g.lru) g held closes t
      (λ r. omega (arith, count-backwards r g.lru))

-- Over its limit the registry holds entries in use only.
pub evict-full :
    (g : Registry) (held closes : Ref → ℕ)
    → Tidy g held closes
    → (r : Ref) → (evict g).0.limit < length (evict g).0.entries
    → 0 < count r (evict g).0.lru
    → 0 < held r
evict-full g held closes t r full here =
    let e = evict-Evicts g held closes t in
    e.2 r full
      (ground
        (arith, here, e.0.listed r, e.1.gone r, e.1.next_ref, t.listed r, count-backwards r g.lru))
      here
