-- ===== src/Registry/Closing.antt =====
-- The close of every entry, and of the last-held one, keeps the registry tidy.
use mnemon.Prelude.{
  ℕ, ◌+◌, ◌<◌, ◌≡◌, ◌≢◌, ◌&&◌, true, not, String, some, List, [], ◌∷◌, ◌++◌, ◌==◌, eq_iff, count,
  count-append, refl, if-cases, arith,
}
use mnemon.Prelude.Store.{Ref}
use mnemon.Prelude.Dict.{lookup, Distinct}
use mnemon.Registry.State.{Registry}
use mnemon.Registry.Ops.{remove, mark_closed, close_last, close_free, close_each}
use mnemon.Registry.Invariant.{Tidy, Tidy-counts, stays-Tidy, add_at, remove-Tidy, mark_closed-Tidy}
use mnemon.Registry.Evict.{Settled, Leaves, Leaves-refl, Leaves-trans}

-- What handing entries over to be closed makes of a registry.
abbrev pub Closes : Registry → (Ref → ℕ) → (Ref → ℕ) → Registry × List Ref → Type 0
Closes g held closes (h, victims) = Tidy h held (λ q. count q victims + closes q) × Leaves g h

mark_closed-Leaves : (r : Ref) (g : Registry) → Leaves g (mark_closed r g)
unfolding mark_closed
mark_closed-Leaves r g = record {
  limit = refl;
  closing = refl;
  next_ref = refl;
  refs = λ q. ground arith;
  key = λ q. ground arith;
  ready = λ q. ground arith;
  err = λ q. ground arith;
  gone = λ q. ground arith;
  settled = λ q. ground arith;
}

-- One more entry is handed over.
handed-Tidy :
    (r : Ref) (g : Registry) (held closes : Ref → ℕ) (victims : List Ref)
    → Tidy g held (λ q. count q victims + closes q)
    → ((g.heap r).evicted && ((g.heap r).refs == 0) && not (g.heap r).closed) ≡ true
    → Tidy (mark_closed r g) held (λ q. count q (victims ++ (r ∷ [])) + closes q)
handed-Tidy r g held closes victims t e =
    Tidy-counts (mark_closed r g) held (add_at r (λ q. count q victims + closes q)) held
      (λ q. count q (victims ++ (r ∷ [])) + closes q)
      (mark_closed-Tidy g held (λ q. count q victims + closes q) r t (ground (arith, e))
        (ground (arith, e)) (ground (arith, e)))
      (λ q. refl) (λ q. omega (arith, count-append q victims (r ∷ [])))

close_free-Closes :
    (r : Ref) (g : Registry) (held closes : Ref → ℕ)
    → Tidy g held closes
    → (g.heap r).evicted ≡ true
    → Closes g held closes (close_free r g)
unfolding close_free
close_free-Closes r g held closes t gone =
    if-cases (Closes g held closes) (((g.heap r).refs == 0) && not (g.heap r).closed)
      (mark_closed r g, r ∷ []) (g, [])
      (λ e. (
        handed-Tidy r g held closes [] (stays-Tidy g held closes t) (ground (arith, e, gone)),
        mark_closed-Leaves r g,
      ))
      (λ e. (stays-Tidy g held closes t, Leaves-refl g))

-- The entry is out of the cache, and closed if nobody holds it.
close_free-gone :
    (r : Ref) (g : Registry)
    → (((close_free r (remove r g)).0.heap r).evicted ≡ true)
      × (((close_free r (remove r g)).0.heap r).refs ≡ 0
          → ((close_free r (remove r g)).0.heap r).closed ≡ true)
unfolding close_free mark_closed remove
close_free-gone r g = ground arith

close_free-Leaves : (r : Ref) (g : Registry) → Leaves g (close_free r (remove r g)).0
unfolding close_free mark_closed remove
close_free-Leaves r g = record {
  limit = ground arith;
  closing = ground arith;
  next_ref = ground arith;
  refs = λ q. ground arith;
  key = λ q. ground arith;
  ready = λ q. ground arith;
  err = λ q. ground arith;
  gone = λ q. ground arith;
  settled = λ q. ground arith;
}

removed-evicted : (r : Ref) (g : Registry) → ((remove r g).heap r).evicted ≡ true
unfolding remove
removed-evicted r g = ground arith

module _ (held : Ref → ℕ) where
  pub close_each-Closes :
      (m : List (String × Ref)) (g : Registry) (closes : Ref → ℕ)
      → Tidy g held closes
      → Distinct m
      → ((k : String) (r : Ref) → lookup k m ≡ some r → r < g.next_ref)
      → Closes g held closes (close_each m g)
        × ((k : String) (r : Ref)
            → lookup k m ≡ some r
            → ((close_each m g).0.heap r).evicted ≡ true)
  unfolding close_each
  close_each-Closes [] g closes t d known =
      ((stays-Tidy g held closes t, Leaves-refl g), λ k r e. absurd (ground (arith, e)))
  close_each-Closes ((key, r) ∷ m) g closes t d known =
      let here : r < g.next_ref = known key r (ground (arith, eq_iff key key)) in
      let (mine, kept) =
        close_free-Closes r (remove r g) held closes (remove-Tidy g held closes r t here)
          (removed-evicted r g) in
      let h = (close_free r (remove r g)).0 in
      let left = close_free-Leaves r g in
      let (rest, gone) =
        close_each-Closes m h (λ q. count q (close_free r (remove r g)).1 + closes q) mine d.1
          (λ k q e. ground (arith, left.next_ref, known k q, e, d.0, eq_iff key k)) in
      let i = (close_each m h).0 in
      let mine = (close_free r (remove r g)).1 in
      let victims = (close_each m h).1 in
      (
        (
          Tidy-counts i held (λ q. count q victims + (count q mine + closes q)) held
              (λ q. count q (mine ++ victims) + closes q) rest.0 (λ q. refl)
              (λ q. omega (arith, count-append q mine victims)),
          Leaves-trans g h i left rest.1,
        ),
        λ k q e. ground (arith, e, eq_iff key k, gone k q, rest.1.gone r, close_free-gone r g),
      )

  -- The last of an evicted entry's holders closes it.
  pub close_last-Closes :
      (r : Ref) (g h : Registry) (victims : List Ref) (closes : Ref → ℕ)
      → Closes g held closes (h, victims)
      → ((q : Ref) → q ≢ r → Settled h q)
      → Closes g held closes (close_last r (h, victims))
        × ((q : Ref) → Settled (close_last r (h, victims)).0 q)
  unfolding close_last mark_closed
  close_last-Closes r g h victims closes (t, left) settled = (
    if-cases (Closes g held closes)
        ((h.heap r).evicted && ((h.heap r).refs == 0) && not (h.heap r).closed)
        (mark_closed r h, victims ++ (r ∷ [])) (h, victims)
        (λ e. (
          handed-Tidy r h held closes victims t e,
          Leaves-trans g h (mark_closed r h) left (mark_closed-Leaves r h),
        ))
        (λ e. (t, left)),
    λ q. ground (arith, settled q),
  )

-- What is cached does not change at it.
pub close_last-cached :
    (r : Ref) (h : Registry) (victims : List Ref)
    → ((close_last r (h, victims)).0.limit ≡ h.limit)
      × ((close_last r (h, victims)).0.entries ≡ h.entries)
      × ((close_last r (h, victims)).0.lru ≡ h.lru)
unfolding close_last mark_closed
close_last-cached r h victims =
    if-cases
      (λ (p : Registry × List Ref).
        (p.0.limit ≡ h.limit) × (p.0.entries ≡ h.entries) × (p.0.lru ≡ h.lru))
      ((h.heap r).evicted && ((h.heap r).refs == 0) && not (h.heap r).closed)
      (mark_closed r h, victims ++ (r ∷ [])) (h, victims) (λ e. (refl, refl, refl))
      (λ e. (refl, refl, refl))
