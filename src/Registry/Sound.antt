-- ===== src/Registry/Sound.antt =====
-- What holds of every state that the registry and its requests reach.
use mnemon.Prelude.{
  ℕ, ◌+◌, ◌-◌, ◌<◌, ◌≡◌, true, false, String, none, some, List, [], ◌∷◌, ◌++◌, count, erase,
  count-append, count-erase, length, refl, arith, Option-cases, inl, inr, if-cases,
}
use mnemon.Prelude.Store.{Ref}
use mnemon.Prelude.Dict.{lookup, Distinct, length-delete}
use mnemon.Registry.State.{Registry}
use mnemon.Registry.Ops.{
  Acquired, refused, found, set_entry, remove, touch, add_entry, evict, acquire, acquire_at,
  open_failed, answer, release, close,
}
use mnemon.Registry.Invariant.{
  Tidy, Tidy-counts, add_at, remove-Tidy, touch-Tidy, add_entry-Tidy, set_entry-Tidy,
  give_back-Tidy,
}
use mnemon.Registry.Evict.{Settled, Leaves, evict-Evicts, evict-full}
use mnemon.Registry.Closing.{close_each-Closes, close_last-Closes, close_last-cached}
use mnemon.Registry.System.{
  System, init, Step, acquires, fails, answers, releases, closes_all, Reach, here, later,
  sys_acquired, sys_answer, sys_release, sys_close,
}

-- The holds of an entry: of the request that opens it, and of the others.
abbrev pub holders : System → Ref → ℕ
holders x r = count r x.opening + count r x.holds

abbrev pub handed : System → Ref → ℕ
handed x r = count r x.closes

pub record IsSound (x : System) : Type 0 where
  pub tidy : Tidy x.reg (holders x) (handed x)
  pub settled : (r : Ref) → Settled x.reg r
  pub opener : (r : Ref) → r < x.reg.next_ref → (x.reg.heap r).ready ≡ false → 0 < count r x.opening
  pub full :
      (r : Ref) → x.reg.limit < length x.reg.entries → 0 < count r x.reg.lru → 0 < holders x r
  pub shut : (r : Ref) → x.reg.closing ≡ true → r < x.reg.next_ref → (x.reg.heap r).evicted ≡ true

init-IsSound : (limit : ℕ) → IsSound (init limit)
init-IsSound limit = record {
  tidy = record {
    refs = λ r. refl;
    listed = λ r. ground arith;
    keyed = λ r e. absurd (omega arith);
    resolves = λ k r e. cc;
    distinct = tt;
    sizes = refl;
    idle = λ r e. cc;
    once = λ r. refl;
    fresh = λ r e. (refl, refl, refl);
  };
  settled = λ r e. cc;
  full = λ r e. absurd (omega arith);
  opener = λ r e. absurd (omega arith);
  shut = λ r e. cc;
}

fails-IsSound :
    (x : System) (r : Ref)
    → 0 < count r x.opening
    → IsSound x
    → IsSound (record x { reg = open_failed r x.reg })
unfolding open_failed remove
fails-IsSound x r mine s = record {
  tidy =
      remove-Tidy (set_entry r (record (x.reg.heap r) { err = true }) x.reg) (holders x) (handed x)
        r
        (set_entry-Tidy x.reg (holders x) (handed x) r (record (x.reg.heap r) { err = true }) s.tidy
          refl refl refl refl)
        (ground (arith, s.tidy.refs r, s.tidy.fresh r));
  settled = λ q. ground (arith, s.settled q, s.tidy.refs r);
  full = λ q. ground (
    arith,
    s.full q,
    s.tidy.listed r,
    s.tidy.listed q,
    count-erase q r x.reg.lru,
    length-delete (x.reg.heap r).key x.reg.entries r s.tidy.distinct,
    s.tidy.keyed r,
    s.tidy.refs r,
    s.tidy.fresh r,
  );
  opener = λ q. ground (arith, s.opener q);
  shut = λ q. ground (arith, s.shut q);
}

answers-IsSound :
    (x : System) (r : Ref) → 0 < count r x.opening → IsSound x → IsSound (sys_answer r x)
unfolding sys_answer answer
answers-IsSound x r mine s = record {
  tidy =
      Tidy-counts (set_entry r (record (x.reg.heap r) { ready = true }) x.reg) (holders x)
        (handed x) (holders (sys_answer r x)) (handed x)
        (set_entry-Tidy x.reg (holders x) (handed x) r (record (x.reg.heap r) { ready = true })
          s.tidy refl refl refl refl)
        (λ q. omega (arith, count-erase q r x.opening, mine)) (λ q. refl);
  settled = λ q. ground (arith, s.settled q);
  full = λ q. ground (arith, s.full q, count-erase q r x.opening);
  opener = λ q. ground (arith, s.opener q, count-erase q r x.opening);
  shut = λ q. ground (arith, s.shut q);
}

-- The state that is left when entries of `g` were evicted and handed over, and others were closed.
module _ (opening holds closes victims : List Ref) (g h : Registry) where
  pub Leaves-IsSound :
      Leaves g h
      → Tidy h (λ q. count q opening + count q holds) (λ q. count q victims + count q closes)
      → ((r : Ref) → Settled h r)
      → ((r : Ref) → r < g.next_ref → (g.heap r).ready ≡ false → 0 < count r opening)
      → ((r : Ref)
          → h.limit < length h.entries
          → 0 < count r h.lru
          → 0 < count r opening + count r holds)
      → ((r : Ref) → h.closing ≡ true → r < h.next_ref → (h.heap r).evicted ≡ true)
      → IsSound (record { reg = h; opening = opening; holds = holds; closes = victims ++ closes })
  Leaves-IsSound left t settled opener full shut = record {
    tidy =
        Tidy-counts h (λ q. count q opening + count q holds) (λ q. count q victims + count q closes)
          (λ q. count q opening + count q holds) (λ q. count q (victims ++ closes)) t (λ q. refl)
          (λ q. omega (arith, count-append q victims closes));
    settled = settled;
    opener = λ q. ground (arith, opener q, left.next_ref, left.ready q);
    full = full;
    shut = shut;
  }

releases-IsSound :
    (x : System) (r : Ref) → 0 < count r x.holds → IsSound x → IsSound (sys_release r x)
unfolding sys_release release
releases-IsSound x r mine s =
    let g = set_entry r (record (x.reg.heap r) { refs = (x.reg.heap r).refs - 1 }) x.reg in
    let held : (Ref → ℕ) = λ q. count q x.opening + count q (erase x.holds r) in
    let t : Tidy g held (handed x) = give_back-Tidy x.reg held (handed x) r (
      Tidy-counts x.reg (holders x) (handed x) (add_at r held) (handed x) s.tidy
        (λ q. omega (arith, count-erase q r x.holds, mine)) (λ q. refl)) in
    let (u, left, full) = evict-Evicts g held (handed x) t in
    let (kept, settled) =
      close_last-Closes held r g (evict g).0 (evict g).1 (handed x) (u, left)
        (λ q other. left.settled q (ground (arith, other, s.settled q))) in
    let (limit, entries, lru) = close_last-cached r (evict g).0 (evict g).1 in
    Leaves-IsSound x.opening (erase x.holds r) x.closes (release r x.reg).1 g (release r x.reg).0
      kept.1 kept.0 settled (λ q. ground (arith, s.opener q))
      (λ q. rw (limit, entries, lru) (evict-full g held (handed x) t q))
      (λ q. ground (arith, s.shut q, kept.1.closing, kept.1.next_ref, kept.1.gone q))

closes-IsSound :
    (x : System) (order : List (String × Ref))
    → Distinct order
    → ((key : String) → lookup key order ≡ lookup key x.reg.entries)
    → IsSound x
    → IsSound (sys_close order x)
unfolding sys_close close
closes-IsSound x order once same s =
    let g = record x.reg { closing = true } in
    let t : Tidy g (holders x) (handed x) = record {
      refs = s.tidy.refs;
      listed = s.tidy.listed;
      keyed = s.tidy.keyed;
      resolves = s.tidy.resolves;
      distinct = s.tidy.distinct;
      sizes = s.tidy.sizes;
      idle = s.tidy.idle;
      once = s.tidy.once;
      fresh = s.tidy.fresh;
    } in
    let (kept, gone) =
      close_each-Closes (holders x) order g (handed x) t once
        (λ k r e. ground (arith, e, same k, s.tidy.resolves k r)) in
    let shut : ((q : Ref) → q < x.reg.next_ref → ((close order x.reg).0.heap q).evicted ≡ true) =
      λ q. ground (
        arith,
        kept.1.gone q,
        s.tidy.keyed q,
        same (x.reg.heap q).key,
        gone (x.reg.heap q).key q,
      ) in
    Leaves-IsSound x.opening x.holds x.closes (close order x.reg).1 g (close order x.reg).0 kept.1
      kept.0 (λ q. kept.1.settled q (s.settled q)) (λ q. ground (arith, s.opener q))
      (λ q. ground (arith, kept.0.listed q, kept.1.next_ref, shut q))
      (λ q. ground (arith, kept.1.next_ref, shut q))

module _ (x : System) (key : String) (s : IsSound x) where
  touched-IsSound :
      (r : Ref)
      → lookup key x.reg.entries ≡ some r
      → IsSound (sys_acquired (acquire_at (some r) key x.reg) x)
  unfolding sys_acquired acquire_at touch
  touched-IsSound r e =
      let known = s.tidy.resolves key r e in
      record {
        tidy =
            Tidy-counts (touch r x.reg) (add_at r (holders x)) (handed x)
              (holders (sys_acquired (touch r x.reg, [], found r) x)) (handed x)
              (touch-Tidy x.reg (holders x) (handed x) r s.tidy known.1 known.2) (λ q. omega arith)
              (λ q. refl);
        settled = λ q. ground (arith, s.settled q);
        full = λ q. ground (arith, s.full q, s.tidy.listed r, count-erase q r x.reg.lru);
        opener = λ q. ground (arith, s.opener q);
        shut = λ q. ground (arith, s.shut q);
      }

  opened-IsSound :
      lookup key x.reg.entries ≡ none
      → x.reg.closing ≡ false
      → IsSound (sys_acquired (acquire_at none key x.reg) x)
  unfolding sys_acquired acquire_at add_entry
  opened-IsSound e serving =
      let r = x.reg.next_ref in
      let g = add_entry key x.reg in
      let held : (Ref → ℕ) = λ q. count q (r ∷ x.opening) + count q x.holds in
      let t : Tidy g held (handed x) =
        Tidy-counts g (add_at r (holders x)) (handed x) held (handed x)
          (add_entry-Tidy x.reg (holders x) (handed x) key s.tidy e) (λ q. omega arith)
          (λ q. refl) in
      let (u, left, full) = evict-Evicts g held (handed x) t in
      Leaves-IsSound (r ∷ x.opening) x.holds x.closes (evict g).1 g (evict g).0 left u
        (λ q. left.settled q (ground (arith, s.settled q))) (λ q. ground (arith, s.opener q))
        (evict-full g held (handed x) t) (λ q. ground (arith, serving, left.closing))

  refused-IsSound : IsSound (sys_acquired (x.reg, [], refused) x)
  unfolding sys_acquired
  refused-IsSound = s

  acquires-IsSound : IsSound (sys_acquired (acquire key x.reg) x)
  unfolding acquire
  acquires-IsSound =
      if-cases (λ (y : Registry × List Ref × Acquired). IsSound (sys_acquired y x)) x.reg.closing
        (x.reg, [], refused) (acquire_at (lookup key x.reg.entries) key x.reg)
        (λ e. refused-IsSound)
        (λ serving. elim (Option-cases (lookup key x.reg.entries)) [
          | inl e ↦ rw e (opened-IsSound e serving)
          | inr (r, e) ↦ rw e (touched-IsSound r e)
        ])

pub Step-IsSound : {x y : System} → Step x y → IsSound x → IsSound y
Step-IsSound (acquires x key) s = acquires-IsSound x key s
Step-IsSound (fails x r mine) s = fails-IsSound x r mine s
Step-IsSound (answers x r mine) s = answers-IsSound x r mine s
Step-IsSound (releases x r mine) s = releases-IsSound x r mine s
Step-IsSound (closes_all x order once same) s = closes-IsSound x order once same s

pub Reach-IsSound : (limit : ℕ) {x : System} → Reach (init limit) x → IsSound x
Reach-IsSound limit here = init-IsSound limit
Reach-IsSound limit (later r st) = Step-IsSound st (Reach-IsSound limit r)
