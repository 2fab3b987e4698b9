-- ===== src/Registry/Invariant.antt =====
-- The registry's map, its LRU list, the entries and their holders agree; every change that its
-- operations are made of keeps it so.
use mnemon.Prelude.{
  ℕ, ◌+◌, ◌-◌, ◌≤◌, ◌<◌, ◌≡◌, ◌&&◌, true, false, not, String, none, some, [], ◌==◌, ltb, length,
  count, erase, count-erase, length-erase, one_if, eq_iff, refl, if-cases, arith,
}
use mnemon.Prelude.Store.{Ref, update}
use mnemon.Prelude.Dict.{
  lookup, delete, lookup-insert, lookup-delete, Distinct, delete-Distinct, length-delete,
  insert-Distinct, length-insert,
}
use mnemon.Registry.State.{UserEntry, Registry}
use mnemon.Registry.Ops.{set_entry, remove, mark_closed, touch, add_entry}

-- `held` counts the requests that hold an entry, `closes` how often one was handed over to be
-- closed.
pub record Tidy (g : Registry) (held closes : Ref → ℕ) : Type 0 where
  pub refs : (r : Ref) → (g.heap r).refs ≡ held r
  pub listed : (r : Ref) → count r g.lru ≡ one_if (ltb r g.next_ref && not (g.heap r).evicted)
  pub keyed :
      (r : Ref)
      → r < g.next_ref
      → (g.heap r).evicted ≡ false
      → lookup (g.heap r).key g.entries ≡ some r
  pub resolves :
      (k : String) (r : Ref)
      → lookup k g.entries ≡ some r
      → ((g.heap r).key ≡ k) × (r < g.next_ref) × ((g.heap r).evicted ≡ false)
  pub distinct : Distinct g.entries
  pub sizes : length g.entries ≡ length g.lru
  pub idle : (r : Ref) → (g.heap r).closed ≡ true → ((g.heap r).evicted ≡ true) × (held r ≡ 0)
  pub once : (r : Ref) → closes r ≡ one_if (g.heap r).closed
  pub fresh :
      (r : Ref)
      → g.next_ref ≤ r
      → ((g.heap r).refs ≡ 0) × ((g.heap r).evicted ≡ false) × ((g.heap r).closed ≡ false)

-- Counts that agree everywhere may stand for each other.
pub Tidy-counts :
    (g : Registry) (held closes held' closes' : Ref → ℕ)
    → Tidy g held closes
    → ((r : Ref) → held r ≡ held' r)
    → ((r : Ref) → closes r ≡ closes' r)
    → Tidy g held' closes'
Tidy-counts g held closes held' closes' t same same' = record {
  refs = λ r. ground (arith, t.refs r, same r);
  listed = t.listed;
  keyed = t.keyed;
  resolves = t.resolves;
  distinct = t.distinct;
  sizes = t.sizes;
  idle = λ r. ground (arith, t.idle r, same r);
  once = λ r. ground (arith, t.once r, same' r);
  fresh = t.fresh;
}

-- Nothing is handed over.
pub stays-Tidy :
    (g : Registry) (held closes : Ref → ℕ)
    → Tidy g held closes
    → Tidy g held (λ q. count q [] + closes q)
stays-Tidy g held closes t =
    Tidy-counts g held closes held (λ q. count q [] + closes q) t (λ r. refl) (λ r. omega arith)

abbrev pub add_at : Ref → (Ref → ℕ) → Ref → ℕ
add_at r f q = one_if (r == q) + f q

-- The entry leaves the map and the list.
removed-Tidy :
    (g : Registry) (held closes : Ref → ℕ) (r : Ref)
    → Tidy g held closes
    → r < g.next_ref
    → (g.heap r).evicted ≡ false
    → Tidy
        (record g {
          heap = update g.heap r (record (g.heap r) { evicted = true });
          entries = delete (g.heap r).key g.entries;
          lru = erase g.lru r;
        })
        held
        closes
removed-Tidy g held closes r t here live = record {
  refs = λ q. ground (arith, t.refs q, t.refs r);
  listed = λ q. ground (arith, t.listed q, t.listed r, count-erase q r g.lru);
  keyed = λ q. ground (
    arith,
    t.keyed q,
    t.keyed r here live,
    lookup-delete (g.heap r).key (g.heap q).key g.entries,
    eq_iff (g.heap r).key (g.heap q).key,
  );
  resolves = λ k q. ground (
    arith,
    t.resolves k q,
    t.keyed r here live,
    lookup-delete (g.heap r).key k g.entries,
    eq_iff (g.heap r).key k,
  );
  distinct = delete-Distinct (g.heap r).key g.entries t.distinct;
  sizes = ground (
    arith,
    length-delete (g.heap r).key g.entries r t.distinct (t.keyed r here live),
    length-erase r g.lru,
    t.listed r,
    t.sizes,
  );
  idle = λ q. ground (arith, t.idle q, t.idle r);
  once = λ q. ground (arith, t.once q, t.once r);
  fresh = λ q. ground (arith, t.fresh q);
}

pub remove-Tidy :
    (g : Registry) (held closes : Ref → ℕ) (r : Ref)
    → Tidy g held closes
    → r < g.next_ref
    → Tidy (remove r g) held closes
unfolding remove
remove-Tidy g held closes r t here =
    if-cases (λ (h : Registry). Tidy h held closes) (g.heap r).evicted g
      (record g {
        heap = update g.heap r (record (g.heap r) { evicted = true });
        entries = delete (g.heap r).key g.entries;
        lru = erase g.lru r;
      })
      (λ h. t) (removed-Tidy g held closes r t here)

-- An entry that is out of the cache, free and open is closed.
pub mark_closed-Tidy :
    (g : Registry) (held closes : Ref → ℕ) (r : Ref)
    → Tidy g held closes
    → (g.heap r).evicted ≡ true
    → (g.heap r).refs ≡ 0
    → (g.heap r).closed ≡ false
    → Tidy (mark_closed r g) held (add_at r closes)
unfolding mark_closed
mark_closed-Tidy g held closes r t gone free unclosed = record {
  refs = λ q. ground (arith, t.refs q, t.refs r);
  listed = λ q. ground (arith, t.listed q, t.listed r);
  keyed = λ q. ground (arith, t.keyed q);
  resolves = λ k q. ground (arith, t.resolves k q);
  distinct = t.distinct;
  sizes = t.sizes;
  idle = λ q. ground (arith, t.idle q, t.refs r);
  once = λ q. ground (arith, t.once q, t.once r);
  fresh = λ q. ground (arith, t.fresh q, t.fresh r);
}

pub touch-Tidy :
    (g : Registry) (held closes : Ref → ℕ) (r : Ref)
    → Tidy g held closes
    → r < g.next_ref
    → (g.heap r).evicted ≡ false
    → Tidy (touch r g) (add_at r held) closes
unfolding touch
touch-Tidy g held closes r t here live = record {
  refs = λ q. ground (arith, t.refs q, t.refs r);
  listed = λ q. ground (arith, t.listed q, t.listed r, count-erase q r g.lru);
  keyed = λ q. ground (arith, t.keyed q);
  resolves = λ k q. ground (arith, t.resolves k q);
  distinct = t.distinct;
  sizes = ground (arith, length-erase r g.lru, t.listed r, t.sizes);
  idle = λ q. ground (arith, t.idle q, t.idle r);
  once = λ q. ground (arith, t.once q, t.once r);
  fresh = λ q. ground (arith, t.fresh q);
}

pub add_entry-Tidy :
    (g : Registry) (held closes : Ref → ℕ) (key : String)
    → Tidy g held closes
    → lookup key g.entries ≡ none
    → Tidy (add_entry key g) (add_at g.next_ref held) closes
unfolding add_entry
add_entry-Tidy g held closes key t missing = record {
  refs = λ q. ground (arith, t.refs q, t.refs g.next_ref, t.fresh g.next_ref);
  listed = λ q. ground (arith, t.listed q, t.listed g.next_ref, t.fresh g.next_ref);
  keyed = λ q. ground (
    arith,
    t.keyed q,
    lookup-insert key (g.heap q).key g.next_ref g.entries,
    lookup-insert key key g.next_ref g.entries,
    eq_iff key key,
    eq_iff key (g.heap q).key,
  );
  resolves =
      λ k q. ground (arith, t.resolves k q, lookup-insert key k g.next_ref g.entries, eq_iff key k);
  distinct = insert-Distinct key g.next_ref g.entries t.distinct;
  sizes = ground (arith, length-insert key g.next_ref g.entries missing, t.sizes);
  idle = λ q. ground (arith, t.idle q, t.fresh g.next_ref);
  once = λ q. ground (arith, t.once q, t.once g.next_ref, t.fresh g.next_ref);
  fresh = λ q. ground (arith, t.fresh q);
}

-- A write to an entry that leaves its key, its holds and its place alone.
pub set_entry-Tidy :
    (g : Registry) (held closes : Ref → ℕ) (r : Ref) (e : UserEntry)
    → Tidy g held closes
    → e.key ≡ (g.heap r).key
    → e.refs ≡ (g.heap r).refs
    → e.evicted ≡ (g.heap r).evicted
    → e.closed ≡ (g.heap r).closed
    → Tidy (set_entry r e g) held closes
set_entry-Tidy g held closes r e t key refs evicted closed = record {
  refs = λ q. ground (arith, t.refs q);
  listed = λ q. ground (arith, t.listed q);
  keyed = λ q. ground (arith, t.keyed q);
  resolves = λ k q. ground (arith, t.resolves k q);
  distinct = t.distinct;
  sizes = t.sizes;
  idle = λ q. ground (arith, t.idle q);
  once = λ q. ground (arith, t.once q);
  fresh = λ q. ground (arith, t.fresh q);
}

-- A holder gives its hold back.
pub give_back-Tidy :
    (g : Registry) (held closes : Ref → ℕ) (r : Ref)
    → Tidy g (add_at r held) closes
    → Tidy (set_entry r (record (g.heap r) { refs = (g.heap r).refs - 1 }) g) held closes
give_back-Tidy g held closes r t = record {
  refs = λ q. ground (arith, t.refs q, t.refs r);
  listed = λ q. ground (arith, t.listed q, t.listed r);
  keyed = λ q. ground (arith, t.keyed q);
  resolves = λ k q. ground (arith, t.resolves k q);
  distinct = t.distinct;
  sizes = t.sizes;
  idle = λ q. ground (arith, t.idle q, t.idle r);
  once = λ q. ground (arith, t.once q, t.once r);
  fresh = λ q. ground (arith, t.fresh q, t.fresh r);
}
