-- ===== src/Registry/Ops.antt =====
-- internal/aml/registry.go, lines 102-251: what the registry does under its lock. The entries that
-- a part hands over to be closed (`closeEntries`) are its second result.
use mnemon.Prelude.{
  ℕ, suc, ◌-◌, ◌&&◌, Bool, true, false, not, String, Option, none, some, List, [], ◌∷◌, ◌++◌, ◌==◌,
  if◌then◌else◌, ltb, length, erase,
}
use mnemon.Prelude.Store.{Ref, update}
use mnemon.Prelude.Dict.{lookup, insert, delete}
use mnemon.Registry.State.{UserEntry, Registry, new_entry, backwards}

abbrev pub set_entry : Ref → UserEntry → Registry → Registry
set_entry r e g = record g { heap = update g.heap r e }

unfoldable pub remove : Ref → Registry → Registry
remove r g = if (g.heap r).evicted then g else record g {
  heap = update g.heap r (record (g.heap r) { evicted = true });
  entries = delete (g.heap r).key g.entries;
  lru = erase g.lru r;
}

unfoldable pub mark_closed : Ref → Registry → Registry
mark_closed r g = set_entry r (record (g.heap r) { closed = true }) g

-- The loop of `evict`, over the list from its back.
unfoldable pub evict_each : List Ref → Registry → Registry × List Ref
evict_each [] g = (g, [])
evict_each (r ∷ rs) g = elim (ltb g.limit (length g.entries)) [
  | false ↦ (g, [])
  | true ↦ elim ((g.heap r).refs == 0) [
    | false ↦ evict_each rs g
    | true ↦ let (h, victims) = evict_each rs (mark_closed r (remove r g)) in (h, r ∷ victims)
  ]
]

unfoldable pub evict : Registry → Registry × List Ref
evict g = evict_each (backwards g.lru) g

-- An entry that a request finds: one more hold, and the front of the list.
unfoldable pub touch : Ref → Registry → Registry
touch r g = record g {
  heap = update g.heap r (record (g.heap r) { refs = suc (g.heap r).refs });
  lru = r ∷ erase g.lru r;
}

unfoldable pub add_entry : String → Registry → Registry
add_entry key g = record g {
  heap = update g.heap g.next_ref (new_entry key);
  next_ref = suc g.next_ref;
  entries = insert key g.next_ref g.entries;
  lru = g.next_ref ∷ g.lru;
}

-- How `acquire` leaves the lock: refused, with an entry it found, or with one it has to open.
pub data Acquired : Type 0 where
  refused : Acquired
  found : Ref → Acquired
  opens : Ref → Acquired

unfoldable pub acquire_at : Option Ref → String → Registry → Registry × List Ref × Acquired
acquire_at (some r) key g = (touch r g, [], found r)
acquire_at none key g = let (h, victims) = evict (add_entry key g) in (h, victims, opens g.next_ref)

unfoldable pub acquire : String → Registry → Registry × List Ref × Acquired
acquire key g = if g.closing then (g, [], refused) else acquire_at (lookup key g.entries) key g

-- The opener's lock after an open that failed.
unfoldable pub open_failed : Ref → Registry → Registry
open_failed r g = remove r (set_entry r (record (g.heap r) { err = true }) g)

-- The opener closes the entry's `ready` channel.
unfoldable pub answer : Ref → Registry → Registry
answer r g = set_entry r (record (g.heap r) { ready = true }) g

-- What a request that waits for `ready` goes on with, by whether its select took the end of its
-- context; it gives its hold back unless it goes on.
pub data Answer : Type 0 where
  waits gives_up fails goes_on : Answer

unfoldable pub awaits : Bool → UserEntry → Answer
awaits ended e =
    if ended then gives_up else (if e.ready then (if e.err then fails else goes_on) else waits)

-- The entry is closed by the last of its holders, once it is out of the cache.
unfoldable pub close_last : Ref → Registry × List Ref → Registry × List Ref
close_last r (g, victims) =
    if (g.heap r).evicted && ((g.heap r).refs == 0) && not (g.heap r).closed
    then (mark_closed r g, victims ++ (r ∷ []))
    else (g, victims)

unfoldable pub release : Ref → Registry → Registry × List Ref
release r g =
    close_last r (evict (set_entry r (record (g.heap r) { refs = (g.heap r).refs - 1 }) g))

-- An entry out of the cache is closed if nobody holds it.
unfoldable pub close_free : Ref → Registry → Registry × List Ref
close_free r g =
    if ((g.heap r).refs == 0) && not (g.heap r).closed then (mark_closed r g, r ∷ []) else (g, [])

-- The loop of `close`, over the map's pairs in some order.
unfoldable pub close_each : List (String × Ref) → Registry → Registry × List Ref
close_each [] g = (g, [])
close_each ((key, r) ∷ m) g =
    let (h, mine) = close_free r (remove r g) in
    let (i, victims) = close_each m h in (i, mine ++ victims)

unfoldable pub close : List (String × Ref) → Registry → Registry × List Ref
close order g = close_each order (record g { closing = true })

unfoldable pub cached : String → Registry → Bool
cached key g = elim (lookup key g.entries) [ none ↦ false | some r ↦ true ]

unfoldable pub open_stores : Registry → ℕ
open_stores g = length g.entries
