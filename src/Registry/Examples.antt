-- ===== src/Registry/Examples.antt =====
-- internal/aml/registry.go: a registry of one open store and two users, on which the theorems are used.
use mnemon.Prelude.{
  ◌≤◌, ◌<◌, ◌≡◌, refl, true, false, String, none, some, [], ◌∷◌, ◌-◌, length, count, arith,
}
use mnemon.Prelude.Store.{Ref}
use mnemon.Prelude.Dict.{lookup}
use mnemon.Registry.State.{backwards}
use mnemon.Registry.Ops.{
  acquire, acquire_at, add_entry, remove, mark_closed, evict, evict_each, answer, release,
  close_last, close, close_each, close_free, open_stores,
}
use mnemon.Registry.System.{
  System, init, acquires, answers, releases, closes_all, Reach, here, later, sys_acquired,
  sys_answer, sys_release, sys_close,
}
use mnemon.Registry.Invariant.{Tidy, add_at, add_entry-Tidy}
use mnemon.Registry.Sound.{holders, handed, Reach-IsSound}
use mnemon.Registry.Safety.{held-open, over_limit-held, shutdown-closed}
use mnemon.Registry.Eviction.{free_ones, without_free, evict-oldest}

-- One user's request opens its store.
abbrev one : System
one = sys_acquired (acquire "a" (init 1).reg) (init 1)

one_path : Reach (init 1) one
one_path = later here (acquires (init 1) "a")

one-opening : one.opening ≡ 0 ∷ []
unfolding sys_acquired acquire acquire_at add_entry evict evict_each
one-opening = refl

held-open_example :
    (handed one 0 ≤ 1)
    × (0 < holders one 0 → ((one.reg.heap 0).closed ≡ false) × (handed one 0 ≡ 0))
    × (0 < holders one 0 → (one.reg.heap 0).ready ≡ false → 0 < count 0 one.opening)
held-open_example = held-open 1 one_path 0

-- Then another user's, so that both are in use.
abbrev both : System
both = sys_acquired (acquire "b" one.reg) one

both-open : (both.reg.limit < open_stores both.reg) × (lookup "a" both.reg.entries ≡ some 0)
unfolding sys_acquired acquire acquire_at add_entry evict evict_each open_stores
both-open = (omega arith, refl)

over_limit-held_example : 0 < holders both 0
over_limit-held_example =
    over_limit-held 1 (later one_path (acquires one "b")) both-open.0 "a" 0 both-open.1

-- The first request is done, and its store idle.
abbrev answered : System
answered = sys_answer 0 one

abbrev idle : System
idle = sys_release 0 answered

one-opens : 0 < count 0 one.opening
unfolding sys_acquired acquire acquire_at add_entry evict evict_each
one-opens = omega arith

answered-holds : 0 < count 0 answered.holds
unfolding sys_answer
answered-holds = omega arith

idle_path : Reach (init 1) idle
idle_path = later (later one_path (answers one 0 one-opens)) (releases answered 0 answered-holds)

idle-missing : lookup "b" idle.reg.entries ≡ none
unfolding sys_acquired acquire acquire_at add_entry evict evict_each sys_answer answer sys_release
    release close_last
idle-missing = refl

crowded : Tidy (add_entry "b" idle.reg) (add_at idle.reg.next_ref (holders idle)) (handed idle)
crowded =
    add_entry-Tidy idle.reg (holders idle) (handed idle) "b" (Reach-IsSound 1 idle_path).tidy
      idle-missing

evict-oldest_example :
    let g = add_entry "b" idle.reg in
    let held = add_at idle.reg.next_ref (holders idle) in
    let n = length g.entries - g.limit in
    (backwards (evict g).0.lru ≡ without_free held n (backwards g.lru))
    × ((evict g).1 ≡ free_ones held n (backwards g.lru))
evict-oldest_example =
    evict-oldest (add_entry "b" idle.reg) (add_at idle.reg.next_ref (holders idle)) (handed idle)
      crowded

-- That eviction takes the idle store.
evicted_one : (evict (add_entry "b" idle.reg)).1 ≡ 0 ∷ []
unfolding sys_acquired acquire acquire_at add_entry evict evict_each sys_answer answer sys_release
    release close_last mark_closed remove
evicted_one = refl

-- The server closes while the store is held.
abbrev shut : System
shut = sys_close (("a", 0) ∷ []) one

one-entries : one.reg.entries ≡ ("a", 0) ∷ []
unfolding sys_acquired acquire acquire_at add_entry evict evict_each
one-entries = refl

shut-closing : shut.reg.closing ≡ true
unfolding sys_acquired acquire acquire_at add_entry evict evict_each sys_close close close_each
    close_free remove
shut-closing = refl

shutdown-closed_example :
    ((key : String) → lookup key shut.reg.entries ≡ none)
    × ((r : Ref) → r < shut.reg.next_ref → holders shut r ≡ 0 → handed shut r ≡ 1)
shutdown-closed_example =
    shutdown-closed 1
      (later one_path (closes_all one (("a", 0) ∷ []) (refl, tt) (λ key. rw one-entries refl)))
      shut-closing
