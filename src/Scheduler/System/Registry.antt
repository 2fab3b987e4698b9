-- ===== src/Scheduler/System/Registry.antt =====
-- The map of users and the heap agree: a user that has work, or that a caller holds or waits on,
-- is the one that the map has for its key.
use mnemon.Prelude.{
  suc, ◌≤◌, ◌<◌, ◌≡◌, Bool, true, false, ◌||◌, not, String, none, some, List, eq_iff, ltb, arith,
}
use mnemon.Prelude.Store.{Ref, update}
use mnemon.Prelude.Dict.{lookup, insert, lookup-insert, lookup-delete}
use mnemon.Scheduler.State.{SchedUser, new_user, is_idle, Scheduler}
use mnemon.Scheduler.Locked.{forget_users}

-- The user has work, or is held or waited on.
abbrev pub busy : SchedUser → Bool
busy u = not (is_idle u.state) || ltb 0 u.holds || ltb 0 u.waiters

pub record Registered (heap : Ref → SchedUser) (users : List (String × Ref)) (next_ref : Ref)
    : Type 0 where
  pub registered : (x : Ref) → busy (heap x) ≡ true → lookup (heap x).key users ≡ some x
  pub resolves :
      (k : String) (x : Ref) → lookup k users ≡ some x → ((heap x).key ≡ k) × (x < next_ref)
  pub fresh : (x : Ref) → next_ref ≤ x → busy (heap x) ≡ false

-- A user that the map has may change in all but its key.
pub Registered-update :
    (heap : Ref → SchedUser) (users : List (String × Ref)) (n : Ref)
    → Registered heap users n
    → (r : Ref) (u : SchedUser) → lookup (heap r).key users ≡ some r
    → u.key ≡ (heap r).key
    → Registered (update heap r u) users n
Registered-update heap users n g r u here same = record {
  registered = λ x. ground (arith, g.registered x);
  resolves = λ k x. ground (arith, g.resolves k x);
  fresh = λ x. ground (arith, g.fresh x, g.resolves (heap r).key r);
}

-- Any user may change in all but its key and whether it is busy.
pub Registered-keep :
    (heap : Ref → SchedUser) (users : List (String × Ref)) (n : Ref)
    → Registered heap users n
    → (r : Ref) (u : SchedUser) → busy u ≡ busy (heap r)
    → u.key ≡ (heap r).key
    → Registered (update heap r u) users n
Registered-keep heap users n g r u work same = record {
  registered = λ x. ground (arith, g.registered x);
  resolves = λ k x. ground (arith, g.resolves k x);
  fresh = λ x. ground (arith, g.fresh x);
}

pub Registered-add :
    (heap : Ref → SchedUser) (users : List (String × Ref)) (n : Ref)
    → Registered heap users n
    → (key : String) → lookup key users ≡ none
    → Registered (update heap n (new_user key)) (insert key n users) (suc n)
Registered-add heap users n g key missing = record {
  registered = λ x. ground (
    arith,
    g.registered x,
    lookup-insert key (heap x).key n users,
    eq_iff key (heap x).key,
    g.fresh n,
  );
  resolves = λ k x. ground (arith, g.resolves k x, lookup-insert key k n users, eq_iff key k);
  fresh = λ x. ground (arith, g.fresh x);
}

pub Registered-forget :
    (s : Scheduler)
    → Registered s.heap s.users s.next_ref
    → (r : Ref) → Registered s.heap (forget_users r s) s.next_ref
unfolding forget_users
Registered-forget s g r = record {
  registered = λ x. ground (
    arith,
    g.registered x,
    lookup-delete (s.heap r).key (s.heap x).key s.users,
    eq_iff (s.heap r).key (s.heap x).key,
  );
  resolves = λ k x.
      ground
        (arith, g.resolves k x, lookup-delete (s.heap r).key k s.users, eq_iff (s.heap r).key k);
  fresh = λ x. g.fresh x;
}
