-- ===== src/Scheduler/Wakeups/Always.antt =====
-- In every state that is reached, each caller of WaitBacklog that sleeps may sleep on.
use mnemon.Prelude.{
  ℕ, ◌≤◌, ◌<◌, ◌≡◌, refl, sym, subst, true, String, Option, none, some, List, [], ◌∷◌, ◌++◌, All,
  arith, Option-cases, inl, inr,
}
use mnemon.Prelude.Int.{ℤ}
use mnemon.Prelude.Store.{Ref}
use mnemon.Prelude.Dict.{lookup}
use mnemon.Scheduler.State.{Scheduler}
use mnemon.Scheduler.Ops.{wait_round, add_waiter, wait_backlog, wait_again}
use mnemon.Scheduler.System.Defs.{
  Waiter, System, init, count_waiting, park, park_found, Step, notifies, waits, wakes, holds,
  releases, drains, starts, ends, picks, finishes, measures, Reach, here, later, sys_wait, sys_wake,
  sys_hold, sys_pick, sys_finish,
}
use mnemon.Scheduler.System.Registry.{busy}
use mnemon.Scheduler.System.Reach.{IsConsistent, Reach-IsConsistent}
use mnemon.Scheduler.Wakeups.{
  IsAsleep, Tells, IsAsleep-Tells, Sleeps, Tells-notify, Tells-hold, Tells-release, Tells-drain,
  Tells-run_start, Tells-run_end, Tells-finish, Tells-measured, Tells-next, Sleeps-wait_again,
  Sleeps-add,
}

-- The users of the waiters are known to have them.
abbrev Awaited : Scheduler → List Waiter → Type 0
Awaited s l = (r : Ref) → 0 < count_waiting r l → busy (s.heap r) ≡ true

All-Tells :
    {s t : Scheduler} (l : List Waiter)
    → Tells s t
    → Awaited s l
    → All (IsAsleep s) l
    → All (IsAsleep t) l
All-Tells [] h b a = tt
All-Tells (w ∷ l) h b a =
    (IsAsleep-Tells h (b w.ref (ground arith)) a.0, All-Tells l h (λ r e. b r (omega arith)) a.1)

All-without :
    (s : Scheduler) (before : List Waiter) (w : Waiter) (after : List Waiter)
    → All (IsAsleep s) (before ++ (w ∷ after))
    → All (IsAsleep s) (before ++ after)
All-without s [] w after a = a.1
All-without s (v ∷ before) w after a = (a.0, All-without s before w after a.1)

count_waiting-without :
    (r : Ref) (before : List Waiter) (w : Waiter) (after : List Waiter)
    → count_waiting r (before ++ after) ≤ count_waiting r (before ++ (w ∷ after))
count_waiting-without r [] w after = omega arith
count_waiting-without r (v ∷ before) w after = omega (arith, count_waiting-without r before w after)

All-park :
    (r : Ref) (now : ℕ) (limit : ℤ) (s : Scheduler) (a : Scheduler × Option ℕ) (l : List Waiter)
    → Sleeps limit r s a
    → All (IsAsleep a.0) l
    → All (IsAsleep a.0) (park r now limit a.1 l)
All-park r now limit s (t, none) l z h = h
All-park r now limit s (t, some c) l z h =
    (record { past = omega (arith, z.channel c refl); waits = λ e. z.must c refl }, h)

IsConsistent-Awaited : {x : System} → IsConsistent x → Awaited x.sched x.waiting
IsConsistent-Awaited {x} c r e = ground (arith, c.inv.counted.awaited r)

waits-All :
    (now : ℕ) (key : String) (limit : ℤ) (s : Scheduler) (l : List Waiter)
    → Awaited s l
    → All (IsAsleep s) l
    → let a = wait_backlog now key limit s in
      All (IsAsleep a.0) (park_found (lookup key s.users) now limit a.1 l)
unfolding wait_backlog
waits-All now key limit s l b h = elim (Option-cases (lookup key s.users)) [
  | inl e ↦ rw (e, wait_backlog) h
  | inr (r, e) ↦
      let z = Sleeps-add now limit r s in
      rw (e, wait_backlog)
        (All-park r now limit s (wait_round now limit r (add_waiter r s)) l z
          (All-Tells l z.tells b h))
]

pub record IsAwake (x : System) : Type 0 where
  pub asleep : All (IsAsleep x.sched) x.waiting

told :
    {x : System} {t : Scheduler}
    → IsConsistent x
    → IsAwake x
    → Tells x.sched t
    → All (IsAsleep t) x.waiting
told {x} c a h = All-Tells x.waiting h (IsConsistent-Awaited c) a.asleep

Step-IsAwake : {x y : System} → Step x y → IsConsistent x → IsAwake x → IsAwake y
unfolding sys_wait sys_wake sys_hold sys_pick sys_finish
Step-IsAwake (notifies x now key added) c a = record {
  asleep = told c a (Tells-notify now key added x.sched);
}
Step-IsAwake (waits x now key limit) c a = record {
  asleep = waits-All now key limit x.sched x.waiting (IsConsistent-Awaited c) a.asleep;
}
Step-IsAwake (wakes x ended before w after e) c a =
    let z = Sleeps-wait_again ended w.now w.limit w.ref x.sched in
    let rest =
      All-without x.sched before w after
        (subst (λ (l : List Waiter). All (IsAsleep x.sched) l) e a.asleep) in
    let awaited : Awaited x.sched (before ++ after) = λ r h. IsConsistent-Awaited c r (
      subst (λ (l : List Waiter). 0 < count_waiting r l) (sym e)
        (omega (arith, count_waiting-without r before w after))) in
    record {
      asleep =
          All-park w.ref w.now w.limit x.sched (wait_again ended w.now w.limit w.ref x.sched)
            (before ++ after) z (All-Tells (before ++ after) z.tells awaited rest);
    }
Step-IsAwake (holds x key) c a = record {
  asleep = told c a (Tells-hold key x.sched (c.inv.registry.fresh x.sched.next_ref (omega arith)));
}
Step-IsAwake (releases x r e) c a = record { asleep = told c a (Tells-release r x.sched) }
Step-IsAwake (drains x) c a = record { asleep = told c a (Tells-drain x.sched) }
Step-IsAwake (starts x) c a = record { asleep = told c a (Tells-run_start x.sched) }
Step-IsAwake (ends x on empty) c a = record { asleep = told c a (Tells-run_end x.sched) }
Step-IsAwake (picks x now on room) c a = record { asleep = told c a (Tells-next now x.sched) }
Step-IsAwake (finishes x cut measure err now jitter r e) c a = record {
  asleep = told c a (Tells-finish cut measure err now jitter r x.sched);
}
Step-IsAwake (measures x key chars) c a = record {
  asleep = told c a (Tells-measured key chars x.sched);
}

-- No wake-up is lost: in every state that is reached, each caller of WaitBacklog that sleeps does on
-- a channel of the past, which is closed, or its user's backlog is above its limit, the user does
-- not back off, and the scheduler has neither stopped nor drains.
pub Reach-IsAwake :
    (workers max_users : ℕ) {x : System} → Reach (init workers max_users) x → IsAwake x
Reach-IsAwake workers max_users here = record { asleep = tt }
Reach-IsAwake workers max_users (later reached st) =
    Step-IsAwake st (Reach-IsConsistent workers max_users reached)
      (Reach-IsAwake workers max_users reached)
