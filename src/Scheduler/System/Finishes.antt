-- ===== src/Scheduler/System/Finishes.antt =====
-- `next` and `finish` keep the invariant.
use mnemon.Prelude.{
  ℕ, ◌-◌, ◌<◌, ◌≡◌, refl, Bool, true, false, Option, none, some, List, [], ◌∷◌, leb, count, erase,
  arith, length-append, length-erase, if-cases,
}
use mnemon.Prelude.Int.{ℤ}
use mnemon.Prelude.Store.{Ref, update}
use mnemon.Prelude.Dict.{lookup}
use mnemon.Scheduler.State.{SchedUser, idle, queued, Scheduler, JobError}
use mnemon.Scheduler.Locked.{enqueue_locked, retry_due_rounds, first_unheld}
use mnemon.Scheduler.Ops.{
  start_job, pick, next, Next, measure_user, record_measure, back_off, succeed, settle_job,
  clear_dirty, finish,
}
use mnemon.Scheduler.System.Defs.{Waiter, take_job}
use mnemon.Scheduler.System.Places.{
  Placed-keep, Placed-requeue, Placed-rest, Placed-start, Placed-back_off, Placed-retry,
  length-push_retry,
}
use mnemon.Scheduler.System.Registry.{Registered-update}
use mnemon.Scheduler.System.Retries.{Ordered-keep, Ordered-absent, Ordered-push_retry}
use mnemon.Scheduler.System.Counts.{Counted-keep, Calm-update}
use mnemon.Scheduler.System.Invariant.{Inv, SameWork, Inv-keep, Inv-forget}

-- The user that the search finds stands in the queue, and nobody holds it.
pub first_unheld-found :
    (heap : Ref → SchedUser) (queue : List Ref) (r : Ref)
    → first_unheld heap queue ≡ some r
    → (0 < count r queue) × ((heap r).holds ≡ 0)
unfolding first_unheld
first_unheld-found heap [] r e = cc
first_unheld-found heap (x ∷ queue) r e = ground (arith, first_unheld-found heap queue r)

module _ (jobs holders : List Ref) (waiting : List Waiter) where
  retry_due_rounds-Inv :
      (l : List Ref) (now : ℕ) (s : Scheduler)
      → s.retries ≡ l
      → Inv s jobs holders waiting
      → Inv (retry_due_rounds l now s) jobs holders waiting
  unfolding retry_due_rounds enqueue_locked
  retry_due_rounds-Inv [] now s e i = rw e at i
  retry_due_rounds-Inv (r ∷ rest) now s e i =
      let j : Inv (record s { retries = r ∷ rest }) jobs holders waiting = rw e at i in
      let here : lookup (s.heap r).key s.users ≡ some r =
        i.registry.registered r (ground (arith, j.placed.in_retries r)) in
      let u = record (s.heap r) { state = queued } in
      if-cases (λ (a : Scheduler). Inv a jobs holders waiting) (leb (s.heap r).retry_at now) _ _
        (λ _.
          retry_due_rounds-Inv rest now (enqueue_locked r (record s { retries = rest })) refl
            (record {
              placed = Placed-retry s.heap s.queue r rest jobs s.running j.placed u refl;
              registry = Registered-update s.heap s.users s.next_ref i.registry r u here refl;
              counted = Counted-keep s.heap holders waiting i.counted r u refl refl;
              calm = Calm-update s.heap i.calm r u (λ h. cc) (λ h. cc);
              ordered = Ordered-keep s.heap r u rest refl refl j.ordered.1;
              bounded = omega (arith, length-append s.queue (r ∷ []), j.bounded);
            }))
        (λ _. j)

  start_job-Inv :
      (r : Ref) (s : Scheduler)
      → Inv s jobs holders waiting
      → 0 < count r s.queue
      → Inv (start_job r s) (r ∷ jobs) holders waiting
  unfolding start_job
  start_job-Inv r s i e =
      let here : lookup (s.heap r).key s.users ≡ some r =
        i.registry.registered r (ground (arith, i.placed.in_queue r)) in
      record {
        placed = Placed-start s.heap s.queue s.retries jobs s.running i.placed r _ e refl;
        registry = Registered-update s.heap s.users s.next_ref i.registry r _ here refl;
        counted = Counted-keep s.heap holders waiting i.counted r _ refl refl;
        calm = Calm-update s.heap i.calm r _ (λ h. cc) (λ h. cc);
        ordered = Ordered-keep s.heap r _ s.retries refl refl i.ordered;
        bounded = omega (arith, length-erase r s.queue e, i.bounded);
      }

  pick-Inv :
      (found : Option Ref) (now : ℕ) (s : Scheduler)
      → first_unheld s.heap s.queue ≡ found
      → Inv s jobs holders waiting
      → Inv (pick found now s).0 (take_job (pick found now s).1 jobs) holders waiting
  unfolding pick
  pick-Inv none now s e i = i
  pick-Inv (some r) now s e i = start_job-Inv r s i (first_unheld-found s.heap s.queue r e).0

  pub next-Inv :
      (now : ℕ) (s : Scheduler)
      → Inv s jobs holders waiting
      → Inv (next now s).0 (take_job (next now s).1 jobs) holders waiting
  unfolding next
  next-Inv now s i =
      let s' = retry_due_rounds s.retries now s in
      if-cases {A = Scheduler × Next} (λ a. Inv a.0 (take_job a.1 jobs) holders waiting) s.draining
        _ _ (λ _. i)
        (λ _.
          pick-Inv (first_unheld s'.heap s'.queue) now s' refl
            (retry_due_rounds-Inv s.retries now s refl i))

-- The user of a job is the map's.
pub job_registered :
    (jobs holders : List Ref) (waiting : List Waiter) (r : Ref) (s : Scheduler)
    → Inv s jobs holders waiting
    → 0 < count r jobs
    → lookup (s.heap r).key s.users ≡ some r
job_registered jobs holders waiting r s i e =
    i.registry.registered r (ground (arith, i.placed.in_jobs r))

-- What becomes of the user of a job that ends.
module _ (jobs holders : List Ref) (waiting : List Waiter) (r : Ref) (s : Scheduler)
    (i : Inv s jobs holders waiting) (e : 0 < count r jobs) where
  requeue-Inv :
      Inv (enqueue_locked r (record s { running = s.running - 1 })) (erase jobs r) holders waiting
  unfolding enqueue_locked
  requeue-Inv = record {
    placed = Placed-requeue s.heap s.queue s.retries jobs s.running i.placed r _ e refl;
    registry =
        Registered-update s.heap s.users s.next_ref i.registry r _
          (job_registered jobs holders waiting r s i e) refl;
    counted = Counted-keep s.heap holders waiting i.counted r _ refl refl;
    calm = Calm-update s.heap i.calm r _ (λ h. cc) (λ h. cc);
    ordered = Ordered-keep s.heap r _ s.retries refl refl i.ordered;
    bounded = omega (
      arith,
      length-append s.queue (r ∷ []),
      i.bounded,
      i.placed.jobs_counted,
      length-erase r jobs e,
    );
  }

  back_off-Inv :
      (err : JobError) (now jitter : ℕ)
      → Inv
          (back_off err now jitter r (record s { running = s.running - 1 })).0
          (erase jobs r)
          holders
          waiting
  unfolding back_off
  back_off-Inv err now jitter = record {
    placed = Placed-back_off s.heap s.queue s.retries jobs s.running i.placed r _ e refl;
    registry =
        Registered-update s.heap s.users s.next_ref i.registry r _
          (job_registered jobs holders waiting r s i e) refl;
    counted = Counted-keep s.heap holders waiting i.counted r _ refl refl;
    calm = Calm-update s.heap i.calm r _ (λ h. cc) (λ h. omega arith);
    ordered = Ordered-push_retry _ r s.retries (
        Ordered-absent s.heap r _ s.retries
          (ground (arith, i.placed.in_jobs r, i.placed.in_retries r)) i.ordered);
    bounded =
        omega (arith, length-push_retry, i.bounded, i.placed.jobs_counted, length-erase r jobs e);
  }

  rest-Inv :
      Inv
        (record s {
          heap = update s.heap r (record (s.heap r) { failures = 0; state = idle; since = 0 });
          running = s.running - 1;
        })
        (erase jobs r)
        holders
        waiting
  rest-Inv = record {
    placed = Placed-rest s.heap s.queue s.retries jobs s.running i.placed r _ e refl;
    registry =
        Registered-update s.heap s.users s.next_ref i.registry r _
          (job_registered jobs holders waiting r s i e) refl;
    counted = Counted-keep s.heap holders waiting i.counted r _ refl refl;
    calm = Calm-update s.heap i.calm r _ (λ h. refl) (λ h. cc);
    ordered = Ordered-keep s.heap r _ s.retries refl refl i.ordered;
    bounded = omega (arith, i.bounded, i.placed.jobs_counted, length-erase r jobs e);
  }

  -- The failures of a user that runs may be forgotten.
  clear-Inv :
      (since : ℕ)
      → Inv
          (record s { heap = update s.heap r (record (s.heap r) { failures = 0; since = since }) })
          jobs
          holders
          waiting
  clear-Inv since = record {
    placed = Placed-keep s.heap s.queue s.retries jobs s.running i.placed r _ refl;
    registry =
        Registered-update s.heap s.users s.next_ref i.registry r _
          (job_registered jobs holders waiting r s i e) refl;
    counted = Counted-keep s.heap holders waiting i.counted r _ refl refl;
    calm = Calm-update s.heap i.calm r _ (λ h. refl) (λ h. ground (arith, i.placed.in_jobs r));
    ordered = Ordered-keep s.heap r _ s.retries refl refl i.ordered;
    bounded = i.bounded;
  }

module _ (jobs holders : List Ref) (waiting : List Waiter) (r : Ref) (s : Scheduler)
    (i : Inv s jobs holders waiting) (e : 0 < count r jobs) where
  succeed-Inv :
      Inv (succeed r (record s { running = s.running - 1 })) (erase jobs r) holders waiting
  unfolding succeed
  succeed-Inv =
      if-cases {A = Scheduler} (λ a. Inv a (erase jobs r) holders waiting) (s.heap r).dirty _ _
        (λ _.
          let u = record (s.heap r) { failures = 0; since = (s.heap r).dirty_since } in
          requeue-Inv jobs holders waiting r (record s { heap = update s.heap r u })
            (clear-Inv jobs holders waiting r s i e (s.heap r).dirty_since) e)
        (λ _. rest-Inv jobs holders waiting r s i e)

  settle_job-Inv :
      (cut : Bool) (err : Option JobError) (now jitter : ℕ)
      → Inv
          (settle_job cut err now jitter r (record s { running = s.running - 1 })).0
          (erase jobs r)
          holders
          waiting
  unfolding settle_job
  settle_job-Inv true err now jitter = requeue-Inv jobs holders waiting r s i e
  settle_job-Inv false none now jitter = succeed-Inv
  settle_job-Inv false (some err) now jitter =
      back_off-Inv jobs holders waiting r s i e err now jitter

SameWork-measure_user : (backlog : ℤ) (u : SchedUser) → SameWork (measure_user backlog u) u
unfolding measure_user
SameWork-measure_user backlog u = ground arith

pub finish-Inv :
    (jobs holders : List Ref) (waiting : List Waiter) (r : Ref) (s : Scheduler) (cut : Bool)
    (backlog : ℤ) (err : Option JobError) (now jitter : ℕ)
    → Inv s jobs holders waiting
    → 0 < count r jobs
    → Inv (finish cut backlog err now jitter r s).0 (erase jobs r) holders waiting
unfolding finish
finish-Inv jobs holders waiting r s cut backlog err now jitter i e =
    let s₁ = record_measure backlog r s in
    let i₁ : Inv s₁ jobs holders waiting =
      Inv-keep s jobs holders waiting i r (measure_user backlog (s.heap r))
        (SameWork-measure_user backlog (s.heap r)) in
    let s₂ = (settle_job cut err now jitter r (record s₁ { running = s.running - 1 })).0 in
    let i₂ : Inv s₂ (erase jobs r) holders waiting =
      settle_job-Inv jobs holders waiting r s₁ i₁ e cut err now jitter in
    Inv-forget (clear_dirty r s₂) (erase jobs r) holders waiting
      (Inv-keep s₂ (erase jobs r) holders waiting i₂ r
        (record (s₂.heap r) { dirty = false; dirty_since = 0 })
        (record {
          key = refl;
          state = refl;
          holds = refl;
          waiters = refl;
          failures = refl;
          retry_at = refl;
          seq = refl;
        }))
      r
