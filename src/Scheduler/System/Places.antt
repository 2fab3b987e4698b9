-- ===== src/Scheduler/System/Places.antt =====
-- Each user stands where its state says: once in the queue, the jobs or the retry heap.
use mnemon.Prelude.{
  ℕ, suc, ◌+◌, ◌-◌, ◌<◌, ◌≡◌, List, [], ◌∷◌, ◌++◌, ◌==◌, length, count, erase, one_if, refl,
  count-append, count-erase, length-erase, arith,
}
use mnemon.Prelude.Store.{Ref, update}
use mnemon.Scheduler.State.{
  idle, queued, running, backing_off, is_queued, is_running, is_backing_off, SchedUser,
}
use mnemon.Scheduler.Locked.{push_retry}

pub record Placed (heap : Ref → SchedUser) (queue retries jobs : List Ref) (running : ℕ)
    : Type 0 where
  pub in_queue : (x : Ref) → count x queue ≡ one_if (is_queued (heap x).state)
  pub in_retries : (x : Ref) → count x retries ≡ one_if (is_backing_off (heap x).state)
  pub in_jobs : (x : Ref) → count x jobs ≡ one_if (is_running (heap x).state)
  pub jobs_counted : running ≡ length jobs

module _ (heap : Ref → SchedUser) (queue retries jobs : List Ref) (n : ℕ)
    (p : Placed heap queue retries jobs n) (r : Ref) (u : SchedUser) where
  -- The user keeps its state.
  pub Placed-keep : u.state ≡ (heap r).state → Placed (update heap r u) queue retries jobs n
  Placed-keep h = record {
    in_queue = λ x. ground (arith, p.in_queue x);
    in_retries = λ x. ground (arith, p.in_retries x);
    in_jobs = λ x. ground (arith, p.in_jobs x);
    jobs_counted = p.jobs_counted;
  }

  pub Placed-enqueue :
      (heap r).state ≡ idle
      → u.state ≡ queued
      → Placed (update heap r u) (queue ++ r ∷ []) retries jobs n
  Placed-enqueue e h = record {
    in_queue = λ x. ground (arith, p.in_queue x, count-append x queue (r ∷ []));
    in_retries = λ x. ground (arith, p.in_retries x);
    in_jobs = λ x. ground (arith, p.in_jobs x);
    jobs_counted = p.jobs_counted;
  }

  -- A job's user goes to the back of the queue.
  pub Placed-requeue :
      0 < count r jobs
      → u.state ≡ queued
      → Placed (update heap r u) (queue ++ r ∷ []) retries (erase jobs r) (n - 1)
  Placed-requeue e h = record {
    in_queue = λ x. ground (arith, p.in_queue x, p.in_jobs r, count-append x queue (r ∷ []));
    in_retries = λ x. ground (arith, p.in_retries x, p.in_jobs r);
    in_jobs = λ x. ground (arith, p.in_jobs x, p.in_jobs r, count-erase x r jobs e);
    jobs_counted = omega (arith, p.jobs_counted, length-erase r jobs e);
  }

  -- A job's user has nothing more to do.
  pub Placed-rest :
      0 < count r jobs
      → u.state ≡ idle
      → Placed (update heap r u) queue retries (erase jobs r) (n - 1)
  Placed-rest e h = record {
    in_queue = λ x. ground (arith, p.in_queue x, p.in_jobs r);
    in_retries = λ x. ground (arith, p.in_retries x, p.in_jobs r);
    in_jobs = λ x. ground (arith, p.in_jobs x, p.in_jobs r, count-erase x r jobs e);
    jobs_counted = omega (arith, p.jobs_counted, length-erase r jobs e);
  }

  pub Placed-start :
      0 < count r queue
      → u.state ≡ running
      → Placed (update heap r u) (erase queue r) retries (r ∷ jobs) (suc n)
  Placed-start e h = record {
    in_queue = λ x. ground (arith, p.in_queue x, p.in_queue r, count-erase x r queue e);
    in_retries = λ x. ground (arith, p.in_retries x, p.in_queue r);
    in_jobs = λ x. ground (arith, p.in_jobs x, p.in_queue r);
    jobs_counted = omega (arith, p.jobs_counted);
  }

count-push_retry :
    (heap : Ref → SchedUser) (x r : Ref) (l : List Ref)
    → count x (push_retry heap r l) ≡ one_if (r == x) + count x l
unfolding push_retry
count-push_retry heap x r [] = refl
count-push_retry heap x r (y ∷ l) = ground (arith, count-push_retry heap x r l)

pub length-push_retry :
    (heap : Ref → SchedUser) (r : Ref) (l : List Ref)
    → length (push_retry heap r l) ≡ suc (length l)
unfolding push_retry
length-push_retry heap r [] = refl
length-push_retry heap r (y ∷ l) = ground (arith, length-push_retry heap r l)

module _ (heap : Ref → SchedUser) (queue retries jobs : List Ref) (n : ℕ)
    (p : Placed heap queue retries jobs n) (r : Ref) (u : SchedUser) where
  -- A job's user joins those that back off.
  pub Placed-back_off :
      0 < count r jobs
      → u.state ≡ backing_off
      → Placed
          (update heap r u)
          queue
          (push_retry (update heap r u) r retries)
          (erase jobs r)
          (n - 1)
  Placed-back_off e h = record {
    in_queue = λ x. ground (arith, p.in_queue x, p.in_jobs r);
    in_retries = λ x.
        ground (arith, p.in_retries x, p.in_jobs r, count-push_retry (update heap r u) x r retries);
    in_jobs = λ x. ground (arith, p.in_jobs x, p.in_jobs r, count-erase x r jobs e);
    jobs_counted = omega (arith, p.jobs_counted, length-erase r jobs e);
  }

-- The first user that backs off goes to the back of the queue.
pub Placed-retry :
    (heap : Ref → SchedUser) (queue : List Ref) (r : Ref) (rest jobs : List Ref) (n : ℕ)
    → Placed heap queue (r ∷ rest) jobs n
    → (u : SchedUser) → u.state ≡ queued
    → Placed (update heap r u) (queue ++ r ∷ []) rest jobs n
Placed-retry heap queue r rest jobs n p u h = record {
  in_queue = λ x. ground (arith, p.in_queue x, p.in_retries r, count-append x queue (r ∷ []));
  in_retries = λ x. ground (arith, p.in_retries x, p.in_retries r);
  in_jobs = λ x. ground (arith, p.in_jobs x, p.in_retries r);
  jobs_counted = p.jobs_counted;
}
