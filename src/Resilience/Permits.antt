-- ===== src/Resilience/Permits.antt =====
-- internal/memoryagent/resilience.go: an attempt gives back what it takes of its provider.
use mnemon.Prelude.{ℕ, ◌+◌, ◌≡◌, ap, refl, Bool, Option, some, String, if-cases, arith}
use mnemon.Budget.State.{Result, ok, err, Budget}
use mnemon.Budget.Ops.{reserve_within}
use mnemon.Resilience.Flight.{Flight, Cut, Reply}
use mnemon.Resilience.Provider.{
  Provider, Acquired, acquired, not_acquired, Admission, Admitted, flies, refused, begin,
  abort_early, abort, admit_reserved, admit_acquired, admit, run,
}

-- How many flights, and how many permits, an attempt has after its admission.
abbrev pub taken : Admitted → ℕ
taken (flies f) = 1
taken (refused e) = 0

-- What an admission from a provider leaves.
record Conserves (flights permits : ℕ) (x : Provider × Admitted) : Type 0 where
  pub flights_left : x.0.flights ≡ flights + taken x.1
  pub permits_left : x.0.permits ≡ permits + taken x.1

admit_reserved-Conserves :
    (fails : Bool) (a : Admission) (r : Result (Option Budget × String)) (p : Provider) (n m : ℕ)
    → p.flights ≡ n + 1
    → p.permits ≡ m + 1
    → Conserves n m (admit_reserved fails a r p)
unfolding admit_reserved abort
admit_reserved-Conserves fails a (err e) p n m h k = record {
  flights_left = omega (arith, h);
  permits_left = omega (arith, k);
}
admit_reserved-Conserves fails a (ok (b, id)) p n m h k =
    if-cases {A = Provider × Admitted} (Conserves n m) a.breaker_permits _ _
      (λ permits. record { flights_left = h; permits_left = k })
      (λ refuses. record { flights_left = omega (arith, h); permits_left = omega (arith, k) })

admit_acquired-Conserves :
    (fails : Bool) (a : Admission) (b : Acquired) (p : Provider) (n : ℕ)
    → p.flights ≡ n + 1
    → Conserves n p.permits (admit_acquired fails a b p)
unfolding admit_acquired abort_early
admit_acquired-Conserves fails a (not_acquired cause) p n h = record {
  flights_left = omega (arith, h);
  permits_left = omega arith;
}
admit_acquired-Conserves fails a acquired p n h =
    admit_reserved-Conserves fails a
      (reserve_within a.kind a.hash a.amount a.share a.estimate a.id (some p.budget))
      (record p { permits = p.permits + 1 }) n p.permits h refl

admit-Conserves :
    (fails : Bool) (a : Admission) (p : Provider) → Conserves p.flights p.permits (admit fails a p)
unfolding admit begin
admit-Conserves fails a p =
    if-cases {A = Provider × Admitted} (Conserves p.flights p.permits) a.request_fails _ _
      (λ e. record { flights_left = omega arith; permits_left = omega arith })
      (λ e.
        if-cases {A = Provider × Admitted} (Conserves p.flights p.permits) a.breaker_is_open _ _
          (λ e. record { flights_left = omega arith; permits_left = omega arith })
          (λ e.
            if-cases {A = Provider × Admitted} (Conserves p.flights p.permits) p.closed _ _
              (λ e. record { flights_left = omega arith; permits_left = omega arith })
              (λ e.
                admit_acquired-Conserves fails a a.bulkhead (record p { flights = p.flights + 1 })
                  p.flights refl)))

-- An attempt that is refused, at whatever step, leaves the provider's flights and the class's permits
-- as they were; one that is admitted takes one of each, and its request, however it ends and whether
-- or not the budget file fails, gives both back.
pub admit-conserves :
    (fails : Bool) (a : Admission) (p : Provider)
    → let (q, o) = admit fails a p in
      (q.flights ≡ p.flights + taken o)
      × (q.permits ≡ p.permits + taken o)
      × ((f : Flight) (later : Bool) (cut : Cut) (reply : Reply)
          → o ≡ flies f
          → ((run later cut reply f q).0.flights ≡ p.flights)
            × ((run later cut reply f q).0.permits ≡ p.permits))
unfolding run
admit-conserves fails a p =
    let c = admit-Conserves fails a p in
    (
      c.flights_left,
      c.permits_left,
      λ f later cut reply e.
          let one : taken (admit fails a p).1 ≡ 1 = ap taken e in
          (omega (arith, c.flights_left, one), omega (arith, c.permits_left, one)),
    )
