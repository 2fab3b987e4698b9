-- ===== src/Resilience/Provider.antt =====
-- internal/memoryagent/resilience.go: the admission of an attempt, and the goroutine of its flight,
-- with what they take of the provider and give back.
use mnemon.Prelude.{
  ℕ, ◌+◌, ◌-◌, Bool, true, false, ◌&&◌, not, String, Option, none, some, str_eq, if◌then◌else◌,
}
use mnemon.Budget.State.{Amount, Usage, BudgetError, cap_reached, Result, ok, err, Budget}
use mnemon.Budget.Ops.{reserve_within}
use mnemon.Resilience.Call.{
  Cause, breaker_open, budget_cap, background_reserve, provider_closed, other, CallError, plain,
  cause_of, FlightResult,
}
use mnemon.Resilience.Flight.{Flight, Cut, Reply, release_flight, exchange}

-- Provider: its budget file, its flights, the permits of the class's bulkhead that are taken, and what
-- its close cut. The breaker and the bulkhead are libraries: what they answer is an argument.
pub record Provider : Type 0 where
  pub budget : Budget
  pub flights : ℕ
  pub permits : ℕ
  pub closed : Bool
  pub cut_by_close : ℕ
  pub held_by_close : ℕ

-- What the bulkhead answered: a permit, or why there is none.
pub data Acquired : Type 0 where
  acquired : Acquired
  not_acquired : Cause → Acquired

-- An attempt that asks for its admission, and what the libraries answer to it.
pub record Admission : Type 0 where
  pub request_fails : Bool
  pub breaker_is_open : Bool
  pub bulkhead : Acquired
  pub kind : String
  pub hash : String
  pub amount : Amount
  pub share : ℕ
  pub estimate : Usage
  pub id : String
  pub breaker_permits : Bool

pub data Admitted : Type 0 where
  flies : Flight → Admitted
  refused : CallError → Admitted

-- The category of a reservation's refusal.
unfoldable pub refusal_cause : BudgetError → Cause
refusal_cause cap_reached = budget_cap
refusal_cause BudgetError.background_reserve = background_reserve
refusal_cause _ = other

-- begin, when the provider is not closed.
unfoldable pub begin : Provider → Provider
begin p = record p { flights = p.flights + 1 }

-- abort, of a flight that was given no permit.
unfoldable pub abort_early : Provider → Provider
abort_early p = record p { flights = p.flights - 1 }

-- The release of an abort's reservation; a local model's has none.
unfoldable pub abort_release : Bool → CallError → Flight → Flight × CallError
abort_release fails cause f = if str_eq f.id "" then (f, cause) else release_flight fails cause f

-- abort, of a flight that holds a permit.
unfoldable pub abort : Bool → CallError → Flight → Provider → Provider × Admitted
unfolding abort_release
abort fails cause f p =
    let (g, e) = abort_release fails cause f in
    (
      record p {
        budget = record p.budget { db = g.db };
        permits = p.permits - 1;
        flights = p.flights - 1;
      },
      refused e,
    )

abbrev file_of : Option Budget → Budget → Budget
file_of none b = b
file_of (some c) b = c

-- admit, with the result of its reservation.
unfoldable pub admit_reserved :
    Bool → Admission → Result (Option Budget × String) → Provider → Provider × Admitted
unfolding abort
admit_reserved fails a (err e) p = (
  record p { permits = p.permits - 1; flights = p.flights - 1 },
  refused (plain (refusal_cause e)),
)
admit_reserved fails a (ok (b, id)) p =
    let q : Provider = record p { budget = file_of b p.budget } in
    let f : Flight = record {
      db = q.budget.db;
      id = id;
      estimate = a.estimate;
      resolved = false;
    } in
    if a.breaker_permits then (q, flies f) else abort fails (plain breaker_open) f q

-- admit, once the bulkhead answered.
unfoldable pub admit_acquired : Bool → Admission → Acquired → Provider → Provider × Admitted
unfolding abort_early admit_reserved
admit_acquired fails a (not_acquired cause) p = (abort_early p, refused (plain cause))
admit_acquired fails a acquired p =
    let q : Provider = record p { permits = p.permits + 1 } in
    admit_reserved fails a
      (reserve_within a.kind a.hash a.amount a.share a.estimate a.id (some q.budget)) q

-- admit; `fails` says whether the budget file fails a release.
unfoldable pub admit : Bool → Admission → Provider → Provider × Admitted
unfolding begin admit_acquired
admit fails a p =
    if a.request_fails
    then (p, refused (plain other))
    else if a.breaker_is_open
    then (p, refused (plain breaker_open))
    else if p.closed
    then (p, refused (plain provider_closed))
    else admit_acquired fails a a.bulkhead (begin p)

abbrev is_provider_closed : Cause → Bool
is_provider_closed provider_closed = true
is_provider_closed _ = false

-- Whether a request ended because the provider's close cut it.
unfoldable pub was_cut : FlightResult → Bool
unfolding cause_of
was_cut r = elim r.error [ none ↦ false | some e ↦ is_provider_closed (cause_of e) ]

-- run, for a request that does not panic.
unfoldable pub run : Bool → Cut → Reply → Flight → Provider → Provider × FlightResult
unfolding was_cut
run fails cut reply f p =
    let (g, r) = exchange fails cut reply (record f { db = p.budget.db }) in
    let held = not (str_eq f.id "") && not g.resolved in
    (
      record p {
        budget = record p.budget { db = g.db };
        flights = p.flights - 1;
        permits = p.permits - 1;
        cut_by_close = if was_cut r then p.cut_by_close + 1 else p.cut_by_close;
        held_by_close = if was_cut r && held then p.held_by_close + 1 else p.held_by_close;
      },
      r,
    )
