-- ===== src/Resilience/Flight.antt =====
-- internal/memoryagent/resilience.go, flight: how the request of an attempt ends, and what becomes of
-- its reservation. What the endpoint answered is an argument, and so is whether the budget file fails
-- meanwhile.
use mnemon.Prelude.{
  ℕ, Bool, true, false, ◌&&◌, not, String, Option, none, some, str_eq, leb, if◌then◌else◌,
}
use mnemon.Budget.State.{Usage, BudgetError, invalid_metering, Result, ok, err, Db}
use mnemon.Budget.Ops.{settle, release}
use mnemon.Resilience.Policies.{retryable_status, failing_status}
use mnemon.Resilience.Call.{
  Cause, attempt_timeout, status_error, other, CallError, plain, Note, released, remains_held,
  settled_at_estimate, noted, FlightResult,
}

-- A flight with the budget file: its reservation, "" for a local model, the estimate it settles at,
-- and whether it has been settled or released.
pub record Flight : Type 0 where
  pub db : Db
  pub id : String
  pub estimate : Usage
  pub resolved : Bool

-- What a settlement or a release came to.
pub data Settlement : Type 0 where
  settled : Db → Settlement
  bad_metering file_failed : Settlement

abbrev pub is_bad_metering : BudgetError → Bool
is_bad_metering invalid_metering = true
is_bad_metering _ = false

unfoldable pub settlement_of : Result Db → Settlement
settlement_of (ok db) = settled db
settlement_of (err e) = if is_bad_metering e then bad_metering else file_failed

-- Provider.settle; a local model's touches no file.
unfoldable pub try_settle : Bool → Usage → Flight → Settlement
unfolding settlement_of
try_settle fails u f =
    if fails && not (str_eq f.id "") then file_failed else settlement_of (settle f.id u f.db)

unfoldable pub try_release : Bool → Flight → Settlement
unfolding settlement_of
try_release fails f =
    if fails && not (str_eq f.id "") then file_failed else settlement_of (release f.id f.db)

-- What a settlement makes of the flight.
unfoldable pub resolve_by : Settlement → Flight → Flight
resolve_by (settled db) f = record f { db = db; resolved = true }
resolve_by bad_metering f = f
resolve_by file_failed f = f

unfoldable pub noted_by : Note → Settlement → CallError → CallError
noted_by note (settled db) cause = noted note cause
noted_by note bad_metering cause = noted remains_held cause
noted_by note file_failed cause = noted remains_held cause

-- settleEstimate.
unfoldable pub settle_estimate : Bool → CallError → Flight → Flight × CallError
unfolding try_settle resolve_by noted_by
settle_estimate fails cause f =
    if str_eq f.id ""
    then (f, cause)
    else (let s = try_settle fails f.estimate f in
        (resolve_by s f, noted_by settled_at_estimate s cause))

-- release, of a flight.
unfoldable pub release_flight : Bool → CallError → Flight → Flight × CallError
unfolding try_release resolve_by noted_by
release_flight fails cause f =
    let s = try_release fails f in (resolve_by s f, noted_by released s cause)

-- What cut the request: nothing, the body-idle timeout, or its caller or the provider's close.
pub data Cut : Type 0 where
  uncut idle : Cut
  cut_by : Cause → Cut

abbrev failed_result : Flight × CallError → Flight × FlightResult
failed_result (f, e) =
    (f, record { status = 0; error = some e; retry = false; failed = false; invalid = false })

abbrev unavailable_result : Flight × CallError → Flight × FlightResult
unavailable_result (f, e) =
    (f, record { status = 0; error = some e; retry = true; failed = true; invalid = false })

-- broken: `sent` says whether the request may have reached the endpoint, `timed_out` whether its
-- error is a timeout.
unfoldable pub broken : Bool → Cut → Bool → Bool → Flight → Flight × FlightResult
unfolding settle_estimate release_flight
broken fails (cut_by cause) sent timed_out f =
    failed_result
      (if sent then settle_estimate fails (plain cause) f else release_flight fails (plain cause) f)
broken fails idle sent timed_out f = unavailable_result (
    if sent
    then settle_estimate fails (plain attempt_timeout) f
    else release_flight fails (plain other) f)
broken fails uncut sent timed_out f = unavailable_result (
    if sent
    then settle_estimate fails (plain (if timed_out then attempt_timeout else other)) f
    else release_flight fails (plain other) f)

-- refused.
unfoldable pub refused : Bool → ℕ → ℕ → Flight → Flight × FlightResult
unfolding release_flight
refused fails code wait f =
    let (g, e) = release_flight fails (plain (status_error code wait)) f in
    (
      g,
      record {
        status = code;
        error = some e;
        retry = retryable_status code;
        failed = failing_status code;
        invalid = false;
      },
    )

abbrev answered : Option CallError → Bool → FlightResult
answered error invalid = record {
  status = 200;
  error = error;
  retry = false;
  failed = false;
  invalid = invalid;
}

abbrev is_some_error : Option CallError → Bool
is_some_error none = false
is_some_error (some e) = true

-- meter without metering that the budget accepts; `error` is the parser's or the budget's.
unfoldable pub unmetered : Bool → Option CallError → Flight → Flight × FlightResult
unfolding settle_estimate
unmetered fails error f =
    if str_eq f.id ""
    then (f, answered error (is_some_error error))
    else (let cause : CallError = elim error [ none ↦ plain other | some e ↦ e ] in
        let (g, e) = settle_estimate fails cause f in (g, answered (some e) true))

-- meter, on how the settlement at the reply's metering went.
unfoldable pub metered_by : Settlement → Bool → Option CallError → Flight → Flight × FlightResult
unfolding resolve_by unmetered
metered_by (settled db) fails error f =
    (resolve_by (settled db) f, answered error (is_some_error error))
metered_by file_failed fails error f = (f, answered (some (plain other)) false)
metered_by bad_metering fails error f =
    unmetered fails (some (elim error [ none ↦ plain other | some e ↦ e ])) f

-- meter: the parser's error and the metering that the reply carries.
unfoldable pub meter : Bool → Option CallError → Option Usage → Flight → Flight × FlightResult
unfolding metered_by unmetered try_settle
meter fails error none f = unmetered fails error f
meter fails error (some u) f = metered_by (try_settle fails u f) fails error f

-- What came of the exchange with the endpoint.
pub data Reply : Type 0 where
  no_answer : (sent timed_out : Bool) → Reply
  status_only : (code wait : ℕ) → Reply
  unread : (timed_out : Bool) → Reply
  oversized : Reply
  parsed : Option CallError → Option Usage → Reply

-- A status of 2xx other than 200.
unfoldable pub odd_success : Bool → ℕ → Flight → Flight × FlightResult
unfolding settle_estimate
odd_success fails code f =
    let (g, e) = settle_estimate fails (plain other) f in
    (g, record { status = code; error = some e; retry = false; failed = false; invalid = false })

-- exchange.
unfoldable pub exchange : Bool → Cut → Reply → Flight → Flight × FlightResult
unfolding broken refused odd_success settle_estimate meter
exchange fails cut (no_answer sent timed_out) f = broken fails cut sent timed_out f
exchange fails cut (status_only code wait) f =
    if leb 200 code && leb code 299 then odd_success fails code f else refused fails code wait f
exchange fails cut (unread timed_out) f =
    let (g, r) = broken fails cut true timed_out f in (g, record r { status = 200 })
exchange fails cut oversized f =
    let (g, e) = settle_estimate fails (plain other) f in (g, answered (some e) true)
exchange fails cut (parsed error usage) f = meter fails error usage f
