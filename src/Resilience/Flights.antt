-- ===== src/Resilience/Flights.antt =====
-- internal/memoryagent/resilience.go: flights of a paid attempt, on which the theorems are used.
use mnemon.Prelude.{◌+◌, ◌≡◌, refl, Bool, true, false, none, some, []}
use mnemon.Prelude.Int.{pos, ◌+ℤ◌}
use mnemon.Budget.State.{fin, Usage, Attempt, default_caps}
use mnemon.Budget.Ops.{find_open, new_attempt, metering_invalid}
use mnemon.Budget.Balance.{Balanced}
use mnemon.Budget.Reserve.{reserved_db}
use mnemon.Resilience.Flight.{Flight, uncut, Cut, Reply, no_answer, exchange}
use mnemon.Resilience.Provider.{Provider, acquired, Admission, flies, admit, run}
use mnemon.Resilience.Resolves.{exchange-resolves}
use mnemon.Resilience.Permits.{taken, admit-conserves}

abbrev estimate : Usage
estimate = record { usd = pos 4; cny = pos 0; input_tokens = pos 3; output_tokens = pos 0 }

abbrev flight : Flight
flight = record {
  db =
      reserved_db "jev" "hash" (pos 10) estimate (pos 100) "first"
        (record { accounts = []; attempts = [] });
  id = "first";
  estimate = estimate;
  resolved = false;
}

abbrev flown : Attempt
flown = new_attempt "first" "jev" "hash" (pos 10) estimate

is_found : find_open flight.id flight.db.attempts ≡ some flown
unfolding find_open new_attempt
is_found = refl

is_valid : metering_invalid flown.kind flown.reserved flight.estimate ≡ false
unfolding metering_invalid new_attempt ◌+ℤ◌
is_valid = refl

exchange-resolves_example :
    let g = (exchange false uncut (no_answer true true) flight).0 in
    (g.resolved ≡ true)
    × (find_open flight.id g.db.attempts ≡ none)
    × (Balanced flight.db → Balanced g.db)
exchange-resolves_example =
    exchange-resolves flight flown uncut (no_answer true true) refl is_found is_valid

abbrev provider : Provider
provider = record {
  budget = record { db = record { accounts = []; attempts = [] }; caps = default_caps };
  flights = 0;
  permits = 0;
  closed = false;
  cut_by_close = 0;
  held_by_close = 0;
}

abbrev admission : Admission
admission = record {
  request_fails = false;
  breaker_is_open = false;
  bulkhead = acquired;
  kind = "jev";
  hash = "hash";
  amount = fin (pos 0);
  share = 10;
  estimate = estimate;
  id = "first";
  breaker_permits = true;
}

admit-conserves_example :
    let (q, o) = admit false admission provider in
    (q.flights ≡ provider.flights + taken o)
    × (q.permits ≡ provider.permits + taken o)
    × ((f : Flight) (later : Bool) (cut : Cut) (reply : Reply)
        → o ≡ flies f
        → ((run later cut reply f q).0.flights ≡ provider.flights)
          × ((run later cut reply f q).0.permits ≡ provider.permits))
admit-conserves_example = admit-conserves false admission provider
