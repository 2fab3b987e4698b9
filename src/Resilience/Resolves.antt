-- ===== src/Resilience/Resolves.antt =====
-- internal/memoryagent/resilience.go, flight: every way that a request ends resolves its reservation,
-- once, and keeps the accounts of the budget file balanced.
use mnemon.Prelude.{
  ℕ, ◌≡◌, ◌⊎◌, refl, Bool, true, false, ◌&&◌, Option, none, some, str_eq, leb, if◌then◌else◌,
  if-cases, arith, Bool-cases, inl, inr,
}
use mnemon.Budget.State.{Usage, ok, err, Attempt, Db, invalid_metering}
use mnemon.Budget.Ops.{find_open, settle, release, metering_invalid}
use mnemon.Prelude.Int.{pos, ◌+ℤ◌}
use mnemon.Budget.Resolve.{resolved_db, Resolved-open, settle-Resolved, release-Resolved}
use mnemon.Budget.Balance.{Balanced, settle-Balanced, release-Balanced}
use mnemon.Resilience.Call.{status_error, CallError, plain, FlightResult}
use mnemon.Resilience.Flight.{
  Flight, settlement_of, try_settle, try_release, resolve_by, settle_estimate, release_flight, Cut,
  uncut, idle, cut_by, broken, refused, unmetered, metered_by, meter, Reply, no_answer, status_only,
  unread, oversized, parsed, odd_success, exchange,
}

-- What the end of a request makes of its flight: its reservation has ended for good.
pub record Closed (f g : Flight) : Type 0 where
  pub resolved : g.resolved ≡ true
  pub gone : find_open f.id g.db.attempts ≡ none
  pub balanced : Balanced f.db → Balanced g.db

module _ (f : Flight) (paid : str_eq f.id "" ≡ false) where
  settled-Closed :
      (u : Usage) (db : Db)
      → settle f.id u f.db ≡ ok db
      → Closed f (record f { db = db; resolved = true })
  settled-Closed u db e = record {
    resolved = refl;
    gone = Resolved-open paid (settle-Resolved f.id u f.db db e);
    balanced = λ b. settle-Balanced f.id u f.db db e b;
  }

  released-Closed :
      (db : Db) → release f.id f.db ≡ ok db → Closed f (record f { db = db; resolved = true })
  released-Closed db e = record {
    resolved = refl;
    gone = Resolved-open paid (release-Resolved f.id f.db db e);
    balanced = λ b. release-Balanced f.id f.db db e b;
  }

  module _ (a : Attempt) (found : find_open f.id f.db.attempts ≡ some a)
      (valid : metering_invalid a.kind a.reserved f.estimate ≡ false) where
    settles : (db : Db) × (settle f.id f.estimate f.db ≡ ok db)
    unfolding settle
    settles =
        let u = f.estimate in
        (
          resolved_db a f.id (u.usd +ℤ u.cny) u.input_tokens u.output_tokens f.db,
          ground (arith, paid, found, valid),
        )

    releases : (db : Db) × (release f.id f.db ≡ ok db)
    unfolding release
    releases = (resolved_db a f.id (pos 0) (pos 0) (pos 0) f.db, ground (arith, paid, found))

    settle_estimate-Closed : (cause : CallError) → Closed f (settle_estimate false cause f).0
    unfolding settle_estimate try_settle settlement_of resolve_by
    settle_estimate-Closed cause =
        let (db, e) = settles in rw (paid, e) (settled-Closed f.estimate db e)

    release_flight-Closed : (cause : CallError) → Closed f (release_flight false cause f).0
    unfolding release_flight try_release settlement_of resolve_by
    release_flight-Closed cause = let (db, e) = releases in rw e (released-Closed db e)

    pick-Closed :
        (sent : Bool) (c e : CallError)
        → Closed f (if sent then settle_estimate false c f else release_flight false e f).0
    pick-Closed true c e = settle_estimate-Closed c
    pick-Closed false c e = release_flight-Closed e

    broken-Closed :
        (cut : Cut) (sent timed_out : Bool) → Closed f (broken false cut sent timed_out f).0
    unfolding broken
    broken-Closed uncut sent timed_out = pick-Closed sent _ _
    broken-Closed idle sent timed_out = pick-Closed sent _ _
    broken-Closed (cut_by cause) sent timed_out = pick-Closed sent _ _

    refused-Closed : (code wait : ℕ) → Closed f (refused false code wait f).0
    unfolding refused
    refused-Closed code wait = release_flight-Closed (plain (status_error code wait))

    unmetered-Closed : (error : Option CallError) → Closed f (unmetered false error f).0
    unfolding unmetered settle_estimate try_settle settlement_of resolve_by
    unmetered-Closed error = let (db, e) = settles in rw (paid, e) (settled-Closed f.estimate db e)

    -- The open attempt is there, so only its metering can be refused.
    settle-cases :
        (u : Usage)
        → (settle f.id u f.db ≡ err invalid_metering) ⊎ ((db : Db) × (settle f.id u f.db ≡ ok db))
    unfolding settle
    settle-cases u = elim (Bool-cases (metering_invalid a.kind a.reserved u)) [
      | inl bad ↦ inl (ground (arith, paid, found, bad))
      | inr good ↦ inr (
        resolved_db a f.id (u.usd +ℤ u.cny) u.input_tokens u.output_tokens f.db,
        ground (arith, paid, found, good),
      )
    ]

    meter-Closed :
        (error : Option CallError) (usage : Option Usage) → Closed f (meter false error usage f).0
    unfolding meter metered_by try_settle settlement_of resolve_by
    meter-Closed error none = unmetered-Closed error
    meter-Closed error (some u) = elim (settle-cases u) [
      | inl bad ↦ rw bad (unmetered-Closed _)
      | inr (db, good) ↦ rw good (settled-Closed u db good)
    ]

    exchange-Closed : (cut : Cut) (reply : Reply) → Closed f (exchange false cut reply f).0
    unfolding exchange
    exchange-Closed cut (no_answer sent timed_out) = broken-Closed cut sent timed_out
    exchange-Closed cut (status_only code wait) =
        if-cases {A = Flight × FlightResult} (λ x. Closed f x.0) (leb 200 code && leb code 299) _ _
          (λ odd. unfold odd_success in settle_estimate-Closed _)
          (λ other. refused-Closed code wait)
    exchange-Closed cut (unread timed_out) = broken-Closed cut true timed_out
    exchange-Closed cut oversized = settle_estimate-Closed _
    exchange-Closed cut (parsed error usage) = meter-Closed error usage

-- However the request of a paid attempt ends, while the budget file does not fail and the estimate is
-- one that it takes, the flight is resolved: its reservation is open no more, and accounts that were
-- balanced still are.
pub exchange-resolves :
    (f : Flight) (a : Attempt) (cut : Cut) (reply : Reply)
    → str_eq f.id "" ≡ false
    → find_open f.id f.db.attempts ≡ some a
    → metering_invalid a.kind a.reserved f.estimate ≡ false
    → let g = (exchange false cut reply f).0 in
      (g.resolved ≡ true) × (find_open f.id g.db.attempts ≡ none) × (Balanced f.db → Balanced g.db)
exchange-resolves f a cut reply paid found valid =
    let c = exchange-Closed f paid a found valid cut reply in (c.resolved, c.gone, c.balanced)
