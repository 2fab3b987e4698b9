-- ===== src/Budget/Examples.antt =====
-- internal/memoryagent/budget.go: a reservation and its settlement, on which the theorems are used.
use mnemon.Prelude.{none, All, ◌*◌, ◌<◌, ◌≡◌, refl, true, false, String, List, [], ◌∷◌, ◌↔◌, arith}
use mnemon.Prelude.Int.{pos, ◌+ℤ◌, ◌≤ℤ◌, scale}
use mnemon.Prelude.Dict.{lookup}
use mnemon.Budget.Holds.{HeldSettled, settle_holds, settle_holds-clears}
use mnemon.Budget.State.{
  held_of, Amount, fin, Usage, ok, err, Db, background_reserve, no_open_attempt, unit,
}
use mnemon.Budget.Ops.{
  upsert_cap, fits, has_id, new_attempt, reserve_tx, reserve_paid, reserve_within, settle, release,
  mark, move_held, find_open, metering_invalid, open_caps, check_caps, cap_valid, copy_caps,
}
use mnemon.Budget.Resolve.{settle-once}
use mnemon.Budget.Reserve.{reserved_db, refused_for_reserve}
use mnemon.Budget.CapSafety.{used}
use mnemon.Budget.Runs.{fresh, reserved, cap_of, budget, used-le-cap}

abbrev empty_db : Db
empty_db = record { accounts = []; attempts = [] }

abbrev metering : Usage
metering = record { usd = pos 4; cny = pos 0; input_tokens = pos 3; output_tokens = pos 1 }

abbrev reserved_file : Db
reserved_file = reserved_db "jev" "hash" (pos 10) metering (pos 100) "first" empty_db

abbrev settled_file : Db
settled_file = record {
  accounts = move_held "jev" (pos 10) (pos 4) reserved_file.accounts;
  attempts = mark "first" (pos 4) (pos 3) (pos 1) reserved_file.attempts;
}

reserves :
    reserve_tx "jev" "hash" (pos 10) 10 metering (pos 100) "first" empty_db ≡ ok reserved_file
unfolding reserve_tx fits has_id new_attempt upsert_cap ◌+ℤ◌ scale
reserves = refl

settles : settle "first" metering reserved_file ≡ ok settled_file
unfolding settle find_open new_attempt metering_invalid upsert_cap ◌+ℤ◌
settles = refl

settle-once_example :
    (settle "first" metering settled_file ≡ err no_open_attempt)
    × (release "first" settled_file ≡ err no_open_attempt)
settle-once_example = settle-once "first" metering metering reserved_file settled_file refl settles

refused_for_reserve_example :
    let a = upsert_cap (pos 100) (lookup "jev" empty_db.accounts) in
    (reserve_tx "jev" "hash" (pos 95) 9 metering (pos 100) "first" empty_db
      ≡ err background_reserve)
    ↔ ((9 < 10) × (fits (pos 95) 9 a ≡ false) × (fits (pos 95) 10 a ≡ true))
refused_for_reserve_example =
    refused_for_reserve "jev" "hash" (pos 95) 9 metering (pos 100) "first" empty_db

abbrev caps : List (String × Amount)
caps =
    ("jev", fin (pos (2 * unit)))
    ∷ ("deepseek", fin (pos (50 * unit)))
    ∷ ("openai", fin (pos (5 * unit)))
    ∷ []

abbrev run_file : Db
run_file = reserved_db "jev" "hash" (pos unit) metering (pos (2 * unit)) "first" empty_db

opens : open_caps (("jev", fin (pos (2 * unit))) ∷ []) ≡ ok caps
unfolding open_caps check_caps cap_valid copy_caps
opens = refl

runs_once :
    reserve_within "jev" "hash" (fin (pos unit)) 10 metering "first" (budget caps empty_db)
    ≡ ok (budget caps run_file, "first")
unfolding reserve_within reserve_paid reserve_tx fits has_id new_attempt upsert_cap ◌+ℤ◌ scale
runs_once = refl

used-le-cap_example : used "jev" run_file ≤ℤ cap_of caps "jev"
used-le-cap_example =
    used-le-cap (("jev", fin (pos (2 * unit))) ∷ []) caps run_file "jev" opens
      (reserved run_file "jev" "hash" (fin (pos unit)) 10 metering "first" "first" fresh
        (omega arith) runs_once)
      refl

settle_holds-clears_example :
    let (done, reports) = settle_holds (λ a b. false) reserved_file in
    (find_open "first" done.attempts ≡ none)
    × (held_of (lookup "first" done.accounts) ≡ pos 0)
    × All (λ (r : HeldSettled). r.settled ≤ℤ r.held) reports
settle_holds-clears_example = settle_holds-clears (λ a b. false) reserved_file "first"
