-- ===== src/Budget/CapSafety.antt =====
-- internal/memoryagent/budget.go: under caps that stay, an account whose calls are bounded by their
-- reservations never has more spent and held than its cap.
use mnemon.Prelude.{
  ℕ, ◌≡◌, subst, Bool, true, false, ◌&&◌, String, Option, some, List, [], ◌∷◌, str_eq, eq_iff,
  if◌then◌else◌, All, arith, Option-cases, Bool-cases, inl, inr,
}
use mnemon.Prelude.Int.{ℤ, pos, ◌+ℤ◌, ◌≤ℤ◌, scale, int_laws, parts_of_eq, leb_ℤ→le}
use mnemon.Prelude.Dict.{lookup}
use mnemon.Budget.State.{Usage, ok, Account, Attempt, Db, is_open, held_of, spent_of}
use mnemon.Budget.Ops.{
  find_open, mark, move_held, upsert_cap, fits, metering_invalid, reserve_tx, settle, release,
}
use mnemon.Budget.Resolve.{Resolved, local, ended, settle-Resolved, release-Resolved}
use mnemon.Budget.Balance.{held-move_held, spent-move_held}
use mnemon.Budget.Reserve.{
  reserved_db, reserved-held, reserved-spent, reserve_tx-Admitted, held-upsert, spent-upsert,
  cap-upsert,
}

-- What an account has spent and holds.
abbrev pub used : String → Db → ℤ
used k db = spent_of (lookup k db.accounts) +ℤ held_of (lookup k db.accounts)

-- Every attempt reserves 0 or more.
abbrev pub Floors : Db → Type 0
Floors db = All (λ (a : Attempt). pos 0 ≤ℤ a.reserved) db.attempts

Floors-found :
    (id : String) (l : List Attempt) (a : Attempt)
    → All (λ (x : Attempt). pos 0 ≤ℤ x.reserved) l
    → find_open id l ≡ some a
    → pos 0 ≤ℤ a.reserved
unfolding find_open
Floors-found id [] a f e = cc
Floors-found id (b ∷ l) a f e = elim (Bool-cases (str_eq b.id id && is_open b)) [
  | inl here ↦
      let same : b ≡ a = ground arith in subst (λ (x : Attempt). pos 0 ≤ℤ x.reserved) same f.0
  | inr later ↦ Floors-found id l a f.1 (ground arith)
]

Floors-mark :
    (id : String) (cost input output : ℤ) (l : List Attempt)
    → All (λ (x : Attempt). pos 0 ≤ℤ x.reserved) l
    → All (λ (x : Attempt). pos 0 ≤ℤ x.reserved) (mark id cost input output l)
unfolding mark
Floors-mark id cost input output [] f = tt
Floors-mark id cost input output (b ∷ l) f = (
  elim (Bool-cases (str_eq b.id id && is_open b)) [
    | inl here ↦ rw here f.0
    | inr later ↦ rw later f.0
  ],
  Floors-mark id cost input output l f.1,
)

abbrev HeldBy : String → ℤ → ℤ → Db → String → Bool → Type 0
HeldBy kind held cost db k z =
    held_of (lookup k (move_held kind held cost db.accounts)) +ℤ (if z then held else pos 0)
    ≡ held_of (lookup k db.accounts)

abbrev SpentBy : String → ℤ → ℤ → Db → String → Bool → Type 0
SpentBy kind held cost db k z =
    spent_of (lookup k (move_held kind held cost db.accounts))
    ≡ spent_of (lookup k db.accounts) +ℤ (if z then cost else pos 0)

-- A settlement at no more than what was reserved uses no more.
used-move_held :
    (kind : String) (held cost : ℤ) (db : Db) (attempts : List Attempt) (k : String)
    → (str_eq kind k ≡ true → cost ≤ℤ held)
    → used k (record { accounts = move_held kind held cost db.accounts; attempts = attempts })
      ≤ℤ used k db
used-move_held kind held cost db attempts k h = elim (Option-cases (lookup kind db.accounts)) [
  | inl missing ↦ unfold move_held in rw (missing, move_held) (omega arith)
  | inr (x, found) ↦
      let hs = held-move_held kind held cost db.accounts x found k in
      let ss = spent-move_held kind held cost db.accounts x found k in
      elim (Bool-cases (str_eq kind k)) [
        | inl e ↦
            let hs' = subst (λ (z : Bool). HeldBy kind held cost db k z) e hs in
            let ss' = subst (λ (z : Bool). SpentBy kind held cost db k z) e ss in
            omega (int_laws, parts_of_eq hs', parts_of_eq ss', h e)
        | inr e ↦
            let hs' = subst (λ (z : Bool). HeldBy kind held cost db k z) e hs in
            let ss' = subst (λ (z : Bool). SpentBy kind held cost db k z) e ss in
            omega (int_laws, parts_of_eq hs', parts_of_eq ss')
      ]
]

Resolved-used :
    {test : Attempt → Bool} {id : String} {cost input output : ℤ} {db db' : Db} (k : String)
    → Resolved test id cost input output db db'
    → ((a : Attempt)
        → find_open id db.attempts ≡ some a
        → test a ≡ true
        → str_eq a.kind k ≡ true
        → cost ≤ℤ a.reserved)
    → used k db' ≤ℤ used k db
Resolved-used {db = db} k (local empty same) h =
    subst (λ (z : Db). used k z ≤ℤ used k db) same (omega arith)
Resolved-used {id = id} {cost = cost} {input = input} {output = output} {db = db} k
      (ended a found taken file) h =
    subst (λ (z : Db). used k z ≤ℤ used k db) file
      (used-move_held a.kind a.reserved cost db (mark id cost input output db.attempts) k
        (h a found taken))

Resolved-Floors :
    {test : Attempt → Bool} {id : String} {cost input output : ℤ} {db db' : Db}
    → Resolved test id cost input output db db'
    → Floors db
    → Floors db'
Resolved-Floors (local empty same) f = subst Floors same f
Resolved-Floors {id = id} {cost = cost} {input = input} {output = output} {db = db}
      (ended a found taken file) f =
    subst Floors file (Floors-mark id cost input output db.attempts f)

module _ (id : String) (db db' : Db) where
  -- A settlement that succeeds leaves no account but openai's with more spent and held than before it.
  pub settle-used :
      (u : Usage) (k : String)
      → settle id u db ≡ ok db'
      → str_eq k "openai" ≡ false
      → used k db' ≤ℤ used k db
  settle-used u k e other =
      Resolved-used k (settle-Resolved id u db db' e)
        (λ a found taken same. unfold metering_invalid in ground (arith, eq_iff a.kind k))

  pub release-used : (k : String) → release id db ≡ ok db' → Floors db → used k db' ≤ℤ used k db
  release-used k e f =
      Resolved-used k (release-Resolved id db db' e)
        (λ a found taken same. Floors-found id db.attempts a f found)

  pub settle-Floors : (u : Usage) → settle id u db ≡ ok db' → Floors db → Floors db'
  settle-Floors u e f = Resolved-Floors (settle-Resolved id u db db' e) f

  pub release-Floors : release id db ≡ ok db' → Floors db → Floors db'
  release-Floors e f = Resolved-Floors (release-Resolved id db db' e) f

-- How the use of an account changes when an account has a reservation admitted.
abbrev UsedAfter : String → ℕ → ℤ → Db → String → Db → Type 0
UsedAfter kind share cap db k db' =
    (str_eq kind k ≡ true → scale 10 (used k db') ≤ℤ scale share cap)
    × (str_eq kind k ≡ false → used k db' ≡ used k db)

fits-le :
    (reservation : ℤ) (share : ℕ) (a : Account)
    → fits reservation share a ≡ true
    → scale 10 (a.spent +ℤ a.held +ℤ reservation) ≤ℤ scale share a.cap
unfolding fits
fits-le reservation share a h =
    leb_ℤ→le (scale 10 (a.spent +ℤ a.held +ℤ reservation)) (scale share a.cap) h

abbrev HeldAfter : String → ℤ → Db → Db → String → Bool → Type 0
HeldAfter kind reservation db db' k z =
    held_of (lookup k db'.accounts)
    ≡ held_of (lookup k db.accounts) +ℤ (if z then reservation else pos 0)

-- What an account that passes the check has room for.
room_of :
    (reservation : ℤ) (share : ℕ) (cap : ℤ) (o : Option Account)
    → fits reservation share (upsert_cap cap o) ≡ true
    → scale 10 (spent_of o +ℤ held_of o +ℤ reservation) ≤ℤ scale share cap
room_of reservation share cap o h =
    let a = upsert_cap cap o in
    subst (λ (z : ℤ). scale 10 (z +ℤ held_of o +ℤ reservation) ≤ℤ scale share cap)
      (spent-upsert cap o)
      (subst (λ (z : ℤ). scale 10 (a.spent +ℤ z +ℤ reservation) ≤ℤ scale share cap)
        (held-upsert cap o)
        (subst (λ (z : ℤ). scale 10 (a.spent +ℤ a.held +ℤ reservation) ≤ℤ scale share z)
          (cap-upsert cap o) (fits-le reservation share a h)))

module _ (kind hash : String) (reservation : ℤ) (share : ℕ) (estimate : Usage) (cap : ℤ)
    (id : String) (db : Db) (k : String) where
  reserved-used_same :
      fits reservation share (upsert_cap cap (lookup kind db.accounts)) ≡ true
      → str_eq kind k ≡ true
      → scale 10 (used k (reserved_db kind hash reservation estimate cap id db)) ≤ℤ scale share cap
  reserved-used_same fitted e =
      let db' = reserved_db kind hash reservation estimate cap id db in
      let room =
        subst
          (λ (z : String).
            scale 10
              (spent_of (lookup z db.accounts) +ℤ held_of (lookup z db.accounts) +ℤ reservation)
            ≤ℤ scale share cap)
          ((eq_iff kind k).0 e) (room_of reservation share cap (lookup kind db.accounts) fitted) in
      let rh =
        subst (λ (z : Bool). HeldAfter kind reservation db db' k z) e
          (reserved-held kind hash reservation estimate cap id db k) in
      let rs = reserved-spent kind hash reservation estimate cap id db k in
      omega (int_laws, parts_of_eq rh, parts_of_eq rs, room)

  reserved-used_other :
      str_eq kind k ≡ false
      → used k (reserved_db kind hash reservation estimate cap id db) ≡ used k db
  reserved-used_other e =
      let db' = reserved_db kind hash reservation estimate cap id db in
      let rh =
        subst (λ (z : Bool). HeldAfter kind reservation db db' k z) e
          (reserved-held kind hash reservation estimate cap id db k) in
      let rs = reserved-spent kind hash reservation estimate cap id db k in
      omega (int_laws, parts_of_eq rh, parts_of_eq rs)

-- An admitted reservation leaves what its account has spent and holds within the share of the cap
-- that it was checked against, and what any other account has spent and holds as it was.
pub reserve-used :
    (kind hash : String) (reservation : ℤ) (share : ℕ) (estimate : Usage) (cap : ℤ) (id : String)
    (db db' : Db)
    → reserve_tx kind hash reservation share estimate cap id db ≡ ok db'
    → (k : String)
    → (str_eq kind k ≡ true → scale 10 (used k db') ≤ℤ scale share cap)
      × (str_eq kind k ≡ false → used k db' ≡ used k db)
reserve-used kind hash reservation share estimate cap id db db' e k =
    let a = reserve_tx-Admitted kind hash reservation share estimate cap id db db' e in
    subst (λ (z : Db). UsedAfter kind share cap db k z) a.file
      (
        reserved-used_same kind hash reservation share estimate cap id db k a.fitted,
        reserved-used_other kind hash reservation share estimate cap id db k,
      )
