-- ===== src/Outbox/Receipts.antt =====
-- internal/agency/authority/peer_delivery_settlement.go: a settlement is final, and its receipt can be
-- presented again.
use mnemon.Prelude.{
  ℕ, ◌≡◌, refl, sym, subst, ap, ◌∙◌, String, Bool, true, false, not, ◌||◌, Option, none, some,
  some-injective, [], ◌∷◌, str_eq, eq_iff, leb, if◌then◌else◌, if-cases, Bool-cases, inl, inr,
  arith,
}
use mnemon.Prelude.Dict.{lookup, insert, lookup-insert}
use mnemon.Outbox.Settle.{
  settled, OutboxRow, Outbox, AdmissionReceipt, Checks, incomplete, unauthenticated, too_late,
  Settlement, accepted, refused, is_pending, is_settled, verified, authentic, compare_stored,
  replay_presented, replay, settled_row, store_fresh, settle_fresh, settle_row, settle_delivery,
  expire_row, expire,
}

-- What a row keeps of the receipt that settled it.
pub record Proven (c : Checks) (peer canonical signature : String) (r : AdmissionReceipt)
    (row : OutboxRow) : Type 0 where
  pub state : row.state ≡ settled
  pub sender : row.route.remote_peer ≡ peer
  pub digest : row.receipt_digest ≡ some r.digest
  pub json : row.receipt_json ≡ canonical
  pub signed : row.receipt_signature ≡ signature
  pub parsed : c.parse canonical row.delivery ≡ some r
  pub checked : c.verify row.route.remote_key r.message signature ≡ true

-- The outbox has a row that such a receipt settled.
pub record Kept (c : Checks) (peer id canonical signature : String) (r : AdmissionReceipt)
    (box : Outbox) : Type 0 where
  pub row : OutboxRow
  pub found : lookup id box ≡ some row
  pub proven : Proven c peer canonical signature r row

-- What becomes of an outbox: a delivery is queued under an identifier that is not there, one is
-- settled or not, the old ones expire, or a route is switched on or off.
pub data Step (c : Checks) : Outbox → Outbox → Type 0 where
  queues :
      (box : Outbox) (id : String) (row : OutboxRow)
      → lookup id box ≡ none
      → Step c box (insert id row box)
  settles :
      (box : Outbox) (now : ℕ) (peer id canonical signature : String)
      → Step c box (settle_delivery c now peer id canonical signature box).0
  expires : (box : Outbox) (now : ℕ) → Step c box (expire now box)
  switches :
      (box : Outbox) (id : String) (row : OutboxRow) (on : Bool)
      → lookup id box ≡ some row
      → Step c box (insert id (record row { route = record row.route { active = on } }) box)

pub data Reach (c : Checks) (box : Outbox) : Outbox → Type 0 where
  here : Reach c box box
  later : {x y : Outbox} → Reach c box x → Step c x y → Reach c box y

expired_row : ℕ → Option OutboxRow → Option OutboxRow
expired_row now none = none
expired_row now (some row) = some (expire_row now row)

lookup-expire :
    (now : ℕ) (id : String) (box : Outbox)
    → lookup id (expire now box) ≡ expired_row now (lookup id box)
unfolding expire expired_row
lookup-expire now id [] = refl
lookup-expire now id ((j, row) ∷ box) = ground (arith, lookup-expire now id box)

module _ (c : Checks) (peer id canonical signature : String) (r : AdmissionReceipt) where
  abbrev Keeps : Outbox → Type 0
  Keeps box = Kept c peer id canonical signature r box

  insert-Kept :
      (i : String) (row : OutboxRow) (box : Outbox)
      → Keeps box
      → (i ≡ id → Proven c peer canonical signature r row)
      → Keeps (insert i row box)
  insert-Kept i row box k proven = elim (Bool-cases (str_eq i id)) [
    | inl e ↦ record {
      row = row;
      found = lookup-insert i id row box ∙ ground (arith, e);
      proven = proven ((eq_iff i id).0 e);
    }
    | inr e ↦ record {
      row = k.row;
      found = lookup-insert i id row box ∙ ground (arith, e, k.found);
      proven = k.proven;
    }
  ]

  same_row :
      (i : String) (row : OutboxRow) (box : Outbox) (k : Keeps box)
      → lookup i box ≡ some row
      → i ≡ id
      → k.row ≡ row
  same_row i row box k e same =
      some-injective k.row row (sym k.found ∙ ap (λ (x : String). lookup x box) (sym same) ∙ e)

  -- A row that is not settled is another one.
  other_row :
      (i : String) (row : OutboxRow) (box : Outbox)
      → Keeps box
      → lookup i box ≡ some row
      → is_settled row.state ≡ false
      → i ≡ id
      → ⊥
  other_row i row box k e unsettled same =
      let state : row.state ≡ settled =
        subst (λ (x : OutboxRow). x.state ≡ settled) (same_row i row box k e same) k.proven.state in
      ground (arith, unsettled, ap is_settled state)

  store_fresh-Kept :
      (now : ℕ) (i s : String) (row : OutboxRow) (box : Outbox) (o : Option AdmissionReceipt)
      → Keeps box
      → (i ≡ id → ⊥)
      → Keeps (store_fresh c now i s row box o).0
  unfolding store_fresh
  store_fresh-Kept now i s row box none k other = k
  store_fresh-Kept now i s row box (some receipt) k other =
      insert-Kept i (settled_row c now s receipt row) box k (λ e. absurd (other e))

  settle_fresh-Kept :
      (now : ℕ) (p i t s : String) (row : OutboxRow) (box : Outbox)
      → Keeps box
      → (i ≡ id → ⊥)
      → Keeps (settle_fresh c now p i t s row box).0
  unfolding settle_fresh
  settle_fresh-Kept now p i t s row box k other =
      let state : Outbox × Settlement → Type 0 = λ x. Keeps x.0 in
      if-cases state (not (is_pending row.state) || not row.route.active || leb row.expires_at now)
        (box, refused too_late)
        (if not (str_eq row.route.remote_peer p)
          then (box, refused unauthenticated)
          else store_fresh c now i s row box (authentic c row t s))
        (λ h. k)
        (λ h.
          if-cases state (not (str_eq row.route.remote_peer p)) (box, refused unauthenticated)
            (store_fresh c now i s row box (authentic c row t s)) (λ h'. k)
            (λ h'. store_fresh-Kept now i s row box (authentic c row t s) k other))

  settle_row-Kept :
      (now : ℕ) (p i t s : String) (box : Outbox) (o : Option OutboxRow)
      → Keeps box
      → lookup i box ≡ o
      → Keeps (settle_row c now p i t s box o).0
  unfolding settle_row
  settle_row-Kept now p i t s box none k e = k
  settle_row-Kept now p i t s box (some row) k e =
      if-cases (λ (x : Outbox × Settlement). Keeps x.0) (is_settled row.state)
        (box, replay c row p t s) (settle_fresh c now p i t s row box) (λ h. k)
        (λ h. settle_fresh-Kept now p i t s row box k (other_row i row box k e h))

  -- Another settlement leaves a settled row alone.
  settle_delivery-Kept :
      (now : ℕ) (p i t s : String) (box : Outbox)
      → Keeps box
      → Keeps (settle_delivery c now p i t s box).0
  unfolding settle_delivery
  settle_delivery-Kept now p i t s box k =
      if-cases (λ (x : Outbox × Settlement). Keeps x.0)
        (str_eq p "" || str_eq i "" || str_eq t "" || str_eq s "") (box, refused incomplete)
        (settle_row c now p i t s box (lookup i box)) (λ h. k)
        (λ h. settle_row-Kept now p i t s box (lookup i box) k refl)

  expire_row-settled : (now : ℕ) (row : OutboxRow) → row.state ≡ settled → expire_row now row ≡ row
  unfolding expire_row
  expire_row-settled now row e = rw (ap is_pending e) refl

  Step-Kept : {x y : Outbox} → Step c x y → Keeps x → Keeps y
  unfolding expired_row
  Step-Kept (queues box i row missing) k =
      insert-Kept i row box k
        (λ e. absurd (ground (arith, missing, k.found, ap (λ (x : String). lookup x box) e)))
  Step-Kept (settles box now p i t s) k = settle_delivery-Kept now p i t s box k
  Step-Kept (expires box now) k = record {
    row = k.row;
    found =
        lookup-expire now id box
        ∙ ap (expired_row now) k.found
        ∙ ap (λ (x : OutboxRow). some x) (expire_row-settled now k.row k.proven.state);
    proven = k.proven;
  }
  Step-Kept (switches box i row on e) k =
      insert-Kept i (record row { route = record row.route { active = on } }) box k
        (λ same.
          subst
            (λ (x : OutboxRow).
              Proven c peer canonical signature r
                (record x { route = record x.route { active = on } }))
            (same_row i row box k e same)
            (record {
              state = k.proven.state;
              sender = k.proven.sender;
              digest = k.proven.digest;
              json = k.proven.json;
              signed = k.proven.signed;
              parsed = k.proven.parsed;
              checked = k.proven.checked;
            }))

  pub Reach-Kept : {x y : Outbox} → Reach c x y → Keeps x → Keeps y
  Reach-Kept here k = k
  Reach-Kept (later path st) k = Step-Kept st (Reach-Kept path k)

  -- A row that a receipt settled answers it again.
  pub Kept-replay :
      (now : ℕ) (box : Outbox)
      → (str_eq peer "" || str_eq id "" || str_eq canonical "" || str_eq signature "") ≡ false
      → Keeps box
      → settle_delivery c now peer id canonical signature box ≡ (box, accepted r true)
  unfolding settle_delivery settle_row replay replay_presented verified compare_stored
  Kept-replay now box complete k =
      let p = k.proven in
      let parsed : c.parse k.row.receipt_json k.row.delivery ≡ some r =
        subst (λ (x : String). c.parse x k.row.delivery ≡ some r) (sym p.json) p.parsed in
      rw
        (
          complete,
          k.found,
          ap is_settled p.state,
          (eq_iff k.row.route.remote_peer peer).1 p.sender,
          p.parsed,
          p.checked,
          parsed,
          p.digest,
          (eq_iff r.digest r.digest).1 refl,
          (eq_iff k.row.receipt_json canonical).1 p.json,
          (eq_iff k.row.receipt_signature signature).1 p.signed,
        )
        refl
