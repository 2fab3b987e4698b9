-- ===== src/Outbox/Settle.antt =====
-- internal/agency/authority/peer_delivery_settlement.go: the settlement of a delivery by a signed
-- admission receipt, and the expiry of deliveries (peer_delivery_outbox.go, expirePeerOutboxTx). The
-- table peer_outbox is an association list by delivery identifier; texts of bytes are strings.
use mnemon.Prelude.{
  ℕ, String, Bool, true, false, not, ◌&&◌, ◌||◌, Option, none, some, List, [], ◌∷◌, str_eq, leb,
  if◌then◌else◌,
}
use mnemon.Prelude.Dict.{lookup, insert}

pub data OutboxState : Type 0 where
  pending settled expired : OutboxState

-- The route that a delivery was queued for.
pub record Route : Type 0 where
  pub remote_peer : String
  pub remote_key : String
  pub active : Bool

-- A row of peer_outbox with its route; `settled_at` is also when it expired.
pub record OutboxRow : Type 0 where
  pub state : OutboxState
  pub delivery : String
  pub route : Route
  pub expires_at : ℕ
  pub receipt_digest : Option String
  pub receipt_json : String
  pub receipt_signature : String
  pub settled_at : ℕ

abbrev pub Outbox : Type 0
Outbox = List (String × OutboxRow)

-- A receipt that was parsed: its canonical text, its digest and what is signed of it.
pub record AdmissionReceipt : Type 0 where
  pub canonical : String
  pub digest : String
  pub message : String

-- ParsePeerAdmissionReceiptCanonicalJSON of a text and the delivery that it must answer, and
-- verifyPeerSignature of a key, a message and a signature.
pub record Checks : Type 0 where
  pub parse : String → String → Option AdmissionReceipt
  pub verify : String → String → String → Bool

pub data SettleError : Type 0 where
  incomplete unavailable unauthenticated corrupt conflict too_late : SettleError

-- A receipt, and whether it had been stored before.
pub data Settlement : Type 0 where
  accepted : AdmissionReceipt → Bool → Settlement
  refused : SettleError → Settlement

abbrev pub is_pending : OutboxState → Bool
is_pending pending = true
is_pending _ = false

abbrev pub is_settled : OutboxState → Bool
is_settled settled = true
is_settled _ = false

module _ (c : Checks) where
  unfoldable pub verified : OutboxRow → String → Option AdmissionReceipt → Option AdmissionReceipt
  verified row signature none = none
  verified row signature (some receipt) =
      if c.verify row.route.remote_key receipt.message signature then some receipt else none

  -- The receipt of a text, if it is one and the route's peer signed it.
  abbrev pub authentic : OutboxRow → String → String → Option AdmissionReceipt
  authentic row canonical signature = verified row signature (c.parse canonical row.delivery)

  abbrev pub digest_matches : Option String → AdmissionReceipt → Bool
  digest_matches none receipt = false
  digest_matches (some digest) receipt = str_eq receipt.digest digest

  unfoldable pub compare_stored : OutboxRow → String → String → Option AdmissionReceipt → Settlement
  compare_stored row canonical signature none = refused corrupt
  compare_stored row canonical signature (some stored) =
      if not (digest_matches row.receipt_digest stored)
      then refused corrupt
      else (if not (str_eq row.receipt_json canonical)
            || not (str_eq row.receipt_signature signature)
          then refused conflict
          else accepted stored true)

  unfoldable pub replay_presented :
      OutboxRow → String → String → Option AdmissionReceipt → Settlement
  replay_presented row canonical signature none = refused unauthenticated
  replay_presented row canonical signature (some presented) =
      compare_stored row canonical signature (c.parse row.receipt_json row.delivery)

  unfoldable pub replay : OutboxRow → String → String → String → Settlement
  replay row peer canonical signature =
      if not (str_eq row.route.remote_peer peer)
      then refused unauthenticated
      else replay_presented row canonical signature (authentic row canonical signature)

  abbrev pub settled_row : ℕ → String → AdmissionReceipt → OutboxRow → OutboxRow
  settled_row now signature receipt row = record row {
    state = settled;
    receipt_digest = some receipt.digest;
    receipt_json = receipt.canonical;
    receipt_signature = signature;
    settled_at = now;
  }

  unfoldable pub store_fresh :
      ℕ → String → String → OutboxRow → Outbox → Option AdmissionReceipt → Outbox × Settlement
  store_fresh now id signature row box none = (box, refused unauthenticated)
  store_fresh now id signature row box (some receipt) =
      (insert id (settled_row now signature receipt row) box, accepted receipt false)

  unfoldable pub settle_fresh :
      ℕ → String → String → String → String → OutboxRow → Outbox → Outbox × Settlement
  settle_fresh now peer id canonical signature row box =
      if not (is_pending row.state) || not row.route.active || leb row.expires_at now
      then (box, refused too_late)
      else (if not (str_eq row.route.remote_peer peer)
          then (box, refused unauthenticated)
          else store_fresh now id signature row box (authentic row canonical signature))

  unfoldable pub settle_row :
      ℕ → String → String → String → String → Outbox → Option OutboxRow → Outbox × Settlement
  settle_row now peer id canonical signature box none = (box, refused unavailable)
  settle_row now peer id canonical signature box (some row) =
      if is_settled row.state
      then (box, replay row peer canonical signature)
      else settle_fresh now peer id canonical signature row box

  unfoldable pub settle_delivery :
      ℕ → String → String → String → String → Outbox → Outbox × Settlement
  settle_delivery now peer id canonical signature box =
      if str_eq peer "" || str_eq id "" || str_eq canonical "" || str_eq signature ""
      then (box, refused incomplete)
      else settle_row now peer id canonical signature box (lookup id box)

unfoldable pub expire_row : ℕ → OutboxRow → OutboxRow
expire_row now row =
    if is_pending row.state && leb row.expires_at now
    then record row { state = expired; settled_at = now }
    else row

unfoldable pub expire : ℕ → Outbox → Outbox
expire now [] = []
expire now ((id, row) ∷ box) = (id, expire_row now row) ∷ expire now box
