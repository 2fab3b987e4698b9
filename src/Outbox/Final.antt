-- ===== src/Outbox/Final.antt =====
-- internal/agency/authority/peer_delivery_settlement.go: a receipt that was accepted answers for good.
use mnemon.Prelude.{
  ℕ, ◌≡◌, refl, subst, ap, ◌∙◌, String, Bool, true, false, not, ◌||◌, Option, none, some, str_eq,
  eq_iff, leb, if◌then◌else◌, if-cases, arith, guarded,
}
use mnemon.Prelude.Dict.{lookup, lookup-insert}
use mnemon.Outbox.Settle.{
  OutboxRow, Outbox, AdmissionReceipt, Checks, SettleError, incomplete, unavailable,
  unauthenticated, too_late, Settlement, accepted, refused, is_pending, is_settled, verified,
  authentic, compare_stored, replay_presented, replay, settled_row, store_fresh, settle_fresh,
  settle_row, settle_delivery,
}
use mnemon.Outbox.Receipts.{Kept, Reach, Reach-Kept, Kept-replay}

module _ (c : Checks) (peer id canonical signature : String) (r : AdmissionReceipt) where
  abbrev Keeps : Outbox → Type 0
  Keeps box = Kept c peer id canonical signature r box

  abbrev Accepts : Outbox × Settlement → Type 0
  Accepts x = x.1 ≡ accepted r false → Keeps x.0

  receipt_of : Settlement → AdmissionReceipt
  receipt_of (accepted x again) = x
  receipt_of (refused e) = r

  is_new : Settlement → Bool
  is_new (accepted x again) = not again
  is_new (refused e) = false

  refused_again : (e : SettleError) → refused e ≡ accepted r false → ⊥
  unfolding is_new
  refused_again e h = ground (arith, ap is_new h)

  not_accepted : (e : SettleError) (box : Outbox) → Accepts (box, refused e)
  not_accepted e box h = absurd (refused_again e h)

  verified-exact :
      (row : OutboxRow) (o : Option AdmissionReceipt) (x : AdmissionReceipt)
      → verified c row signature o ≡ some x
      → (o ≡ some x) × (c.verify row.route.remote_key x.message signature ≡ true)
  unfolding verified
  verified-exact row none x h = absurd (ground (arith, h))
  verified-exact row (some y) x h =
      let (good, same) = guarded (c.verify row.route.remote_key y.message signature) y x h in
      subst
        (λ (z : AdmissionReceipt).
          (some y ≡ some z) × (c.verify row.route.remote_key z.message signature ≡ true))
        same (refl, good)

  module _
      (parses : (text delivery : String) (x : AdmissionReceipt)
        → c.parse text delivery ≡ some x
        → x.canonical ≡ text) where
    store_fresh-Accepts :
        (now : ℕ) (row : OutboxRow) (box : Outbox) (o : Option AdmissionReceipt)
        → authentic c row canonical signature ≡ o
        → row.route.remote_peer ≡ peer
        → Accepts (store_fresh c now id signature row box o)
    unfolding store_fresh receipt_of
    store_fresh-Accepts now row box none e sender h = not_accepted unauthenticated box h
    store_fresh-Accepts now row box (some x) e sender h =
        let (parsed, checked) = verified-exact row (c.parse canonical row.delivery) x e in
        let same : x ≡ r = ap receipt_of h in
        record {
          row = settled_row c now signature x row;
          found =
              lookup-insert id id (settled_row c now signature x row) box
              ∙ ground (arith, eq_iff id id);
          proven = record {
            state = refl;
            sender = sender;
            digest = ap (λ (z : AdmissionReceipt). some z.digest) same;
            json = parses canonical row.delivery x parsed;
            signed = refl;
            parsed =
                subst (λ (z : AdmissionReceipt). c.parse canonical row.delivery ≡ some z) same
                  parsed;
            checked =
                subst
                  (λ (z : AdmissionReceipt).
                    c.verify row.route.remote_key z.message signature ≡ true)
                  same checked;
          };
        }

    settle_fresh-Accepts :
        (now : ℕ) (row : OutboxRow) (box : Outbox)
        → Accepts (settle_fresh c now peer id canonical signature row box)
    unfolding settle_fresh
    settle_fresh-Accepts now row box =
        if-cases Accepts
          (not (is_pending row.state) || not row.route.active || leb row.expires_at now)
          (box, refused too_late)
          (if not (str_eq row.route.remote_peer peer)
            then (box, refused unauthenticated)
            else store_fresh c now id signature row box (authentic c row canonical signature))
          (λ h. not_accepted too_late box)
          (λ h.
            if-cases Accepts (not (str_eq row.route.remote_peer peer))
              (box, refused unauthenticated)
              (store_fresh c now id signature row box (authentic c row canonical signature))
              (λ other. not_accepted unauthenticated box)
              (λ same.
                store_fresh-Accepts now row box (authentic c row canonical signature) refl
                  ((eq_iff row.route.remote_peer peer).0 (ground (arith, same)))))

    compare_stored-known :
        (row : OutboxRow) (o : Option AdmissionReceipt)
        → is_new (compare_stored c row canonical signature o) ≡ false
    unfolding compare_stored is_new
    compare_stored-known row none = refl
    compare_stored-known row (some x) = ground arith

    replay_presented-known :
        (row : OutboxRow) (o : Option AdmissionReceipt)
        → is_new (replay_presented c row canonical signature o) ≡ false
    unfolding replay_presented is_new
    replay_presented-known row none = refl
    replay_presented-known row (some x) =
        compare_stored-known row (c.parse row.receipt_json row.delivery)

    -- A replay stores nothing.
    replay-known : (row : OutboxRow) → is_new (replay c row peer canonical signature) ≡ false
    unfolding replay is_new
    replay-known row =
        if-cases (λ (x : Settlement). is_new x ≡ false) (not (str_eq row.route.remote_peer peer))
          (refused unauthenticated)
          (replay_presented c row canonical signature (authentic c row canonical signature))
          (λ h. refl) (λ h. replay_presented-known row (authentic c row canonical signature))

    settle_row-Accepts :
        (now : ℕ) (box : Outbox) (o : Option OutboxRow)
        → Accepts (settle_row c now peer id canonical signature box o)
    unfolding settle_row is_new
    settle_row-Accepts now box none h = not_accepted unavailable box h
    settle_row-Accepts now box (some row) h =
        if-cases Accepts (is_settled row.state) (box, replay c row peer canonical signature)
          (settle_fresh c now peer id canonical signature row box)
          (λ e new. absurd (ground (arith, replay-known row, ap is_new new)))
          (λ e. settle_fresh-Accepts now row box) h

    abbrev Ready : Outbox × Settlement → Type 0
    Ready x =
        x.1 ≡ accepted r false
        → ((str_eq peer "" || str_eq id "" || str_eq canonical "" || str_eq signature "") ≡ false)
          × Keeps x.0

    settle_delivery-Ready :
        (now : ℕ) (box : Outbox) → Ready (settle_delivery c now peer id canonical signature box)
    unfolding settle_delivery
    settle_delivery-Ready now box =
        if-cases Ready
          (str_eq peer "" || str_eq id "" || str_eq canonical "" || str_eq signature "")
          (box, refused incomplete)
          (settle_row c now peer id canonical signature box (lookup id box))
          (λ e h. absurd (refused_again incomplete h))
          (λ e h. (e, settle_row-Accepts now box (lookup id box) h))

    -- Once a receipt settled a delivery, it answers that receipt, with its signature, for good: whatever
    -- deliveries are queued, settled or expire and however their routes are switched, to present it again
    -- at any later time gives the stored receipt, says that it is a replay, and changes nothing.
    -- A receipt parses only from its canonical text.
    pub settle_delivery_final :
        (now : ℕ) (box y : Outbox) (later_on : ℕ)
        → (settle_delivery c now peer id canonical signature box).1 ≡ accepted r false
        → Reach c (settle_delivery c now peer id canonical signature box).0 y
        → settle_delivery c later_on peer id canonical signature y ≡ (y, accepted r true)
    settle_delivery_final now box y later_on h path =
        let (complete, kept) = settle_delivery-Ready now box h in
        Kept-replay c peer id canonical signature r later_on y complete
          (Reach-Kept c peer id canonical signature r path kept)
