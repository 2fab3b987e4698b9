-- ===== src/Outbox/Examples.antt =====
-- internal/agency/authority/peer_delivery_settlement.go: an outbox with one delivery, on which the
-- theorems are used.
use mnemon.Prelude.{
  ◌≡◌, refl, sym, ap, String, true, false, none, some, some-injective, [], ◌∷◌, str_eq,
}
use mnemon.Outbox.Settle.{
  pending, OutboxRow, Outbox, AdmissionReceipt, Checks, accepted, verified, store_fresh,
  settle_fresh, settle_row, settle_delivery, expire,
}
use mnemon.Outbox.Receipts.{here, later, expires}
use mnemon.Outbox.Final.{settle_delivery_final}

abbrev receipt : String → AdmissionReceipt
receipt text = record { canonical = text; digest = "digest"; message = "message" }

abbrev checks : Checks
checks = record {
  parse = λ text delivery. some (receipt text);
  verify = λ key message signature. str_eq signature "signed";
}

abbrev row : OutboxRow
row = record {
  state = pending;
  delivery = "delivery";
  route = record { remote_peer = "peer"; remote_key = "key"; active = true };
  expires_at = 10;
  receipt_digest = none;
  receipt_json = "";
  receipt_signature = "";
  settled_at = 0;
}

abbrev queued : Outbox
queued = ("1", row) ∷ []

abbrev after : Outbox
after = (settle_delivery checks 5 "peer" "1" "text" "signed" queued).0

parses :
    (text delivery : String) (x : AdmissionReceipt)
    → checks.parse text delivery ≡ some x
    → x.canonical ≡ text
parses text delivery x h =
    ap (λ (y : AdmissionReceipt). y.canonical) (sym (some-injective (receipt text) x h))

after-accepted :
    (settle_delivery checks 5 "peer" "1" "text" "signed" queued).1 ≡ accepted (receipt "text") false
unfolding settle_delivery settle_row settle_fresh store_fresh verified
after-accepted = refl

settle_delivery_final_example :
    settle_delivery checks 30 "peer" "1" "text" "signed" (expire 20 after)
    ≡ (expire 20 after, accepted (receipt "text") true)
settle_delivery_final_example =
    settle_delivery_final checks "peer" "1" "text" "signed" (receipt "text") parses 5 queued
      (expire 20 after) 30 after-accepted (later here (expires after 20))
