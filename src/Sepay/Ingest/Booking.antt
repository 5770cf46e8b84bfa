-- ===== src/Sepay/Ingest/Booking.antt =====
-- A new credit: `insertSePayCreditTx` of internal/storage/sepay.go, with the receipt and the row that is
-- ACCEPTED.
use acb_transaction_webhook.Base.{
  ◌+◌, ◌*◌, String, str_eq, Bool, false, not, ◌&&◌, ◌||◌, none, some, [], ◌∷◌, ◌++◌, ok, fail_if,
  ◌>>=◌, ◌>>◌, leb, ◌==◌, if◌then◌else◌, constraint_violation,
}
use acb_transaction_webhook.Base.Clock.{Instant, second}
use acb_transaction_webhook.Base.Rows.{has_row}
use acb_transaction_webhook.Store.{Call, other_origin}
use acb_transaction_webhook.Outbox.{
  Source, realtime, catch_up, EventData, EventNotification, emit_transaction_event,
}
use acb_transaction_webhook.Settlement.Commit.{Fresh, credit_event, required_event}
use acb_transaction_webhook.Sepay.Notification.{accepted}
use acb_transaction_webhook.Sepay.Tables.{
  snapshot, details_row, Keyring, SepayReceipt, of_reference, Credit, SepayStore, SepayTx,
}
use acb_transaction_webhook.Sepay.Ingest.{
  SepayCredit, TelegramInput, IngestResult, Digester, sealed,
}
use acb_transaction_webhook.Sepay.Ingest.Judge.{of_receipt}
use acb_transaction_webhook.Sepay.Ingest.Rows.{finish_row}

-- Telegram's message is prompt from 30 seconds before to 2 minutes after its receipt.
unfoldable pub credit_source : Instant → Instant → Source
credit_source now message_at =
    if not (message_at == 0)
      && leb message_at (now + 30 * second)
      && leb now (message_at + 120 * second)
    then realtime
    else catch_up

abbrev pub new_credit : Call → Fresh → TelegramInput → SepayCredit → String → Credit
new_credit c f in_ credit hash = record {
  id = f.transaction_id;
  store_key = in_.store_key;
  reference = credit.reference;
  canonical_hash = hash;
  credit = credit.amount_vnd;
  transaction_at = credit.transaction_at;
  first_seen_at = c.now;
  source = credit_source c.now in_.message_at;
}

abbrev pub new_sepay_receipt : Call → Fresh → TelegramInput → SepayCredit → String → SepayReceipt
new_sepay_receipt c f in_ credit hash = record {
  store_key = in_.store_key;
  bank_code = in_.bank_code;
  account_number = in_.account_number;
  reference = credit.reference;
  canonical_hash = hash;
  transaction_id = f.transaction_id;
  message_id = in_.message_id;
  received_at = c.now;
}

-- The payload of the event; what it has no field for is missing from a message of SePay.
unfoldable pub sepay_event_data : Call → Fresh → TelegramInput → SepayCredit → EventData
sepay_event_data c f in_ credit = record {
  provider = "SEPAY";
  bank = in_.bank_code;
  order_code = 0;
  payment_origin = other_origin "";
  payment_link_id = "";
  transaction_id = f.transaction_id;
  transaction_number = credit.reference;
  credit = credit.amount_vnd;
  transaction_at = credit.transaction_at;
  source = credit_source c.now in_.message_at;
  description = "Thanh toán QR cửa hàng";
  detected_at = c.now;
}

-- The constraints of transactions (one table with those of payOS) and of its details.
unfoldable pub credit_clashes : Fresh → TelegramInput → SepayCredit → SepayStore → Bool
credit_clashes f in_ credit st =
    has_row (λ t. str_eq t.id f.transaction_id) st.core.transactions
    || has_row
        (λ t.
          str_eq t.id f.transaction_id
          || str_eq t.store_key in_.store_key && str_eq t.reference credit.reference)
        st.credits
    || has_row (λ d. str_eq d.transaction_id f.transaction_id) st.details

-- `insertSePayCreditTx`.
unfoldable pub insert_sepay_credit :
    Keyring
    → Digester
    → Call
    → Fresh
    → TelegramInput
    → SepayCredit
    → String
    → SepayTx EventNotification
insert_sepay_credit keys h c f in_ credit hash st =
    let key = of_reference in_.store_key credit.reference in
    do
      fail_if (credit_clashes f in_ credit st) constraint_violation
      envelope ←
          sealed (keys.seal (snapshot credit.notification_details) (details_row f.transaction_id))
      emitted ←
          emit_transaction_event f.delivery_id (h.event key credit_event) credit_event
            (sepay_event_data c f in_ credit) c.now st.core
      event ← required_event emitted.0
      ok (
        event,
        record st {
          core = emitted.1;
          credits = st.credits ++ new_credit c f in_ credit hash ∷ [];
          details =
              st.details
              ++ record { transaction_id = f.transaction_id; details_envelope = envelope } ∷ [];
        },
      )

unfoldable pub receipt_clashes : Fresh → TelegramInput → SepayCredit → SepayStore → Bool
receipt_clashes f in_ credit st =
    has_row (of_receipt in_.store_key credit.reference) st.receipts
    || has_row (λ r. str_eq r.transaction_id f.transaction_id) st.receipts

-- The credit, its receipt and the row that is ACCEPTED.
unfoldable pub book_credit :
    Keyring → Digester → Call → Fresh → TelegramInput → SepayCredit → String → SepayTx IngestResult
book_credit keys h c f in_ credit hash st = do
  inserted ← insert_sepay_credit keys h c f in_ credit hash st
  let next = inserted.1
  fail_if (receipt_clashes f in_ credit next) constraint_violation
  ok (
    record { is_duplicate = false; review_reason = none; event = some inserted.0 },
    finish_row in_ accepted (some f.transaction_id)
        (record next { receipts = next.receipts ++ new_sepay_receipt c f in_ credit hash ∷ [] }),
  )
