-- ===== src/Sepay/Ingest/Carry.antt =====
-- The transaction of `IngestSePayNotification` of internal/storage/sepay.go.
use acb_transaction_webhook.Base.{
  String, Bool, true, false, ◌||◌, Option, none, some, ok, err, fail_if, ◌>>=◌, ◌>>◌, if◌then◌else◌,
  keyring_missing, incomplete_input, invalid_review_reason,
}
use acb_transaction_webhook.Base.Rows.{has_row}
use acb_transaction_webhook.Store.{Call, check_mutation_allowed}
use acb_transaction_webhook.Settlement.Commit.{Fresh}
use acb_transaction_webhook.Sepay.Tables.{payload, inbox_row, Keyring, SepayTx}
use acb_transaction_webhook.Sepay.Ingest.{
  TelegramInput, IngestResult, Digester, sepay_payload_hashes, is_incomplete_input,
  is_invalid_reason, sealed, ensure_sepay_connection, check_sepay_revision,
}
use acb_transaction_webhook.Sepay.Ingest.Judge.{
  Decision, replays, quarantines, finishes, books, of_update, judge_observation,
}
use acb_transaction_webhook.Sepay.Ingest.Rows.{
  review_of, is_duplicate_reason, insert_observation, finish_row, insert_candidate,
}
use acb_transaction_webhook.Sepay.Ingest.Booking.{book_credit}

-- What is written for a decision; `known` says that the update was known before.
unfoldable pub carry_out_decision :
    Keyring
    → Digester
    → Call
    → Fresh
    → TelegramInput
    → Bool
    → String
    → String
    → Decision
    → SepayTx IngestResult
carry_out_decision keys h c f in_ known hash envelope (replays r) st =
    ok (record { is_duplicate = true; review_reason = review_of r.reason; event = none }, st)
carry_out_decision keys h c f in_ known hash envelope (quarantines reason existing_hash) st =
    let kept =
      insert_candidate (h.candidate_id in_ hash reason) in_ reason existing_hash envelope c.now
        st in
    ok (
      record { is_duplicate = false; review_reason = some reason; event = none },
      if known then kept else finish_row in_ reason none kept,
    )
carry_out_decision keys h c f in_ known hash envelope (finishes again reason transaction) st = ok (
  record {
    is_duplicate = again || is_duplicate_reason reason;
    review_reason = review_of reason;
    event = none;
  },
  finish_row in_ reason transaction st,
)
carry_out_decision keys h c f in_ known hash envelope (books credit digest) st =
    book_credit keys h c f in_ credit digest st

-- The function over the transaction.
unfoldable pub ingest_tx :
    Keyring
    → Digester
    → Call
    → Fresh
    → TelegramInput
    → String × String
    → String
    → SepayTx IngestResult
ingest_tx keys h c f in_ hashes envelope st = do
  check_mutation_allowed c st.core
  check_sepay_revision in_.config_revision st
  connected ←
      ensure_sepay_connection keys in_ c.now (insert_observation in_ hashes.0 envelope c.now st)
  decision ← judge_observation keys h in_ hashes.0 hashes.1 st
  carry_out_decision keys h c f in_ (has_row (of_update in_) st.telegram_inbox) hashes.0 envelope
      decision connected

-- `IngestSePayNotification` with the keyring that the store has.
unfoldable pub ingest_sepay_notification :
    Option Keyring → Digester → Call → Fresh → TelegramInput → SepayTx IngestResult
ingest_sepay_notification none h c f in_ st = err keyring_missing
ingest_sepay_notification (some keys) h c f in_ st = do
  fail_if (is_incomplete_input in_) incomplete_input
  fail_if (is_invalid_reason in_.review_reason) invalid_review_reason
  hashes ← sepay_payload_hashes h in_.raw_payload
  envelope ← sealed (keys.seal (payload in_.raw_payload) (inbox_row in_.bot_id in_.update_id))
  ingest_tx keys h c f in_ hashes envelope st
