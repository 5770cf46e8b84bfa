-- ===== src/Sepay/Ingest/Rows.antt =====
-- The rows of an observation and of a kept candidate: the first statement, `finish` and `quarantine`
-- of `IngestSePayNotification` in internal/storage/sepay.go.
use acb_transaction_webhook.Base.{
  String, str_eq, is_blank, Bool, true, false, Option, none, some, [], ◌∷◌, ◌++◌, if◌then◌else◌,
}
use acb_transaction_webhook.Base.Clock.{Instant}
use acb_transaction_webhook.Base.Rows.{has_row, update_rows}
use acb_transaction_webhook.Sepay.Notification.{SepayReason, invalid_template, accepted, duplicate}
use acb_transaction_webhook.Sepay.Tables.{
  TelegramRow, of_reference, of_message, SepayStore, SemanticKey,
}
use acb_transaction_webhook.Sepay.Ingest.{SepayCredit, TelegramInput}
use acb_transaction_webhook.Sepay.Ingest.Judge.{of_update}

abbrev pub review_of : SepayReason → Option SepayReason
review_of accepted = none
review_of duplicate = none
review_of reason = some reason

abbrev pub is_duplicate_reason : SepayReason → Bool
is_duplicate_reason duplicate = true
is_duplicate_reason _ = false

-- The row that the first statement inserts.
unfoldable pub observed_row : TelegramInput → String → String → Instant → TelegramRow
observed_row in_ hash envelope now = record {
  bot_id = in_.bot_id;
  update_id = in_.update_id;
  chat_id = in_.chat_id;
  message_id = in_.message_id;
  payload_hash = hash;
  payload_envelope = envelope;
  store_key = in_.store_key;
  reason = invalid_template;
  transaction_id = none;
  received_at = now;
}

unfoldable pub insert_observation :
    TelegramInput → String → String → Instant → SepayStore → SepayStore
insert_observation in_ hash envelope now st =
    if has_row (of_update in_) st.telegram_inbox
    then st
    else record st { telegram_inbox = st.telegram_inbox ++ observed_row in_ hash envelope now ∷ [] }

unfoldable pub finished_row : SepayReason → Option String → TelegramRow → TelegramRow
finished_row reason transaction r = record r { reason = reason; transaction_id = transaction }

unfoldable pub finish_row : TelegramInput → SepayReason → Option String → SepayStore → SepayStore
finish_row in_ reason transaction st = record st {
  telegram_inbox = update_rows (of_update in_) (finished_row reason transaction) st.telegram_inbox;
}

abbrev pub quarantine_key : TelegramInput → Option SepayCredit → SemanticKey
quarantine_key in_ none = of_message in_.store_key in_.bot_id in_.chat_id in_.message_id
quarantine_key in_ (some credit) =
    if is_blank credit.reference
    then of_message in_.store_key in_.bot_id in_.chat_id in_.message_id
    else of_reference in_.store_key credit.reference

-- The candidate, unless it is kept already.
unfoldable pub insert_candidate :
    String → TelegramInput → SepayReason → String → String → Instant → SepayStore → SepayStore
insert_candidate id in_ reason existing_hash envelope now st =
    if has_row (λ q. str_eq q.id id) st.quarantine then st else record st {
      quarantine =
          st.quarantine
          ++ record {
            id = id;
            store_key = in_.store_key;
            semantic_key = quarantine_key in_ in_.credit;
            existing_hash = existing_hash;
            candidate_envelope = envelope;
            reason = reason;
            created_at = now;
          }
            ∷ [];
    }
