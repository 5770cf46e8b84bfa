-- ===== src/Sepay/Ingest.antt =====
-- `IngestSePayNotification` of internal/storage/sepay.go: its input and the guards before its
-- decision.
pub mod Judge
pub mod Rows
pub mod Booking
pub mod Carry
pub mod Due
pub mod Effect
pub mod Once
use acb_transaction_webhook.Base.{
  ℕ, ◌+◌, ◌-◌, ◌*◌, String, str_eq, is_blank, Bool, true, false, not, ◌&&◌, ◌||◌, Option, none,
  some, List, [], ◌∷◌, ◌++◌, length, Result, ok, err, Error, fail_if, ◌>>=◌, ◌>>◌, ltb, leb, ◌==◌,
  is_some, if◌then◌else◌, keyring_missing, incomplete_input, invalid_review_reason, invalid_payload,
  seal_failed, receiver_mismatch, revision_conflict, no_rows, constraint_violation, no_event,
}
use acb_transaction_webhook.Base.Clock.{Instant, second}
use acb_transaction_webhook.Base.Rows.{find_row, has_row, update_rows}
use acb_transaction_webhook.Store.{Database, Call, check_mutation_allowed, other_origin}
use acb_transaction_webhook.Outbox.{
  Source, realtime, catch_up, EventData, EventNotification, emit_transaction_event,
}
use acb_transaction_webhook.Settlement.Commit.{Fresh, credit_event, required_event}
use acb_transaction_webhook.Reconcile.{ℤ, pos, negsuc}
use acb_transaction_webhook.Payments.Create.{max_safe_integer}
use acb_transaction_webhook.Payments.Json.{Fields, no_fields, field}
use acb_transaction_webhook.Sepay.Texts.{Text, same, trim_space}
use acb_transaction_webhook.Sepay.Notification.{
  SepayReason, invalid_template, outgoing, account_mismatch, invalid_amount,
  invalid_transaction_date, missing_reference, edited_message, reference_conflict, accepted,
  duplicate, observation, pre_activation,
}
use acb_transaction_webhook.Sepay.Tables.{
  Details, payload, account, snapshot, inbox_row, connection_row, details_row, Keyring, TelegramRow,
  SepayReceipt, Connection, of_reference, of_message, Credit, Quarantined, DetailsRow, SepayStore,
  SepayTx, SemanticKey, Plain, int_eq, commit_sepay,
}

pub data Mode : Type 0 where
  active observe : Mode
  other_mode : String → Mode

-- `SePayCredit`; 0 for an amount that is not positive.
pub record SepayCredit : Type 0 where
  pub amount_vnd : ℕ
  pub reference : String
  pub transaction_at : Instant
  pub notification_details : Details

-- `SePayNotificationInput`, with `none` for the empty reason.
pub record TelegramInput : Type 0 where
  pub store_key : String
  pub bank_code : String
  pub account_number : Text
  pub mode : Mode
  pub review_reason : Option SepayReason
  pub bot_id : ℕ
  pub update_id : ℤ
  pub chat_id : ℤ
  pub message_id : ℕ
  pub config_revision : ℕ
  pub activation_at : Instant
  pub message_at : Instant
  pub raw_payload : String
  pub credit : Option SepayCredit

-- `SePayIngestResult`.
pub record IngestResult : Type 0 where
  pub is_duplicate : Bool
  pub review_reason : Option SepayReason
  pub event : Option EventNotification

-- The JSON of a raw payload (one object, nothing behind it), and the digests. `message` is the digest
-- of an object's canonical text.
pub record Digester : Type 0 where
  pub size : String → ℕ
  pub decode : String → Option Fields
  pub object : Fields → String
  pub canonical : TelegramInput → SepayCredit → String
  pub candidate_id : TelegramInput → String → SepayReason → String
  pub event : SemanticKey → String → String

abbrev without_key : String → Fields → Fields
without_key key no_fields = no_fields
without_key key (field k v rest) =
    if str_eq k key then without_key key rest else field k v (without_key key rest)

-- `sepayPayloadHashes`: the digests of the payload, and of its message whatever update carries it.
unfoldable pub sepay_payload_hashes : Digester → String → Result (String × String)
sepay_payload_hashes h raw =
    if (h.size raw == 0) || ltb (64 * 1024) (h.size raw)
    then err invalid_payload
    else elim (h.decode raw) [
      | none ↦ err invalid_payload
      | some value ↦ ok (h.object value, h.object (without_key "update_id" value))
    ]

-- `validSePayReviewReason`.
abbrev pub valid_sepay_review_reason : SepayReason → Bool
valid_sepay_review_reason accepted = false
valid_sepay_review_reason duplicate = false
valid_sepay_review_reason observation = false
valid_sepay_review_reason pre_activation = false
valid_sepay_review_reason _ = true

abbrev pub is_ingesting : Mode → Bool
is_ingesting active = true
is_ingesting observe = true
is_ingesting (other_mode s) = false

abbrev pub is_negative : ℤ → Bool
is_negative (pos n) = false
is_negative (negsuc n) = true

unfoldable pub is_incomplete_input : TelegramInput → Bool
is_incomplete_input in_ =
    is_blank in_.store_key
    || is_blank in_.bank_code
    || (length in_.account_number == 0)
    || (in_.bot_id == 0)
    || is_negative in_.update_id
    || not (is_negative in_.chat_id)
    || (in_.message_id == 0)
    || not (is_ingesting in_.mode)
    || (in_.activation_at == 0)

abbrev pub is_invalid_reason : Option SepayReason → Bool
is_invalid_reason none = false
is_invalid_reason (some reason) = not (valid_sepay_review_reason reason)

-- `checkSePayRevisionTx`.
unfoldable pub check_sepay_revision : ℕ → SepayStore → Result (Unit {0})
check_sepay_revision expected st = fail_if (not (expected == st.config_revision)) revision_conflict

abbrev pub sealed : Option String → Result String
sealed none = err seal_failed
sealed (some envelope) = ok envelope

abbrev pub of_store : String → Connection → Bool
of_store store c = str_eq c.store_key store

-- Does the connection of the store stand for this receiver?
unfoldable pub check_receiver : TelegramInput → Connection → Option Plain → Result (Unit {0})
check_receiver in_ c (some (account number)) =
    fail_if (not (same number in_.account_number)) receiver_mismatch
check_receiver in_ c _ = err seal_failed

abbrev pub add_connection : TelegramInput → Instant → SepayStore → String → SepayStore
add_connection in_ now st envelope = record st {
  connections =
      st.connections
      ++ record {
        store_key = in_.store_key;
        bank_code = in_.bank_code;
        account_envelope = envelope;
        created_at = now;
        updated_at = now;
      }
        ∷ [];
}

unfoldable pub ensure_found :
    Keyring → TelegramInput → Instant → Option Connection → SepayStore → Result SepayStore
ensure_found keys in_ now (some c) st = do
  fail_if (not (str_eq c.bank_code in_.bank_code) || is_blank c.account_envelope) receiver_mismatch
  check_receiver in_ c (keys.unseal c.account_envelope (connection_row in_.store_key))
  ok (record st {
    connections =
        update_rows (of_store in_.store_key) (λ d. record d { updated_at = now }) st.connections;
  })
ensure_found keys in_ now none st = do
  envelope ← sealed (keys.seal (account in_.account_number) (connection_row in_.store_key))
  ok (add_connection in_ now st envelope)

-- `ensureSePayConnectionTx`.
unfoldable pub ensure_sepay_connection :
    Keyring → TelegramInput → Instant → SepayStore → Result SepayStore
ensure_sepay_connection keys in_ now st =
    ensure_found keys in_ now (find_row (of_store in_.store_key) st.connections) st
