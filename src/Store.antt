-- ===== src/Store.antt =====
-- The tables behind internal/storage: one row type for each table that the payment path reads or
-- writes, and internal/storage/storage.go's transaction wrapper.
use acb_transaction_webhook.Base.{
  ℕ, String, str_eq, is_blank, Bool, true, false, Option, List, Reason, Result, ok, err,
  provider_config_unavailable, if◌then◌else◌, ◌==◌, ◌>>◌, ◌&&◌,
}
use acb_transaction_webhook.Base.Clock.{Instant, Stamp, text_before}
use acb_transaction_webhook.Base.Rows.{count_rows}
use acb_transaction_webhook.Gate.{Control, check_gate}

pub data OrderStatus : Type 0 where
  creating pending processing underpaid paid cancelled expired failed : OrderStatus

-- A status as a provider or a caller spells it: '', one of the known words, or another text.
pub data StatusText : Type 0 where
  blank : StatusText
  known : OrderStatus → StatusText
  unrecognized : String → StatusText

-- `validPaymentStatus`.
abbrev pub valid_payment_status : StatusText → Bool
valid_payment_status blank = false
valid_payment_status (known s) = true
valid_payment_status (unrecognized s) = false

abbrev pub is_paid : OrderStatus → Bool
is_paid paid = true
is_paid _ = false

-- `last_error_code`; `no_error` is NULL.
pub data ErrorCode : Type 0 where
  no_error create_outcome_unknown invalid_create_response : ErrorCode
  create_rejected_http : ℕ → ErrorCode
  cancel_outcome_unknown qr_recovery_cancelled qr_recovery_cancel_pending : ErrorCode
  provider_unavailable order_mismatch details_pending : ErrorCode

pub data Origin : Type 0 where
  static_url operator_dynamic : Origin
  other_origin : String → Origin

-- A row of payment_orders. "" stands for a NULL text, since the code never stores ''.
pub record PaymentOrder : Type 0 where
  pub id : String
  pub order_code : ℕ
  pub channel_id : String
  pub idempotency_key : String
  pub request_hash : String
  pub amount_vnd : ℕ
  pub description : String
  pub origin : Origin
  pub status : OrderStatus
  pub payment_link_id : String
  pub qr_code : String
  pub checkout_url : String
  pub bank_bin : String
  pub account_number : String
  pub account_name : String
  pub transaction_id : String
  pub last_error_code : ErrorCode
  pub next_reconcile_at : Stamp
  pub reconcile_attempts : ℕ
  pub operation_token : String
  pub operation_lease_until : Stamp
  pub qr_recovery_attempted : Bool
  pub created_at : Instant
  pub updated_at : Instant
  pub expires_at : Stamp
  pub paid_at : Stamp

-- A row of payment_receipts.
pub record Receipt : Type 0 where
  pub channel_id : String
  pub reference : String
  pub order_id : String
  pub payment_link_id : String
  pub amount_vnd : ℕ
  pub transaction_at : Instant
  pub canonical_hash : String
  pub transaction_id : String
  pub received_at : Instant

-- A row of transactions of the connection 'payos-klb', with the columns that the settlement sets
-- from its input.
pub record Transaction : Type 0 where
  pub id : String
  pub semantic_key : String
  pub canonical_hash : String
  pub credit : ℕ
  pub transaction_at : Instant
  pub description : String
  pub first_seen_at : Instant

-- The data of a signed webhook, as the inbox keeps it (payload_json). A text that is missing is "",
-- and the transaction's time is read as time.Parse reads it.
pub record WebhookData : Type 0 where
  pub order_code : ℕ
  pub amount : ℕ
  pub description : String
  pub account_number : String
  pub reference : String
  pub transaction_date_time : Stamp
  pub currency : String
  pub payment_link_id : String
  pub code : String
  pub virtual_account_number : String

-- A row of payos_webhook_inbox.
pub record InboxRow : Type 0 where
  pub payload_hash : String
  pub order_code : ℕ
  pub payment_link_id : String
  pub reference : String
  pub payload : WebhookData
  pub reason : Reason
  pub received_at : Instant
  pub processed_at : Stamp

-- A row of event_journal, with its rowid.
pub record JournalEntry : Type 0 where
  pub seq : ℕ
  pub event_type : String
  pub aggregate_id : String
  pub created_at : Instant

-- A row of events.
pub record EventRow : Type 0 where
  pub id : String
  pub transaction_id : String
  pub event_type : String

-- A row of webhook_endpoints, joined to its active secret.
pub record Endpoint : Type 0 where
  pub id : String
  pub is_active : Bool
  pub current_revision : ℕ
  pub key_id : String

pub data DeliveryStatus : Type 0 where
  waiting in_flight delivered dead_letter : DeliveryStatus

-- A row of deliveries.
pub record Delivery : Type 0 where
  pub id : String
  pub event_id : String
  pub endpoint_id : String
  pub endpoint_revision : ℕ
  pub key_id : String
  pub status : DeliveryStatus
  pub attempts : ℕ
  pub retry_cycle_start_attempt : ℕ
  pub next_attempt_at : Instant
  pub claim_token : String
  pub lease_until : Option Instant

-- A row of delivery_attempts, with its number and its outcome.
pub record Attempt : Type 0 where
  pub id : String
  pub delivery_id : String
  pub attempt_number : ℕ
  pub outcome : String

pub record Operation : Type 0 where
  pub token : String
  pub lease_until : Instant

-- `journal_seq` is the largest seq that event_journal has had (AUTOINCREMENT), also after deletions.
pub record Database : Type 0 where
  pub control : Control
  pub operations : List Operation
  pub orders : List PaymentOrder
  pub receipts : List Receipt
  pub transactions : List Transaction
  pub inbox : List InboxRow
  pub events : List EventRow
  pub journal : List JournalEntry
  pub journal_seq : ℕ
  pub endpoints : List Endpoint
  pub deliveries : List Delivery
  pub attempts : List Attempt

-- What a call is made under: its reading of the clock, and the token of the provider operation
-- that its context carries ("" for none).
pub record Call : Type 0 where
  pub now : Instant
  pub operation : String

-- A function over a SQL transaction: an error rolls the database back.
abbrev pub Tx : Type 0 → Type 0
Tx A = Database → Result (A × Database)

-- The commit of what the function returned, or the rollback to `db`.
unfoldable pub commit : {A : Type 0} → Database → Result (A × Database) → Result A × Database
commit db (ok (a, db')) = (ok a, db')
commit db (err e) = (err e, db)

-- `withTx`: the result, and the database that is left.
unfoldable pub with_tx : {A : Type 0} → Tx A → Database → Result A × Database
with_tx fn db = commit db (fn db)

-- `checkPaymentProviderOperation`.
pub check_operation : Call → Database → Result (Unit {0})
check_operation c db =
    if is_blank c.operation
    then ok tt
    else if count_rows (λ o. str_eq o.token c.operation && text_before c.now o.lease_until)
          db.operations
        == 1
    then ok tt
    else err provider_config_unavailable

-- `checkMutationAllowedTx` and `CheckMutationAllowed`.
unfoldable pub check_mutation_allowed : Call → Database → Result (Unit {0})
unfolding check_operation
check_mutation_allowed c db = check_operation c db >> check_gate c.now db.control
