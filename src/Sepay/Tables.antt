-- ===== src/Sepay/Tables.antt =====
-- The tables of the SePay intake, behind internal/storage/sepay.go and its migrations, beside those of
-- the payment path.
use acb_transaction_webhook.Base.{ℕ, String, Bool, false, Option, List, Result, ok, err, ◌==◌}
use acb_transaction_webhook.Base.Clock.{Instant}
use acb_transaction_webhook.Store.{Database}
use acb_transaction_webhook.Outbox.{Source}
use acb_transaction_webhook.Reconcile.{ℤ, pos, negsuc}
use acb_transaction_webhook.Sepay.Texts.{Text}
use acb_transaction_webhook.Sepay.Notification.{SepayReason}

-- `SePayNotificationDetails`.
pub record Details : Type 0 where
  pub balance_vnd : Option ℤ
  pub description : Text

-- What is sealed, and the data that a seal is bound to.
pub data Plain : Type 0 where
  payload : String → Plain
  account : Text → Plain
  snapshot : Details → Plain

pub data Binding : Type 0 where
  inbox_row : ℕ → ℤ → Binding
  connection_row : String → Binding
  details_row : String → Binding

-- The master keyring: an envelope of a plain text, and the plain text of an envelope.
pub record Keyring : Type 0 where
  pub seal : Plain → Binding → Option String
  pub unseal : String → Binding → Option Plain

-- A row of sepay_telegram_inbox.
pub record TelegramRow : Type 0 where
  pub bot_id : ℕ
  pub update_id : ℤ
  pub chat_id : ℤ
  pub message_id : ℕ
  pub payload_hash : String
  pub payload_envelope : String
  pub store_key : String
  pub reason : SepayReason
  pub transaction_id : Option String
  pub received_at : Instant

-- A row of sepay_receipts.
pub record SepayReceipt : Type 0 where
  pub store_key : String
  pub bank_code : String
  pub account_number : Text
  pub reference : String
  pub canonical_hash : String
  pub transaction_id : String
  pub message_id : ℕ
  pub received_at : Instant

-- A row of connections with the id 'sepay-store:' and its key.
pub record Connection : Type 0 where
  pub store_key : String
  pub bank_code : String
  pub account_envelope : String
  pub created_at : Instant
  pub updated_at : Instant

-- A semantic key, before it is written as a text.
pub data SemanticKey : Type 0 where
  of_reference : String → String → SemanticKey
  of_message : String → ℕ → ℤ → ℕ → SemanticKey

-- A row of transactions of a connection 'sepay-store:'.
pub record Credit : Type 0 where
  pub id : String
  pub store_key : String
  pub reference : String
  pub canonical_hash : String
  pub credit : ℕ
  pub transaction_at : Instant
  pub first_seen_at : Instant
  pub source : Source

-- A row of transaction_quarantine.
pub record Quarantined : Type 0 where
  pub id : String
  pub store_key : String
  pub semantic_key : SemanticKey
  pub existing_hash : String
  pub candidate_envelope : String
  pub reason : SepayReason
  pub created_at : Instant

-- A row of sepay_notification_details.
pub record DetailsRow : Type 0 where
  pub transaction_id : String
  pub details_envelope : String

-- The whole store; `config_revision` is the one of sepay_managed_config, 0 without a row.
pub record SepayStore : Type 0 where
  pub core : Database
  pub config_revision : ℕ
  pub connections : List Connection
  pub telegram_inbox : List TelegramRow
  pub receipts : List SepayReceipt
  pub credits : List Credit
  pub quarantine : List Quarantined
  pub details : List DetailsRow

abbrev pub int_eq : ℤ → ℤ → Bool
int_eq (pos m) (pos n) = m == n
int_eq (negsuc m) (negsuc n) = m == n
int_eq _ _ = false

abbrev pub SepayTx : Type 0 → Type 0
SepayTx A = SepayStore → Result (A × SepayStore)

-- `withTx`, on the whole store.
unfoldable pub commit_sepay :
    {A : Type 0} → SepayStore → Result (A × SepayStore) → Result A × SepayStore
commit_sepay st (ok (a, next)) = (ok a, next)
commit_sepay st (err e) = (err e, st)
