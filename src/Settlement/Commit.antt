-- ===== src/Settlement/Commit.antt =====
-- The financial commit of `SettlePayment`, and `markSettlementInboxProcessed`.
use Prim.Native.String.{String}
use Prim.Native.String.{◌++◌ as text_append}
use Prim.Native.Char.{code}
use acb_transaction_webhook.Base.{
  ℕ, suc, zero, str_eq, is_blank, Bool, true, false, not, ◌&&◌, ◌||◌, Option, none, some, [], ◌∷◌,
  ◌++◌, Result, ok, err, no_rows, invalid_namespace, no_event, constraint_violation, ◌>>=◌, ◌>>◌,
  fail_if, leb, ◌==◌, if◌then◌else◌,
}
use acb_transaction_webhook.Base.Clock.{Instant, absent, stamped, is_absent}
use acb_transaction_webhook.Base.Rows.{has_row, count_rows, update_rows}
use acb_transaction_webhook.Store.{
  paid, no_error, PaymentOrder, Receipt, Transaction, InboxRow, Database, Call, Tx,
}
use acb_transaction_webhook.Orders.Lease.{link_taken, read_order}
use acb_transaction_webhook.Inbox.{Digests}
use acb_transaction_webhook.Outbox.{EventData, EventNotification, emit_transaction_event}
use acb_transaction_webhook.Settlement.Judge.{SettlementInput, input_account}

-- The random ids that a settlement draws: `id("txn")`, and one `id("del")` for each delivery.
pub record Fresh : Type 0 where
  pub transaction_id : String
  pub delivery_id : ℕ → String

abbrev pub is_hex_digit : ℕ → Bool
is_hex_digit c =
    (leb b'0' c && leb c b'9') || (leb b'a' c && leb c b'f') || (leb b'A' c && leb c b'F')

-- A text of n hexadecimal digits: its length is right and `hex.DecodeString` reads it.
unfoldable pub is_hex_text : ℕ → String → Bool
is_hex_text zero String.[] = true
is_hex_text zero (String.◌∷◌ c s) = false
is_hex_text (suc n) String.[] = false
is_hex_text (suc n) (String.◌∷◌ c s) = is_hex_digit (code c) && is_hex_text n s

abbrev pub namespace_of : Digests → SettlementInput → String
namespace_of h in_ =
    if is_blank in_.channel_namespace then h.channel in_.channel_id else in_.channel_namespace

abbrev pub semantic_key : String → String → String
semantic_key namespace reference =
    text_append (text_append (text_append "PAYOS:" namespace) ":") reference

abbrev pub credit_event : String
credit_event = "bank.transaction.credit"

unfoldable pub new_transaction :
    Call → Fresh → SettlementInput → PaymentOrder → String → String → Transaction
new_transaction c f in_ order hash key = record {
  id = f.transaction_id;
  semantic_key = key;
  canonical_hash = hash;
  credit = in_.amount_vnd;
  transaction_at = in_.transaction_at;
  description = order.description;
  first_seen_at = c.now;
}

unfoldable pub new_receipt : Call → Fresh → SettlementInput → PaymentOrder → String → Receipt
new_receipt c f in_ order hash = record {
  channel_id = in_.channel_id;
  reference = in_.reference;
  order_id = order.id;
  payment_link_id = in_.payment_link_id;
  amount_vnd = in_.amount_vnd;
  transaction_at = in_.transaction_at;
  canonical_hash = hash;
  transaction_id = f.transaction_id;
  received_at = c.now;
}

unfoldable pub paid_row : Call → Fresh → SettlementInput → PaymentOrder → PaymentOrder
paid_row c f in_ o = record o {
  status = paid;
  payment_link_id = in_.payment_link_id;
  account_number = input_account in_;
  transaction_id = f.transaction_id;
  paid_at = stamped in_.transaction_at;
  updated_at = c.now;
  last_error_code = no_error;
  next_reconcile_at = absent;
}

abbrev pub by_id : String → PaymentOrder → Bool
by_id id o = str_eq o.id id

-- The PRIMARY KEY and UNIQUE constraints of the three financial writes.
unfoldable pub violates : Fresh → SettlementInput → PaymentOrder → String → Database → Bool
violates f in_ order key db =
    has_row (λ t. str_eq t.id f.transaction_id || str_eq t.semantic_key key) db.transactions
    || has_row
        (λ r.
          (str_eq r.channel_id in_.channel_id && str_eq r.reference in_.reference)
          || str_eq r.transaction_id f.transaction_id)
        db.receipts
    || link_taken order.id in_.payment_link_id db.orders
    || has_row (λ o. not (str_eq o.id order.id) && str_eq o.transaction_id f.transaction_id)
        db.orders

-- The transaction, its receipt and the order's new state.
unfoldable pub book :
    Call → Fresh → SettlementInput → PaymentOrder → String → String → Database → Database
book c f in_ order hash key db = record db {
  transactions = db.transactions ++ new_transaction c f in_ order hash key ∷ [];
  receipts = db.receipts ++ new_receipt c f in_ order hash ∷ [];
  orders = update_rows (by_id order.id) (paid_row c f in_) db.orders;
}

abbrev pub detected_at : Call → SettlementInput → Instant
detected_at c in_ = if in_.detected_at == 0 then c.now else in_.detected_at

unfoldable pub event_data : Call → Fresh → SettlementInput → PaymentOrder → EventData
event_data c f in_ order = record {
  provider = "PAYOS";
  bank = "KienlongBank";
  order_code = order.order_code;
  payment_origin = order.origin;
  payment_link_id = in_.payment_link_id;
  transaction_id = f.transaction_id;
  transaction_number = in_.reference;
  credit = in_.amount_vnd;
  transaction_at = in_.transaction_at;
  source = in_.source;
  description = order.description;
  detected_at = detected_at c in_;
}

unfoldable pub processed_row : Instant → InboxRow → InboxRow
processed_row now r = record r {
  processed_at = if is_absent r.processed_at then stamped now else r.processed_at;
}

abbrev pub with_hash : String → InboxRow → Bool
with_hash hash r = str_eq r.payload_hash hash

unfoldable pub mark_row : Call → String → Tx (Unit {0})
mark_row c hash db = do
  fail_if (not (count_rows (with_hash hash) db.inbox == 1)) no_rows
  ok (tt, record db { inbox = update_rows (with_hash hash) (processed_row c.now) db.inbox })

-- `markSettlementInboxProcessed`.
unfoldable pub mark_inbox_processed : Call → String → Tx (Unit {0})
mark_inbox_processed c hash db = if is_blank hash then ok (tt, db) else mark_row c hash db

abbrev pub required_event : Option EventNotification → Result EventNotification
required_event none = err no_event
required_event (some e) = ok e

unfoldable pub commit_payment :
    Digests
    → Call
    → Fresh
    → SettlementInput
    → PaymentOrder
    → String
    → Tx (PaymentOrder × EventNotification)
commit_payment h c f in_ order hash db =
    let namespace = namespace_of h in_ in
    let key = semantic_key namespace in_.reference in
    do
      fail_if (not (is_hex_text 32 namespace)) invalid_namespace
      fail_if (violates f in_ order key db) constraint_violation
      emitted ←
          emit_transaction_event f.delivery_id
            (text_append "bevt_" (h.event (text_append "payos:" namespace) key credit_event))
            credit_event (event_data c f in_ order) c.now (book c f in_ order hash key db)
      event ← required_event emitted.0
      marked ← mark_inbox_processed c in_.inbox_hash emitted.1
      order' ← read_order order.id marked.1
      ok ((order', event), marked.1)
