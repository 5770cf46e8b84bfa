-- ===== src/Inbox.antt =====
-- The inbox of verified callbacks: internal/storage/payos_receipts.go.
pub mod Books
pub mod Pending
pub mod Kept
use acb_transaction_webhook.Base.{
  ℕ, String, str_eq, is_blank, Bool, true, false, not, ◌&&◌, ◌||◌, Option, none, some, List, [],
  ◌∷◌, ◌++◌, Result, ok, err, Error, Reason, awaiting_order_bind, payment_details_pending,
  unknown_order, data_required, bad_time, ◌>>=◌, ◌>>◌, ltb, ◌==◌, if◌then◌else◌,
}
use acb_transaction_webhook.Base.Clock.{
  Instant, Stamp, absent, garbled, stamped, is_absent, parse_stamp,
}
use acb_transaction_webhook.Base.Rows.{find_row, has_row, update_rows, filter_rows}
use acb_transaction_webhook.Store.{
  ErrorCode, details_pending, PaymentOrder, WebhookData, InboxRow, Database, Call, Tx, is_paid,
  check_mutation_allowed,
}
use acb_transaction_webhook.Orders.{payment_order_by_code}
use acb_transaction_webhook.Orders.Lease.{read_stamp}

-- The digests that the store takes of its data, in hexadecimal (crypto/sha256).
pub record Digests : Type 0 where
  pub payload : WebhookData → String
  pub settlement : String → String → String → ℕ → Instant → String
  pub channel : String → String
  pub event : String → String → String → String

-- `VerifiedPaymentCallback`.
pub record VerifiedPaymentCallback : Type 0 where
  pub contents : Option WebhookData
  pub order_code : ℕ
  pub payment_link_id : String
  pub reference : String
  pub reason : Option Reason

-- Callbacks with these reasons wait for an order or for evidence; the others are only reviewed.
abbrev pub is_bind_candidate : Reason → Bool
is_bind_candidate awaiting_order_bind = true
is_bind_candidate payment_details_pending = true
is_bind_candidate unknown_order = true
is_bind_candidate _ = false

abbrev pub is_pending_work : Reason → Bool
is_pending_work awaiting_order_bind = true
is_pending_work payment_details_pending = true
is_pending_work _ = false

abbrev pub is_details_pending : Reason → Bool
is_details_pending payment_details_pending = true
is_details_pending _ = false

abbrev pub is_unknown_order : Reason → Bool
is_unknown_order unknown_order = true
is_unknown_order _ = false

abbrev pub is_open_row : InboxRow → Bool
is_open_row r = is_absent r.processed_at

unfoldable pub woken_row : Instant → Instant → PaymentOrder → PaymentOrder
woken_row now due o = record o { next_reconcile_at = stamped due; updated_at = now }

abbrev pub wake_target : String → PaymentOrder → Bool
wake_target id o = str_eq o.id id && not (is_paid o.status)

-- The instant at which new evidence is looked at: at once, or when a live lease ends.
unfoldable pub wake_time : Instant → Stamp → Result Instant
wake_time now lease =
    if is_absent lease
    then ok now
    else (do until ← read_stamp lease; ok (if ltb now until then until else now))

unfoldable pub wake_order : Call → PaymentOrder → Tx (Unit {0})
wake_order c o db = do
  due ← wake_time c.now o.operation_lease_until
  ok (tt, record db { orders = update_rows (wake_target o.id) (woken_row c.now due) db.orders })

-- `wakePaymentOrderInboxTx`.
unfoldable pub wake_found : Call → Option PaymentOrder → Tx (Unit {0})
wake_found c none db = ok (tt, db)
wake_found c (some o) db = if is_paid o.status then ok (tt, db) else wake_order c o db

unfoldable pub wake_payment_order_inbox : Call → ℕ → Tx (Unit {0})
wake_payment_order_inbox c code db = wake_found c (payment_order_by_code code db) db

unfoldable pub marked_row : PaymentOrder → PaymentOrder
marked_row o = record o { last_error_code = details_pending }

-- `UPDATE payment_orders SET last_error_code='PAYMENT_DETAILS_PENDING' …`.
unfoldable pub mark_details_pending : Reason → ℕ → Database → Database
mark_details_pending reason code db =
    if is_details_pending reason
    then record db {
      orders =
          update_rows (λ o. (o.order_code == code) && not (is_paid o.status)) marked_row db.orders;
    }
    else db

abbrev pub inbox_row : String → Database → Option InboxRow
inbox_row hash db = find_row (λ r. str_eq r.payload_hash hash) db.inbox

-- A candidate that is known already and turns out to conflict becomes review-only.
unfoldable pub demote_row : Reason → InboxRow → InboxRow
demote_row reason r = record r { reason = reason }

abbrev pub demotable : String → InboxRow → Bool
demotable hash r = str_eq r.payload_hash hash && is_open_row r && is_bind_candidate r.reason

unfoldable pub insert_known : String → Reason → Tx String
insert_known hash reason db = ok (
  hash,
  if is_bind_candidate reason
      then db
      else record db { inbox = update_rows (demotable hash) (demote_row reason) db.inbox },
)

unfoldable pub insert_new :
    Call → String → WebhookData → VerifiedPaymentCallback → Reason → Tx String
insert_new c hash body callback reason db =
    let row : InboxRow = record {
      payload_hash = hash;
      order_code = callback.order_code;
      payment_link_id = callback.payment_link_id;
      reference = callback.reference;
      payload = body;
      reason = reason;
      received_at = c.now;
      processed_at = absent;
    } in
    let db' = record db { inbox = db.inbox ++ row ∷ [] } in
    if is_pending_work reason
    then (do
      woken ← wake_payment_order_inbox c callback.order_code db'
      ok (hash, mark_details_pending reason callback.order_code woken.1))
    else ok (hash, db')

unfoldable pub insert_body :
    Call → String → WebhookData → VerifiedPaymentCallback → Reason → Tx String
insert_body c hash body callback reason db =
    if has_row (λ r. str_eq r.payload_hash hash) db.inbox
    then insert_known hash reason db
    else insert_new c hash body callback reason db

unfoldable pub insert_parts :
    Digests → Call → VerifiedPaymentCallback → Option WebhookData → Option Reason → Tx String
insert_parts h c callback none why db = err data_required
insert_parts h c callback (some body) none db = err data_required
insert_parts h c callback (some body) (some reason) db =
    insert_body c (h.payload body) body callback reason db

-- `canonicalPaymentCallback` and `insertPaymentInboxTx`.
unfoldable pub insert_payment_inbox : Digests → Call → VerifiedPaymentCallback → Tx String
insert_payment_inbox h c callback db =
    insert_parts h c callback callback.contents callback.reason db

unfoldable pub save_verified_payment_callback : Digests → Call → VerifiedPaymentCallback → Tx String
save_verified_payment_callback h c callback db = do
  check_mutation_allowed c db
  insert_payment_inbox h c callback db
