-- ===== src/Inbox/Pending.antt =====
-- `PendingPaymentCallbacks` and `WakePendingPaymentCallbacks` of internal/storage/payos_receipts.go.
use acb_transaction_webhook.Base.{
  ℕ, String, str_eq, Bool, ◌&&◌, ◌||◌, List, [], ◌∷◌, ok, ◌>>=◌, ◌>>◌, ltb, ◌==◌, take,
  if◌then◌else◌, awaiting_order_bind,
}
use acb_transaction_webhook.Base.Clock.{text_key}
use acb_transaction_webhook.Base.Rows.{has_row, filter_rows, update_rows}
use acb_transaction_webhook.Base.Sorting.{text_lt, sort_rows}
use acb_transaction_webhook.Store.{InboxRow, Database, Call, Tx, check_mutation_allowed}
use acb_transaction_webhook.Inbox.{
  is_open_row, is_pending_work, is_unknown_order, demote_row, wake_payment_order_inbox,
}

-- ORDER BY received_at, payload_hash.
unfoldable pub received_before : InboxRow → InboxRow → Bool
received_before a b =
    ltb (text_key a.received_at) (text_key b.received_at)
    || ((text_key a.received_at == text_key b.received_at) && text_lt a.payload_hash b.payload_hash)

abbrev pub waits_for : ℕ → InboxRow → Bool
waits_for code r = (r.order_code == code) && is_open_row r && is_pending_work r.reason

unfoldable pub pending_payment_callbacks : ℕ → Database → List InboxRow
pending_payment_callbacks code db =
    sort_rows received_before (filter_rows (waits_for code) db.inbox)

-- SELECT DISTINCT of numbers in their order.
unfoldable pub distinct : List ℕ → List ℕ
distinct [] = []
distinct (x ∷ []) = x ∷ []
distinct (x ∷ y ∷ xs) = let rest = distinct (y ∷ xs) in if x == y then rest else x ∷ rest

abbrev code_of : List InboxRow → List ℕ
code_of [] = []
code_of (r ∷ rs) = r.order_code ∷ code_of rs

abbrev pub is_unbound : String → Database → InboxRow → Bool
is_unbound channel db r =
    is_unknown_order r.reason
    && is_open_row r
    && has_row (λ o. (o.order_code == r.order_code) && str_eq o.channel_id channel) db.orders

unfoldable pub unbound_codes : String → Database → List ℕ
unbound_codes channel db =
    take 20 (distinct (sort_rows ltb (code_of (filter_rows (is_unbound channel db) db.inbox))))

abbrev pub promotable : ℕ → InboxRow → Bool
promotable code r = (r.order_code == code) && is_unknown_order r.reason && is_open_row r

unfoldable pub promote_codes : Call → List ℕ → Tx (Unit {0})
promote_codes c [] db = ok (tt, db)
promote_codes c (code ∷ codes) db =
    let db' = record db {
      inbox = update_rows (promotable code) (demote_row awaiting_order_bind) db.inbox;
    } in
    do woken ← wake_payment_order_inbox c code db'; promote_codes c codes woken.1

unfoldable pub wake_pending_payment_callbacks : Call → String → Tx (Unit {0})
wake_pending_payment_callbacks c channel db = do
  check_mutation_allowed c db
  promote_codes c (unbound_codes channel db) db
