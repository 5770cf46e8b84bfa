-- ===== src/Orders.antt =====
-- The order store: internal/storage/payment_orders.go.
pub mod Reserve
pub mod Lease
pub mod Due
use acb_transaction_webhook.Base.{
  String, str_eq, Bool, Option, none, some, ◌&&◌, is_blank, if◌then◌else◌, not, ℕ, ◌==◌, ◌*◌,
}
use acb_transaction_webhook.Base.Clock.{second}
use acb_transaction_webhook.Base.Rows.{find_row}
use acb_transaction_webhook.Store.{PaymentOrder, Database}

-- `PaymentOperationLease`.
abbrev pub payment_operation_lease : ℕ
payment_operation_lease = 30 * second

-- `PaymentOrder`, `PaymentOrderByCode`, `PaymentOrderByKey`.
abbrev pub payment_order : String → Database → Option PaymentOrder
payment_order id db = find_row (λ o. str_eq o.id id) db.orders

abbrev pub payment_order_by_code : ℕ → Database → Option PaymentOrder
payment_order_by_code code db = find_row (λ o. o.order_code == code) db.orders

abbrev pub payment_order_by_key : String → String → Database → Option PaymentOrder
payment_order_by_key channel key db =
    find_row (λ o. str_eq o.channel_id channel && str_eq o.idempotency_key key) db.orders
