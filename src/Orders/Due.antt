-- ===== src/Orders/Due.antt =====
-- `DuePaymentOrders` of internal/storage/payment_orders.go.
use acb_transaction_webhook.Base.{
  ℕ, ◌+◌, ◌*◌, ◌/◌, ◌^◌, String, str_eq, is_blank, Bool, false, not, ◌&&◌, ◌||◌, none, some, List,
  ltb, leb, ◌==◌, take, if◌then◌else◌,
}
use acb_transaction_webhook.Base.Clock.{Instant, Stamp, parse_stamp, text_key}
use acb_transaction_webhook.Base.Rows.{filter_rows}
use acb_transaction_webhook.Base.Sorting.{text_lt, sort_rows}
use acb_transaction_webhook.Store.{PaymentOrder, Database, is_paid}

-- `julianday` keeps milliseconds, to the nearest.
abbrev pub julian_ms : Instant → ℕ
julian_ms t = (t + 5 * 10 ^ 5) / 10 ^ 6

-- `julianday(column) <= julianday(?)`; NULL is not.
abbrev pub reached : Instant → Stamp → Bool
reached now s = elim (parse_stamp s) [ none ↦ false | some t ↦ leb (julian_ms t) (julian_ms now) ]

-- The test of the SELECT.
unfoldable pub is_due_row : String → Instant → PaymentOrder → Bool
is_due_row channel now o =
    str_eq o.channel_id channel
    && not (is_paid o.status)
    && reached now o.next_reconcile_at
    && (is_blank o.operation_token || reached now o.operation_lease_until)

abbrev due_key : Stamp → ℕ
due_key s = elim (parse_stamp s) [ none ↦ 0 | some t ↦ text_key t ]

-- ORDER BY next_reconcile_at, id.
unfoldable pub due_before : PaymentOrder → PaymentOrder → Bool
due_before a b =
    ltb (due_key a.next_reconcile_at) (due_key b.next_reconcile_at)
    || ((due_key a.next_reconcile_at == due_key b.next_reconcile_at) && text_lt a.id b.id)

abbrev pub passed : Instant → Stamp → Bool
passed now s = elim (parse_stamp s) [ none ↦ false | some t ↦ leb t now ]

-- The exact tests on the rows that were read.
unfoldable pub is_due_now : Instant → PaymentOrder → Bool
is_due_now now o =
    passed now o.next_reconcile_at
    && (is_blank o.operation_token || passed now o.operation_lease_until)

abbrev pub due_limit : ℕ → ℕ
due_limit limit = if (limit == 0) || ltb 20 limit then 20 else limit

unfoldable pub due_payment_orders : String → Instant → ℕ → Database → List PaymentOrder
due_payment_orders channel now limit db =
    filter_rows (is_due_now now) (
      take (due_limit limit)
        (sort_rows due_before (filter_rows (is_due_row channel now) db.orders)))
