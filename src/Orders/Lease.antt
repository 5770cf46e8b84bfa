-- ===== src/Orders/Lease.antt =====
-- `ClaimPaymentOrder`, `RenewPaymentOrderOperation`, `CompletePaymentOrderOperation` and
-- `DuePaymentOrders` of internal/storage/payment_orders.go.
pub mod Claims
pub mod Completion
pub mod Overtaken
use acb_transaction_webhook.Base.{
  ℕ, ◌+◌, ◌*◌, String, str_eq, is_blank, Bool, true, false, not, ◌&&◌, ◌||◌, Option, none, some,
  List, Result, ok, err, Error, operation_lost, invalid_payment_order, no_rows, bad_time,
  constraint_violation, fail_if, ◌>>=◌, ◌>>◌, ltb, leb, ◌==◌, if◌then◌else◌, max,
}
use acb_transaction_webhook.Base.Clock.{Instant, Stamp, absent, stamped, parse_stamp, is_absent}
use acb_transaction_webhook.Base.Rows.{find_row, has_row, update_rows, count_rows}
use acb_transaction_webhook.Store.{
  OrderStatus, creating, processing, paid, is_paid, StatusText, blank, known, unrecognized,
  valid_payment_status, ErrorCode, no_error, PaymentOrder, Database, Call, Tx,
  check_mutation_allowed,
}
use acb_transaction_webhook.Orders.{payment_order, payment_operation_lease}

-- The stored text, or the error of `time.Parse`.
abbrev pub read_stamp : Stamp → Result Instant
read_stamp s = elim (parse_stamp s) [ none ↦ err bad_time | some t ↦ ok t ]

abbrev pub read_order : String → Database → Result PaymentOrder
read_order id db = elim (payment_order id db) [ none ↦ err no_rows | some o ↦ ok o ]

-- `next := lease`, or the schedule that stands, if it is later than the lease's end.
unfoldable pub next_after_lease : Instant → Stamp → Result Stamp
next_after_lease lease next =
    if is_absent next
    then ok (stamped lease)
    else (do due ← read_stamp next; ok (if ltb lease due then next else stamped lease))

-- Does a token hold the order at this instant?
unfoldable pub lease_holds : Instant → PaymentOrder → Result Bool
lease_holds now o =
    if is_blank o.operation_token
    then ok false
    else (do until ← read_stamp o.operation_lease_until; ok (ltb now until))

-- The columns that a claim sets.
unfoldable pub claimed_row : Instant → String → Stamp → PaymentOrder → PaymentOrder
claimed_row now token next o = record o {
  operation_token = token;
  operation_lease_until = stamped (now + payment_operation_lease);
  updated_at = now;
  next_reconcile_at = next;
}

abbrev pub claim_target : String → String → PaymentOrder → Bool
claim_target id token o = str_eq o.id id && not (is_paid o.status) && str_eq o.operation_token token

-- The conditional UPDATE of a claim, and the read of its result.
unfoldable pub write_claim :
    String → String → Instant → Stamp → PaymentOrder → Tx (PaymentOrder × Bool)
write_claim token id now next order db =
    let target = claim_target id order.operation_token in
    let db' = record db { orders = update_rows target (claimed_row now token next) db.orders } in
    do order' ← read_order id db'; ok ((order', count_rows target db.orders == 1), db')

unfoldable pub take_over :
    Call → String → String → Instant → PaymentOrder → Tx (PaymentOrder × Bool)
take_over c token id now order db = do
  check_mutation_allowed c db
  next ← next_after_lease (now + payment_operation_lease) order.next_reconcile_at
  write_claim token id now next order db

unfoldable pub claim_open :
    Call → String → String → Instant → PaymentOrder → Tx (PaymentOrder × Bool)
claim_open c token id now order db = do
  holds ← lease_holds now order
  (if holds then ok ((order, false), db) else take_over c token id now order db)

-- `claim_payment_order c token id at`: `at` is the caller's clock (0 for the zero time), `token` the new
-- random token. The result is the order and whether it was claimed.
unfoldable pub claim_payment_order : Call → String → String → Instant → Tx (PaymentOrder × Bool)
claim_payment_order c token id at db =
    let now = if at == 0 then c.now else at in
    do
      order ← read_order id db
      (if is_paid order.status then ok ((order, false), db) else claim_open c token id now order db)

-- The columns that a renewal sets.
unfoldable pub renewed_row : Instant → Bool → Stamp → PaymentOrder → PaymentOrder
renewed_row now recovery next o = record o {
  operation_lease_until = stamped (now + payment_operation_lease);
  next_reconcile_at = next;
  qr_recovery_attempted = o.qr_recovery_attempted || recovery;
  updated_at = now;
}

abbrev pub holder : String → String → PaymentOrder → Bool
holder id token o = str_eq o.id id && str_eq o.operation_token token

abbrev pub held_order : String → String → Database → Result PaymentOrder
held_order id token db = elim (find_row (holder id token) db.orders) [
  | none ↦ err operation_lost
  | some o ↦ ok o
]

unfoldable pub renew_payment_order_operation : Call → String → String → Bool → Tx PaymentOrder
renew_payment_order_operation c id token recovery db = do
  fail_if (is_blank token) operation_lost
  current ← held_order id token db
  fail_if (is_paid current.status) operation_lost
  check_mutation_allowed c db
  next ← next_after_lease (c.now + payment_operation_lease) current.next_reconcile_at
  let target = λ (o : PaymentOrder). holder id token o && not (is_paid o.status)
  fail_if (not (count_rows target db.orders == 1)) operation_lost
  let db' = record db { orders = update_rows target (renewed_row c.now recovery next) db.orders }
  order ← read_order id db'
  ok (order, db')

-- `PaymentOrderUpdate`.
pub record PaymentOrderUpdate : Type 0 where
  pub status : StatusText
  pub payment_link_id : String
  pub qr_code : String
  pub checkout_url : String
  pub bank_bin : String
  pub account_number : String
  pub account_name : String
  pub last_error_code : ErrorCode
  pub next_reconcile_at : Instant
  pub reconcile_attempts : ℕ
  pub reset_reconcile_attempts : Bool
  pub qr_recovery_attempted : Bool

-- `COALESCE(column, NULLIF(?, ''))`.
abbrev pub coalesce : String → String → String
coalesce column value = if is_blank column then value else column

abbrev pub status_after : StatusText → OrderStatus → OrderStatus
status_after (known s) current = if is_paid current then current else s
status_after blank current = current
status_after (unrecognized s) current = current

abbrev pub is_paid_text : StatusText → Bool
is_paid_text (known s) = is_paid s
is_paid_text blank = false
is_paid_text (unrecognized s) = false

abbrev pub is_requested : StatusText → Bool
is_requested blank = false
is_requested (known s) = true
is_requested (unrecognized s) = true

-- CREATING and PROCESSING are not looked at again before the lease ends.
abbrev pub is_in_flight : OrderStatus → Bool
is_in_flight creating = true
is_in_flight processing = true
is_in_flight _ = false

abbrev pub wanted_status : StatusText → OrderStatus → OrderStatus
wanted_status (known s) current = s
wanted_status blank current = current
wanted_status (unrecognized s) current = current

abbrev pub to_stamp : Instant → Stamp
to_stamp t = if t == 0 then absent else stamped t

-- `next`, after the test against the operation's lease.
unfoldable pub next_on_completion : PaymentOrderUpdate → PaymentOrder → Result Stamp
next_on_completion u current =
    if is_in_flight (wanted_status u.status current.status)
    then (do
      lease ← read_stamp current.operation_lease_until
      ok (
          if u.next_reconcile_at == 0 || ltb u.next_reconcile_at lease
          then current.operation_lease_until
          else stamped u.next_reconcile_at))
    else ok (to_stamp u.next_reconcile_at)

-- The columns that a completion sets.
unfoldable pub completed_row : Instant → PaymentOrderUpdate → Stamp → PaymentOrder → PaymentOrder
completed_row now u next o = record o {
  status = status_after u.status o.status;
  payment_link_id = coalesce o.payment_link_id u.payment_link_id;
  qr_code = coalesce o.qr_code u.qr_code;
  checkout_url = coalesce o.checkout_url u.checkout_url;
  bank_bin = coalesce o.bank_bin u.bank_bin;
  account_number = coalesce o.account_number u.account_number;
  account_name = coalesce o.account_name u.account_name;
  last_error_code = if is_paid o.status then o.last_error_code else u.last_error_code;
  next_reconcile_at = if is_paid o.status then absent else next;
  reconcile_attempts =
      if u.reset_reconcile_attempts then 0 else max o.reconcile_attempts u.reconcile_attempts;
  qr_recovery_attempted = o.qr_recovery_attempted || u.qr_recovery_attempted;
  operation_token = "";
  operation_lease_until = absent;
  updated_at = now;
}

-- UNIQUE(payment_link_id): another order has the link already. NULLs do not clash.
abbrev pub link_taken : String → String → List PaymentOrder → Bool
link_taken id link orders =
    not (is_blank link)
    && has_row (λ o. not (str_eq o.id id) && str_eq o.payment_link_id link) orders

unfoldable pub complete_payment_order_operation :
    Call → String → String → PaymentOrderUpdate → Tx PaymentOrder
complete_payment_order_operation c id token u db = do
  fail_if (is_blank token) operation_lost
  fail_if (is_requested u.status && (not (valid_payment_status u.status) || is_paid_text u.status))
      invalid_payment_order
  current ← held_order id token db
  next ← next_on_completion u current
  let link = coalesce current.payment_link_id u.payment_link_id
  fail_if (link_taken id link db.orders) constraint_violation
  fail_if (not (count_rows (holder id token) db.orders == 1)) operation_lost
  let db' = record db {
    orders = update_rows (holder id token) (completed_row c.now u next) db.orders;
  }
  check_mutation_allowed c db
  order ← read_order id db'
  ok (order, db')
