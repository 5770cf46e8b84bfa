-- ===== src/Orders/Reserve.antt =====
-- `ReservePaymentOrder` of internal/storage/payment_orders.go.
pub mod Replay
use Prim.Native.String.{◌++◌ as text_append}
use acb_transaction_webhook.Base.{
  ℕ, zero, suc, ◌+◌, ◌*◌, ◌/◌, ◌%◌, String, str_eq, is_blank, Bool, true, false, not, ◌&&◌, ◌||◌,
  Option, none, some, List, [], ◌∷◌, ◌++◌, Result, ok, err, idempotency_conflict,
  invalid_payment_order, context_done, no_rows, fail_if, ◌>>=◌, ◌>>◌, ltb, ◌==◌, if◌then◌else◌,
}
use acb_transaction_webhook.Base.Clock.{Instant, absent, stamped, minute}
use acb_transaction_webhook.Base.Rows.{has_row}
use acb_transaction_webhook.Store.{
  Origin, static_url, operator_dynamic, other_origin, creating, no_error, PaymentOrder, Database,
  Call, Tx, check_mutation_allowed,
}
use acb_transaction_webhook.Orders.{payment_order_by_key, payment_operation_lease}
use acb_transaction_webhook.Orders.Lease.{read_order}

pub record PaymentOrderIntent : Type 0 where
  pub channel_id : String
  pub idempotency_key : String
  pub request_hash : String
  pub amount_vnd : ℕ
  pub origin : Origin

abbrev pub same_origin : Origin → Origin → Bool
same_origin static_url static_url = true
same_origin operator_dynamic operator_dynamic = true
same_origin (other_origin s) (other_origin t) = str_eq s t
same_origin _ _ = false

abbrev pub is_allowed_origin : Origin → Bool
is_allowed_origin static_url = true
is_allowed_origin operator_dynamic = true
is_allowed_origin (other_origin s) = false

digit_text : ℕ → String
digit_text d =
    if d == 0
    then "0"
    else if d == 1
    then "1"
    else if d == 2
    then "2"
    else if d == 3
    then "3"
    else if d == 4
    then "4"
    else if d == 5
    then "5"
    else if d == 6
    then "6"
    else if d == 7
    then "7"
    else if d == 8
    then "8"
    else "9"

-- `strconv.FormatInt(n, 10)` for a number below 10 ^ fuel.
unfoldable pub decimal_text : ℕ → ℕ → String
unfolding digit_text
decimal_text zero n = ""
decimal_text (suc fuel) n =
    let rest = decimal_text fuel (n / 10) in
    if ltb n 10 then digit_text n else text_append rest (digit_text (n % 10))

-- The draws of `randomPaymentToken` and `randomPaymentOrderCode` for one round of the loop.
abbrev pub Draw : Type 0
Draw = String × ℕ

unfoldable pub new_order : Instant → String → PaymentOrderIntent → Draw → PaymentOrder
new_order now token in_ (id, code) = record {
  id = id;
  order_code = code;
  channel_id = in_.channel_id;
  idempotency_key = in_.idempotency_key;
  request_hash = in_.request_hash;
  amount_vnd = in_.amount_vnd;
  description = text_append "DH" (decimal_text 13 code);
  origin = in_.origin;
  status = creating;
  payment_link_id = "";
  qr_code = "";
  checkout_url = "";
  bank_bin = "";
  account_number = "";
  account_name = "";
  transaction_id = "";
  last_error_code = no_error;
  next_reconcile_at = stamped (now + payment_operation_lease);
  reconcile_attempts = 0;
  operation_token = token;
  operation_lease_until = stamped (now + payment_operation_lease);
  qr_recovery_attempted = false;
  created_at = now;
  updated_at = now;
  expires_at = stamped (now + 30 * minute);
  paid_at = absent;
}

abbrev pub for_key : String → String → PaymentOrder → Bool
for_key channel key o = str_eq o.channel_id channel && str_eq o.idempotency_key key

-- The constraints that `ON CONFLICT DO NOTHING` passes over.
unfoldable pub collides : PaymentOrderIntent → Draw → List PaymentOrder → Bool
collides in_ (id, code) rows =
    has_row (λ o. str_eq o.id id) rows
    || has_row (λ o. o.order_code == code) rows
    || has_row (for_key in_.channel_id in_.idempotency_key) rows

-- The loop over random draws; it ends early only when the context does.
unfoldable pub insert_order :
    Instant → String → PaymentOrderIntent → List Draw → Tx (PaymentOrder × Bool)
insert_order now token in_ [] db = err context_done
insert_order now token in_ (draw ∷ draws) db =
    let retry = insert_order now token in_ draws db in
    let order = new_order now token in_ draw in
    let db' = record db { orders = db.orders ++ order ∷ [] } in
    if collides in_ draw db.orders
    then retry
    else (do order' ← read_order draw.0 db'; ok ((order', true), db'))

abbrev pub differs : PaymentOrderIntent → PaymentOrder → Bool
differs in_ o =
    not (str_eq o.request_hash in_.request_hash)
    || not (o.amount_vnd == in_.amount_vnd)
    || not (same_origin o.origin in_.origin)

unfoldable pub reserve_found :
    Call → String → List Draw → PaymentOrderIntent → Option PaymentOrder → Tx (PaymentOrder × Bool)
reserve_found c token draws in_ (some o) db = do
  fail_if (differs in_ o) idempotency_conflict
  ok ((o, false), db)
reserve_found c token draws in_ none db = do
  check_mutation_allowed c db
  insert_order c.now token in_ draws db

abbrev pub is_invalid_intent : PaymentOrderIntent → Bool
is_invalid_intent in_ =
    is_blank in_.channel_id
    || is_blank in_.idempotency_key
    || is_blank in_.request_hash
    || (in_.amount_vnd == 0)
    || not (is_allowed_origin in_.origin)

unfoldable pub reserve_payment_order :
    Call → String → List Draw → PaymentOrderIntent → Tx (PaymentOrder × Bool)
reserve_payment_order c token draws in_ db = do
  fail_if (is_invalid_intent in_) invalid_payment_order
  reserve_found c token draws in_ (payment_order_by_key in_.channel_id in_.idempotency_key db) db
