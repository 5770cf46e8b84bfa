-- ===== src/Payments/Create.antt =====
-- `CreateOrder` of internal/payments/order_create.go.
use Prim.Native.Char.{code}
use Prim.Native.String.{◌++◌ as text_append}
use acb_transaction_webhook.Base.{
  ℕ, zero, suc, ◌+◌, ◌/◌, ◌-◌, String, str_eq, is_blank, Bool, true, false, not, ◌&&◌, ◌||◌, Option,
  none, some, List, Result, ok, err, Error, invalid_amount, invalid_origin, invalid_idempotency_key,
  idempotency_conflict, payment_unavailable, payments_disabled, webhook_unconfirmed, provider_error,
  operation_lost, ltb, leb, ◌==◌, if◌then◌else◌,
}
use acb_transaction_webhook.Base.Clock.{Instant, Stamp, parse_stamp, second, minute}
use acb_transaction_webhook.Store.{
  Origin, static_url, operator_dynamic, other_origin, StatusText, known, creating, pending,
  create_outcome_unknown, invalid_create_response, create_rejected_http, PaymentOrder, Database,
  Call,
}
use acb_transaction_webhook.Orders.{payment_order_by_key}
use acb_transaction_webhook.Orders.Lease.{
  PaymentOrderUpdate, read_order, complete_payment_order_operation,
}
use acb_transaction_webhook.Orders.Reserve.{
  PaymentOrderIntent, Draw, is_allowed_origin, decimal_text, reserve_payment_order,
}
use acb_transaction_webhook.Settlement.Judge.{is_space_only}
use acb_transaction_webhook.Reconcile.{no_update}
use acb_transaction_webhook.Payments.{
  Settings, Readiness, ready, unconfigured, disabled, unconfirmed, unavailable, readiness,
  CreateRequest, CreateResponse, Step, Url, Environment, ◌>>=◌, return, fail, attempt, look, store,
  query, admit, releasing, ask_create,
}

abbrev pub max_safe_integer : ℕ
max_safe_integer = 9007199254740991

abbrev origin_text : Origin → String
origin_text static_url = "STATIC_URL"
origin_text operator_dynamic = "OPERATOR_DYNAMIC"
origin_text (other_origin s) = s

-- `paymentRequestHash`, with SHA-256 in hexadecimal as an argument.
unfoldable pub payment_request_hash : (String → String) → ℕ → Origin → String
payment_request_hash digest amount origin =
    digest (text_append (text_append (decimal_text 16 amount) "\n") (origin_text origin))

abbrev is_lower_hex : ℕ → Bool
is_lower_hex c = (leb b'0' c && leb c b'9') || (leb b'a' c && leb c b'f')

-- The loop of `canonicalUUID`, from position i on.
unfoldable pub uuid_places : ℕ → String → Bool
uuid_places i String.[] = true
uuid_places i (String.◌∷◌ c s) =
    (if (i == 8) || (i == 13) || (i == 18) || (i == 23)
      then code c == b'-'
      else is_lower_hex (code c))
    && uuid_places (suc i) s

abbrev code_at : ℕ → String → ℕ
code_at i String.[] = 0
code_at zero (String.◌∷◌ c s) = code c
code_at (suc i) (String.◌∷◌ c s) = code_at i s

abbrev text_length : String → ℕ
text_length String.[] = 0
text_length (String.◌∷◌ c s) = suc (text_length s)

-- `canonicalUUID`. Bytes and characters are counted alike: the loop refuses a text where they differ.
unfoldable pub canonical_uuid : String → Bool
canonical_uuid value =
    (text_length value == 36)
    && leb b'1' (code_at 14 value)
    && leb (code_at 14 value) b'8'
    && ((code_at 19 value == b'8')
        || (code_at 19 value == b'9')
        || (code_at 19 value == b'a')
        || (code_at 19 value == b'b'))
    && uuid_places 0 value

abbrev pub is_pending_text : StatusText → Bool
is_pending_text (known pending) = true
is_pending_text _ = false

unfoldable pub is_checkout_url : Option Url → Bool
is_checkout_url none = false
is_checkout_url (some u) =
    str_eq u.scheme "https"
    && str_eq u.hostname "pay.payos.vn"
    && not u.has_user
    && (is_blank u.port || str_eq u.port "443")

-- `validCreateResponse`; `none` is a nil response.
unfoldable pub valid_create_response :
    (String → Option Url) → PaymentOrder → Option CreateResponse → Bool
valid_create_response parse_url order none = false
valid_create_response parse_url order (some r) =
    (r.order_code == order.order_code)
    && (r.amount == order.amount_vnd)
    && str_eq r.currency "VND"
    && is_pending_text r.status
    && not (is_space_only r.payment_link_id)
    && not (is_space_only r.qr_code)
    && not (is_space_only r.bin)
    && not (is_space_only r.account_number)
    && not (is_space_only r.account_name)
    && is_checkout_url (parse_url r.checkout_url)

-- A rejection that is certain: not a timeout, not a throttling, not the provider's own failure.
unfoldable pub is_rejection : ℕ → Bool → Bool
is_rejection http_status indeterminate =
    not indeterminate
    && leb 400 http_status
    && ltb http_status 500
    && not (http_status == 408)
    && not (http_status == 429)

abbrev pub later : Instant → Instant → Instant
later a b = if ltb b a then a else b

-- The update of the order behind a failed Create.
unfoldable pub failed_create : Instant → Instant → Error → PaymentOrderUpdate
failed_create now lease (provider_error http_status retry_after indeterminate) = record no_update {
  status = known creating;
  last_error_code =
      if is_rejection http_status indeterminate
      then create_rejected_http http_status
      else create_outcome_unknown;
  next_reconcile_at = later (now + retry_after) lease;
}
failed_create now lease _ = record no_update {
  status = known creating;
  last_error_code = create_outcome_unknown;
  next_reconcile_at = lease;
}

-- The link that a valid response describes.
unfoldable pub linked_update : Instant → CreateResponse → PaymentOrderUpdate
linked_update now r = record no_update {
  status = known pending;
  payment_link_id = r.payment_link_id;
  qr_code = r.qr_code;
  checkout_url = r.checkout_url;
  bank_bin = r.bin;
  account_number = r.account_number;
  account_name = r.account_name;
  next_reconcile_at = now + minute;
}

unfoldable pub invalid_create : Instant → PaymentOrderUpdate
invalid_create lease = record no_update {
  status = known creating;
  last_error_code = invalid_create_response;
  next_reconcile_at = lease;
}

-- What the answer of Create makes of the order.
unfoldable pub create_update :
    (String → Option Url)
    → Instant
    → Instant
    → PaymentOrder
    → Result (Option CreateResponse)
    → PaymentOrderUpdate
create_update parse_url now lease order (err e) = failed_create now lease e
create_update parse_url now lease order (ok none) = invalid_create lease
create_update parse_url now lease order (ok (some r)) =
    if valid_create_response parse_url order (some r)
    then linked_update now r
    else invalid_create lease

-- Unix time begins 62135596800 seconds after Go's zero time.
abbrev pub unix : Instant → ℕ
unix t = t / second - 62135596800

unfoldable pub create_request : Settings → PaymentOrder → Instant → CreateRequest
create_request s order expires =
    let capability_url = text_append (text_append s.public_origin "/pay/") order.id in
    record {
      order_code = order.order_code;
      amount = order.amount_vnd;
      description = order.description;
      return_url = capability_url;
      cancel_url = capability_url;
      expired_at = unix expires;
    }

abbrev pub stamp_or_unavailable : Stamp → Step Instant
stamp_or_unavailable stamp = elim (parse_stamp stamp) [
  | none ↦ fail payment_unavailable
  | some t ↦ return t
]

abbrev stored_order : String → Call → Database → Result PaymentOrder
stored_order id c db = read_order id db

unfoldable pub reread : Result PaymentOrder → Step (PaymentOrder × Bool)
reread (ok order) = return (order, true)
reread (err e) = fail payment_unavailable

-- The write of the outcome, and what is read instead if the operation was lost meanwhile.
unfoldable pub after_completion : String → String → Result PaymentOrder → Step (PaymentOrder × Bool)
after_completion operation id (ok order) = return (order, true)
after_completion operation id (err operation_lost) = do
  read ← attempt (query operation (stored_order id))
  reread read
after_completion operation id (err e) = fail payment_unavailable

abbrev pub is_invalid_amount : Settings → ℕ → Bool
is_invalid_amount s amount = (amount == 0) || ltb s.max_amount amount || ltb max_safe_integer amount

module _ (env : Environment) (s : Settings) (operation : String) where
  -- The provider call for an order that this request has created, and its outcome.
  unfoldable pub create_link : PaymentOrder → Step (PaymentOrder × Bool)
  create_link order = do
    expires ← stamp_or_unavailable order.expires_at
    answer ← attempt (ask_create env (create_request s order expires))
    lease ← stamp_or_unavailable order.operation_lease_until
    w ← look
    persisted ← attempt (
        store operation (λ c.
          complete_payment_order_operation c order.id order.operation_token
            (create_update env.parse_url w.now lease order answer)))
    after_completion operation order.id persisted

  unfoldable pub after_reserve : Result (PaymentOrder × Bool) → Step (PaymentOrder × Bool)
  after_reserve (ok (order, true)) = create_link order
  after_reserve (ok (order, false)) = return (order, false)
  after_reserve (err idempotency_conflict) = fail idempotency_conflict
  after_reserve (err e) = fail payment_unavailable

  unfoldable pub reserve_and_create :
      String → List Draw → PaymentOrderIntent → Step (PaymentOrder × Bool)
  reserve_and_create token draws intent = do
    reserved ← attempt (store operation (λ c. reserve_payment_order c token draws intent))
    after_reserve reserved

  unfoldable pub when_admitted :
      String → List Draw → PaymentOrderIntent → Result (Unit {0}) → Step (PaymentOrder × Bool)
  when_admitted token draws intent (err e) = fail payment_unavailable
  when_admitted token draws intent (ok _) = releasing (reserve_and_create token draws intent)

  unfoldable pub create_admitted :
      String → List Draw → PaymentOrderIntent → Step (PaymentOrder × Bool)
  create_admitted token draws intent = do
    admitted ← attempt (admit operation s)
    when_admitted token draws intent admitted

  unfoldable pub create_new :
      Readiness → String → List Draw → PaymentOrderIntent → Step (PaymentOrder × Bool)
  create_new ready token draws intent = create_admitted token draws intent
  create_new disabled token draws intent = fail payments_disabled
  create_new unconfirmed token draws intent = fail webhook_unconfirmed
  create_new unconfigured token draws intent = fail payment_unavailable
  create_new unavailable token draws intent = fail payment_unavailable

  unfoldable pub create_found :
      Option PaymentOrder → String → List Draw → PaymentOrderIntent → Step (PaymentOrder × Bool)
  create_found (some existing) token draws intent =
      if not (str_eq existing.request_hash intent.request_hash)
      then fail idempotency_conflict
      else return (existing, false)
  create_found none token draws intent = create_new (readiness s) token draws intent

  unfoldable pub create_keyed : String → List Draw → PaymentOrderIntent → Step (PaymentOrder × Bool)
  create_keyed token draws intent = do
    w ← look
    create_found (payment_order_by_key intent.channel_id intent.idempotency_key w.db) token draws
        intent

  -- `CreateOrder`: the order and whether it was created. What the code returns beside an error is
  -- left out. The token and the draws are the random ones of ReservePaymentOrder.
  unfoldable pub create_order :
      (String → String) → String → List Draw → ℕ → Origin → String → Step (PaymentOrder × Bool)
  create_order digest token draws amount origin idempotency_key =
      if is_invalid_amount s amount
      then fail invalid_amount
      else if not (is_allowed_origin origin)
      then fail invalid_origin
      else if not (canonical_uuid idempotency_key)
      then fail invalid_idempotency_key
      else create_keyed token draws (record {
        channel_id = s.client_id;
        idempotency_key = idempotency_key;
        request_hash = payment_request_hash digest amount origin;
        amount_vnd = amount;
        origin = origin;
      })
