-- ===== src/Payments/Recover/Decide.antt =====
-- What the recovery of an order decides from the provider's answers: the pure parts of
-- internal/payments/reconcile.go and cancel.go.
use acb_transaction_webhook.Base.{
  ℕ, ◌-◌, ◌*◌, String, str_eq, is_blank, Bool, true, false, not, ◌&&◌, ◌||◌, Option, none, some,
  List, [], ◌∷◌, Result, ok, err, Error, settlement_review, provider_error, ltb, leb, ◌==◌, is_some,
  if◌then◌else◌,
}
use acb_transaction_webhook.Base.Clock.{Instant, second}
use acb_transaction_webhook.Store.{
  StatusText, known, cancelled, expired, failed, paid, ErrorCode, create_outcome_unknown,
  invalid_create_response, create_rejected_http, cancel_outcome_unknown, PaymentOrder, InboxRow,
}
use acb_transaction_webhook.Orders.Lease.{PaymentOrderUpdate}
use acb_transaction_webhook.Outbox.{EventNotification, realtime, catch_up}
use acb_transaction_webhook.Settlement.{SettlementResult}
use acb_transaction_webhook.Settlement.Judge.{SettlementInput}
use acb_transaction_webhook.Reconcile.{
  PaymentLink, verified_link_matches, terminal_reconcile_at, failure_update, no_update, is_creating,
}
use acb_transaction_webhook.Payments.{Environment, Url, CreateResponse}
use acb_transaction_webhook.Payments.Create.{valid_create_response, is_rejection}

-- The wait that the provider asks for, if the error is the provider's.
abbrev pub error_wait : Error → Option ℕ
error_wait (provider_error http_status wait indeterminate) = some wait
error_wait _ = none

abbrev pub retry_after : {A : Type 0} → Result A → Option ℕ
retry_after (ok a) = none
retry_after (err e) = error_wait e

-- The reasons for which a cancellation or a payment is over, as the provider spells them.
abbrev pub is_withdrawn : StatusText → Bool
is_withdrawn (known cancelled) = true
is_withdrawn (known expired) = true
is_withdrawn _ = false

abbrev pub is_concluded : StatusText → Bool
is_concluded (known paid) = true
is_concluded status = is_withdrawn status

-- A signed answer of a Cancel or a Get that settles the question; an error and a nil link do not.
unfoldable pub concluding :
    (StatusText → Bool) → PaymentOrder → Result (Option PaymentLink) → Option PaymentLink
concluding test order (err e) = none
concluding test order (ok none) = none
concluding test order (ok (some link)) =
    if verified_link_matches order (some link) && test link.status then some link else none

-- Does a settlement stand, booked or a duplicate?
unfoldable pub is_booked : Result SettlementResult → Bool
is_booked (err e) = false
is_booked (ok r) = not (is_some r.review_reason)

abbrev pub event_of : Result SettlementResult → Option EventNotification
event_of (err e) = none
event_of (ok r) = r.event

-- The first time at which one of the callbacks was received; 0 if there is none.
unfoldable pub earliest : List InboxRow → Instant
earliest [] = 0
earliest (r ∷ rs) =
    let rest = earliest rs in
    if r.received_at == 0
    then rest
    else if (rest == 0) || ltb r.received_at rest
    then r.received_at
    else rest

-- The settlement of one stored callback: REALTIME within 30 seconds of the first of them.
unfoldable pub settlement_for :
    Instant → Instant → String → SettlementInput → InboxRow → SettlementInput
settlement_for now first namespace in_ r =
    let prompt = not (first == 0) && leb first now && leb (now - first) (30 * second) in
    record in_ {
      channel_namespace = namespace;
      inbox_hash = r.payload_hash;
      source = if prompt then realtime else catch_up;
      detected_at = if prompt then first else 0;
    }

-- Both failures of a cancellation, and the later of their waits.
unfoldable pub failed_cancel :
    Environment → Instant → PaymentOrder → Option ℕ → Option ℕ → ErrorCode → PaymentOrderUpdate
failed_cancel env now order cancel_wait get_wait code =
    let update = failure_update (env.jitter 0) now order cancel_wait code in
    let from_get = failure_update (env.jitter 1) now order get_wait code in
    if ltb update.next_reconcile_at from_get.next_reconcile_at
    then record update { next_reconcile_at = from_get.next_reconcile_at }
    else update

unfoldable pub is_hard_failure : Result SettlementResult → Bool
is_hard_failure (ok r) = false
is_hard_failure (err (settlement_review reason)) = false
is_hard_failure (err e) = true

unfoldable pub withdrawn_update : Instant → PaymentOrder → PaymentLink → PaymentOrderUpdate
withdrawn_update now order link = record no_update {
  status = link.status;
  payment_link_id = link.id;
  next_reconcile_at = terminal_reconcile_at now order;
  reset_reconcile_attempts = true;
}

-- The order that a renewal returned, under the link that was known before.
abbrev pub with_link : String → PaymentOrder → PaymentOrder
with_link link order = if is_blank link then order else record order { payment_link_id = link }

unfoldable pub rejected_code : ErrorCode → Result (Option CreateResponse) → ErrorCode
rejected_code code (err (provider_error http_status wait indeterminate)) =
    if is_rejection http_status indeterminate then create_rejected_http http_status else code
rejected_code code _ = code

-- The update behind a Create that recovered nothing.
unfoldable pub failed_recovery :
    Environment → Instant → PaymentOrder → Result (Option CreateResponse) → PaymentOrderUpdate
failed_recovery env now order answer =
    let update =
      failure_update (env.jitter 0) now order (retry_after answer) create_outcome_unknown in
    record update { last_error_code = rejected_code update.last_error_code answer }

-- A valid response for the link that is known, if one is.
unfoldable pub recovered_link :
    (String → Option Url) → PaymentOrder → Result (Option CreateResponse) → Option CreateResponse
recovered_link parse_url order (err e) = none
recovered_link parse_url order (ok none) = none
recovered_link parse_url order (ok (some r)) =
    if valid_create_response parse_url order (some r)
      && (is_blank order.payment_link_id || str_eq order.payment_link_id r.payment_link_id)
    then some r
    else none

abbrev pub is_rejected : ErrorCode → Bool
is_rejected (create_rejected_http n) = true
is_rejected _ = false

abbrev pub is_cancel_unknown : ErrorCode → Bool
is_cancel_unknown cancel_outcome_unknown = true
is_cancel_unknown _ = false

abbrev pub is_create_unknown : ErrorCode → Bool
is_create_unknown create_outcome_unknown = true
is_create_unknown invalid_create_response = true
is_create_unknown _ = false

-- What `recoverAbsent` does for an order that payOS does not know.
pub data AbsentAction : Type 0 where
  cancels_absent reconciles_cancel creates_again : AbsentAction
  closes_absent : PaymentOrderUpdate → AbsentAction

unfoldable pub absent_action : Instant → Instant → PaymentOrder → AbsentAction
absent_action now expires order =
    if order.qr_recovery_attempted
    then cancels_absent
    else if is_cancel_unknown order.last_error_code
    then reconciles_cancel
    else if is_rejected order.last_error_code
    then closes_absent (record no_update {
      status = known failed;
      last_error_code = order.last_error_code;
      next_reconcile_at = terminal_reconcile_at now order;
    })
    else if ltb now expires && (is_creating order.status || is_create_unknown order.last_error_code)
    then creates_again
    else closes_absent (record no_update {
      status = known order.status;
      last_error_code = create_outcome_unknown;
      next_reconcile_at = terminal_reconcile_at now order;
    })

abbrev pub is_not_found : Error → Bool
is_not_found (provider_error http_status wait indeterminate) = http_status == 404
is_not_found _ = false
