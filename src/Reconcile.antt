-- ===== src/Reconcile.antt =====
-- The decisions of the reconciler: internal/payments/reconcile.go, between a signed answer of payOS
-- and the store. The provider's answers, the random number of the jitter and the clock are arguments.
pub mod Backoff
pub mod Evidence
use acb_transaction_webhook.Base.{
  ℕ, zero, suc, ◌+◌, ◌*◌, ◌/◌, ◌-◌, String, str_eq, is_blank, Bool, true, false, not, ◌&&◌, ◌||◌,
  Option, none, some, List, [], ◌∷◌, Result, ok, err, payment_details_pending, settlement_review,
  min, max, ltb, ◌==◌, if◌then◌else◌,
}
use acb_transaction_webhook.Base.Clock.{Instant, Stamp, parse_stamp, second, minute, hour}
use acb_transaction_webhook.Store.{
  OrderStatus, creating, pending, processing, underpaid, paid, cancelled, expired, failed,
  StatusText, blank, known, unrecognized, ErrorCode, no_error, create_outcome_unknown,
  create_rejected_http, cancel_outcome_unknown, qr_recovery_cancelled, qr_recovery_cancel_pending,
  provider_unavailable, order_mismatch, details_pending, PaymentOrder, WebhookData,
}
use acb_transaction_webhook.Orders.Lease.{PaymentOrderUpdate}
use acb_transaction_webhook.Outbox.{catch_up}
use acb_transaction_webhook.Settlement.{SettlementResult}
use acb_transaction_webhook.Settlement.Judge.{
  SettlementEvidence, SettlementInput, effective_account, is_space_only, input_account,
}

-- A 64-bit integer of the provider that may be negative.
pub data ℤ : Type 0 where
  pos negsuc : ℕ → ℤ

abbrev pub is_zero : ℤ → Bool
is_zero (pos n) = n == 0
is_zero (negsuc n) = false

-- payos.PaymentLink and its transactions, with a status as the provider spells it.
pub record LinkTransaction : Type 0 where
  pub reference : String
  pub amount : ℕ
  pub account_number : String
  pub description : String
  pub transaction_date_time : Stamp
  pub virtual_account_number : Option String

pub record PaymentLink : Type 0 where
  pub id : String
  pub order_code : ℕ
  pub amount : ℕ
  pub amount_paid : ℕ
  pub amount_remaining : ℤ
  pub status : StatusText
  pub transactions : List LinkTransaction

abbrev pub dereference_string : Option String → String
dereference_string none = ""
dereference_string (some s) = s

-- `verifiedLinkMatches`; `none` is a nil link.
unfoldable pub verified_link_matches : PaymentOrder → Option PaymentLink → Bool
verified_link_matches order none = false
verified_link_matches order (some link) =
    (link.order_code == order.order_code)
    && (link.amount == order.amount_vnd)
    && not (is_space_only link.id)
    && (is_blank order.payment_link_id || str_eq order.payment_link_id link.id)

abbrev pub is_paid_link : StatusText → Bool
is_paid_link (known paid) = true
is_paid_link _ = false

unfoldable pub settlement_of :
    PaymentOrder → PaymentLink → LinkTransaction → Instant → SettlementInput
settlement_of order link t at =
    let virtual = dereference_string t.virtual_account_number in
    record {
      channel_id = order.channel_id;
      channel_namespace = "";
      order_code = order.order_code;
      payment_link_id = link.id;
      reference = t.reference;
      amount_vnd = t.amount;
      transaction_at = at;
      description = t.description;
      account_number = t.account_number;
      virtual_account_number = virtual;
      source = catch_up;
      detected_at = 0;
      inbox_hash = "";
      verified_callback = none;
      verified_get = some (record {
        order_code = order.order_code;
        payment_link_id = link.id;
        reference = t.reference;
        amount_vnd = t.amount;
        transaction_at = at;
        account_number = t.account_number;
        virtual_account_number = virtual;
      });
    }

unfoldable pub single_transaction :
    PaymentOrder → PaymentLink → LinkTransaction → Option Instant → Result SettlementInput
single_transaction order link t none = err (settlement_review payment_details_pending)
single_transaction order link t (some at) =
    if is_space_only t.reference
      || not (t.amount == order.amount_vnd)
      || is_space_only
          (effective_account t.account_number (dereference_string t.virtual_account_number))
    then err (settlement_review payment_details_pending)
    else ok (settlement_of order link t at)

unfoldable pub paid_link_settlement :
    PaymentOrder → PaymentLink → List LinkTransaction → Result SettlementInput
paid_link_settlement order link (t ∷ []) =
    single_transaction order link t (parse_stamp t.transaction_date_time)
paid_link_settlement order link _ = err (settlement_review payment_details_pending)

-- `verifiedLinkSettlement`.
unfoldable pub verified_link_settlement : PaymentOrder → Option PaymentLink → Result SettlementInput
verified_link_settlement order none = err (settlement_review payment_details_pending)
verified_link_settlement order (some link) =
    if not (verified_link_matches order (some link))
      || not (is_paid_link link.status)
      || not (link.amount_paid == order.amount_vnd)
      || not (is_zero link.amount_remaining)
    then err (settlement_review payment_details_pending)
    else paid_link_settlement order link link.transactions

-- `callbackMatchesSettlement`.
unfoldable pub callback_matches_settlement : WebhookData → SettlementInput → Bool
callback_matches_settlement callback in_ = elim (parse_stamp callback.transaction_date_time) [
  | none ↦ false
  | some at ↦
      str_eq callback.code "00"
      && str_eq callback.currency "VND"
      && (callback.order_code == in_.order_code)
      && str_eq callback.payment_link_id in_.payment_link_id
      && str_eq callback.reference in_.reference
      && (callback.amount == in_.amount_vnd)
      && (at == in_.transaction_at)
      && str_eq (effective_account callback.account_number callback.virtual_account_number)
          (input_account in_)
]

-- `terminalReconcileAt`; 0 is the zero time, which ends the reconciling.
unfoldable pub terminal_reconcile_at : Instant → PaymentOrder → Instant
terminal_reconcile_at now order = elim (parse_stamp order.expires_at) [
  | none ↦ now + 24 * hour
  | some expires ↦ (if ltb now (expires + 24 * hour) then expires + 24 * hour else 0)
]

-- The loop of `failureUpdate`, with the rounds that are left.
pub doubled : ℕ → ℕ → ℕ
doubled zero delay = delay
doubled (suc rounds) delay =
    let next = doubled rounds (delay * 2) in if ltb delay (15 * minute) then next else delay

-- The delay before the jitter, at the given attempt.
unfoldable pub base_delay : ℕ → ℕ
base_delay attempt = min (15 * minute) (doubled (attempt - 1) (30 * second))

-- An error of `rand.Int` leaves the delay as it is.
abbrev pub with_jitter : Option ℕ → ℕ → ℕ
with_jitter none delay = delay
with_jitter (some j) delay = delay + j

abbrev pub with_retry_after : Option ℕ → ℕ → ℕ
with_retry_after none delay = delay
with_retry_after (some wait) delay = max wait delay

unfoldable pub failure_delay : (ℕ → Option ℕ) → Option ℕ → ℕ → ℕ
failure_delay jitter retry_after attempt =
    let delay = base_delay attempt in
    with_retry_after retry_after (with_jitter (jitter (delay / 5 + 1)) delay)

-- The errors that an unavailable provider does not overwrite.
abbrev pub is_sticky : ErrorCode → Bool
is_sticky (create_rejected_http n) = true
is_sticky cancel_outcome_unknown = true
is_sticky qr_recovery_cancel_pending = true
is_sticky _ = false

abbrev pub is_unavailable : ErrorCode → Bool
is_unavailable provider_unavailable = true
is_unavailable _ = false

abbrev pub is_creating : OrderStatus → Bool
is_creating creating = true
is_creating _ = false

unfoldable pub is_over : Instant → PaymentOrder → Bool
is_over now order = elim (parse_stamp order.expires_at) [
  | none ↦ false
  | some expires ↦ not (ltb now (expires + 24 * hour)) && is_creating order.status
]

unfoldable pub failure_code : Instant → PaymentOrder → ErrorCode → ErrorCode
failure_code now order code =
    if is_over now order
    then create_outcome_unknown
    else if is_unavailable code && is_sticky order.last_error_code
    then order.last_error_code
    else code

abbrev pub no_update : PaymentOrderUpdate
no_update = record {
  status = blank;
  payment_link_id = "";
  qr_code = "";
  checkout_url = "";
  bank_bin = "";
  account_number = "";
  account_name = "";
  last_error_code = no_error;
  next_reconcile_at = 0;
  reconcile_attempts = 0;
  reset_reconcile_attempts = false;
  qr_recovery_attempted = false;
}

-- `failureUpdate`; `retry_after` is there if the error is the provider's.
unfoldable pub failure_update :
    (ℕ → Option ℕ) → Instant → PaymentOrder → Option ℕ → ErrorCode → PaymentOrderUpdate
failure_update jitter now order retry_after code =
    let attempt = order.reconcile_attempts + 1 in
    record no_update {
      last_error_code = failure_code now order code;
      reconcile_attempts = attempt;
      next_reconcile_at = now + failure_delay jitter retry_after attempt;
    }

-- The update behind a settlement: none if it was booked or a duplicate. An error of the store is
-- not the provider's, so it asks for no wait.
unfoldable pub after_settlement :
    (ℕ → Option ℕ) → Instant → PaymentOrder → Result SettlementResult → PaymentOrderUpdate
after_settlement jitter now order (ok res) = elim res.review_reason [
  | none ↦ no_update
  | some reason ↦ failure_update jitter now order none details_pending
]
after_settlement jitter now order (err e) = failure_update jitter now order none details_pending

-- What `applyVerifiedLink` does next: complete the operation, settle, or recover.
pub data LinkAction : Type 0 where
  finishes : PaymentOrderUpdate → LinkAction
  settles : LinkAction
  cancels_again : LinkAction
  recovers_cancel recovers_create : PaymentOrder → LinkAction

abbrev is_pending_status : OrderStatus → Bool
is_pending_status pending = true
is_pending_status _ = false

abbrev is_cancelled_status : OrderStatus → Bool
is_cancelled_status cancelled = true
is_cancelled_status _ = false

abbrev is_cancel_unknown : ErrorCode → Bool
is_cancel_unknown cancel_outcome_unknown = true
is_cancel_unknown _ = false

unfoldable pub open_link : Instant → PaymentOrder → PaymentLink → OrderStatus → LinkAction
open_link now order link status =
    if is_cancel_unknown order.last_error_code
    then cancels_again
    else if is_blank order.qr_code && is_pending_status status
    then (if order.qr_recovery_attempted
        then recovers_cancel (record order { payment_link_id = link.id })
        else recovers_create (record order { payment_link_id = link.id }))
    else finishes (record no_update {
      status = known status;
      payment_link_id = link.id;
      next_reconcile_at = now + minute;
      reset_reconcile_attempts = true;
    })

unfoldable pub closed_link : Instant → PaymentOrder → PaymentLink → OrderStatus → LinkAction
closed_link now order link status = finishes (record no_update {
  status = known status;
  payment_link_id = link.id;
  last_error_code =
      if order.qr_recovery_attempted && is_blank order.qr_code && is_cancelled_status status
      then qr_recovery_cancelled
      else no_error;
  next_reconcile_at = terminal_reconcile_at now order;
  reset_reconcile_attempts = true;
})

unfoldable pub link_of_status :
    (ℕ → Option ℕ) → Instant → PaymentOrder → PaymentLink → StatusText → LinkAction
link_of_status jitter now order link (known paid) = settles
link_of_status jitter now order link (known pending) = open_link now order link pending
link_of_status jitter now order link (known processing) = open_link now order link processing
link_of_status jitter now order link (known underpaid) = open_link now order link underpaid
link_of_status jitter now order link (known cancelled) = closed_link now order link cancelled
link_of_status jitter now order link (known expired) = closed_link now order link expired
link_of_status jitter now order link (known failed) = closed_link now order link failed
link_of_status jitter now order link _ =
    finishes (failure_update jitter now order none details_pending)

-- `applyVerifiedLink`, up to the settlement or the recovery that it calls.
unfoldable pub apply_verified_link :
    (ℕ → Option ℕ) → Instant → PaymentOrder → Option PaymentLink → LinkAction
apply_verified_link jitter now order none =
    finishes (failure_update jitter now order none order_mismatch)
apply_verified_link jitter now order (some link) =
    if not (verified_link_matches order (some link))
    then finishes (failure_update jitter now order none order_mismatch)
    else link_of_status jitter now order link link.status
