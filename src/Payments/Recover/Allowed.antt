-- ===== src/Payments/Recover/Allowed.antt =====
-- Every completion that the reconciler asks the store for, by what it makes it of: the calls of
-- `finishReconcile` in internal/payments/reconcile.go and cancel.go.
use acb_transaction_webhook.Base.{ℕ, ◌≡◌, true, false, Option, some, Result}
use acb_transaction_webhook.Base.Clock.{Instant}
use acb_transaction_webhook.Store.{PaymentOrder, ErrorCode}
use acb_transaction_webhook.Orders.Lease.{PaymentOrderUpdate}
use acb_transaction_webhook.Settlement.{SettlementResult}
use acb_transaction_webhook.Reconcile.{
  PaymentLink, finishes, apply_verified_link, failure_update, after_settlement, is_paid_link,
}
use acb_transaction_webhook.Payments.{Environment, CreateResponse}
use acb_transaction_webhook.Payments.Create.{linked_update}
use acb_transaction_webhook.Payments.Recover.Decide.{
  closes_absent, absent_action, concluding, failed_cancel, failed_recovery, is_concluded,
  is_withdrawn, withdrawn_update,
}

-- What a completion of an order is made of.
pub data Completion (env : Environment) (now : Instant) (order : PaymentOrder)
    : PaymentOrderUpdate → Type 0 where
  -- a Get that answers with a link
  of_link :
      (link : Option PaymentLink) (u : PaymentOrderUpdate)
      → apply_verified_link (env.jitter 0) now order link ≡ finishes u
      → Completion env now order u
  -- a Get that answers that there is none
  of_absence :
      (expires : Instant) (u : PaymentOrderUpdate)
      → absent_action now expires order ≡ closes_absent u
      → Completion env now order u
  -- another failure of a Get, or no slot for a Create
  of_failure :
      (wait : Option ℕ) (code : ErrorCode)
      → Completion env now order (failure_update (env.jitter 0) now order wait code)
  -- a Cancel, or the Get behind it, whose link concludes the order unpaid
  of_cancellation :
      (answer : Result (Option PaymentLink)) (link : PaymentLink)
      → concluding is_withdrawn order answer ≡ some link
      → Completion env now order (withdrawn_update now order link)
  of_second_look :
      (answer : Result (Option PaymentLink)) (link : PaymentLink)
      → concluding is_concluded order answer ≡ some link
      → is_paid_link link.status ≡ false
      → Completion env now order (withdrawn_update now order link)
  of_failed_cancel :
      (cancel_wait get_wait : Option ℕ) (code : ErrorCode)
      → Completion env now order (failed_cancel env now order cancel_wait get_wait code)
  -- a second Create
  of_creation :
      (r : CreateResponse)
      → Completion env now order (record (linked_update now r) { reset_reconcile_attempts = true })
  of_failed_creation :
      (answer : Result (Option CreateResponse))
      → Completion env now order (failed_recovery env now order answer)
  -- a settlement
  of_settlement :
      (result : Result SettlementResult)
      → Completion env now order (after_settlement (env.jitter 0) now order result)
