-- ===== src/Payments/Recover/Settling.antt =====
-- The steps of a claimed operation: `finishReconcile`, `getClaimedLink`, `settleVerifiedLink` of
-- internal/payments/reconcile.go, and `cancelClaimedLink`, `completeCancellation` and
-- `reconcileCancellation` of cancel.go.
use acb_transaction_webhook.Base.{
  ℕ, String, Bool, false, Option, none, some, List, [], ◌∷◌, Result, ok, err,
  payment_details_pending, settlement_review, operation_lost, bad_time, is_some, if◌then◌else◌,
}
use acb_transaction_webhook.Base.Clock.{Instant, parse_stamp}
use acb_transaction_webhook.Base.Rows.{filter_rows}
use acb_transaction_webhook.Store.{ErrorCode, cancel_outcome_unknown, PaymentOrder, InboxRow}
use acb_transaction_webhook.Orders.Lease.{
  PaymentOrderUpdate, renew_payment_order_operation, complete_payment_order_operation,
}
use acb_transaction_webhook.Inbox.{Digests}
use acb_transaction_webhook.Inbox.Pending.{pending_payment_callbacks}
use acb_transaction_webhook.Outbox.{EventNotification, catch_up}
use acb_transaction_webhook.Settlement.{SettlementResult, settle_payment}
use acb_transaction_webhook.Settlement.Judge.{SettlementInput}
use acb_transaction_webhook.Settlement.Commit.{Fresh}
use acb_transaction_webhook.Reconcile.{
  PaymentLink, verified_link_settlement, callback_matches_settlement, after_settlement,
  is_paid_link,
}
use acb_transaction_webhook.Payments.{
  Settings, Step, Environment, reconciled_activity, ◌>>=◌, ◌>>◌, return, fail, attempt, on_option,
  look, store, ask_get, ask_cancel, provider_slot, record_activity, publish,
}
use acb_transaction_webhook.Payments.Recover.Decide.{
  concluding, earliest, event_of, failed_cancel, is_booked, is_concluded, is_hard_failure,
  is_withdrawn, retry_after, settlement_for, withdrawn_update,
}

abbrev pub read_expiry : PaymentOrder → Step Instant
read_expiry order = elim (parse_stamp order.expires_at) [ none ↦ fail bad_time | some t ↦ return t ]

-- `finishReconcile` takes a lost operation for finished.
unfoldable pub forgive_lost : Result PaymentOrder → Step (Unit {0})
forgive_lost (ok order) = return tt
forgive_lost (err operation_lost) = return tt
forgive_lost (err e) = fail e

module _ (env : Environment) (s : Settings) (operation : String) (h : Digests)
    (ids : String → Fresh) where
  unfoldable pub finish_reconcile : PaymentOrder → PaymentOrderUpdate → Step (Unit {0})
  finish_reconcile order update = do
    completed ← attempt (
        store operation
          (λ c. complete_payment_order_operation c order.id order.operation_token update))
    forgive_lost completed

  unfoldable pub renew : PaymentOrder → Bool → Step PaymentOrder
  renew order recovery =
      store operation (λ c. renew_payment_order_operation c order.id order.operation_token recovery)

  unfoldable pub note_answer : Option PaymentLink → Step (Option PaymentLink)
  note_answer none = return none
  note_answer (some link) = do record_activity reconciled_activity; return (some link)

  unfoldable pub get_claimed_link : PaymentOrder → Step (Option PaymentLink)
  get_claimed_link order = do
    provider_slot env operation
    renewed ← renew order false
    link ← ask_get env order.order_code
    note_answer link

  unfoldable pub cancel_claimed_link : PaymentOrder → Step (Option PaymentLink)
  cancel_claimed_link order = do
    provider_slot env operation
    renewed ← renew order false
    ask_cancel env order.order_code

  unfoldable pub settle : SettlementInput → Step SettlementResult
  settle in_ = store operation (λ c. settle_payment h c (ids in_.inbox_hash) in_)

  -- The loop over the callbacks that match: a review ends it, and the last event is kept.
  unfoldable pub settle_rest :
      (InboxRow → SettlementInput)
      → Option EventNotification
      → SettlementResult
      → List InboxRow
      → Step SettlementResult
  settle_rest input event last [] = return (record last { event = event })
  settle_rest input event last (r ∷ rs) = do
    result ← settle (input r)
    (if is_some result.review_reason
        then return result
        else settle_rest input (if is_some result.event then result.event else event) result rs)

  unfoldable pub settle_callbacks :
      SettlementInput → Instant → List InboxRow → List InboxRow → Step SettlementResult
  settle_callbacks in_ now (m ∷ ms) items =
      let input = settlement_for now (earliest (m ∷ ms)) s.channel_namespace in_ in
      do
        result ← settle (input m)
        (if is_some result.review_reason
            then return result
            else settle_rest input result.event result ms)
  settle_callbacks in_ now [] (i ∷ is) = fail (settlement_review payment_details_pending)
  settle_callbacks in_ now [] [] =
      settle
        (record in_ { channel_namespace = s.channel_namespace; source = catch_up; detected_at = 0 })

  unfoldable pub settle_evidence : PaymentOrder → Result SettlementInput → Step SettlementResult
  settle_evidence order (err e) = fail e
  settle_evidence order (ok in_) = do
    w ← look
    let items = pending_payment_callbacks order.order_code w.db
    settle_callbacks in_ w.now (filter_rows (λ r. callback_matches_settlement r.payload in_) items)
        items

  -- `settleVerifiedLink`.
  unfoldable pub settle_verified_link : PaymentOrder → Option PaymentLink → Step SettlementResult
  settle_verified_link order link = settle_evidence order (verified_link_settlement order link)

  -- What follows a settlement: the event is published and the operation released, or the order is
  -- looked at again.
  unfoldable pub after_settling : PaymentOrder → Result SettlementResult → Step (Unit {0})
  after_settling order result = do
    w ← look
    let update = after_settlement (env.jitter 0) w.now order result
    (if is_booked result
        then (do
          publish (event_of result)
          finished ← attempt (finish_reconcile order update)
          return tt)
        else finish_reconcile order update)

  unfoldable pub settle_paid : PaymentOrder → Option PaymentLink → Step (Unit {0})
  settle_paid order link = do
    result ← attempt (settle_verified_link order link)
    after_settling order result

  -- `completeCancellation` hands back an error that is no review.
  unfoldable pub pass_on : PaymentOrder → Result SettlementResult → Step (Unit {0})
  pass_on order (ok r) = after_settling order (ok r)
  pass_on order (err e) = if is_hard_failure (err e) then fail e else after_settling order (err e)

  unfoldable pub complete_cancellation : PaymentOrder → PaymentLink → Step (Unit {0})
  complete_cancellation order link = do
    w ← look
    (if is_paid_link link.status
        then (do result ← attempt (settle_verified_link order (some link)); pass_on order result)
        else finish_reconcile order (withdrawn_update w.now order link))

  -- A Cancel, and a Get if its answer does not settle the question; `conclude` takes the link.
  unfoldable pub second_look :
      (PaymentOrder → PaymentLink → Step (Unit {0}))
      → ErrorCode
      → PaymentOrder
      → Option ℕ
      → Step (Unit {0})
  second_look conclude code order cancel_wait = do
    got ← attempt (get_claimed_link order)
    w ← look
    on_option (concluding is_concluded order got) (conclude order)
        (finish_reconcile order (failed_cancel env w.now order cancel_wait (retry_after got) code))

  unfoldable pub cancel_or_look :
      (PaymentOrder → PaymentLink → Step (Unit {0})) → ErrorCode → PaymentOrder → Step (Unit {0})
  cancel_or_look conclude code order = do
    answer ← attempt (cancel_claimed_link order)
    on_option (concluding is_withdrawn order answer) (conclude order)
        (second_look conclude code order (retry_after answer))

  -- `reconcileCancellation`.
  unfoldable pub reconcile_cancellation : PaymentOrder → Step (Unit {0})
  reconcile_cancellation order = cancel_or_look complete_cancellation cancel_outcome_unknown order
