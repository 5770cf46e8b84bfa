-- ===== src/Payments/Cancel.antt =====
-- `CancelOrder` of internal/payments/cancel.go, and the reconciler's round over the orders that are due
-- (`reconcileDue` of reconcile.go).
use acb_transaction_webhook.Base.{
  String, str_eq, Bool, not, ◌||◌, Option, none, some, List, [], ◌∷◌, Result, ok, err,
  payment_already_paid, payment_not_found, payment_unavailable, mutation_gate_locked, if◌then◌else◌,
}
use acb_transaction_webhook.Store.{
  PaymentOrder, is_paid, cancel_outcome_unknown, check_mutation_allowed,
}
use acb_transaction_webhook.Orders.{payment_order}
use acb_transaction_webhook.Orders.Due.{due_payment_orders}
use acb_transaction_webhook.Orders.Lease.{read_order, claim_payment_order}
use acb_transaction_webhook.Inbox.{Digests}
use acb_transaction_webhook.Inbox.Pending.{wake_pending_payment_callbacks}
use acb_transaction_webhook.Settlement.Commit.{Fresh}
use acb_transaction_webhook.Payments.{
  Settings, Step, Environment, ◌>>=◌, ◌>>◌, return, fail, attempt, look, store, query, admit,
  releasing,
}
use acb_transaction_webhook.Payments.Recover.{reconcile_order}
use acb_transaction_webhook.Payments.Recover.Settling.{complete_cancellation, cancel_or_look}

-- A PAID order is handed back as an error.
unfoldable pub unless_paid : PaymentOrder → Step PaymentOrder
unless_paid order = if is_paid order.status then fail payment_already_paid else return order

-- The order of the service's own channel.
unfoldable pub own_order : String → Option PaymentOrder → Step PaymentOrder
own_order channel none = fail payment_not_found
own_order channel (some order) =
    if str_eq order.channel_id channel then return order else fail payment_not_found

unfoldable pub latest_order : Result PaymentOrder → Step PaymentOrder
latest_order (ok order) = unless_paid order
latest_order (err e) = fail payment_unavailable

-- Only a locked gate ends the round early.
unfoldable pub ends_round : Result (Unit {0}) → Step (Unit {0})
ends_round (err mutation_gate_locked) = fail mutation_gate_locked
ends_round _ = return tt

module _ (env : Environment) (s : Settings) (operation : String) (h : Digests)
    (ids : String → Fresh) where
  unfoldable pub cancel_claimed : String → PaymentOrder × Bool → Step PaymentOrder
  cancel_claimed id (order, claimed) = do
    unless_paid order
    (if claimed
        then (do
          cancel_or_look env s operation h ids (complete_cancellation env s operation h ids)
              cancel_outcome_unknown order
          read ← attempt (query operation (λ c db. read_order id db))
          latest_order read)
        else return order)

  unfoldable pub claim_and_cancel : String → String → Step PaymentOrder
  claim_and_cancel token id = do
    w ← look
    claimed ← store operation (λ c. claim_payment_order c token id w.now)
    cancel_claimed id claimed

  -- `CancelOrder`: the order, without what the code returns beside an error.
  unfoldable pub cancel_order : String → String → Step PaymentOrder
  cancel_order token id = do
    w ← look
    order ← own_order s.client_id (payment_order id w.db)
    unless_paid order
    admit operation s
    releasing (claim_and_cancel token id)

  unfoldable pub reconcile_each : (String → String) → List PaymentOrder → Step (Unit {0})
  reconcile_each tokens [] = return tt
  reconcile_each tokens (order ∷ orders) = do
    result ← attempt (reconcile_order env s operation h ids (tokens order.id) order.id)
    ends_round result
    reconcile_each tokens orders

  unfoldable pub reconcile_round : (String → String) → Step (Unit {0})
  reconcile_round tokens = do
    query operation (λ c db. check_mutation_allowed c db)
    store operation (λ c. wake_pending_payment_callbacks c s.client_id)
    w ← look
    reconcile_each tokens (due_payment_orders s.client_id w.now 20 w.db)

  -- `reconcileDue`, while the context lives.
  unfoldable pub reconcile_due : (String → String) → Step (Unit {0})
  reconcile_due tokens = do
    w ← look
    (if w.quiesced || not s.has_provider then return tt else reconcile_round tokens)
