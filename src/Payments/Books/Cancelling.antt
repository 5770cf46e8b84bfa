-- ===== src/Payments/Books/Cancelling.antt =====
-- The cancellation of an order (internal/payments/cancel.go) and the reconciler's round (reconcile.go)
-- keep the books of the store.
use acb_transaction_webhook.Base.{
  String, str_eq, is_blank, Bool, false, Option, none, some, List, [], ◌∷◌, Result, ok, err,
  mutation_gate_locked, ◌≡◌, not, ◌||◌,
}
use acb_transaction_webhook.Store.{PaymentOrder, is_paid}
use acb_transaction_webhook.Ledger.{Watch, Books}
use acb_transaction_webhook.Orders.Lease.Completion.{claim-Ensures}
use acb_transaction_webhook.Inbox.{Digests}
use acb_transaction_webhook.Inbox.Books.{wake_pending-Ensures}
use acb_transaction_webhook.Settlement.Commit.{Fresh}
use acb_transaction_webhook.Payments.{Settings, Environment}
use acb_transaction_webhook.Payments.Keeps.{
  Keeps, Respects, Keeps-bind, Keeps-then, Keeps-return, Keeps-fail, Keeps-attempt, Keeps-look,
  Keeps-if, Keeps-store, Keeps-query, Keeps-admit, Keeps-releasing,
}
use acb_transaction_webhook.Payments.Cancel.{
  unless_paid, own_order, latest_order, cancel_claimed, claim_and_cancel, cancel_order, ends_round,
  reconcile_each, reconcile_round, reconcile_due,
}
use acb_transaction_webhook.Payments.Books.Recovering.{
  complete_cancellation-Keeps, cancel_or_look-Keeps, reconcile_order-Keeps,
}

unless_paid-Keeps : {w : Watch} (order : PaymentOrder) → Keeps (Books w) (unless_paid order)
unfolding unless_paid
unless_paid-Keeps order = Keeps-if (is_paid order.status) (Keeps-fail _) (Keeps-return _)

own-Keeps :
    {w : Watch} (channel : String) (found : Option PaymentOrder)
    → Keeps (Books w) (own_order channel found)
unfolding own_order
own-Keeps channel none = Keeps-fail _
own-Keeps channel (some order) =
    Keeps-if (str_eq order.channel_id channel) (Keeps-return _) (Keeps-fail _)

latest-Keeps : {w : Watch} (read : Result PaymentOrder) → Keeps (Books w) (latest_order read)
unfolding latest_order
latest-Keeps (ok order) = unless_paid-Keeps order
latest-Keeps (err e) = Keeps-fail _

module _ {w : Watch} {env : Environment} (r : Respects (Books w) env) (s : Settings)
    (operation : String) (h : Digests) (ids : String → Fresh)
    (drawn : (hash : String) → is_blank (ids hash).transaction_id ≡ false) where
  cancel_claimed-Keeps :
      (id : String) (claimed : PaymentOrder × Bool)
      → Keeps (Books w) (cancel_claimed env s operation h ids id claimed)
  unfolding cancel_claimed
  cancel_claimed-Keeps id (order, claimed) = Keeps-then (unless_paid-Keeps order) (
      Keeps-if claimed
        (Keeps-then
          (cancel_or_look-Keeps r s operation h ids drawn _
            (complete_cancellation-Keeps r s operation h ids drawn) _ order)
          (Keeps-bind (Keeps-attempt (Keeps-query operation _)) latest-Keeps))
        (Keeps-return _))

  pub cancel_order-Keeps :
      (token id : String) → Keeps (Books w) (cancel_order env s operation h ids token id)
  unfolding cancel_order claim_and_cancel
  cancel_order-Keeps token id = Keeps-bind Keeps-look λ now. Keeps-bind (own-Keeps _ _) λ order.
      Keeps-then (unless_paid-Keeps order) (
        Keeps-then (Keeps-admit operation s) (
          Keeps-releasing (
            Keeps-bind Keeps-look λ later.
              Keeps-bind (Keeps-store operation _ (λ c db l. claim-Ensures c token id _ db l))
                (cancel_claimed-Keeps id))))

  ends_round-Keeps : (res : Result (Unit {0})) → Keeps (Books w) (ends_round res)
  unfolding ends_round
  ends_round-Keeps (ok _) = Keeps-return _
  ends_round-Keeps (err mutation_gate_locked) = Keeps-fail _
  ends_round-Keeps (err e) = Keeps-return _

  each-Keeps :
      (tokens : String → String) (orders : List PaymentOrder)
      → Keeps (Books w) (reconcile_each env s operation h ids tokens orders)
  unfolding reconcile_each
  each-Keeps tokens [] = Keeps-return _
  each-Keeps tokens (order ∷ orders) =
      Keeps-bind (Keeps-attempt (reconcile_order-Keeps r s operation h ids drawn _ order.id))
        λ result. Keeps-then (ends_round-Keeps result) (each-Keeps tokens orders)

  pub reconcile_due-Keeps :
      (tokens : String → String) → Keeps (Books w) (reconcile_due env s operation h ids tokens)
  unfolding reconcile_due reconcile_round
  reconcile_due-Keeps tokens = Keeps-bind Keeps-look λ now.
      Keeps-if (now.quiesced || not s.has_provider) (Keeps-return _) (
        Keeps-then (Keeps-query operation _) (
          Keeps-then (Keeps-store operation _ (λ c db l. wake_pending-Ensures c s.client_id db l))
            (Keeps-bind Keeps-look λ later. each-Keeps tokens _)))
