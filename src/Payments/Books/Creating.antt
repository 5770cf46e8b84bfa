-- ===== src/Payments/Books/Creating.antt =====
-- The creation of an order (internal/payments/order_create.go) keeps the books of the store.
use acb_transaction_webhook.Base.{
  ℕ, String, Bool, true, false, Option, none, some, List, Result, ok, err, operation_lost,
  idempotency_conflict, not, str_eq,
}
use acb_transaction_webhook.Base.Clock.{Stamp, absent, garbled, stamped}
use acb_transaction_webhook.Store.{PaymentOrder, Origin}
use acb_transaction_webhook.Ledger.{Watch, Books}
use acb_transaction_webhook.Orders.Lease.{PaymentOrderUpdate, complete_payment_order_operation}
use acb_transaction_webhook.Orders.Lease.Completion.{complete-Ensures}
use acb_transaction_webhook.Orders.Reserve.{PaymentOrderIntent, Draw, is_allowed_origin}
use acb_transaction_webhook.Orders.Reserve.Replay.{reserve-Ensures}
use acb_transaction_webhook.Payments.{
  Settings, Readiness, ready, disabled, unconfirmed, unconfigured, unavailable, Environment, store,
  attempt,
}
use acb_transaction_webhook.Payments.Keeps.{
  Keeps, Respects, Keeps-bind, Keeps-return, Keeps-fail, Keeps-attempt, Keeps-look, Keeps-if,
  Keeps-store, Keeps-query, Keeps-admit, Keeps-releasing, Keeps-ask_create,
}
use acb_transaction_webhook.Payments.Create.{
  reread, when_admitted, after_completion, create_link, after_reserve, reserve_and_create,
  create_admitted, create_new, create_found, create_keyed, create_order, stamp_or_unavailable,
  is_invalid_amount, canonical_uuid,
}

module _ {w : Watch} {env : Environment} (r : Respects (Books w) env) (s : Settings)
    (operation : String) where
  stamp-Keeps : (t : Stamp) → Keeps (Books w) (stamp_or_unavailable t)
  stamp-Keeps absent = Keeps-fail _
  stamp-Keeps garbled = Keeps-fail _
  stamp-Keeps (stamped t) = Keeps-return _

  complete-Keeps :
      (id token : String) (u : PaymentOrderUpdate)
      → Keeps
          (Books w)
          (attempt (store operation (λ c. complete_payment_order_operation c id token u)))
  complete-Keeps id token u =
      Keeps-attempt (Keeps-store operation _ (λ c db l. complete-Ensures c id token u db l))

  reread-Keeps : (read : Result PaymentOrder) → Keeps (Books w) (reread read)
  unfolding reread
  reread-Keeps (ok order) = Keeps-return _
  reread-Keeps (err e) = Keeps-fail _

  after_completion-Keeps :
      (id : String) (res : Result PaymentOrder)
      → Keeps (Books w) (after_completion operation id res)
  unfolding after_completion
  after_completion-Keeps id (ok order) = Keeps-return _
  after_completion-Keeps id (err operation_lost) =
      Keeps-bind (Keeps-attempt (Keeps-query operation _)) reread-Keeps
  after_completion-Keeps id (err e) = Keeps-fail _

  create_link-Keeps : (order : PaymentOrder) → Keeps (Books w) (create_link env s operation order)
  unfolding create_link
  create_link-Keeps order = Keeps-bind (stamp-Keeps _) λ expires.
      Keeps-bind (Keeps-attempt (Keeps-ask_create r _)) λ answer.
        Keeps-bind (stamp-Keeps _) λ lease. Keeps-bind Keeps-look λ now.
          Keeps-bind (complete-Keeps order.id order.operation_token _)
            λ persisted. after_completion-Keeps order.id persisted

  after_reserve-Keeps :
      (res : Result (PaymentOrder × Bool)) → Keeps (Books w) (after_reserve env s operation res)
  unfolding after_reserve
  after_reserve-Keeps (ok (order, true)) = create_link-Keeps order
  after_reserve-Keeps (ok (order, false)) = Keeps-return _
  after_reserve-Keeps (err idempotency_conflict) = Keeps-fail _
  after_reserve-Keeps (err e) = Keeps-fail _

  create_admitted-Keeps :
      (token : String) (draws : List Draw) (intent : PaymentOrderIntent) (res : Result (Unit {0}))
      → Keeps (Books w) (when_admitted env s operation token draws intent res)
  unfolding when_admitted reserve_and_create
  create_admitted-Keeps token draws intent (err e) = Keeps-fail _
  create_admitted-Keeps token draws intent (ok _) = Keeps-releasing (
      Keeps-bind
        (Keeps-attempt
          (Keeps-store operation _ (λ c db l. reserve-Ensures c token draws intent db l)))
        after_reserve-Keeps)

  create_new-Keeps :
      (state : Readiness) (token : String) (draws : List Draw) (intent : PaymentOrderIntent)
      → Keeps (Books w) (create_new env s operation state token draws intent)
  unfolding create_new create_admitted
  create_new-Keeps ready token draws intent =
      Keeps-bind (Keeps-attempt (Keeps-admit operation s))
        (create_admitted-Keeps token draws intent)
  create_new-Keeps disabled token draws intent = Keeps-fail _
  create_new-Keeps unconfirmed token draws intent = Keeps-fail _
  create_new-Keeps unconfigured token draws intent = Keeps-fail _
  create_new-Keeps unavailable token draws intent = Keeps-fail _

  create_found-Keeps :
      (found : Option PaymentOrder) (token : String) (draws : List Draw)
      (intent : PaymentOrderIntent)
      → Keeps (Books w) (create_found env s operation found token draws intent)
  unfolding create_found
  create_found-Keeps (some existing) token draws intent =
      Keeps-if (not (str_eq existing.request_hash intent.request_hash)) (Keeps-fail _)
        (Keeps-return _)
  create_found-Keeps none token draws intent = create_new-Keeps _ token draws intent

  pub create_order-Keeps :
      (digest : String → String) (token : String) (draws : List Draw) (amount : ℕ) (origin : Origin)
      (key : String)
      → Keeps (Books w) (create_order env s operation digest token draws amount origin key)
  unfolding create_order create_keyed
  create_order-Keeps digest token draws amount origin key =
      Keeps-if (is_invalid_amount s amount) (Keeps-fail _) (
        Keeps-if (not (is_allowed_origin origin)) (Keeps-fail _) (
          Keeps-if (not (canonical_uuid key)) (Keeps-fail _)
            (Keeps-bind Keeps-look (λ now. create_found-Keeps _ token draws _))))
