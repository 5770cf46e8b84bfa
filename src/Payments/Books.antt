-- ===== src/Payments/Books.antt =====
-- The operations of internal/payments keep the books of the store, whatever the provider answers and
-- whatever others do meanwhile, as long as they keep them too.
mod Creating
mod Recovering
mod Cancelling
mod Answering
use acb_transaction_webhook.Base.{ℕ, String, is_blank, false, List, [], ◌∷◌, ◌≡◌}
use acb_transaction_webhook.Store.{Origin}
use acb_transaction_webhook.Ledger.{Watch, Books}
use acb_transaction_webhook.Orders.Reserve.{Draw}
use acb_transaction_webhook.Inbox.{Digests}
use acb_transaction_webhook.Settlement.Commit.{Fresh}
use acb_transaction_webhook.Payments.{Settings, World, Environment}
use acb_transaction_webhook.Payments.Json.{Fields}
use acb_transaction_webhook.Payments.Keeps.{Keeps, Respects}
use acb_transaction_webhook.Payments.Create.{create_order}
use acb_transaction_webhook.Payments.Recover.{reconcile_order}
use acb_transaction_webhook.Payments.Cancel.{cancel_order, reconcile_due}
use acb_transaction_webhook.Payments.Webhook.{Sdk, handle_webhook}
use acb_transaction_webhook.Payments.Books.Creating.{create_order-Keeps}
use acb_transaction_webhook.Payments.Books.Recovering.{reconcile_order-Keeps}
use acb_transaction_webhook.Payments.Books.Cancelling.{cancel_order-Keeps, reconcile_due-Keeps}
use acb_transaction_webhook.Payments.Books.Answering.{handle_webhook-Keeps}

-- An operation of the service, with its arguments and its random draws.
pub data ServiceOp : Type 0 where
  creates : String → List Draw → ℕ → Origin → String → ServiceOp
  cancels reconciles : String → String → (String → Fresh) → ServiceOp
  rounds : (String → String) → (String → Fresh) → ServiceOp
  handles : List String → Fresh → Fields → ServiceOp

-- The transaction ids that are drawn are not empty.
unfoldable pub DrawsNames : ServiceOp → Type 0
DrawsNames (creates token draws amount origin key) = Unit
DrawsNames (cancels token id ids) = (hash : String) → is_blank (ids hash).transaction_id ≡ false
DrawsNames (reconciles token id ids) = (hash : String) → is_blank (ids hash).transaction_id ≡ false
DrawsNames (rounds tokens ids) = (hash : String) → is_blank (ids hash).transaction_id ≡ false
DrawsNames (handles previous f body) = is_blank f.transaction_id ≡ false

unfoldable pub DrawsAllNames : List ServiceOp → Type 0
DrawsAllNames [] = Unit
DrawsAllNames (op ∷ ops) = DrawsNames op × DrawsAllNames ops

module _ (env : Environment) (s : Settings) (operation : String) (h : Digests)
    (digest : String → String) (sdk : Sdk) where
  unfoldable pub service_step : ServiceOp → World → World
  service_step (creates token draws amount origin key) w =
      (create_order env s operation digest token draws amount origin key w).1
  service_step (cancels token id ids) w = (cancel_order env s operation h ids token id w).1
  service_step (reconciles token id ids) w = (reconcile_order env s operation h ids token id w).1
  service_step (rounds tokens ids) w = (reconcile_due env s operation h ids tokens w).1
  service_step (handles previous f body) w = (handle_webhook s operation h sdk previous f body w).1

  unfoldable pub service_run : List ServiceOp → World → World
  service_run [] w = w
  service_run (op ∷ ops) w = service_run ops (service_step op w)

  module _ {watch : Watch} (r : Respects (Books watch) env) where
    step-Books :
        (op : ServiceOp) (w : World)
        → DrawsNames op
        → Books watch w.db
        → Books watch (service_step op w).db
    unfolding service_step DrawsNames
    step-Books (creates token draws amount origin key) w d l =
        (create_order-Keeps r s operation digest token draws amount origin key).keep w l
    step-Books (cancels token id ids) w d l =
        (cancel_order-Keeps r s operation h ids d token id).keep w l
    step-Books (reconciles token id ids) w d l =
        (reconcile_order-Keeps r s operation h ids d token id).keep w l
    step-Books (rounds tokens ids) w d l =
        (reconcile_due-Keeps r s operation h ids d tokens).keep w l
    step-Books (handles previous f body) w d l =
        (handle_webhook-Keeps s operation h f d sdk previous body).keep w l

    -- In an environment that keeps the books and a watched payment while it is waited for, any
    -- sequence of CreateOrder, CancelOrder, reconcileOrder, reconcileDue and HandleWebhook, whatever
    -- the provider answers to their calls, keeps them, if the transaction ids that are drawn are not
    -- empty: the books stay balanced, and a watched payment stays PAID with its transaction and its
    -- amount.
    pub service_run-Books :
        (ops : List ServiceOp) (w : World)
        → DrawsAllNames ops
        → Books watch w.db
        → Books watch (service_run ops w).db
    unfolding service_run DrawsAllNames
    service_run-Books [] w d l = l
    service_run-Books (op ∷ ops) w (d, ds) l =
        service_run-Books ops (service_step op w) ds (step-Books op w d l)
