-- ===== src/History.antt =====
-- Any sequence of the store's payment operations: ReservePaymentOrder, ClaimPaymentOrder,
-- RenewPaymentOrderOperation and CompletePaymentOrderOperation of internal/storage/payment_orders.go,
-- SaveVerifiedPaymentCallback of payos_receipts.go and SettlePayment of settlement.go.
use acb_transaction_webhook.Base.{
  ◌≡◌, refl, true, some, String, is_blank, Bool, false, List, [], ◌∷◌, Result,
}
use acb_transaction_webhook.Base.Clock.{Instant}
use acb_transaction_webhook.Base.Ensures.{Ensures}
use acb_transaction_webhook.Store.{PaymentOrder, is_paid, Call, Database, Tx, commit, with_tx}
use acb_transaction_webhook.Ledger.{
  Watch, watched_payment, Watches, IsPaidWith, Books, Ledger, KeepsBooks,
}
use acb_transaction_webhook.Orders.{payment_order}
use acb_transaction_webhook.Orders.Lease.{
  PaymentOrderUpdate, claim_payment_order, renew_payment_order_operation,
  complete_payment_order_operation,
}
use acb_transaction_webhook.Orders.Lease.Completion.{claim-Ensures, renew-Ensures, complete-Ensures}
use acb_transaction_webhook.Orders.Reserve.{PaymentOrderIntent, Draw, reserve_payment_order}
use acb_transaction_webhook.Orders.Reserve.Replay.{reserve-Ensures}
use acb_transaction_webhook.Inbox.{Digests, VerifiedPaymentCallback, save_verified_payment_callback}
use acb_transaction_webhook.Inbox.Books.{save-Ensures}
use acb_transaction_webhook.Settlement.{settle_payment}
use acb_transaction_webhook.Settlement.Books.{settle-Ensures}
use acb_transaction_webhook.Settlement.Commit.{Fresh}
use acb_transaction_webhook.Settlement.Judge.{SettlementInput}

pub data PaymentOp : Type 0 where
  reserves : String → List Draw → PaymentOrderIntent → PaymentOp
  claims : String → String → Instant → PaymentOp
  renews : String → String → Bool → PaymentOp
  completes : String → String → PaymentOrderUpdate → PaymentOp
  saves : VerifiedPaymentCallback → PaymentOp
  settles : Fresh → SettlementInput → PaymentOp

module _ (h : Digests) where
  pub payment_step : Call → PaymentOp → Database → Database
  payment_step c (reserves token draws intent) db =
      (with_tx (reserve_payment_order c token draws intent) db).1
  payment_step c (claims token id at) db = (with_tx (claim_payment_order c token id at) db).1
  payment_step c (renews id token recovery) db =
      (with_tx (renew_payment_order_operation c id token recovery) db).1
  payment_step c (completes id token u) db =
      (with_tx (complete_payment_order_operation c id token u) db).1
  payment_step c (saves callback) db = (with_tx (save_verified_payment_callback h c callback) db).1
  payment_step c (settles f evidence) db = (with_tx (settle_payment h c f evidence) db).1

  pub payment_run : List (Call × PaymentOp) → Database → Database
  payment_run [] db = db
  payment_run ((c, op) ∷ ops) db = payment_run ops (payment_step c op db)

-- The random ids are not empty.
unfoldable pub DrawsId : PaymentOp → Type 0
DrawsId (settles f evidence) = is_blank f.transaction_id ≡ false
DrawsId _ = Unit

unfoldable pub DrawsIds : List (Call × PaymentOp) → Type 0
DrawsIds [] = Unit
DrawsIds ((c, op) ∷ ops) = DrawsId op × DrawsIds ops

commit-Ledger :
    {w : Watch} {A : Type 0} (db : Database) (m : Result (A × Database))
    → Books w db
    → Ensures (KeepsBooks w) m
    → Books w (commit db m).1
unfolding commit
commit-Ledger db _ l (Ensures.returns {a = (a, db')} k) = k
commit-Ledger db _ l Ensures.fails = l

committed-Ledger :
    {w : Watch} {A : Type 0} (tx : Tx A) (db : Database)
    → Books w db
    → Ensures (KeepsBooks w) (tx db)
    → Books w (with_tx tx db).1
unfolding with_tx
committed-Ledger tx db l ensured = commit-Ledger db (tx db) l ensured

module _ (h : Digests) where
  step-Ledger :
      {w : Watch} (c : Call) (op : PaymentOp) (db : Database)
      → DrawsId op
      → Books w db
      → Books w (payment_step h c op db)
  unfolding payment_step DrawsId
  step-Ledger c (reserves token draws intent) db d l =
      committed-Ledger _ db l (reserve-Ensures c token draws intent db l)
  step-Ledger c (claims token id at) db d l =
      committed-Ledger _ db l (claim-Ensures c token id at db l)
  step-Ledger c (renews id token recovery) db d l =
      committed-Ledger _ db l (renew-Ensures c id token recovery db l)
  step-Ledger c (completes id token u) db d l =
      committed-Ledger _ db l (complete-Ensures c id token u db l)
  step-Ledger c (saves callback) db d l = committed-Ledger _ db l (save-Ensures h c callback db l)
  step-Ledger c (settles f evidence) db d l =
      committed-Ledger _ db l (settle-Ensures h c f evidence db d l)

  run-Ledger :
      {w : Watch} (ops : List (Call × PaymentOp)) (db : Database)
      → DrawsIds ops
      → Books w db
      → Books w (payment_run h ops db)
  unfolding payment_run DrawsIds
  run-Ledger [] db d l = l
  run-Ledger ((c, op) ∷ ops) db (d, ds) l =
      run-Ledger ops (payment_step h c op db) ds (step-Ledger c op db d l)

  -- Balanced books stay balanced under any sequence of reservations, claims, renewals,
  -- completions, callbacks and settlements, whatever their results, if the transaction ids that
  -- are drawn are not empty: order ids stay unique, an order is PAID exactly when a transaction is
  -- bound to it, and the credits of the transactions and the amounts of the receipts both add up
  -- to the amounts of the PAID orders.
  pub books_balance :
      (ops : List (Call × PaymentOp)) (db : Database)
      → DrawsIds ops
      → Ledger db
      → Ledger (payment_run h ops db)
  books_balance ops db d l = run-Ledger ops db d l

  -- A payment is final: from balanced books, an order that is PAID is still there, PAID with the
  -- same transaction and the same amount, after any sequence of reservations, claims, renewals,
  -- completions, callbacks and settlements, if the transaction ids that are drawn are not empty.
  pub payment_is_final :
      (ops : List (Call × PaymentOp)) (db : Database) (id : String) {o : PaymentOrder}
      → DrawsIds ops
      → Ledger db
      → payment_order id db ≡ some o
      → is_paid o.status ≡ true
      → IsPaidWith id o.transaction_id o.amount_vnd (payment_run h ops db)
  unfolding Watches IsPaidWith
  payment_is_final ops db id {o} d l found paid =
      let watching : Books (watched_payment id o.transaction_id o.amount_vnd) db = record {
        unique = l.unique;
        settled = l.settled;
        credited = l.credited;
        receipted = l.receipted;
        watched = (o, found, paid, refl, refl);
      } in
      (run-Ledger ops db d watching).watched
