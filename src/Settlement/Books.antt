-- ===== src/Settlement/Books.antt =====
-- The settlement keeps the books, and what a booked payment leaves.
use acb_transaction_webhook.Base.{
  ap, sym, ◌∙◌, ℕ, ◌≡◌, refl, String, str_eq, is_blank, Bool, true, false, Option, none, some,
  arith, Reason, List, [], ◌∷◌, ◌&&◌, ◌==◌, eq_iff, eq_refl, total-append,
}
use acb_transaction_webhook.Base.Ensures.{
  Ensures, Ensures-bind, Ensures-then, Ensures-if, Ensures-fail_if, Ensures-at,
}
use acb_transaction_webhook.Base.Clock.{Instant}
use acb_transaction_webhook.Base.Rows.{has_row}
use acb_transaction_webhook.Base.Keys.{total-update, update-HasUniqueKeys, find-key_of}
use acb_transaction_webhook.Store.{
  is_paid, PaymentOrder, Receipt, Transaction, Delivery, Database, Call,
}
use acb_transaction_webhook.Ledger.{
  Watches-same, Watches-update, Watch, Books, KeepsBooks, IsSettled, paid_amount, order_id,
  All-update_rows,
}
use acb_transaction_webhook.Orders.{payment_order}
use acb_transaction_webhook.Orders.Lease.Claims.{find-id}
use acb_transaction_webhook.Inbox.{Digests, VerifiedPaymentCallback}
use acb_transaction_webhook.Inbox.Books.{insert-Ensures, Ledger-inbox}
use acb_transaction_webhook.Outbox.{EventData, emit_transaction_event, emit_new, append_event}
use acb_transaction_webhook.Settlement.{keep_for_review, review_inbox, carry_out, settle_payment}
use acb_transaction_webhook.Settlement.Judge.{
  SettlementInput, Verdict, review, replay, fresh, terms_reason,
}
use acb_transaction_webhook.Settlement.Judge.Sound.{IsFresh, IsSound, judge-IsSound}
use acb_transaction_webhook.Settlement.Commit.{
  Fresh, book, paid_row, new_receipt, new_transaction, by_id, mark_inbox_processed, mark_row,
  commit_payment,
}

terms-amount :
    (in_ : SettlementInput) (order : PaymentOrder) (d : Bool)
    → terms_reason in_ order d ≡ none
    → order.amount_vnd ≡ in_.amount_vnd
unfolding terms_reason
terms-amount in_ order d h = ground arith

by_id_only : (id : String) (o : PaymentOrder) → by_id id o ≡ true → o.id ≡ id
by_id_only id o h = (eq_iff o.id id).0 h

paid_row-IsSettled :
    (c : Call) (f : Fresh) (in_ : SettlementInput) (o : PaymentOrder)
    → is_blank f.transaction_id ≡ false
    → IsSettled (paid_row c f in_ o)
unfolding paid_row
paid_row-IsSettled c f in_ o h = rw h refl

-- An order that is PAID is not the one that is about to be paid.
unpaid_elsewhere :
    (id : String) (db : Database) (o order : PaymentOrder)
    → payment_order id db ≡ some o
    → payment_order order.id db ≡ some order
    → is_paid o.status ≡ true
    → is_paid order.status ≡ false
    → by_id order.id o ≡ true
    → ⊥
unpaid_elsewhere id db o order at found paid unpaid mine =
    let here : o.id ≡ id = find-id id db.orders {o = o} at in
    let there : o.id ≡ order.id = by_id_only order.id o mine in
    let same : payment_order id db ≡ payment_order order.id db =
      ap (λ (k : String). payment_order k db) (sym here ∙ there) in
    let one : o ≡ order = cc (at, found, same) in
    cc (ap (λ (x : PaymentOrder). is_paid x.status) one, paid, unpaid)

book-Ledger :
    {w : Watch} (h : Digests) (c : Call) (f : Fresh) (in_ : SettlementInput) (order : PaymentOrder)
    (hash key : String) (db : Database)
    → is_blank f.transaction_id ≡ false
    → IsFresh h in_ db order hash
    → Books w db
    → Books w (book c f in_ order hash key db)
unfolding book paid_row new_receipt new_transaction
book-Ledger h c f in_ order hash key db id_set k l =
    let found =
      find-key_of order_id (λ (o : PaymentOrder). o.order_code == in_.order_code) db.orders
        {x = order} l.unique k.found in
    let moved =
      total-update order_id (by_id order.id) (paid_row c f in_) order.id (by_id_only order.id)
        (λ o. refl) paid_amount db.orders {x = order} l.unique found (eq_refl order.id) in
    let before : paid_amount order ≡ 0 = rw k.unpaid refl in
    let amount = terms-amount in_ order false k.terms in
    let credits =
      total-append (λ (t : Transaction). t.credit) db.transactions
        (new_transaction c f in_ order hash key ∷ []) in
    let not_paid =
      λ (id : String) (o : PaymentOrder) (at : payment_order id db ≡ some o)
          (paid : is_paid o.status ≡ true) (mine : by_id order.id o ≡ true).
        unpaid_elsewhere id db o order at found paid k.unpaid mine in
    let receipts =
      total-append (λ (r : Receipt). r.amount_vnd) db.receipts
        (new_receipt c f in_ order hash ∷ []) in
    record {
      unique =
          update-HasUniqueKeys order_id (by_id order.id) (paid_row c f in_) (λ o. refl) db.orders
            l.unique;
      settled =
          All-update_rows (by_id order.id) (paid_row c f in_) db.orders
            (λ o _ _. paid_row-IsSettled c f in_ o id_set) l.settled;
      credited = omega (arith, moved, before, amount, credits, l.credited);
      receipted = omega (arith, moved, before, amount, receipts, l.receipted);
      watched =
          Watches-update _ db _ (by_id order.id) (paid_row c f in_) (λ o. refl)
            (λ id o at paid mine. absurd (not_paid id o at paid mine)) refl l.watched;
    }

append_event-Ledger :
    {w : Watch} (id kind : String) (contents : EventData) (created : Instant) (rows : List Delivery)
    (db : Database)
    → Books w db
    → Books w (append_event id kind contents created rows db).1
unfolding append_event
append_event-Ledger id kind contents created rows db l = record {
  unique = l.unique;
  settled = l.settled;
  credited = l.credited;
  receipted = l.receipted;
  watched = Watches-same _ db _ refl l.watched;
}

emit-Ensures :
    {w : Watch} (fresh_id : ℕ → String) (id kind : String) (contents : EventData)
    (created : Instant) (db : Database)
    → Books w db
    → Ensures (KeepsBooks w) (emit_transaction_event fresh_id id kind contents created db)
unfolding emit_transaction_event emit_new
emit-Ensures fresh_id id kind contents created db l =
    Ensures-if
      (has_row (λ e. str_eq e.transaction_id contents.transaction_id && str_eq e.event_type kind)
        db.events)
      _ _ (λ _. Ensures.returns l)
      λ _.
        Ensures-if (has_row (λ e. str_eq e.id id) db.events) _ _ (λ _. Ensures.fails)
          λ _.
            Ensures-bind _ _
              λ rows _. Ensures.returns (append_event-Ledger id kind contents created rows db l)

mark-Ensures :
    {w : Watch} (c : Call) (hash : String) (db : Database)
    → Books w db
    → Ensures (KeepsBooks w) (mark_inbox_processed c hash db)
unfolding mark_inbox_processed mark_row
mark-Ensures c hash db l =
    Ensures-if (is_blank hash) _ _ (λ _. Ensures.returns l)
      λ _. Ensures-fail_if _ _ _ λ _. Ensures.returns (Ledger-inbox db _ l)

commit-Ensures :
    {w : Watch} (h : Digests) (c : Call) (f : Fresh) (in_ : SettlementInput) (order : PaymentOrder)
    (hash : String) (db : Database)
    → is_blank f.transaction_id ≡ false
    → IsFresh h in_ db order hash
    → Books w db
    → Ensures (KeepsBooks w) (commit_payment h c f in_ order hash db)
unfolding commit_payment
commit-Ensures h c f in_ order hash db id_set k l = Ensures-fail_if _ _ _ λ _.
    Ensures-fail_if _ _ _ λ _. Ensures-bind _ _ λ emitted e. Ensures-bind _ _ λ event _.
      Ensures-bind _ _ λ marked m. Ensures-bind _ _ λ order' _. Ensures.returns (
        Ensures-at m (
          mark-Ensures c in_.inbox_hash _ (
            Ensures-at e (
              emit-Ensures f.delivery_id _ _ _ c.now _
                (book-Ledger h c f in_ order hash _ db id_set k l)))))

review-Ensures :
    {w : Watch} (h : Digests) (c : Call) (in_ : SettlementInput) (reason : Reason)
    (callback : Option VerifiedPaymentCallback) (db : Database)
    → Books w db
    → Ensures (KeepsBooks w) (keep_for_review h c in_ reason callback db)
unfolding keep_for_review review_inbox
review-Ensures h c in_ reason (some callback) db l = insert-Ensures h c _ db l
review-Ensures h c in_ reason none db l =
    Ensures-if (is_blank in_.inbox_hash) _ _ (λ _. Ensures.fails)
      λ _. Ensures-fail_if _ _ _ λ _. Ensures.returns (Ledger-inbox db _ l)

carry_out-Ensures :
    {w : Watch} (h : Digests) (c : Call) (f : Fresh) (in_ : SettlementInput) (v : Verdict)
    (db : Database)
    → is_blank f.transaction_id ≡ false
    → IsSound h in_ db v
    → Books w db
    → Ensures (KeepsBooks w) (carry_out h c f in_ v db)
unfolding carry_out
carry_out-Ensures h c f in_ (review reason order) db id_set s l = Ensures-bind _ _ λ kept e.
    Ensures.returns (Ensures-at e (review-Ensures h c in_ reason in_.verified_callback db l))
carry_out-Ensures h c f in_ (replay order) db id_set s l =
    Ensures-bind _ _ λ marked e. Ensures.returns (Ensures-at e (mark-Ensures c in_.inbox_hash db l))
carry_out-Ensures h c f in_ (fresh order hash) db id_set s l = Ensures-bind _ _ λ committed e.
    Ensures.returns (Ensures-at e (commit-Ensures h c f in_ order hash db id_set s l))

pub settle-Ensures :
    {w : Watch} (h : Digests) (c : Call) (f : Fresh) (in_ : SettlementInput) (db : Database)
    → is_blank f.transaction_id ≡ false
    → Books w db
    → Ensures (KeepsBooks w) (settle_payment h c f in_ db)
unfolding settle_payment
settle-Ensures h c f in_ db id_set l = Ensures-then _ _ λ _.
    Ensures-bind _ _
      λ v e. carry_out-Ensures h c f in_ v db id_set (Ensures-at e (judge-IsSound h in_ db)) l
