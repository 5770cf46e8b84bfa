-- ===== src/Orders/Lease/Completion.antt =====
-- What a renewal and a completion write, and what they never touch.
use acb_transaction_webhook.Base.{
  ◌≡◌, refl, String, eq_iff, Bool, true, false, arith, not, ◌&&◌, ◌||◌,
}
use acb_transaction_webhook.Base.Ensures.{
  Ensures, Ensures-bind, Ensures-fail_if, Ensures-then, Ensures-if,
}
use acb_transaction_webhook.Base.Clock.{Instant, Stamp}
use acb_transaction_webhook.Base.Rows.{update_rows}
use acb_transaction_webhook.Store.{PaymentOrder, Database, Call, is_paid, valid_payment_status}
use acb_transaction_webhook.Ledger.{Watch, Books, Books-update, KeepsBooks}
use acb_transaction_webhook.Orders.Lease.{
  complete_payment_order_operation, PaymentOrderUpdate, completed_row, holder, is_requested,
  is_paid_text, renew_payment_order_operation, renewed_row, claim_payment_order, claim_open,
  take_over, write_claim, claimed_row, claim_target,
}

holder_only : (id token : String) (o : PaymentOrder) → holder id token o ≡ true → o.id ≡ id
holder_only id token o h = ground (arith, eq_iff o.id id)

-- An update that names PAID is refused, so a completion leaves "is it PAID?" as it was.
completed_paid :
    (now : Instant) (u : PaymentOrderUpdate) (next : Stamp) (o : PaymentOrder)
    → (is_requested u.status && (not (valid_payment_status u.status) || is_paid_text u.status))
      ≡ false
    → is_paid (completed_row now u next o).status ≡ is_paid o.status
unfolding completed_row
completed_paid now u next o h = ground arith

completed-Ledger :
    {w : Watch} (db : Database) (id token : String) (now : Instant) (u : PaymentOrderUpdate)
    (next : Stamp)
    → (is_requested u.status && (not (valid_payment_status u.status) || is_paid_text u.status))
      ≡ false
    → Books w db
    → Books w
        (record db { orders = update_rows (holder id token) (completed_row now u next) db.orders })
unfolding completed_row
completed-Ledger db id token now u next valid =
    Books-update db (holder id token) (completed_row now u next) (λ o. refl)
      (λ o _. (completed_paid now u next o valid, refl, refl))

pub complete-Ensures :
    {w : Watch} (c : Call) (id token : String) (u : PaymentOrderUpdate) (db : Database)
    → Books w db
    → Ensures (KeepsBooks w) (complete_payment_order_operation c id token u db)
unfolding complete_payment_order_operation
complete-Ensures c id token u db l = Ensures-fail_if _ _ _ λ _. Ensures-fail_if _ _ _ λ valid.
    Ensures-bind _ _ λ current _. Ensures-bind _ _ λ next _. Ensures-fail_if _ _ _ λ _.
      Ensures-fail_if _ _ _ λ _. Ensures-then _ _ λ _.
        Ensures-bind _ _
          λ order _. Ensures.returns (completed-Ledger db id token c.now u next valid l)

pub renew-Ensures :
    {w : Watch} (c : Call) (id token : String) (recovery : Bool) (db : Database)
    → Books w db
    → Ensures (KeepsBooks w) (renew_payment_order_operation c id token recovery db)
unfolding renew_payment_order_operation renewed_row
renew-Ensures c id token recovery db l = Ensures-fail_if _ _ _ λ _. Ensures-bind _ _ λ current _.
    Ensures-fail_if _ _ _ λ _. Ensures-then _ _ λ _. Ensures-bind _ _ λ next _.
      Ensures-fail_if _ _ _ λ _. Ensures-bind _ _ λ order _. Ensures.returns (
        Books-update db (λ o. holder id token o && not (is_paid o.status))
          (renewed_row c.now recovery next) (λ o. refl) (λ o _. (refl, refl, refl)) l)

write_claim-Ensures :
    {w : Watch} (token id : String) (now : Instant) (next : Stamp) (order : PaymentOrder)
    (db : Database)
    → Books w db
    → Ensures (KeepsBooks w) (write_claim token id now next order db)
unfolding write_claim claimed_row
write_claim-Ensures token id now next order db l = Ensures-bind _ _ λ order' _. Ensures.returns (
    Books-update db (claim_target id order.operation_token) (claimed_row now token next) (λ o. refl)
      (λ o _. (refl, refl, refl)) l)

pub claim-Ensures :
    {w : Watch} (c : Call) (token id : String) (at : Instant) (db : Database)
    → Books w db
    → Ensures (KeepsBooks w) (claim_payment_order c token id at db)
unfolding claim_payment_order claim_open take_over
claim-Ensures c token id at db l = Ensures-bind _ _ λ order _.
    Ensures-if (is_paid order.status) _ _ (λ _. Ensures.returns l)
      λ _. Ensures-bind _ _ λ holds _.
        Ensures-if holds _ _ (λ _. Ensures.returns l)
          λ _.
            Ensures-then _ _
              λ _. Ensures-bind _ _ λ next _. write_claim-Ensures token id _ next order db l
