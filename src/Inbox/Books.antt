-- ===== src/Inbox/Books.antt =====
-- The inbox keeps the books.
use acb_transaction_webhook.Base.{
  List, [], ◌∷◌, ℕ, refl, String, str_eq, Option, none, some, Reason, List, Bool-cases, inl, inr,
  not, ◌&&◌, ◌==◌,
}
use acb_transaction_webhook.Base.Ensures.{
  Ensures, Ensures-bind, Ensures-then, Ensures-if, Ensures-at,
}
use acb_transaction_webhook.Base.Rows.{has_row}
use acb_transaction_webhook.Inbox.Pending.{promote_codes, wake_pending_payment_callbacks}
use acb_transaction_webhook.Store.{PaymentOrder, Database, Call, is_paid, WebhookData, InboxRow}
use acb_transaction_webhook.Ledger.{Watches-same, Watch, Books, Books-update, KeepsBooks}
use acb_transaction_webhook.Inbox.{
  Digests, VerifiedPaymentCallback, wake_order, wake_found, wake_payment_order_inbox, woken_row,
  wake_target, mark_details_pending, marked_row, insert_known, insert_new, insert_body,
  insert_payment_inbox, save_verified_payment_callback, is_details_pending, is_bind_candidate,
  is_pending_work, insert_parts,
}

wake_order-Ensures :
    {w : Watch} (c : Call) (o : PaymentOrder) (db : Database)
    → Books w db
    → Ensures (KeepsBooks w) (wake_order c o db)
unfolding wake_order woken_row
wake_order-Ensures c o db l = Ensures-bind _ _ λ due _. Ensures.returns (
    Books-update db (wake_target o.id) (woken_row c.now due) (λ o. refl) (λ o _. (refl, refl, refl))
      l)

wake_found-Ensures :
    {w : Watch} (c : Call) (found : Option PaymentOrder) (db : Database)
    → Books w db
    → Ensures (KeepsBooks w) (wake_found c found db)
unfolding wake_found
wake_found-Ensures c none db l = Ensures.returns l
wake_found-Ensures c (some o) db l =
    Ensures-if (is_paid o.status) _ _ (λ _. Ensures.returns l) (λ _. wake_order-Ensures c o db l)

mark-Ledger :
    {w : Watch} (reason : Reason) (code : ℕ) (db : Database)
    → Books w db
    → Books w (mark_details_pending reason code db)
unfolding mark_details_pending marked_row
mark-Ledger reason code db l = elim (Bool-cases (is_details_pending reason)) [
  | inl e ↦ rw e (
      Books-update db (λ o. (o.order_code == code) && not (is_paid o.status)) marked_row (λ o. refl)
        (λ o _. (refl, refl, refl)) l)
  | inr e ↦ rw e l
]

-- A change of the inbox alone.
pub Ledger-inbox :
    {w : Watch} (db : Database) (rows : List InboxRow)
    → Books w db
    → Books w (record db { inbox = rows })
Ledger-inbox db rows l = record {
  unique = l.unique;
  settled = l.settled;
  credited = l.credited;
  receipted = l.receipted;
  watched = Watches-same _ db _ refl l.watched;
}

insert_known-Ensures :
    {w : Watch} (hash : String) (reason : Reason) (db : Database)
    → Books w db
    → Ensures (KeepsBooks w) (insert_known hash reason db)
unfolding insert_known
insert_known-Ensures hash reason db l =
    Ensures.returns (elim (Bool-cases (is_bind_candidate reason)) [
      | inl e ↦ rw e l
      | inr e ↦ rw e (Ledger-inbox db _ l)
    ])

insert_new-Ensures :
    {w : Watch} (c : Call) (hash : String) (body : WebhookData) (callback : VerifiedPaymentCallback)
    (reason : Reason) (db : Database)
    → Books w db
    → Ensures (KeepsBooks w) (insert_new c hash body callback reason db)
unfolding insert_new wake_payment_order_inbox
insert_new-Ensures c hash body callback reason db l =
    Ensures-if (is_pending_work reason) _ _
      (λ _. Ensures-bind _ _ λ woken e. Ensures.returns (
        mark-Ledger reason callback.order_code woken.1
          (Ensures-at e (wake_found-Ensures c _ _ (Ledger-inbox db _ l)))))
      (λ _. Ensures.returns (Ledger-inbox db _ l))

insert_parts-Ensures :
    {w : Watch} (h : Digests) (c : Call) (callback : VerifiedPaymentCallback) (db : Database)
    (contents : Option WebhookData) (why : Option Reason)
    → Books w db
    → Ensures (KeepsBooks w) (insert_parts h c callback contents why db)
unfolding insert_parts insert_body
insert_parts-Ensures h c callback db none why l = Ensures.fails
insert_parts-Ensures h c callback db (some body) none l = Ensures.fails
insert_parts-Ensures h c callback db (some body) (some reason) l =
    Ensures-if (has_row (λ r. str_eq r.payload_hash (h.payload body)) db.inbox) _ _
      (λ _. insert_known-Ensures _ reason db l)
      (λ _. insert_new-Ensures c _ body callback reason db l)

pub insert-Ensures :
    {w : Watch} (h : Digests) (c : Call) (callback : VerifiedPaymentCallback) (db : Database)
    → Books w db
    → Ensures (KeepsBooks w) (insert_payment_inbox h c callback db)
unfolding insert_payment_inbox
insert-Ensures h c callback db l =
    insert_parts-Ensures h c callback db callback.contents callback.reason l

pub save-Ensures :
    {w : Watch} (h : Digests) (c : Call) (callback : VerifiedPaymentCallback) (db : Database)
    → Books w db
    → Ensures (KeepsBooks w) (save_verified_payment_callback h c callback db)
unfolding save_verified_payment_callback
save-Ensures h c callback db l = Ensures-then _ _ λ _. insert-Ensures h c callback db l

promote-Ensures :
    {w : Watch} (c : Call) (codes : List ℕ) (db : Database)
    → Books w db
    → Ensures (KeepsBooks w) (promote_codes c codes db)
unfolding promote_codes wake_payment_order_inbox
promote-Ensures c [] db l = Ensures.returns l
promote-Ensures c (code ∷ codes) db l = Ensures-bind _ _ λ woken e.
    promote-Ensures c codes woken.1 (Ensures-at e (wake_found-Ensures c _ _ (Ledger-inbox db _ l)))

pub wake_pending-Ensures :
    {w : Watch} (c : Call) (channel : String) (db : Database)
    → Books w db
    → Ensures (KeepsBooks w) (wake_pending_payment_callbacks c channel db)
unfolding wake_pending_payment_callbacks
wake_pending-Ensures c channel db l = Ensures-then _ _ λ _. promote-Ensures c _ db l
