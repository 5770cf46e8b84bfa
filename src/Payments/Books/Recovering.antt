-- ===== src/Payments/Books/Recovering.antt =====
-- The recovery of an order (internal/payments/reconcile.go) and its cancellation (cancel.go) keep the
-- books of the store.
use acb_transaction_webhook.Base.{
  ℕ, String, is_blank, Bool, true, false, Option, none, some, is_some, List, [], ◌∷◌, Result, ok,
  err, operation_lost, ◌≡◌, refl,
}
use acb_transaction_webhook.Base.Clock.{Instant, Stamp, absent, garbled, stamped}
use acb_transaction_webhook.Store.{PaymentOrder, InboxRow, ErrorCode}
use acb_transaction_webhook.Ledger.{Watch, Books}
use acb_transaction_webhook.Orders.Lease.{PaymentOrderUpdate}
use acb_transaction_webhook.Orders.Lease.Completion.{claim-Ensures, renew-Ensures, complete-Ensures}
use acb_transaction_webhook.Inbox.{Digests}
use acb_transaction_webhook.Outbox.{EventNotification}
use acb_transaction_webhook.Settlement.{SettlementResult}
use acb_transaction_webhook.Settlement.Books.{settle-Ensures}
use acb_transaction_webhook.Settlement.Commit.{Fresh}
use acb_transaction_webhook.Settlement.Judge.{SettlementInput}
use acb_transaction_webhook.Reconcile.{
  PaymentLink, LinkAction, finishes, settles, cancels_again, recovers_cancel, recovers_create,
  is_paid_link,
}
use acb_transaction_webhook.Payments.{Settings, Environment, Step, CreateResponse}
use acb_transaction_webhook.Payments.Keeps.{
  Keeps, Respects, Keeps-bind, Keeps-then, Keeps-return, Keeps-fail, Keeps-attempt, Keeps-look,
  Keeps-if, Keeps-option, Keeps-store, Keeps-admit, Keeps-releasing, Keeps-record_activity,
  Keeps-publish, Keeps-ask_create, Keeps-ask_get, Keeps-ask_cancel, Keeps-provider_slot,
}
use acb_transaction_webhook.Payments.Recover.{
  perform_ending, apply_concluded, recover_cancel, after_create, create_again, recover_in_slot,
  recover_create, perform_absent, recover_absent, perform, apply_link, after_get, reconcile_claimed,
  claim_and_reconcile, reconcile_order,
}
use acb_transaction_webhook.Payments.Recover.Decide.{
  cancels_absent, reconciles_cancel, creates_again, closes_absent, is_booked, is_hard_failure,
  AbsentAction, is_not_found,
}
use acb_transaction_webhook.Payments.Recover.Settling.{
  forgive_lost, finish_reconcile, renew, note_answer, get_claimed_link, cancel_claimed_link, settle,
  settle_rest, settle_callbacks, settle_evidence, settle_verified_link, after_settling, settle_paid,
  pass_on, complete_cancellation, second_look, cancel_or_look, reconcile_cancellation, read_expiry,
}

forgive-Keeps : {w : Watch} (res : Result PaymentOrder) → Keeps (Books w) (forgive_lost res)
unfolding forgive_lost
forgive-Keeps (ok order) = Keeps-return _
forgive-Keeps (err operation_lost) = Keeps-return _
forgive-Keeps (err e) = Keeps-fail _

expiry-Keeps :
    {w : Watch} (t : Stamp) (order : PaymentOrder)
    → order.expires_at ≡ t
    → Keeps (Books w) (read_expiry order)
expiry-Keeps absent order e = rw e (Keeps-fail _)
expiry-Keeps garbled order e = rw e (Keeps-fail _)
expiry-Keeps (stamped t) order e = rw e (Keeps-return _)

-- The transaction ids that are drawn are not empty.
module _ {w : Watch} {env : Environment} (r : Respects (Books w) env) (s : Settings)
    (operation : String) (h : Digests) (ids : String → Fresh)
    (drawn : (hash : String) → is_blank (ids hash).transaction_id ≡ false) where
  pub finish-Keeps :
      (order : PaymentOrder) (u : PaymentOrderUpdate)
      → Keeps (Books w) (finish_reconcile env s operation h ids order u)
  unfolding finish_reconcile
  finish-Keeps order u =
      Keeps-bind
        (Keeps-attempt (
          Keeps-store operation _
            (λ c db l. complete-Ensures c order.id order.operation_token u db l)))
        forgive-Keeps

  renew-Keeps :
      (order : PaymentOrder) (recovery : Bool)
      → Keeps (Books w) (renew env s operation h ids order recovery)
  unfolding renew
  renew-Keeps order recovery =
      Keeps-store operation _
        (λ c db l. renew-Ensures c order.id order.operation_token recovery db l)

  note-Keeps :
      (link : Option PaymentLink) → Keeps (Books w) (note_answer env s operation h ids link)
  unfolding note_answer
  note-Keeps none = Keeps-return _
  note-Keeps (some link) = Keeps-then (Keeps-record_activity _) (Keeps-return _)

  get-Keeps :
      (order : PaymentOrder) → Keeps (Books w) (get_claimed_link env s operation h ids order)
  unfolding get_claimed_link
  get-Keeps order =
      Keeps-then (Keeps-provider_slot r operation)
        (Keeps-bind (renew-Keeps order false) λ renewed. Keeps-bind (Keeps-ask_get r _) note-Keeps)

  cancel-Keeps :
      (order : PaymentOrder) → Keeps (Books w) (cancel_claimed_link env s operation h ids order)
  unfolding cancel_claimed_link
  cancel-Keeps order =
      Keeps-then (Keeps-provider_slot r operation)
        (Keeps-bind (renew-Keeps order false) λ renewed. Keeps-ask_cancel r _)

  settle-Keeps : (in_ : SettlementInput) → Keeps (Books w) (settle env s operation h ids in_)
  unfolding settle
  settle-Keeps in_ =
      Keeps-store operation _
        (λ c db l. settle-Ensures h c (ids in_.inbox_hash) in_ db (drawn in_.inbox_hash) l)

  settle_rest-Keeps :
      (input : InboxRow → SettlementInput) (event : Option EventNotification)
      (last : SettlementResult) (rows : List InboxRow)
      → Keeps (Books w) (settle_rest env s operation h ids input event last rows)
  unfolding settle_rest
  settle_rest-Keeps input event last [] = Keeps-return _
  settle_rest-Keeps input event last (m ∷ ms) = Keeps-bind (settle-Keeps (input m)) λ result.
      Keeps-if (is_some result.review_reason) (Keeps-return _) (settle_rest-Keeps input _ result ms)

  settle_callbacks-Keeps :
      (in_ : SettlementInput) (now : Instant) (matched items : List InboxRow)
      → Keeps (Books w) (settle_callbacks env s operation h ids in_ now matched items)
  unfolding settle_callbacks
  settle_callbacks-Keeps in_ now (m ∷ ms) items = Keeps-bind (settle-Keeps _) λ result.
      Keeps-if (is_some result.review_reason) (Keeps-return _) (settle_rest-Keeps _ _ result ms)
  settle_callbacks-Keeps in_ now [] (i ∷ is) = Keeps-fail _
  settle_callbacks-Keeps in_ now [] [] = settle-Keeps _

  settle_evidence-Keeps :
      (order : PaymentOrder) (evidence : Result SettlementInput)
      → Keeps (Books w) (settle_evidence env s operation h ids order evidence)
  unfolding settle_evidence
  settle_evidence-Keeps order (err e) = Keeps-fail _
  settle_evidence-Keeps order (ok in_) =
      Keeps-bind Keeps-look λ now. settle_callbacks-Keeps in_ _ _ _

  settle_link-Keeps :
      (order : PaymentOrder) (link : Option PaymentLink)
      → Keeps (Books w) (settle_verified_link env s operation h ids order link)
  unfolding settle_verified_link
  settle_link-Keeps order link = settle_evidence-Keeps order _

  after_settling-Keeps :
      (order : PaymentOrder) (res : Result SettlementResult)
      → Keeps (Books w) (after_settling env s operation h ids order res)
  unfolding after_settling
  after_settling-Keeps order res = Keeps-bind Keeps-look λ now.
      Keeps-if (is_booked res)
        (Keeps-then (Keeps-publish _)
          (Keeps-bind (Keeps-attempt (finish-Keeps order _)) λ finished. Keeps-return _))
        (finish-Keeps order _)

  settle_paid-Keeps :
      (order : PaymentOrder) (link : Option PaymentLink)
      → Keeps (Books w) (settle_paid env s operation h ids order link)
  unfolding settle_paid
  settle_paid-Keeps order link =
      Keeps-bind (Keeps-attempt (settle_link-Keeps order link)) (after_settling-Keeps order)

  pass_on-Keeps :
      (order : PaymentOrder) (res : Result SettlementResult)
      → Keeps (Books w) (pass_on env s operation h ids order res)
  unfolding pass_on
  pass_on-Keeps order (ok res) = after_settling-Keeps order (ok res)
  pass_on-Keeps order (err e) =
      Keeps-if (is_hard_failure (err e)) (Keeps-fail _) (after_settling-Keeps order (err e))

  pub complete_cancellation-Keeps :
      (order : PaymentOrder) (link : PaymentLink)
      → Keeps (Books w) (complete_cancellation env s operation h ids order link)
  unfolding complete_cancellation
  complete_cancellation-Keeps order link = Keeps-bind Keeps-look λ now.
      Keeps-if (is_paid_link link.status)
        (Keeps-bind (Keeps-attempt (settle_link-Keeps order (some link))) (pass_on-Keeps order))
        (finish-Keeps order _)

  -- What concludes the question keeps the books, and so does the asking.
  module _ (conclude : PaymentOrder → PaymentLink → Step (Unit {0}))
      (ends : (order : PaymentOrder) (link : PaymentLink) → Keeps (Books w) (conclude order link))
      (code : ErrorCode) where
    second_look-Keeps :
        (order : PaymentOrder) (wait : Option ℕ)
        → Keeps (Books w) (second_look env s operation h ids conclude code order wait)
    unfolding second_look
    second_look-Keeps order wait =
        Keeps-bind (Keeps-attempt (get-Keeps order))
          λ got. Keeps-bind Keeps-look λ now. Keeps-option _ (ends order) (finish-Keeps order _)

    pub cancel_or_look-Keeps :
        (order : PaymentOrder)
        → Keeps (Books w) (cancel_or_look env s operation h ids conclude code order)
    unfolding cancel_or_look
    cancel_or_look-Keeps order =
        Keeps-bind (Keeps-attempt (cancel-Keeps order))
          λ answer. Keeps-option _ (ends order) (second_look-Keeps order _)

  reconcile_cancellation-Keeps :
      (order : PaymentOrder) → Keeps (Books w) (reconcile_cancellation env s operation h ids order)
  unfolding reconcile_cancellation
  reconcile_cancellation-Keeps order = cancel_or_look-Keeps _ complete_cancellation-Keeps _ order

  perform_ending-Keeps :
      (order : PaymentOrder) (link : PaymentLink) (action : LinkAction)
      → Keeps (Books w) (perform_ending env s operation h ids order link action)
  unfolding perform_ending
  perform_ending-Keeps order link (finishes u) = finish-Keeps order u
  perform_ending-Keeps order link settles = settle_paid-Keeps order (some link)
  perform_ending-Keeps order link cancels_again = Keeps-fail _
  perform_ending-Keeps order link (recovers_cancel o) = Keeps-fail _
  perform_ending-Keeps order link (recovers_create o) = Keeps-fail _

  recover_cancel-Keeps :
      (order : PaymentOrder) → Keeps (Books w) (recover_cancel env s operation h ids order)
  unfolding recover_cancel apply_concluded
  recover_cancel-Keeps order =
      cancel_or_look-Keeps _ (λ o link. Keeps-bind Keeps-look λ now. perform_ending-Keeps o link _)
        _ order

  after_create-Keeps :
      (order : PaymentOrder) (known_link : Bool) (answer : Result (Option CreateResponse))
      → Keeps (Books w) (after_create env s operation h ids order known_link answer)
  unfolding after_create
  after_create-Keeps order known_link answer = Keeps-bind Keeps-look λ now.
      Keeps-option _ (λ response. finish-Keeps order _)
        (Keeps-if known_link (recover_cancel-Keeps order) (finish-Keeps order _))

  create_again-Keeps :
      (order : PaymentOrder) (known_link : Bool)
      → Keeps (Books w) (create_again env s operation h ids order known_link)
  unfolding create_again
  create_again-Keeps order known_link =
      Keeps-bind (expiry-Keeps order.expires_at order refl) λ expires.
        Keeps-bind (Keeps-attempt (Keeps-ask_create r _)) (after_create-Keeps order known_link)

  recover_in_slot-Keeps :
      (order : PaymentOrder) (known_link : Bool) (slot : Result (Unit {0}))
      → Keeps (Books w) (recover_in_slot env s operation h ids order known_link slot)
  unfolding recover_in_slot
  recover_in_slot-Keeps order known_link (err e) = Keeps-bind Keeps-look λ now. finish-Keeps order _
  recover_in_slot-Keeps order known_link (ok _) =
      Keeps-bind (renew-Keeps order known_link) λ renewed. create_again-Keeps _ known_link

  recover_create-Keeps :
      (order : PaymentOrder) (known_link : Bool)
      → Keeps (Books w) (recover_create env s operation h ids order known_link)
  unfolding recover_create
  recover_create-Keeps order known_link =
      Keeps-bind (Keeps-attempt (Keeps-provider_slot r operation))
        (recover_in_slot-Keeps order known_link)

  perform_absent-Keeps :
      (order : PaymentOrder) (action : AbsentAction)
      → Keeps (Books w) (perform_absent env s operation h ids order action)
  unfolding perform_absent
  perform_absent-Keeps order cancels_absent = recover_cancel-Keeps order
  perform_absent-Keeps order reconciles_cancel = reconcile_cancellation-Keeps order
  perform_absent-Keeps order creates_again = recover_create-Keeps order false
  perform_absent-Keeps order (closes_absent u) = finish-Keeps order u

  recover_absent-Keeps :
      (order : PaymentOrder) → Keeps (Books w) (recover_absent env s operation h ids order)
  unfolding recover_absent
  recover_absent-Keeps order =
      Keeps-bind (expiry-Keeps order.expires_at order refl)
        λ expires. Keeps-bind Keeps-look λ now. perform_absent-Keeps order _

  perform-Keeps :
      (order : PaymentOrder) (link : Option PaymentLink) (action : LinkAction)
      → Keeps (Books w) (perform env s operation h ids order link action)
  unfolding perform
  perform-Keeps order link (finishes u) = finish-Keeps order u
  perform-Keeps order link settles = settle_paid-Keeps order link
  perform-Keeps order link cancels_again = reconcile_cancellation-Keeps order
  perform-Keeps order link (recovers_cancel o) = recover_cancel-Keeps o
  perform-Keeps order link (recovers_create o) = recover_create-Keeps o true

  after_get-Keeps :
      (order : PaymentOrder) (got : Result (Option PaymentLink))
      → Keeps (Books w) (after_get env s operation h ids order got)
  unfolding after_get apply_link
  after_get-Keeps order (ok link) = Keeps-bind Keeps-look λ now. perform-Keeps order link _
  after_get-Keeps order (err e) =
      Keeps-bind Keeps-look
        λ now. Keeps-if (is_not_found e) (recover_absent-Keeps order) (finish-Keeps order _)

  reconcile_claimed-Keeps :
      (claimed : PaymentOrder × Bool)
      → Keeps (Books w) (reconcile_claimed env s operation h ids claimed)
  unfolding reconcile_claimed
  reconcile_claimed-Keeps (order, false) = Keeps-return _
  reconcile_claimed-Keeps (order, true) =
      Keeps-bind (Keeps-attempt (get-Keeps order)) (after_get-Keeps order)

  pub reconcile_order-Keeps :
      (token id : String) → Keeps (Books w) (reconcile_order env s operation h ids token id)
  unfolding reconcile_order claim_and_reconcile
  reconcile_order-Keeps token id = Keeps-then (Keeps-admit operation s) (
      Keeps-releasing (
        Keeps-bind Keeps-look λ now.
          Keeps-bind (Keeps-store operation _ (λ c db l. claim-Ensures c token id _ db l))
            reconcile_claimed-Keeps))
