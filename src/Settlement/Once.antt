-- ===== src/Settlement/Once.antt =====
-- A payment is booked once: the same evidence again is a duplicate.
use acb_transaction_webhook.Base.{
  ◌≡◌, refl, ap, ◌∙◌, String, is_blank, true, Option, none, some, is_some, ok, arith, ◌>>=◌, ◌>>◌,
}
use acb_transaction_webhook.Base.Ensures.{
  Ensures, Ensures-bind, Ensures-then, Ensures-fail_if, Ensures-at,
}
use acb_transaction_webhook.Store.{
  PaymentOrder, Receipt, Database, Call, is_paid, check_mutation_allowed,
}
use acb_transaction_webhook.Ledger.{Ledger}
use acb_transaction_webhook.Orders.Lease.{read_order}
use acb_transaction_webhook.Inbox.{Digests}
use acb_transaction_webhook.Outbox.{EventNotification}
use acb_transaction_webhook.Settlement.{SettlementResult, carry_out, settle_payment}
use acb_transaction_webhook.Settlement.Judge.{
  SettlementInput, Verdict, review, replay, fresh, judge, terms_reason,
}
use acb_transaction_webhook.Settlement.Judge.Sound.{IsFresh, IsSound, judge-IsSound, receipt_of}
use acb_transaction_webhook.Settlement.Commit.{
  Fresh, book, paid_row, new_receipt, mark_inbox_processed, commit_payment, semantic_key,
  namespace_of,
}
use acb_transaction_webhook.Settlement.Booked.{
  emit-SameBooks, mark_blank, IsBooked, book-IsBooked, judge_again,
}

-- What a settlement with an event leaves: the order that it reports is paid, and is found again.
pub record Settled (h : Digests) (in_ : SettlementInput) (res : SettlementResult) (db' : Database)
    : Type 0 where
  pub order : PaymentOrder
  pub reported : res.order ≡ some order
  pub paid_now : is_paid order.status ≡ true
  pub amount : order.amount_vnd ≡ in_.amount_vnd
  pub link : order.payment_link_id ≡ in_.payment_link_id
  pub receipt : Receipt
  pub receipted : receipt_of in_ db' ≡ some receipt
  pub receipt_amount : receipt.amount_vnd ≡ in_.amount_vnd
  pub receipt_order : receipt.order_id ≡ order.id
  pub bound : order.transaction_id ≡ receipt.transaction_id
  pub judged : judge h in_ db' ≡ ok (replay order)

abbrev IsSettlement : Digests → SettlementInput → SettlementResult × Database → Type 0
IsSettlement h in_ (res, db') = is_some res.event ≡ true → Settled h in_ res db'

booked-Settled :
    (h : Digests) (c : Call) (f : Fresh) (in_ : SettlementInput) (order : PaymentOrder)
    (hash : String) (db db' : Database) (res : SettlementResult) (order' : PaymentOrder)
    → is_blank in_.inbox_hash ≡ true
    → IsFresh h in_ db order hash
    → IsBooked c f in_ order hash db'
    → read_order order.id db' ≡ ok order'
    → res.order ≡ some order'
    → Settled h in_ res db'
unfolding paid_row new_receipt terms_reason
booked-Settled h c f in_ order hash db db' res order' blank k b e r =
    let same : order' ≡ paid_row c f in_ order = ground (arith, b.1, e) in
    record {
      order = paid_row c f in_ order;
      reported = r ∙ ap some same;
      paid_now = refl;
      amount = ground (arith, k.terms);
      link = refl;
      receipt = new_receipt c f in_ order hash;
      receipted = b.2;
      receipt_amount = refl;
      receipt_order = refl;
      bound = refl;
      judged = judge_again h c f in_ order hash db db' blank k b;
    }

abbrev IsCommitted :
    Call
    → Fresh
    → SettlementInput
    → PaymentOrder
    → String
    → (PaymentOrder × EventNotification) × Database
    → Type 0
IsCommitted c f in_ order hash ((order', event), db') =
    IsBooked c f in_ order hash db' × (read_order order.id db' ≡ ok order')

IsBooked-moves :
    (c : Call) (f : Fresh) (in_ : SettlementInput) (order : PaymentOrder) (hash : String)
    (db db' : Database)
    → db'.orders ≡ db.orders
    → db'.receipts ≡ db.receipts
    → IsBooked c f in_ order hash db
    → IsBooked c f in_ order hash db'
IsBooked-moves c f in_ order hash db db' o r b = (rw o b.0, rw o b.1, rw r b.2)

commit-IsCommitted :
    (h : Digests) (c : Call) (f : Fresh) (in_ : SettlementInput) (order : PaymentOrder)
    (hash : String) (db : Database)
    → is_blank in_.inbox_hash ≡ true
    → Ledger db
    → IsFresh h in_ db order hash
    → Ensures (IsCommitted c f in_ order hash) (commit_payment h c f in_ order hash db)
unfolding commit_payment
commit-IsCommitted h c f in_ order hash db blank l k = Ensures-fail_if _ _ _ λ _.
    Ensures-fail_if _ _ _ λ _. Ensures-bind _ _ λ emitted e. Ensures-bind _ _ λ event _.
      Ensures-bind _ _ λ marked m. Ensures-bind _ _ λ order' r. Ensures.returns (
        let same = Ensures-at e (emit-SameBooks f.delivery_id _ _ _ c.now _) in
        let unmarked = mark_blank c in_.inbox_hash _ blank m in
        (
          IsBooked-moves c f in_ order hash
              (book c f in_ order hash (semantic_key (namespace_of h in_) in_.reference) db)
              marked.1 (ap (λ (d : Database). d.orders) unmarked ∙ same.0)
              (ap (λ (d : Database). d.receipts) unmarked ∙ same.1)
              (book-IsBooked h c f in_ order hash _ db l k),
          r,
        ))

carry_out-IsSettlement :
    (h : Digests) (c : Call) (f : Fresh) (in_ : SettlementInput) (v : Verdict) (db : Database)
    → is_blank in_.inbox_hash ≡ true
    → Ledger db
    → IsSound h in_ db v
    → Ensures (IsSettlement h in_) (carry_out h c f in_ v db)
unfolding carry_out
carry_out-IsSettlement h c f in_ (review reason order) db blank l s =
    Ensures-bind _ _ λ kept _. Ensures.returns (λ e. absurd (cc))
carry_out-IsSettlement h c f in_ (replay order) db blank l s =
    Ensures-bind _ _ λ marked _. Ensures.returns (λ e. absurd (cc))
carry_out-IsSettlement h c f in_ (fresh order hash) db blank l s = Ensures-bind _ _ λ committed e.
    Ensures.returns (λ _.
      let (booked, read) = Ensures-at e (commit-IsCommitted h c f in_ order hash db blank l s) in
      booked-Settled h c f in_ order hash db committed.1 _ committed.0.0 blank s booked read refl)

settle-IsSettlement :
    (h : Digests) (c : Call) (f : Fresh) (in_ : SettlementInput) (db : Database)
    → is_blank in_.inbox_hash ≡ true
    → Ledger db
    → Ensures (IsSettlement h in_) (settle_payment h c f in_ db)
unfolding settle_payment
settle-IsSettlement h c f in_ db blank l = Ensures-then _ _ λ _.
    Ensures-bind _ _
      λ v e. carry_out-IsSettlement h c f in_ v db blank l (Ensures-at e (judge-IsSound h in_ db))

-- What a settlement outside the reconciler that produced an event has committed, on balanced
-- books: the order that it reports is PAID, for the amount and under the link of the evidence; a
-- receipt for the evidence's channel and reference stands, over that amount, for that order and
-- its transaction; and the same evidence would now be judged a replay of that order.
pub settle-Settled :
    (h : Digests) (c : Call) (f : Fresh) (in_ : SettlementInput) (db : Database)
    {res : SettlementResult} {db' : Database}
    → is_blank in_.inbox_hash ≡ true
    → Ledger db
    → settle_payment h c f in_ db ≡ ok (res, db')
    → is_some res.event ≡ true
    → Settled h in_ res db'
settle-Settled h c f in_ db blank l e some_event =
    Ensures-at e (settle-IsSettlement h c f in_ db blank l) some_event

abbrev pub replay_result : Option PaymentOrder → SettlementResult
replay_result order = record {
  order = order;
  duplicate = true;
  event = none;
  review_reason = none;
  inbox_hash = "";
}

replay_carried :
    (h : Digests) (c : Call) (f : Fresh) (in_ : SettlementInput) (order : PaymentOrder)
    (db : Database)
    → is_blank in_.inbox_hash ≡ true
    → carry_out h c f in_ (replay order) db ≡ ok (replay_result (some order), db)
unfolding carry_out mark_inbox_processed ◌>>=◌
replay_carried h c f in_ order db blank = rw blank refl

-- Exactly once: let a settlement outside the reconciler, without a row of the inbox to mark, have
-- produced an event, on balanced books. If the store that it left takes mutations at the second
-- call, the same evidence with any random ids then succeeds as a duplicate of the same order. It
-- produces no event, and the database stays as it was.
pub settle_once :
    (h : Digests) (c₁ c₂ : Call) (f₁ f₂ : Fresh) (in_ : SettlementInput) (db : Database)
    {res : SettlementResult} {db' : Database}
    → is_blank in_.inbox_hash ≡ true
    → Ledger db
    → settle_payment h c₁ f₁ in_ db ≡ ok (res, db')
    → is_some res.event ≡ true
    → check_mutation_allowed c₂ db' ≡ ok tt
    → settle_payment h c₂ f₂ in_ db' ≡ ok (replay_result res.order, db')
unfolding settle_payment ◌>>=◌ ◌>>◌
settle_once h c₁ c₂ f₁ f₂ in_ db {res} {db'} blank l e some_event open_gate =
    let s = Ensures-at e (settle-IsSettlement h c₁ f₁ in_ db blank l) some_event in
    rw open_gate (rw s.judged (rw s.reported (replay_carried h c₂ f₂ in_ s.order db' blank)))
