-- ===== src/Settlement/Booked.antt =====
-- What a booked payment leaves in the tables of internal/storage/settlement.go, and how the same
-- evidence is judged there.
use acb_transaction_webhook.Base.{
  ℕ, ◌≡◌, refl, String, str_eq, is_blank, true, false, Option, none, some, ok, arith, List, ◌&&◌,
  ◌==◌, ◌>>=◌, eq_refl,
}
use acb_transaction_webhook.Base.Ensures.{Ensures, Ensures-bind, Ensures-if}
use acb_transaction_webhook.Base.Clock.{Instant}
use acb_transaction_webhook.Base.Rows.{has_row}
use acb_transaction_webhook.Base.Keys.{find-update_same, find-snoc, find-key_of}
use acb_transaction_webhook.Store.{PaymentOrder, Delivery, InboxRow, Database, Call}
use acb_transaction_webhook.Ledger.{Ledger, order_id}
use acb_transaction_webhook.Orders.{payment_order, payment_order_by_code}
use acb_transaction_webhook.Inbox.{Digests, inbox_row}
use acb_transaction_webhook.Outbox.{EventData, emit_transaction_event, emit_new, append_event}
use acb_transaction_webhook.Settlement.Judge.{
  SettlementInput, replay, judge, judge_order, judge_receipt, judge_terms, judge_inbox,
  final_verdict, terms_reason, inbox_reason, is_conflict, receipt_for, canonical_hash,
  input_account, is_incomplete,
}
use acb_transaction_webhook.Settlement.Judge.Sound.{IsFresh, receipt_of}
use acb_transaction_webhook.Settlement.Commit.{
  Fresh, book, paid_row, new_receipt, by_id, mark_inbox_processed,
}

abbrev SameBooks {ℓ} : {A : Type ℓ} → Database → A × Database → Type 0
SameBooks db (a, db') = (db'.orders ≡ db.orders) × (db'.receipts ≡ db.receipts)

append_event-SameBooks :
    (id kind : String) (contents : EventData) (created : Instant) (rows : List Delivery)
    (db : Database)
    → ((append_event id kind contents created rows db).1.orders ≡ db.orders)
      × ((append_event id kind contents created rows db).1.receipts ≡ db.receipts)
unfolding append_event
append_event-SameBooks id kind contents created rows db = (refl, refl)

pub emit-SameBooks :
    (fresh_id : ℕ → String) (id kind : String) (contents : EventData) (created : Instant)
    (db : Database)
    → Ensures (SameBooks db) (emit_transaction_event fresh_id id kind contents created db)
unfolding emit_transaction_event emit_new
emit-SameBooks fresh_id id kind contents created db =
    Ensures-if
      (has_row (λ e. str_eq e.transaction_id contents.transaction_id && str_eq e.event_type kind)
        db.events)
      _ _ (λ _. Ensures.returns (refl, refl))
      λ _.
        Ensures-if (has_row (λ e. str_eq e.id id) db.events) _ _ (λ _. Ensures.fails)
          λ _.
            Ensures-bind _ _
              λ rows _. Ensures.returns (append_event-SameBooks id kind contents created rows db)

pub mark_blank :
    (c : Call) (hash : String) (db : Database) {m : Unit {0} × Database}
    → is_blank hash ≡ true
    → mark_inbox_processed c hash db ≡ ok m
    → m.1 ≡ db
unfolding mark_inbox_processed
mark_blank c hash db {m} b h = ground (arith, b)

-- The order and the receipt that a booked payment leaves.
abbrev pub IsBooked : Call → Fresh → SettlementInput → PaymentOrder → String → Database → Type 0
IsBooked c f in_ order hash db' =
    (payment_order_by_code in_.order_code db' ≡ some (paid_row c f in_ order))
    × (payment_order order.id db' ≡ some (paid_row c f in_ order))
    × (receipt_of in_ db' ≡ some (new_receipt c f in_ order hash))

pub book-IsBooked :
    (h : Digests) (c : Call) (f : Fresh) (in_ : SettlementInput) (order : PaymentOrder)
    (hash key : String) (db : Database)
    → Ledger db
    → IsFresh h in_ db order hash
    → IsBooked c f in_ order hash (book c f in_ order hash key db)
unfolding book paid_row new_receipt
book-IsBooked h c f in_ order hash key db l k =
    let q = λ (o : PaymentOrder). o.order_code == in_.order_code in
    let found = find-key_of order_id q db.orders {x = order} l.unique k.found in
    (
      find-update_same q (by_id order.id) (paid_row c f in_) db.orders {x = order} (λ o. refl)
          k.found (eq_refl order.id),
      find-update_same (by_id order.id) (by_id order.id) (paid_row c f in_) db.orders {x = order}
          (λ o. refl) found (eq_refl order.id),
      find-snoc (receipt_for in_.channel_id in_.reference) db.receipts
          (new_receipt c f in_ order hash) k.no_receipt
          (ground (arith, eq_refl in_.channel_id, eq_refl in_.reference)),
    )

paid_terms :
    (c : Call) (f : Fresh) (in_ : SettlementInput) (order : PaymentOrder)
    → is_blank in_.payment_link_id ≡ false
    → terms_reason in_ order false ≡ none
    → terms_reason in_ (paid_row c f in_ order) true ≡ none
unfolding terms_reason paid_row
paid_terms c f in_ order link h =
    ground (arith, eq_refl in_.payment_link_id, eq_refl (input_account in_))

complete_link :
    (in_ : SettlementInput) → is_incomplete in_ ≡ false → is_blank in_.payment_link_id ≡ false
unfolding is_incomplete
complete_link in_ h = ground arith

no_conflict :
    (h : Digests) (c : Call) (f : Fresh) (in_ : SettlementInput) (order : PaymentOrder)
    (hash : String)
    → hash ≡ canonical_hash h in_
    → is_conflict h in_ (paid_row c f in_ order) (some (new_receipt c f in_ order hash)) ≡ false
unfolding paid_row new_receipt
no_conflict h c f in_ order hash e =
    ground (arith, e, eq_refl (canonical_hash h in_), eq_refl order.id)

no_late :
    (in_ : SettlementInput) (r : Option InboxRow)
    → is_blank in_.inbox_hash ≡ true
    → inbox_reason in_ r ≡ ok none
unfolding inbox_reason
no_late in_ r h = rw h refl

final_replay :
    (h : Digests) (c : Call) (f : Fresh) (in_ : SettlementInput) (order : PaymentOrder)
    (hash : String)
    → final_verdict h in_ (paid_row c f in_ order) (some (new_receipt c f in_ order hash))
      ≡ ok (replay (paid_row c f in_ order))
unfolding final_verdict paid_row new_receipt
final_replay h c f in_ order hash = rw (eq_refl f.transaction_id) refl

judge_paid :
    (h : Digests) (c : Call) (f : Fresh) (in_ : SettlementInput) (order : PaymentOrder)
    (hash : String) (db db' : Database)
    → is_blank in_.inbox_hash ≡ true
    → IsFresh h in_ db order hash
    → receipt_of in_ db' ≡ some (new_receipt c f in_ order hash)
    → judge_order h in_ (some (paid_row c f in_ order)) db' ≡ ok (replay (paid_row c f in_ order))
unfolding judge_order judge_receipt judge_terms judge_inbox ◌>>=◌
judge_paid h c f in_ order hash db db' blank k receipt =
    let channel : str_eq (paid_row c f in_ order).channel_id in_.channel_id ≡ true =
      unfold paid_row in k.channel in
    rw channel (
      rw receipt (
        rw (no_conflict h c f in_ order hash k.hashed) (
          rw (paid_terms c f in_ order (complete_link in_ k.complete) k.terms) (
            rw (no_late in_ (inbox_row in_.inbox_hash db') blank)
              (final_replay h c f in_ order hash)))))

pub judge_again :
    (h : Digests) (c : Call) (f : Fresh) (in_ : SettlementInput) (order : PaymentOrder)
    (hash : String) (db db' : Database)
    → is_blank in_.inbox_hash ≡ true
    → IsFresh h in_ db order hash
    → IsBooked c f in_ order hash db'
    → judge h in_ db' ≡ ok (replay (paid_row c f in_ order))
unfolding judge
judge_again h c f in_ order hash db db' blank k (found, _, receipt) =
    rw k.time (rw k.complete (rw found (judge_paid h c f in_ order hash db db' blank k receipt)))
