-- ===== src/Settlement/Judge/Sound.antt =====
-- What stands behind each verdict.
use acb_transaction_webhook.Base.{
  ◌≡◌, refl, String, str_eq, is_blank, true, false, Option, none, some, is_some, ok, arith, Reason,
  not, ◌||◌, ◌==◌, eq_iff,
}
use acb_transaction_webhook.Base.Ensures.{Ensures, Ensures-bind, Ensures-if}
use acb_transaction_webhook.Base.Rows.{find_row}
use acb_transaction_webhook.Store.{PaymentOrder, Receipt, Database, is_paid}
use acb_transaction_webhook.Orders.{payment_order_by_code}
use acb_transaction_webhook.Inbox.{Digests, inbox_row}
use acb_transaction_webhook.Settlement.Judge.{
  SettlementInput, Verdict, review, replay, fresh, judge, judge_order, judge_receipt, judge_terms,
  judge_inbox, final_verdict, terms_reason, inbox_reason, is_incomplete, receipt_for,
  canonical_hash, is_conflict,
}

abbrev pub receipt_of : SettlementInput → Database → Option Receipt
receipt_of in_ db = find_row (receipt_for in_.channel_id in_.reference) db.receipts

-- The tests that a payment passed before it may be booked.
pub record IsFresh (h : Digests) (in_ : SettlementInput) (db : Database) (order : PaymentOrder)
    (hash : String) : Type 0 where
  pub time : (in_.transaction_at == 0) ≡ false
  pub complete : is_incomplete in_ ≡ false
  pub found : payment_order_by_code in_.order_code db ≡ some order
  pub channel : str_eq order.channel_id in_.channel_id ≡ true
  pub no_receipt : receipt_of in_ db ≡ none
  pub terms : terms_reason in_ order false ≡ none
  pub late : inbox_reason in_ (inbox_row in_.inbox_hash db) ≡ ok none
  pub unpaid : is_paid order.status ≡ false
  pub unbound : is_blank order.transaction_id ≡ true
  pub hashed : hash ≡ canonical_hash h in_

-- A replay is of a receipt that stands for the same payment of the same, paid order.
pub record IsReplay (h : Digests) (in_ : SettlementInput) (db : Database) (order : PaymentOrder)
    : Type 0 where
  pub found : payment_order_by_code in_.order_code db ≡ some order
  pub receipt : Receipt
  pub receipted : receipt_of in_ db ≡ some receipt
  pub same_payment : is_conflict h in_ order (some receipt) ≡ false
  pub same_transaction : order.transaction_id ≡ receipt.transaction_id
  pub paid_already : is_paid order.status ≡ true

abbrev pub IsSound : Digests → SettlementInput → Database → Verdict → Type 0
IsSound h in_ db (review reason order) = Unit {0}
IsSound h in_ db (replay order) = IsReplay h in_ db order
IsSound h in_ db (fresh order hash) = IsFresh h in_ db order hash

final-IsSound :
    (h : Digests) (in_ : SettlementInput) (db : Database) (order : PaymentOrder)
    (receipt : Option Receipt)
    → (in_.transaction_at == 0) ≡ false
    → is_incomplete in_ ≡ false
    → payment_order_by_code in_.order_code db ≡ some order
    → str_eq order.channel_id in_.channel_id ≡ true
    → receipt_of in_ db ≡ receipt
    → is_conflict h in_ order receipt ≡ false
    → terms_reason in_ order (is_some receipt) ≡ none
    → inbox_reason in_ (inbox_row in_.inbox_hash db) ≡ ok none
    → Ensures (IsSound h in_ db) (final_verdict h in_ order receipt)
unfolding final_verdict
final-IsSound h in_ db order none t c f ch r conflict terms late =
    Ensures-if (is_paid order.status || not (is_blank order.transaction_id)) _ _
      (λ _. Ensures.returns tt)
      λ e. Ensures.returns (record {
        time = t;
        complete = c;
        found = f;
        channel = ch;
        no_receipt = r;
        terms = terms;
        late = late;
        unpaid = ground (arith, e);
        unbound = ground (arith, e);
        hashed = refl;
      })
final-IsSound h in_ db order (some r) t c f ch e conflict terms late =
    Ensures-if (not (str_eq order.transaction_id r.transaction_id) || not (is_paid order.status)) _
      _ (λ _. Ensures.fails)
      λ k. Ensures.returns (record {
        found = f;
        receipt = r;
        receipted = e;
        same_payment = conflict;
        same_transaction = ground (arith, k, eq_iff order.transaction_id r.transaction_id);
        paid_already = ground (arith, k);
      })

late-IsSound :
    (h : Digests) (in_ : SettlementInput) (db : Database) (order : PaymentOrder)
    (receipt : Option Receipt) (why : Option Reason)
    → (in_.transaction_at == 0) ≡ false
    → is_incomplete in_ ≡ false
    → payment_order_by_code in_.order_code db ≡ some order
    → str_eq order.channel_id in_.channel_id ≡ true
    → receipt_of in_ db ≡ receipt
    → is_conflict h in_ order receipt ≡ false
    → terms_reason in_ order (is_some receipt) ≡ none
    → inbox_reason in_ (inbox_row in_.inbox_hash db) ≡ ok why
    → Ensures (IsSound h in_ db) (judge_inbox h in_ order receipt why)
unfolding judge_inbox
late-IsSound h in_ db order receipt (some reason) t c f ch r conflict terms late =
    Ensures.returns tt
late-IsSound h in_ db order receipt none t c f ch r conflict terms late =
    final-IsSound h in_ db order receipt t c f ch r conflict terms late

terms-IsSound :
    (h : Digests) (in_ : SettlementInput) (db : Database) (order : PaymentOrder)
    (receipt : Option Receipt) (why : Option Reason)
    → (in_.transaction_at == 0) ≡ false
    → is_incomplete in_ ≡ false
    → payment_order_by_code in_.order_code db ≡ some order
    → str_eq order.channel_id in_.channel_id ≡ true
    → receipt_of in_ db ≡ receipt
    → is_conflict h in_ order receipt ≡ false
    → terms_reason in_ order (is_some receipt) ≡ why
    → Ensures (IsSound h in_ db) (judge_terms h in_ order receipt why db)
unfolding judge_terms
terms-IsSound h in_ db order receipt (some reason) t c f ch r conflict terms = Ensures.returns tt
terms-IsSound h in_ db order receipt none t c f ch r conflict terms =
    Ensures-bind _ _
      λ why late. late-IsSound h in_ db order receipt why t c f ch r conflict terms late

order-IsSound :
    (h : Digests) (in_ : SettlementInput) (db : Database) (found : Option PaymentOrder)
    → (in_.transaction_at == 0) ≡ false
    → is_incomplete in_ ≡ false
    → payment_order_by_code in_.order_code db ≡ found
    → Ensures (IsSound h in_ db) (judge_order h in_ found db)
unfolding judge_order judge_receipt
order-IsSound h in_ db none t c f = Ensures.returns tt
order-IsSound h in_ db (some order) t c f =
    let r = receipt_of in_ db in
    Ensures-if (not (str_eq order.channel_id in_.channel_id)) _ _ (λ _. Ensures.returns tt)
      λ ch.
        Ensures-if (is_conflict h in_ order r) _ _ (λ _. Ensures.returns tt)
          λ conflict. terms-IsSound h in_ db order r _ t c f (ground (arith, ch)) refl conflict refl

pub judge-IsSound :
    (h : Digests) (in_ : SettlementInput) (db : Database)
    → Ensures (IsSound h in_ db) (judge h in_ db)
unfolding judge
judge-IsSound h in_ db =
    Ensures-if (in_.transaction_at == 0) _ _ (λ _. Ensures.returns tt)
      λ t.
        Ensures-if (is_incomplete in_) _ _ (λ _. Ensures.returns tt)
          λ c. order-IsSound h in_ db _ t c refl
