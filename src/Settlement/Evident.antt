-- ===== src/Settlement/Evident.antt =====
-- What a settlement of a signed callback leaves behind: the callback in the inbox, or a receipt.
use acb_transaction_webhook.Base.{
  ◌≡◌, ap, ◌∙◌, ◌⊎◌, inl, inr, String, eq_refl, is_blank, Bool, true, some, List, [], ◌∷◌, ◌++◌,
  arith, is_some,
}
use acb_transaction_webhook.Base.Ensures.{
  Ensures, Ensures-bind, Ensures-then, Ensures-fail_if, Ensures-at,
}
use acb_transaction_webhook.Base.Rows.{find_row}
use acb_transaction_webhook.Store.{WebhookData, Receipt, PaymentOrder, Database, Call}
use acb_transaction_webhook.Inbox.{Digests, VerifiedPaymentCallback}
use acb_transaction_webhook.Inbox.Kept.{is_kept, insert-Kept}
use acb_transaction_webhook.Settlement.{keep_for_review, carry_out, settle_payment}
use acb_transaction_webhook.Settlement.Judge.{
  SettlementInput, Verdict, review, replay, fresh, receipt_for,
}
use acb_transaction_webhook.Settlement.Judge.Sound.{IsSound, judge-IsSound}
use acb_transaction_webhook.Settlement.Commit.{Fresh, book, new_receipt, commit_payment}
use acb_transaction_webhook.Settlement.Booked.{emit-SameBooks, mark_blank}

-- The callback is in the inbox, or a receipt stands under the channel and the reference.
unfoldable pub IsEvident : Digests → WebhookData → String → String → Database → Type 0
IsEvident h body channel reference db =
    (is_kept h body db ≡ true)
    ⊎ (is_some (find_row (receipt_for channel reference) db.receipts) ≡ true)

found_at_the_end :
    (q : Receipt → Bool) (rows : List Receipt) (row : Receipt)
    → q row ≡ true
    → is_some (find_row q (rows ++ row ∷ [])) ≡ true
found_at_the_end q [] row e = ground (arith, e)
found_at_the_end q (r ∷ rows) row e = ground (arith, found_at_the_end q rows row e)

abbrev Evident {ℓ} : {A : Type ℓ} → Digests → WebhookData → SettlementInput → A × Database → Type 0
Evident h body in_ (a, db) = IsEvident h body in_.channel_id in_.reference db

commit-Evident :
    (h : Digests) (c : Call) (f : Fresh) (body : WebhookData) (in_ : SettlementInput)
    (order : PaymentOrder) (hash : String) (db : Database)
    → is_blank in_.inbox_hash ≡ true
    → Ensures (Evident h body in_) (commit_payment h c f in_ order hash db)
unfolding commit_payment IsEvident book new_receipt
commit-Evident h c f body in_ order hash db blank = Ensures-fail_if _ _ _ λ _.
    Ensures-fail_if _ _ _ λ _. Ensures-bind _ _ λ emitted e. Ensures-bind _ _ λ event _.
      Ensures-bind _ _ λ marked m. Ensures-bind _ _ λ order' r. Ensures.returns (
        let q = receipt_for in_.channel_id in_.reference in
        let receipts =
          ap (λ (d : Database). d.receipts) (mark_blank c in_.inbox_hash _ blank m)
          ∙ (Ensures-at e (emit-SameBooks f.delivery_id _ _ _ c.now _)).1 in
        inr (
          ap (λ (rows : List Receipt). is_some (find_row q rows)) receipts
          ∙ found_at_the_end q db.receipts (new_receipt c f in_ order hash)
              (ground (arith, eq_refl in_.channel_id, eq_refl in_.reference))))

carry_out-Evident :
    (h : Digests) (c : Call) (f : Fresh) (body : WebhookData) (callback : VerifiedPaymentCallback)
    (in_ : SettlementInput) (v : Verdict) (db : Database)
    → is_blank in_.inbox_hash ≡ true
    → in_.verified_callback ≡ some callback
    → callback.contents ≡ some body
    → IsSound h in_ db v
    → Ensures (Evident h body in_) (carry_out h c f in_ v db)
unfolding carry_out keep_for_review IsEvident
carry_out-Evident h c f body callback in_ (review reason order) db blank signed full s = rw signed (
    Ensures-bind _ _ λ kept e. Ensures.returns (
      inl (Ensures-at e (insert-Kept h c (record callback { reason = some reason }) body db full))))
carry_out-Evident h c f body callback in_ (replay order) db blank signed full s =
    Ensures-bind _ _ λ marked e. Ensures.returns (
      let same = ap (λ (d : Database). d.receipts) (mark_blank c in_.inbox_hash db blank e) in
      inr (
        ap
          (λ (rows : List Receipt).
            is_some (find_row (receipt_for in_.channel_id in_.reference) rows))
          same
        ∙ ap is_some s.receipted))
carry_out-Evident h c f body callback in_ (fresh order hash) db blank signed full s =
    Ensures-bind _ _ λ committed e.
      Ensures.returns (Ensures-at e (commit-Evident h c f body in_ order hash db blank))

pub settle-Evident :
    (h : Digests) (c : Call) (f : Fresh) (body : WebhookData) (callback : VerifiedPaymentCallback)
    (in_ : SettlementInput) (db : Database)
    → is_blank in_.inbox_hash ≡ true
    → in_.verified_callback ≡ some callback
    → callback.contents ≡ some body
    → Ensures (Evident h body in_) (settle_payment h c f in_ db)
unfolding settle_payment
settle-Evident h c f body callback in_ db blank signed full = Ensures-then _ _ λ _.
    Ensures-bind _ _ λ v e.
      carry_out-Evident h c f body callback in_ v db blank signed full
        (Ensures-at e (judge-IsSound h in_ db))
