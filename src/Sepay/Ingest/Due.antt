-- ===== src/Sepay/Ingest/Due.antt =====
-- When `IngestSePayNotification` of internal/storage/sepay.go decides for a credit.
use acb_transaction_webhook.Base.{
  ◌≤◌, String, ◌≡◌, refl, false, Option, none, some, List, ok, Bool-cases, inl, inr, arith,
  >>=-eq-ok,
}
use acb_transaction_webhook.Base.Rows.{find_row, has_row}
use acb_transaction_webhook.Payments.Create.{max_safe_integer}
use acb_transaction_webhook.Sepay.Tables.{Keyring, TelegramRow, SepayReceipt, SepayStore}
use acb_transaction_webhook.Sepay.Notification.{SepayReason}
use acb_transaction_webhook.Sepay.Ingest.{SepayCredit, TelegramInput, Digester}
use acb_transaction_webhook.Sepay.Ingest.Judge.{
  books, of_update, of_receipt, is_observed, finish_again, judge_observation, judge_known,
  judge_previous, judge_new, judge_first, judge_evidence, judge_credit, judge_known_receipt,
  judge_unseen,
}

-- The conditions of a credit: a new update of an active channel with no reason for review, an amount
-- in range, a time after the activation, and a reference without a receipt.
abbrev pub IsDue : TelegramInput → SepayStore → SepayCredit → Type 0
IsDue in_ st credit =
    (in_.credit ≡ some credit)
    × (in_.review_reason ≡ none)
    × (is_observed in_.mode ≡ false)
    × (1 ≤ credit.amount_vnd)
    × (credit.amount_vnd ≤ max_safe_integer)
    × (in_.activation_at ≤ credit.transaction_at)
    × (find_row (of_receipt in_.store_key credit.reference) st.receipts ≡ none)
    × (has_row (of_update in_) st.telegram_inbox ≡ false)

unseen_books :
    (in_ : TelegramInput) (credit b : SepayCredit) (hash d : String)
    → judge_unseen in_ credit hash ≡ books b d
    → (b ≡ credit) × (is_observed in_.mode ≡ false) × (in_.activation_at ≤ credit.transaction_at)
unfolding judge_unseen
unseen_books in_ credit b hash d h = ground arith

receipt_books :
    (in_ : TelegramInput) (credit b : SepayCredit) (hash d : String) (known : Option SepayReceipt)
    → judge_known_receipt in_ credit hash known ≡ books b d
    → (known ≡ none) × (judge_unseen in_ credit hash ≡ books b d)
unfolding judge_known_receipt
receipt_books in_ credit b hash d none h = (refl, h)
receipt_books in_ credit b hash d (some r) h = ground arith

credit_books :
    (h : Digester) (in_ : TelegramInput) (receipts : List SepayReceipt) (credit b : SepayCredit)
    (d : String)
    → judge_credit h in_ receipts credit ≡ books b d
    → (1 ≤ credit.amount_vnd)
      × (credit.amount_vnd ≤ max_safe_integer)
      × (judge_known_receipt in_ credit
            (h.canonical in_ credit)
            (find_row (of_receipt in_.store_key credit.reference) receipts)
          ≡ books b d)
unfolding judge_credit
credit_books h in_ receipts credit b d e = ground arith

again_books :
    (r : TelegramRow) (reason : SepayReason) (b : SepayCredit) (d : String)
    → ¬ (finish_again r reason ≡ books b d)
again_books r reason b d h = ground arith

previous_books :
    (keys : Keyring) (h : Digester) (in_ : TelegramInput) (hash : String) (r : TelegramRow)
    (b : SepayCredit) (d : String)
    → ¬ (judge_previous keys h in_ hash r ≡ ok (books b d))
unfolding judge_previous
previous_books keys h in_ hash r b d e =
    let raw = >>=-eq-ok _ _ e in
    let hashes = >>=-eq-ok _ _ raw.1 in ground (arith, hashes.1, again_books r r.reason b d)

known_books :
    (in_ : TelegramInput) (hash : String) (row : Option TelegramRow) (b : SepayCredit) (d : String)
    → ¬ (judge_known in_ hash row ≡ ok (books b d))
unfolding judge_known
known_books in_ hash none b d e = ground arith
known_books in_ hash (some r) b d e = ground arith

new_books :
    (keys : Keyring) (h : Digester) (in_ : TelegramInput) (hash : String)
    (receipts : List SepayReceipt) (row : Option TelegramRow) (b : SepayCredit) (d : String)
    → judge_new keys h in_ hash receipts row ≡ ok (books b d)
    → judge_first h in_ receipts ≡ books b d
unfolding judge_new
new_books keys h in_ hash receipts none b d e = ground arith
new_books keys h in_ hash receipts (some r) b d e = absurd (previous_books keys h in_ hash r b d e)

first_books :
    (h : Digester) (in_ : TelegramInput) (receipts : List SepayReceipt)
    (reason : Option SepayReason) (credit : Option SepayCredit) (b : SepayCredit) (d : String)
    → judge_evidence h in_ receipts reason credit ≡ books b d
    → (reason ≡ none)
      × ((c : SepayCredit) × (credit ≡ some c) × (judge_credit h in_ receipts c ≡ books b d))
unfolding judge_evidence
first_books h in_ receipts (some reason) credit b d e = ground arith
first_books h in_ receipts none none b d e = ground arith
first_books h in_ receipts none (some c) b d e = (refl, (c, refl, e))

first-IsDue :
    (h : Digester) (in_ : TelegramInput) (st : SepayStore) (b : SepayCredit) (d : String)
    → judge_first h in_ st.receipts ≡ books b d
    → has_row (of_update in_) st.telegram_inbox ≡ false
    → IsDue in_ st b
unfolding judge_first
first-IsDue h in_ st b d e new =
    let first = first_books h in_ st.receipts in_.review_reason in_.credit b d e in
    let found = credit_books h in_ st.receipts first.1.0 b d first.1.2 in
    let fresh = receipt_books in_ first.1.0 b (h.canonical in_ first.1.0) d _ found.2 in
    let unseen = unseen_books in_ first.1.0 b (h.canonical in_ first.1.0) d fresh.1 in
    rw unseen.0 (first.1.1, first.0, unseen.1, found.0, found.1, unseen.2, fresh.0, new)

-- A decision for a credit is taken on its conditions.
pub judge_observation-IsDue :
    (keys : Keyring) (h : Digester) (in_ : TelegramInput) (hash message_hash : String)
    (st : SepayStore) (b : SepayCredit) (d : String)
    → judge_observation keys h in_ hash message_hash st ≡ ok (books b d)
    → IsDue in_ st b
unfolding judge_observation
judge_observation-IsDue keys h in_ hash message_hash st b d e =
    elim (Bool-cases (has_row (of_update in_) st.telegram_inbox)) [
      | inl known ↦ absurd (known_books in_ hash _ b d (rw known at e))
      | inr new ↦
          first-IsDue h in_ st b d
            (new_books keys h in_ message_hash st.receipts _ b d (rw new at e)) new
    ]
