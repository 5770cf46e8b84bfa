-- ===== src/Sepay/Ingest/Once.antt =====
-- Sequences of ingestions by internal/storage/sepay.go: a reference of a store is credited once.
use acb_transaction_webhook.Base.{
  ℕ, ◌+◌, ◌≤◌, String, str_eq, eq_iff, ◌≡◌, refl, sym, ap, ◌∙◌, Bool, true, ◌&&◌, Option, none,
  List, [], ◌∷◌, ◌++◌, Result, ok, err, Bool-cases, inl, inr, if◌then◌else◌, arith,
}
use acb_transaction_webhook.Base.Rows.{find_row, count_rows}
use acb_transaction_webhook.Store.{Call}
use acb_transaction_webhook.Settlement.Commit.{Fresh}
use acb_transaction_webhook.Sepay.Tables.{Keyring, SepayReceipt, Credit, SepayStore, commit_sepay}
use acb_transaction_webhook.Sepay.Ingest.{TelegramInput, IngestResult, Digester}
use acb_transaction_webhook.Sepay.Ingest.Judge.{of_receipt}
use acb_transaction_webhook.Sepay.Ingest.Booking.{new_credit, new_sepay_receipt}
use acb_transaction_webhook.Sepay.Ingest.Carry.{ingest_sepay_notification}
use acb_transaction_webhook.Sepay.Ingest.Effect.{Effect, inert, credited, ingest-Effect}

-- One ingestion: its clock and ids, and what it is given.
pub record Ingestion : Type 0 where
  pub call : Call
  pub fresh : Fresh
  pub input : TelegramInput

module _ (keys : Option Keyring) (h : Digester) where
  abbrev pub ingested : Ingestion → SepayStore → SepayStore
  ingested o st = (commit_sepay st (ingest_sepay_notification keys h o.call o.fresh o.input st)).1

  -- The store after a sequence of ingestions, the failed ones rolled back.
  unfoldable pub ingest_run : List Ingestion → SepayStore → SepayStore
  ingest_run [] st = st
  ingest_run (o ∷ os) st = ingest_run os (ingested o st)

abbrev pub of_credit : String → String → Credit → Bool
of_credit store reference c = str_eq c.store_key store && str_eq c.reference reference

-- A credit and a receipt of the same store, reference, transaction, evidence and time.
abbrev pub IsReceiptOf : Credit → SepayReceipt → Type 0
IsReceiptOf c r =
    (c.store_key ≡ r.store_key)
    × (c.reference ≡ r.reference)
    × (c.id ≡ r.transaction_id)
    × (c.canonical_hash ≡ r.canonical_hash)
    × (c.first_seen_at ≡ r.received_at)

-- Credits and receipts side by side, each receipt under a reference of its own.
pub data Paired : List Credit → List SepayReceipt → Type 0 where
  no_credits : Paired [] []
  and_then :
      {cs : List Credit} {rs : List SepayReceipt} (c : Credit) (r : SepayReceipt)
      → Paired cs rs
      → IsReceiptOf c r
      → find_row (of_receipt r.store_key r.reference) rs ≡ none
      → Paired (cs ++ c ∷ []) (rs ++ r ∷ [])

pub Effect-Paired :
    {c : Call} {f : Fresh} {in_ : TelegramInput} {st : SepayStore} {r : IngestResult}
    {next : SepayStore}
    → Effect c f in_ st (r, next)
    → Paired st.credits st.receipts
    → Paired next.credits next.receipts
Effect-Paired (inert _ (_, credits, receipts)) p = rw credits (rw receipts p)
Effect-Paired {c = c} {f = f} {in_ = in_} (credited credit hash event due _ credits receipts) p =
    rw credits (
      rw receipts (
        and_then (new_credit c f in_ credit hash) (new_sepay_receipt c f in_ credit hash) p
          (refl, refl, refl, refl, refl) due.6))

module _ (keys : Option Keyring) (h : Digester) where
  commit-Paired :
      (o : Ingestion) (st : SepayStore) (res : Result (IngestResult × SepayStore))
      → ingest_sepay_notification keys h o.call o.fresh o.input st ≡ res
      → Paired st.credits st.receipts
      → Paired (commit_sepay st res).1.credits (commit_sepay st res).1.receipts
  unfolding commit_sepay
  commit-Paired o st (ok (r, next)) e p =
      Effect-Paired (ingest-Effect keys h o.call o.fresh o.input st (r, next) e) p
  commit-Paired o st (err x) e p = p

  -- Any sequence of ingestions of Telegram notifications keeps credits and receipts paired, one receipt
  -- for each credit with its store, reference, transaction, digest and time, and no two receipts of a
  -- store with the same reference.
  pub ingest_run-Paired :
      (os : List Ingestion) (st : SepayStore)
      → Paired st.credits st.receipts
      → Paired (ingest_run keys h os st).credits (ingest_run keys h os st).receipts
  unfolding ingest_run
  ingest_run-Paired [] st p = p
  ingest_run-Paired (o ∷ os) st p =
      ingest_run-Paired os (ingested keys h o st) (commit-Paired o st _ refl p)

count-snoc :
    {A : Type 0} (q : A → Bool) (xs : List A) (x : A)
    → count_rows q (xs ++ x ∷ []) ≡ count_rows q xs + (if q x then 1 else 0)
count-snoc q [] x = omega arith
count-snoc q (y ∷ xs) x = omega (arith, count-snoc q xs x)

count_absent :
    {A : Type 0} (q : A → Bool) (xs : List A) → find_row q xs ≡ none → count_rows q xs ≡ 0
count_absent q [] e = refl
count_absent q (x ∷ xs) e = ground (arith, count_absent q xs)

count-Paired :
    {cs : List Credit} {rs : List SepayReceipt} (store reference : String)
    → Paired cs rs
    → count_rows (of_credit store reference) cs ≡ count_rows (of_receipt store reference) rs
count-Paired store reference no_credits = refl
count-Paired store reference (and_then {cs = cs} {rs = rs} c r p (stores, references, _, _, _) _) =
    let same : of_credit store reference c ≡ of_receipt store reference r =
      simp (stores, references) refl in
    omega (
      arith,
      count-snoc (of_credit store reference) cs c,
      count-snoc (of_receipt store reference) rs r,
      ap {B = ℕ} (λ b. if b then 1 else 0) same,
      count-Paired store reference p,
    )

absent_before :
    (store reference : String) (r : SepayReceipt) (rs : List SepayReceipt)
    → of_receipt store reference r ≡ true
    → find_row (of_receipt r.store_key r.reference) rs ≡ none
    → find_row (of_receipt store reference) rs ≡ none
absent_before store reference r rs e free =
    let stores : r.store_key ≡ store = ground (arith, e, eq_iff r.store_key store) in
    let references : r.reference ≡ reference = ground (arith, e, eq_iff r.reference reference) in
    sym (ap (λ s. find_row (of_receipt s reference) rs) stores)
    ∙ sym (ap (λ t. find_row (of_receipt r.store_key t) rs) references)
    ∙ free

count_receipts :
    {cs : List Credit} {rs : List SepayReceipt} (store reference : String)
    → Paired cs rs
    → count_rows (of_receipt store reference) rs ≤ 1
count_receipts store reference no_credits = omega arith
count_receipts store reference (and_then {rs = rs} c r p _ free) =
    let last = count-snoc (of_receipt store reference) rs r in
    let before = count_receipts store reference p in
    elim (Bool-cases (of_receipt store reference r)) [
      | inl e ↦ ground (arith, last, count_absent _ rs (absent_before store reference r rs e free))
      | inr e ↦ ground (arith, last, before)
    ]

-- After any sequence of ingestions of Telegram notifications, from a store with its credits and receipts
-- paired, each reference of a store stands in at most one credit.
pub credited_once :
    (keys : Option Keyring) (h : Digester) (os : List Ingestion) (st : SepayStore)
    (store reference : String)
    → Paired st.credits st.receipts
    → count_rows (of_credit store reference) (ingest_run keys h os st).credits ≤ 1
credited_once keys h os st store reference p =
    let run = ingest_run-Paired keys h os st p in
    omega (arith, count-Paired store reference run, count_receipts store reference run)
