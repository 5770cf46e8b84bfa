-- ===== src/Sepay/Ingest/Effect.antt =====
-- What a successful `IngestSePayNotification` of internal/storage/sepay.go has done to the money.
use acb_transaction_webhook.Base.{
  String, str_eq, ◌≡◌, refl, ap, ◌∙◌, Bool, true, false, Option, none, some, [], ◌∷◌, ◌++◌, ok,
  Bool-cases, inl, inr, if◌then◌else◌,
}
use acb_transaction_webhook.Base.Clock.{Instant}
use acb_transaction_webhook.Base.Ensures.{
  Ensures, returns, Ensures-bind, Ensures-then, Ensures-fail_if, Ensures-at,
}
use acb_transaction_webhook.Base.Rows.{has_row}
use acb_transaction_webhook.Store.{Call}
use acb_transaction_webhook.Outbox.{EventNotification}
use acb_transaction_webhook.Settlement.Commit.{Fresh}
use acb_transaction_webhook.Sepay.Tables.{Keyring, Connection, SepayStore}
use acb_transaction_webhook.Sepay.Notification.{SepayReason}
use acb_transaction_webhook.Sepay.Ingest.{
  SepayCredit, TelegramInput, IngestResult, Digester, ensure_sepay_connection, ensure_found,
}
use acb_transaction_webhook.Sepay.Ingest.Judge.{
  Decision, replays, quarantines, finishes, books, of_update,
}
use acb_transaction_webhook.Sepay.Ingest.Rows.{insert_observation, insert_candidate, finish_row}
use acb_transaction_webhook.Sepay.Ingest.Booking.{
  new_credit, new_sepay_receipt, insert_sepay_credit, book_credit,
}
use acb_transaction_webhook.Sepay.Ingest.Carry.{
  carry_out_decision, ingest_tx, ingest_sepay_notification,
}
use acb_transaction_webhook.Sepay.Ingest.Due.{IsDue, judge_observation-IsDue}

-- The same transactions, receipts, events and deliveries.
abbrev pub IsSameMoney : SepayStore → SepayStore → Type 0
IsSameMoney a b = (a.core ≡ b.core) × (a.credits ≡ b.credits) × (a.receipts ≡ b.receipts)

-- Nothing, or one credit on its conditions, with its receipt and its event.
pub data Effect (c : Call) (f : Fresh) (in_ : TelegramInput) (st : SepayStore)
    : IngestResult × SepayStore → Type 0 where
  inert :
      {r : IngestResult} {next : SepayStore}
      → r.event ≡ none
      → IsSameMoney next st
      → Effect c f in_ st (r, next)
  credited :
      {r : IngestResult} {next : SepayStore} (credit : SepayCredit) (hash : String)
      (event : EventNotification)
      → IsDue in_ st credit
      → r.event ≡ some event
      → next.credits ≡ st.credits ++ new_credit c f in_ credit hash ∷ []
      → next.receipts ≡ st.receipts ++ new_sepay_receipt c f in_ credit hash ∷ []
      → Effect c f in_ st (r, next)

found-IsSameMoney :
    (keys : Keyring) (in_ : TelegramInput) (now : Instant) (row : Option Connection)
    (st : SepayStore)
    → Ensures (λ next. IsSameMoney next st) (ensure_found keys in_ now row st)
unfolding ensure_found
found-IsSameMoney keys in_ now (some c) st =
    Ensures-fail_if _ _ _ (λ _. Ensures-then _ _ (λ _. returns (refl, refl, refl)))
found-IsSameMoney keys in_ now none st = Ensures-bind _ _ (λ e _. returns (refl, refl, refl))

observation-IsSameMoney :
    (in_ : TelegramInput) (hash envelope : String) (now : Instant) (st : SepayStore)
    → IsSameMoney (insert_observation in_ hash envelope now st) st
unfolding insert_observation
observation-IsSameMoney in_ hash envelope now st =
    elim (Bool-cases (has_row (of_update in_) st.telegram_inbox)) [
      | inl e ↦ simp (e) (refl, refl, refl)
      | inr e ↦ simp (e) (refl, refl, refl)
    ]

candidate-IsSameMoney :
    (id : String) (in_ : TelegramInput) (reason : SepayReason) (hash envelope : String)
    (now : Instant) (st : SepayStore)
    → IsSameMoney (insert_candidate id in_ reason hash envelope now st) st
unfolding insert_candidate
candidate-IsSameMoney id in_ reason hash envelope now st =
    elim (Bool-cases (has_row (λ q. str_eq q.id id) st.quarantine)) [
      | inl e ↦ simp (e) (refl, refl, refl)
      | inr e ↦ simp (e) (refl, refl, refl)
    ]

IsSameMoney-trans : (a b d : SepayStore) → IsSameMoney a b → IsSameMoney b d → IsSameMoney a d
IsSameMoney-trans a b d (core, credits, receipts) (core', credits', receipts') =
    (core ∙ core', credits ∙ credits', receipts ∙ receipts')

credit-Ensures :
    (keys : Keyring) (h : Digester) (c : Call) (f : Fresh) (in_ : TelegramInput)
    (credit : SepayCredit) (hash : String) (st : SepayStore)
    → Ensures
        (λ p.
          (p.1.credits ≡ st.credits ++ new_credit c f in_ credit hash ∷ [])
          × (p.1.receipts ≡ st.receipts))
        (insert_sepay_credit keys h c f in_ credit hash st)
unfolding insert_sepay_credit
credit-Ensures keys h c f in_ credit hash st = Ensures-fail_if _ _ _ (λ _.
    Ensures-bind _ _
      (λ _ _. Ensures-bind _ _ (λ _ _. Ensures-bind _ _ (λ _ _. returns (refl, refl)))))

book-Effect :
    (keys : Keyring) (h : Digester) (c : Call) (f : Fresh) (in_ : TelegramInput)
    (credit : SepayCredit) (hash : String) (st connected : SepayStore)
    → IsSameMoney connected st
    → IsDue in_ st credit
    → Ensures (Effect c f in_ st) (book_credit keys h c f in_ credit hash connected)
unfolding book_credit finish_row
book-Effect keys h c f in_ credit hash st connected (_, credits, receipts) due =
    Ensures-bind _ _ (λ p e.
      let added = Ensures-at e (credit-Ensures keys h c f in_ credit hash connected) in
      Ensures-fail_if _ _ _ (λ _. returns (
        credited credit hash p.0 due refl
          (added.0 ∙ ap (λ cs. cs ++ new_credit c f in_ credit hash ∷ []) credits)
          (ap (λ rs. rs ++ new_sepay_receipt c f in_ credit hash ∷ []) (added.1 ∙ receipts)))))

quarantined-IsSameMoney :
    (in_ : TelegramInput) (known : Bool) (reason : SepayReason) (kept st : SepayStore)
    → IsSameMoney kept st
    → IsSameMoney (if known then kept else finish_row in_ reason none kept) st
unfolding finish_row
quarantined-IsSameMoney in_ true reason kept st h = h
quarantined-IsSameMoney in_ false reason kept st h = h

decision-Effect :
    (keys : Keyring) (h : Digester) (c : Call) (f : Fresh) (in_ : TelegramInput) (known : Bool)
    (hash envelope : String) (decision : Decision) (st connected : SepayStore)
    → IsSameMoney connected st
    → ((credit : SepayCredit) (d : String) → decision ≡ books credit d → IsDue in_ st credit)
    → Ensures
        (Effect c f in_ st)
        (carry_out_decision keys h c f in_ known hash envelope decision connected)
unfolding carry_out_decision finish_row
decision-Effect keys h c f in_ known hash envelope (replays r) st connected same due =
    returns (inert refl same)
decision-Effect keys h c f in_ known hash envelope (quarantines reason old) st connected same due =
    let kept =
      insert_candidate (h.candidate_id in_ hash reason) in_ reason old envelope c.now connected in
    let unmoved =
      IsSameMoney-trans kept connected st
        (candidate-IsSameMoney (h.candidate_id in_ hash reason) in_ reason old envelope c.now
          connected)
        same in
    returns (inert refl (quarantined-IsSameMoney in_ known reason kept st unmoved))
decision-Effect keys h c f in_ known hash envelope (finishes again reason t) st connected same due =
    returns (inert refl same)
decision-Effect keys h c f in_ known hash envelope (books credit d) st connected same due =
    book-Effect keys h c f in_ credit d st connected same (due credit d refl)

tx-Effect :
    (keys : Keyring) (h : Digester) (c : Call) (f : Fresh) (in_ : TelegramInput)
    (hashes : String × String) (envelope : String) (st : SepayStore)
    → Ensures (Effect c f in_ st) (ingest_tx keys h c f in_ hashes envelope st)
unfolding ingest_tx ensure_sepay_connection
tx-Effect keys h c f in_ hashes envelope st =
    let observed = insert_observation in_ hashes.0 envelope c.now st in
    Ensures-then _ _ (λ _. Ensures-then _ _ (λ _. Ensures-bind _ _ (λ connected e.
      Ensures-bind _ _ (λ decision judged.
        decision-Effect keys h c f in_ _ hashes.0 envelope decision st connected
          (IsSameMoney-trans connected observed st
            (Ensures-at e (found-IsSameMoney keys in_ c.now _ observed))
            (observation-IsSameMoney in_ hashes.0 envelope c.now st))
          (λ credit d books_it.
            judge_observation-IsDue keys h in_ hashes.0 hashes.1 st credit d
              (judged ∙ ap ok books_it))))))

-- An ingestion of a Telegram notification that succeeds either leaves the transactions, the receipts,
-- the events and the deliveries as they are and returns no event, or it returns one, and adds one
-- credit and its receipt for a new update, on an active channel and without a reason for review, whose
-- amount is between 1 and the largest safe integer, whose time is not before the activation, and whose
-- reference had no receipt.
pub ingest-Effect :
    (keys : Option Keyring) (h : Digester) (c : Call) (f : Fresh) (in_ : TelegramInput)
    (st : SepayStore) (result : IngestResult × SepayStore)
    → ingest_sepay_notification keys h c f in_ st ≡ ok result
    → Effect c f in_ st result
unfolding ingest_sepay_notification
ingest-Effect none h c f in_ st result e = absurd (cc)
ingest-Effect (some keys) h c f in_ st result e = Ensures-at e (
    Ensures-fail_if _ _ _ (λ _. Ensures-then _ _ (λ _.
      Ensures-bind _ _ (λ hashes _.
        Ensures-bind _ _ (λ envelope _. tx-Effect keys h c f in_ hashes envelope st)))))
