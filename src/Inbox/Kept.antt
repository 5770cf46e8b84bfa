-- ===== src/Inbox/Kept.antt =====
-- A callback that was saved is in the inbox (internal/storage/payos_receipts.go).
use acb_transaction_webhook.Base.{
  ℕ, ◌≡◌, refl, ◌∙◌, ap, inl, inr, String, str_eq, eq_refl, Bool, true, Option, none, some, List,
  [], ◌∷◌, ◌++◌, Reason, arith, Bool-cases,
}
use acb_transaction_webhook.Base.Ensures.{
  Ensures, Ensures-bind, Ensures-then, Ensures-if, Ensures-at,
}
use acb_transaction_webhook.Base.Rows.{has_row, update_rows}
use acb_transaction_webhook.Store.{WebhookData, InboxRow, PaymentOrder, Database, Call, is_paid}
use acb_transaction_webhook.Inbox.{
  Digests, VerifiedPaymentCallback, demote_row, insert_known, insert_new, insert_parts, insert_body,
  insert_payment_inbox, save_verified_payment_callback, wake_found, wake_order,
  wake_payment_order_inbox, mark_details_pending, is_pending_work, is_details_pending,
  is_bind_candidate,
}

-- The callback is in the inbox, under the digest of its data.
abbrev pub is_kept : Digests → WebhookData → Database → Bool
is_kept h body db = has_row (λ r. str_eq r.payload_hash (h.payload body)) db.inbox

-- A row of the inbox stays under its digest, whatever else an update makes of it.
kept_after_update :
    (hash : String) (p : InboxRow → Bool) (f : InboxRow → InboxRow) (rows : List InboxRow)
    → ((r : InboxRow) → (f r).payload_hash ≡ r.payload_hash)
    → has_row (λ r. str_eq r.payload_hash hash) rows ≡ true
    → has_row (λ r. str_eq r.payload_hash hash) (update_rows p f rows) ≡ true
kept_after_update hash p f [] same h = h
kept_after_update hash p f (r ∷ rows) same h =
    ground (arith, same r, kept_after_update hash p f rows same)

kept_at_the_end :
    (hash : String) (row : InboxRow) (rows : List InboxRow)
    → str_eq row.payload_hash hash ≡ true
    → has_row (λ r. str_eq r.payload_hash hash) (rows ++ row ∷ []) ≡ true
kept_at_the_end hash row [] e = ground (arith, e)
kept_at_the_end hash row (r ∷ rows) e = ground (arith, kept_at_the_end hash row rows e)

abbrev SameInbox {ℓ} : {A : Type ℓ} → Database → A × Database → Type 0
SameInbox db (a, db') = db'.inbox ≡ db.inbox

wake-SameInbox :
    (c : Call) (found : Option PaymentOrder) (db : Database)
    → Ensures (SameInbox db) (wake_found c found db)
unfolding wake_found wake_order
wake-SameInbox c none db = Ensures.returns refl
wake-SameInbox c (some o) db =
    Ensures-if (is_paid o.status) _ _ (λ _. Ensures.returns refl)
      (λ _. Ensures-bind _ _ λ due _. Ensures.returns refl)

mark_keeps_inbox :
    (reason : Reason) (code : ℕ) (db : Database)
    → (mark_details_pending reason code db).inbox ≡ db.inbox
unfolding mark_details_pending
mark_keeps_inbox reason code db = elim (Bool-cases (is_details_pending reason)) [
  | inl e ↦ rw e refl
  | inr e ↦ rw e refl
]

abbrev pub Kept {ℓ} : {A : Type ℓ} → Digests → WebhookData → A × Database → Type 0
Kept h body (a, db) = is_kept h body db ≡ true

insert_new-Kept :
    (h : Digests) (c : Call) (body : WebhookData) (callback : VerifiedPaymentCallback)
    (reason : Reason) (db : Database)
    → Ensures (Kept h body) (insert_new c (h.payload body) body callback reason db)
unfolding insert_new wake_payment_order_inbox
insert_new-Kept h c body callback reason db =
    let added = λ (row : InboxRow) (e : str_eq row.payload_hash (h.payload body) ≡ true).
      kept_at_the_end (h.payload body) row db.inbox e in
    Ensures-if (is_pending_work reason) _ _
      (λ _. Ensures-bind _ _ λ woken e. Ensures.returns (
        let same =
          mark_keeps_inbox reason callback.order_code woken.1
          ∙ Ensures-at e (wake-SameInbox c _ _) in
        ap (λ (rows : List InboxRow). has_row (λ r. str_eq r.payload_hash (h.payload body)) rows)
          same
        ∙ added _ (eq_refl (h.payload body))))
      (λ _. Ensures.returns (added _ (eq_refl (h.payload body))))

insert_known-Kept :
    (h : Digests) (body : WebhookData) (reason : Reason) (db : Database)
    → is_kept h body db ≡ true
    → Ensures (Kept h body) (insert_known (h.payload body) reason db)
unfolding insert_known demote_row
insert_known-Kept h body reason db k =
    Ensures.returns (elim (Bool-cases (is_bind_candidate reason)) [
      | inl e ↦ rw e k
      | inr e ↦ rw e (kept_after_update (h.payload body) _ _ db.inbox (λ r. refl) k)
    ])

pub insert_parts-Kept :
    (h : Digests) (c : Call) (body : WebhookData) (callback : VerifiedPaymentCallback)
    (why : Option Reason) (db : Database)
    → Ensures (Kept h body) (insert_parts h c callback (some body) why db)
unfolding insert_parts insert_body
insert_parts-Kept h c body callback none db = Ensures.fails
insert_parts-Kept h c body callback (some reason) db =
    Ensures-if (is_kept h body db) _ _ (λ k. insert_known-Kept h body reason db k)
      (λ _. insert_new-Kept h c body callback reason db)

pub insert-Kept :
    (h : Digests) (c : Call) (callback : VerifiedPaymentCallback) (body : WebhookData)
    (db : Database)
    → callback.contents ≡ some body
    → Ensures (Kept h body) (insert_payment_inbox h c callback db)
unfolding insert_payment_inbox
insert-Kept h c callback body db e =
    simp (e) (insert_parts-Kept h c body callback callback.reason db)

pub save-Kept :
    (h : Digests) (c : Call) (callback : VerifiedPaymentCallback) (body : WebhookData)
    (db : Database)
    → callback.contents ≡ some body
    → Ensures (Kept h body) (save_verified_payment_callback h c callback db)
unfolding save_verified_payment_callback
save-Kept h c callback body db e = Ensures-then _ _ λ _. insert-Kept h c callback body db e
