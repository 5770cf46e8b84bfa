-- ===== src/Reconcile/Evidence.antt =====
-- The evidence that the reconciler takes from a signed link, and the settlement's tests of it.
use mathlib.Core.Path.{subst}
use acb_transaction_webhook.Base.{
  ◌≡◌, refl, ap, sym, ◌∙◌, String, str_eq, eq_iff, eq_refl, is_blank, Bool, true, false, not, ◌&&◌,
  ◌||◌, Option, none, some, List, [], ◌∷◌, ok, arith, ◌==◌, Bool-cases, inl, inr, ◌⊎◌,
}
use acb_transaction_webhook.Base.Clock.{Instant, parse_stamp}
use acb_transaction_webhook.Store.{PaymentOrder}
use acb_transaction_webhook.Settlement.Judge.{
  SettlementInput, evidence_matches, get_matches, input_account, is_space_only, terms_reason,
  effective_account,
}
use acb_transaction_webhook.Reconcile.{
  PaymentLink, LinkTransaction, verified_link_matches, verified_link_settlement,
  paid_link_settlement, single_transaction, settlement_of, is_paid_link, is_zero,
  dereference_string,
}

blank_is_space : (s : String) → is_blank s ≡ true → is_space_only s ≡ true
unfolding is_space_only
blank_is_space s h = rw ((eq_iff s "").0 h) refl

-- What the reading of a link has checked.
record IsRead (order : PaymentOrder) (link : PaymentLink) (in_ : SettlementInput) : Type 0 where
  transaction : LinkTransaction
  at : Instant
  input : in_ ≡ settlement_of order link transaction at
  amount : (transaction.amount == order.amount_vnd) ≡ true
  account :
      is_blank (
        effective_account transaction.account_number
          (dereference_string transaction.virtual_account_number))
      ≡ false

single-IsRead :
    (order : PaymentOrder) (link : PaymentLink) (t : LinkTransaction) (o : Option Instant)
    {in_ : SettlementInput}
    → single_transaction order link t o ≡ ok in_
    → IsRead order link in_
unfolding single_transaction
single-IsRead order link t none h = absurd (cc)
single-IsRead order link t (some at) {in_} h =
    let account =
      effective_account t.account_number (dereference_string t.virtual_account_number) in
    elim (Bool-cases
      (is_space_only t.reference || not (t.amount == order.amount_vnd) || is_space_only account)) [
        | inl bad ↦ absurd (cc (rw bad at h))
        | inr good ↦
            let read : settlement_of order link t at ≡ in_ = cc (rw good at h) in
            let open_account : is_space_only account ≡ false = ground (arith, good) in
            record {
              transaction = t;
              at = at;
              input = sym read;
              amount = ground (arith, good);
              account = elim (Bool-cases (is_blank account)) [
                | inl b ↦ absurd (cc (blank_is_space account b, open_account))
                | inr nb ↦ nb
              ];
            }
      ]

paid-IsRead :
    (order : PaymentOrder) (link : PaymentLink) (ts : List LinkTransaction) {in_ : SettlementInput}
    → paid_link_settlement order link ts ≡ ok in_
    → IsRead order link in_
unfolding paid_link_settlement
paid-IsRead order link [] h = absurd (cc)
paid-IsRead order link (t ∷ []) h =
    single-IsRead order link t (parse_stamp t.transaction_date_time) h
paid-IsRead order link (t ∷ u ∷ ts) h = absurd (cc)

settlement_of-matches :
    (order : PaymentOrder) (link : PaymentLink) (t : LinkTransaction) (at : Instant)
    → is_blank (effective_account t.account_number (dereference_string t.virtual_account_number))
      ≡ false
    → get_matches (settlement_of order link t at) ≡ true
unfolding settlement_of evidence_matches
settlement_of-matches order link t at h =
    let account =
      effective_account t.account_number (dereference_string t.virtual_account_number) in
    ground (arith, h, eq_refl link.id, eq_refl t.reference, eq_refl account)

-- The account of the order is open, or it is the one that was paid to.
abbrev pub AccountFits : PaymentOrder → SettlementInput → Type 0
AccountFits order in_ =
    (is_blank order.account_number ≡ true) ⊎ (order.account_number ≡ input_account in_)

account_fits :
    (order : PaymentOrder) (in_ : SettlementInput)
    → AccountFits order in_
    → (not (is_blank order.account_number) && not (str_eq order.account_number (input_account in_)))
      ≡ false
account_fits order in_ (inl b) = ground (arith, b)
account_fits order in_ (inr e) =
    ground (arith, (eq_iff order.account_number (input_account in_)).1 e)

read_terms :
    (order : PaymentOrder) (link : PaymentLink) (t : LinkTransaction) (at : Instant) (d : Bool)
    → verified_link_matches order (some link) ≡ true
    → (t.amount == order.amount_vnd) ≡ true
    → is_blank (effective_account t.account_number (dereference_string t.virtual_account_number))
      ≡ false
    → AccountFits order (settlement_of order link t at)
    → terms_reason (settlement_of order link t at) order d ≡ none
unfolding terms_reason verified_link_matches settlement_of
read_terms order link t at d m amount account fits =
    let matches = settlement_of-matches order link t at account in
    let bound = account_fits order (settlement_of order link t at) fits in
    ground (arith, m, amount, account, matches, bound)

verified-IsRead :
    (order : PaymentOrder) (link : PaymentLink) {in_ : SettlementInput}
    → verified_link_settlement order (some link) ≡ ok in_
    → (verified_link_matches order (some link) ≡ true) × IsRead order link in_
unfolding verified_link_settlement
verified-IsRead order link {in_} h =
    let refused =
      not (verified_link_matches order (some link))
      || not (is_paid_link link.status)
      || not (link.amount_paid == order.amount_vnd)
      || not (is_zero link.amount_remaining) in
    elim (Bool-cases refused) [
      | inl bad ↦ absurd (cc (rw bad at h))
      | inr good ↦ (ground (arith, good), paid-IsRead order link link.transactions (rw good at h))
    ]

accepted :
    (order : PaymentOrder) (link : PaymentLink) (d : Bool) {in_ : SettlementInput}
    → verified_link_settlement order (some link) ≡ ok in_
    → AccountFits order in_
    → (get_matches in_ ≡ true) × (terms_reason in_ order d ≡ none)
accepted order link d {in_} h fits =
    let (m, r) = verified-IsRead order link h in
    let read = settlement_of order link r.transaction r.at in
    let fits' : AccountFits order read = subst (AccountFits order) r.input fits in
    let terms = read_terms order link r.transaction r.at d m r.amount r.account fits' in
    let matches = settlement_of-matches order link r.transaction r.at r.account in
    (
      ap (λ (i : SettlementInput). get_matches i) r.input ∙ matches,
      ap (λ (i : SettlementInput). terms_reason i order d) r.input ∙ terms,
    )

-- A settlement that the reconciler takes from a signed link of an order passes the settlement's
-- tests against that order, whether its receipt exists or not, if the order's account is open or
-- the one that was paid to: the evidence matches, and there is no reason to keep it for review.
pub verified_link_accepted :
    (order : PaymentOrder) (link : Option PaymentLink) (d : Bool) {in_ : SettlementInput}
    → verified_link_settlement order link ≡ ok in_
    → AccountFits order in_
    → (get_matches in_ ≡ true) × (terms_reason in_ order d ≡ none)
unfolding verified_link_settlement
verified_link_accepted order none d h fits = absurd (cc)
verified_link_accepted order (some link) d h fits = accepted order link d h fits
