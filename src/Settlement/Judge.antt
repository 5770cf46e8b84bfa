-- ===== src/Settlement/Judge.antt =====
-- What `SettlePayment` decides before it writes anything: its guards, in the order of the code.
pub mod Sound
use Prim.Native.String.{String}
use Prim.Native.Char.{code}
use acb_transaction_webhook.Base.{
  ℕ, str_eq, is_blank, Bool, true, false, not, ◌&&◌, ◌||◌, Option, none, some, is_some, Result, ok,
  err, Error, Reason, no_rows, receipt_invariant_violated, invalid_transaction_date,
  payment_mismatch, unknown_order, reference_conflict, payment_details_pending, awaiting_order_bind,
  extra_payment_review, ◌>>=◌, leb, ◌==◌, if◌then◌else◌,
}
use acb_transaction_webhook.Base.Clock.{Instant, parse_stamp}
use acb_transaction_webhook.Base.Rows.{find_row}
use acb_transaction_webhook.Store.{
  OrderStatus, cancelled, expired, failed, PaymentOrder, Receipt, InboxRow, WebhookData, Database,
  is_paid,
}
use acb_transaction_webhook.Orders.{payment_order_by_code}
use acb_transaction_webhook.Inbox.{Digests, VerifiedPaymentCallback, is_bind_candidate, inbox_row}
use acb_transaction_webhook.Outbox.{Source, realtime, catch_up, other_source}

-- `SettlementEvidence`.
pub record SettlementEvidence : Type 0 where
  pub order_code : ℕ
  pub payment_link_id : String
  pub reference : String
  pub amount_vnd : ℕ
  pub transaction_at : Instant
  pub account_number : String
  pub virtual_account_number : String

pub record SettlementInput : Type 0 where
  pub channel_id : String
  pub channel_namespace : String
  pub order_code : ℕ
  pub payment_link_id : String
  pub reference : String
  pub amount_vnd : ℕ
  pub transaction_at : Instant
  pub description : String
  pub account_number : String
  pub virtual_account_number : String
  pub source : Source
  pub detected_at : Instant
  pub inbox_hash : String
  pub verified_callback : Option VerifiedPaymentCallback
  pub verified_get : Option SettlementEvidence

pub data Verdict : Type 0 where
  review : Reason → Option PaymentOrder → Verdict
  replay : PaymentOrder → Verdict
  fresh : PaymentOrder → String → Verdict

-- `unicode.IsSpace`.
abbrev pub is_space : ℕ → Bool
is_space c =
    (leb 9 c && leb c 13)
    || (c == 32)
    || (c == 0x85)
    || (c == 0xA0)
    || (c == 0x1680)
    || (leb 0x2000 c && leb c 0x200a)
    || (c == 0x2028)
    || (c == 0x2029)
    || (c == 0x202f)
    || (c == 0x205f)
    || (c == 0x3000)

-- `strings.TrimSpace(s) == ""`.
unfoldable pub is_space_only : String → Bool
is_space_only String.[] = true
is_space_only (String.◌∷◌ c s) = is_space (code c) && is_space_only s

-- `effectivePaymentAccount`.
abbrev pub effective_account : String → String → String
effective_account account virtual = if is_blank virtual then account else virtual

abbrev pub input_account : SettlementInput → String
input_account in_ = effective_account in_.account_number in_.virtual_account_number

-- `settlementGetMatches`.
unfoldable pub evidence_matches : Option SettlementEvidence → SettlementInput → Bool
evidence_matches none in_ = false
evidence_matches (some e) in_ =
    (e.order_code == in_.order_code)
    && str_eq e.payment_link_id in_.payment_link_id
    && str_eq e.reference in_.reference
    && (e.amount_vnd == in_.amount_vnd)
    && (e.transaction_at == in_.transaction_at)
    && not (is_blank (effective_account e.account_number e.virtual_account_number))
    && str_eq (effective_account e.account_number e.virtual_account_number) (input_account in_)

abbrev pub get_matches : SettlementInput → Bool
get_matches in_ = evidence_matches in_.verified_get in_

-- `settlementCanonicalHash`.
abbrev pub canonical_hash : Digests → SettlementInput → String
canonical_hash h in_ =
    h.settlement in_.channel_id in_.payment_link_id in_.reference in_.amount_vnd in_.transaction_at

abbrev pub is_known_source : Source → Bool
is_known_source realtime = true
is_known_source catch_up = true
is_known_source (other_source s) = false

-- The test of the input's own fields.
unfoldable pub is_incomplete : SettlementInput → Bool
is_incomplete in_ =
    is_blank in_.channel_id
    || (in_.order_code == 0)
    || is_blank in_.payment_link_id
    || is_space_only in_.reference
    || (in_.amount_vnd == 0)
    || not (is_known_source in_.source)

abbrev pub is_closed : OrderStatus → Bool
is_closed cancelled = true
is_closed expired = true
is_closed failed = true
is_closed _ = false

-- The tests of the input against the order; `duplicate` says that the receipt exists already.
unfoldable pub terms_reason : SettlementInput → PaymentOrder → Bool → Option Reason
terms_reason in_ order duplicate =
    if not (order.amount_vnd == in_.amount_vnd)
      || (not (is_blank order.payment_link_id)
          && not (str_eq order.payment_link_id in_.payment_link_id))
    then some payment_mismatch
    else if is_blank (input_account in_)
    then some payment_details_pending
    else if not (is_blank order.account_number)
        && not (str_eq order.account_number (input_account in_))
    then some payment_mismatch
    else if is_some in_.verified_get && not (get_matches in_)
    then some payment_mismatch
    else if (is_blank order.payment_link_id || is_blank order.account_number)
        && not (get_matches in_)
    then some awaiting_order_bind
    else if is_closed order.status && not duplicate && not (get_matches in_)
    then some payment_details_pending
    else none

-- `settlementInboxMatches`, on the row that was found.
unfoldable pub inbox_matches : InboxRow → SettlementInput → Bool
inbox_matches r in_ =
    (r.order_code == in_.order_code)
    && str_eq r.payment_link_id in_.payment_link_id
    && str_eq r.reference in_.reference
    && is_bind_candidate r.reason
    && (r.payload.order_code == in_.order_code)
    && str_eq r.payload.payment_link_id in_.payment_link_id
    && str_eq r.payload.reference in_.reference
    && (r.payload.amount == in_.amount_vnd)
    && str_eq r.payload.currency "VND"
    && str_eq r.payload.code "00"
    && str_eq (effective_account r.payload.account_number r.payload.virtual_account_number)
        (input_account in_)
    && (elim (parse_stamp r.payload.transaction_date_time) [
      | none ↦ false
      | some t ↦ t == in_.transaction_at
    ])

-- The block under `if in.InboxHash != ""`.
unfoldable pub inbox_reason : SettlementInput → Option InboxRow → Result (Option Reason)
inbox_reason in_ row =
    if is_blank in_.inbox_hash
    then ok none
    else if not (get_matches in_)
    then ok (some payment_details_pending)
    else (elim row [
      | none ↦ err no_rows
      | some r ↦ ok (if inbox_matches r in_ then none else some payment_mismatch)
    ])

unfoldable pub final_verdict :
    Digests → SettlementInput → PaymentOrder → Option Receipt → Result Verdict
final_verdict h in_ order (some r) =
    if not (str_eq order.transaction_id r.transaction_id) || not (is_paid order.status)
    then err receipt_invariant_violated
    else ok (replay order)
final_verdict h in_ order none =
    if is_paid order.status || not (is_blank order.transaction_id)
    then ok (review extra_payment_review (some order))
    else ok (fresh order (canonical_hash h in_))

-- Does the receipt under this reference stand for another payment?
abbrev pub is_conflict : Digests → SettlementInput → PaymentOrder → Option Receipt → Bool
is_conflict h in_ order none = false
is_conflict h in_ order (some r) =
    not (str_eq r.canonical_hash (canonical_hash h in_)) || not (str_eq r.order_id order.id)

abbrev pub receipt_for : String → String → Receipt → Bool
receipt_for channel reference r = str_eq r.channel_id channel && str_eq r.reference reference

unfoldable pub judge_inbox :
    Digests → SettlementInput → PaymentOrder → Option Receipt → Option Reason → Result Verdict
judge_inbox h in_ order receipt (some reason) = ok (review reason (some order))
judge_inbox h in_ order receipt none = final_verdict h in_ order receipt

unfoldable pub judge_terms :
    Digests
    → SettlementInput
    → PaymentOrder
    → Option Receipt
    → Option Reason
    → Database
    → Result Verdict
judge_terms h in_ order receipt (some reason) db = ok (review reason (some order))
judge_terms h in_ order receipt none db = do
  late ← inbox_reason in_ (inbox_row in_.inbox_hash db)
  judge_inbox h in_ order receipt late

unfoldable pub judge_receipt :
    Digests → SettlementInput → PaymentOrder → Option Receipt → Database → Result Verdict
judge_receipt h in_ order receipt db =
    if is_conflict h in_ order receipt
    then ok (review reference_conflict (some order))
    else judge_terms h in_ order receipt (terms_reason in_ order (is_some receipt)) db

unfoldable pub judge_order :
    Digests → SettlementInput → Option PaymentOrder → Database → Result Verdict
judge_order h in_ none db = ok (review unknown_order none)
judge_order h in_ (some order) db =
    if not (str_eq order.channel_id in_.channel_id)
    then ok (review payment_mismatch (some order))
    else judge_receipt h in_ order (find_row (receipt_for in_.channel_id in_.reference) db.receipts)
        db

unfoldable pub judge : Digests → SettlementInput → Database → Result Verdict
judge h in_ db =
    if in_.transaction_at == 0
    then ok (review invalid_transaction_date none)
    else if is_incomplete in_
    then ok (review payment_mismatch none)
    else judge_order h in_ (payment_order_by_code in_.order_code db) db
