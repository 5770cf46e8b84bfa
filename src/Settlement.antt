-- ===== src/Settlement.antt =====
-- The financial write path: `SettlePayment` of internal/storage/settlement.go.
pub mod Books
pub mod Booked
pub mod Once
pub mod Evident
pub mod Judge
pub mod Commit
use acb_transaction_webhook.Base.{
  ℕ, String, str_eq, is_blank, Bool, true, false, not, ◌&&◌, ◌||◌, Option, none, some, List, [],
  ◌∷◌, ◌++◌, Result, ok, err, Error, Reason, no_rows, settlement_review, ◌>>=◌, ◌>>◌, fail_if, ◌==◌,
  if◌then◌else◌,
}
use acb_transaction_webhook.Base.Clock.{Instant, absent, is_absent, stamped}
use acb_transaction_webhook.Base.Rows.{has_row, count_rows, update_rows}
use acb_transaction_webhook.Store.{
  PaymentOrder, Receipt, InboxRow, Database, Call, Tx, check_mutation_allowed,
}
use acb_transaction_webhook.Inbox.{Digests, VerifiedPaymentCallback, insert_payment_inbox}
use acb_transaction_webhook.Outbox.{EventNotification}
use acb_transaction_webhook.Settlement.Judge.{
  SettlementInput, Verdict, review, replay, fresh, judge,
}
use acb_transaction_webhook.Settlement.Commit.{Fresh, mark_inbox_processed, commit_payment}

pub record SettlementResult : Type 0 where
  pub order : Option PaymentOrder
  pub duplicate : Bool
  pub event : Option EventNotification
  pub review_reason : Option Reason
  pub inbox_hash : String

-- The `review` closure for an inbox row that waits already.
unfoldable pub reason_row : Reason → InboxRow → InboxRow
reason_row reason r = record r { reason = reason }

abbrev pub open_inbox : String → InboxRow → Bool
open_inbox hash r = str_eq r.payload_hash hash && is_absent r.processed_at

unfoldable pub review_inbox : Reason → String → Tx String
review_inbox reason hash db = do
  fail_if (not (count_rows (open_inbox hash) db.inbox == 1)) no_rows
  ok (hash, record db { inbox = update_rows (open_inbox hash) (reason_row reason) db.inbox })

-- The `review` closure: the evidence is retained, or the caller is told.
unfoldable pub keep_for_review :
    Digests → Call → SettlementInput → Reason → Option VerifiedPaymentCallback → Tx String
keep_for_review h c in_ reason (some callback) db =
    insert_payment_inbox h c (record callback { reason = some reason }) db
keep_for_review h c in_ reason none db =
    if is_blank in_.inbox_hash
    then err (settlement_review reason)
    else review_inbox reason in_.inbox_hash db

unfoldable pub carry_out : Digests → Call → Fresh → SettlementInput → Verdict → Tx SettlementResult
carry_out h c f in_ (review reason order) db = do
  kept ← keep_for_review h c in_ reason in_.verified_callback db
  ok (
    record {
      order = order;
      duplicate = false;
      event = none;
      review_reason = some reason;
      inbox_hash = kept.0;
    },
    kept.1,
  )
carry_out h c f in_ (replay order) db = do
  marked ← mark_inbox_processed c in_.inbox_hash db
  ok (
    record {
      order = some order;
      duplicate = true;
      event = none;
      review_reason = none;
      inbox_hash = "";
    },
    marked.1,
  )
carry_out h c f in_ (fresh order hash) db = do
  committed ← commit_payment h c f in_ order hash db
  ok (
    record {
      order = some committed.0.0;
      duplicate = false;
      event = some committed.0.1;
      review_reason = none;
      inbox_hash = "";
    },
    committed.1,
  )

unfoldable pub settle_payment : Digests → Call → Fresh → SettlementInput → Tx SettlementResult
settle_payment h c f in_ db = do
  check_mutation_allowed c db
  verdict ← judge h in_ db
  carry_out h c f in_ verdict db
