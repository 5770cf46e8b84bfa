-- ===== src/Payments/Recover.antt =====
-- The provider work on a claimed order: internal/payments/reconcile.go from `getClaimedLink` on, and
-- `cancelClaimedLink`, `completeCancellation` and `reconcileCancellation` of cancel.go.
pub mod Decide
pub mod Settling
pub mod Allowed
use acb_transaction_webhook.Base.{
  ℕ, ◌-◌, ◌*◌, String, str_eq, is_blank, Bool, true, false, not, ◌&&◌, ◌||◌, Option, none, some,
  List, [], ◌∷◌, Result, ok, err, Error, payment_details_pending, settlement_review, operation_lost,
  bad_time, payment_unavailable, provider_error, ltb, leb, ◌==◌, is_some, if◌then◌else◌,
}
use acb_transaction_webhook.Base.Clock.{Instant, parse_stamp, second}
use acb_transaction_webhook.Base.Rows.{filter_rows}
use acb_transaction_webhook.Store.{
  StatusText, known, cancelled, expired, failed, paid, ErrorCode, create_outcome_unknown,
  invalid_create_response, create_rejected_http, cancel_outcome_unknown, qr_recovery_cancel_pending,
  provider_unavailable, PaymentOrder, InboxRow,
}
use acb_transaction_webhook.Orders.Lease.{
  PaymentOrderUpdate, claim_payment_order, renew_payment_order_operation,
  complete_payment_order_operation,
}
use acb_transaction_webhook.Inbox.{Digests}
use acb_transaction_webhook.Inbox.Pending.{pending_payment_callbacks}
use acb_transaction_webhook.Outbox.{EventNotification, realtime, catch_up}
use acb_transaction_webhook.Settlement.{SettlementResult, settle_payment}
use acb_transaction_webhook.Settlement.Judge.{SettlementInput}
use acb_transaction_webhook.Settlement.Commit.{Fresh}
use acb_transaction_webhook.Reconcile.{
  PaymentLink, verified_link_matches, verified_link_settlement, callback_matches_settlement,
  terminal_reconcile_at, failure_update, no_update, after_settlement, is_creating, is_paid_link,
  LinkAction, finishes, settles, cancels_again, recovers_cancel, recovers_create,
  apply_verified_link,
}
use acb_transaction_webhook.Payments.{
  Settings, Step, Environment, Url, CreateResponse, reconciled_activity, ◌>>=◌, ◌>>◌, return, fail,
  attempt, on_option, look, store, admit, releasing, ask_create, ask_get, ask_cancel, provider_slot,
  record_activity, publish,
}
use acb_transaction_webhook.Payments.Create.{
  valid_create_response, is_rejection, linked_update, create_request,
}
use acb_transaction_webhook.Payments.Recover.Decide.{
  concluding, earliest, error_wait, event_of, failed_cancel, is_booked, is_concluded,
  is_hard_failure, is_withdrawn, retry_after, settlement_for, withdrawn_update, with_link,
  rejected_code, failed_recovery, recovered_link, AbsentAction, absent_action, is_not_found,
  cancels_absent, reconciles_cancel, creates_again, closes_absent,
}
use acb_transaction_webhook.Payments.Recover.Settling.{
  finish_reconcile, renew, note_answer, get_claimed_link, cancel_claimed_link, settle, settle_rest,
  settle_callbacks, settle_evidence, settle_verified_link, after_settling, settle_paid, pass_on,
  complete_cancellation, second_look, cancel_or_look, reconcile_cancellation, read_expiry,
}

module _ (env : Environment) (s : Settings) (operation : String) (h : Digests)
    (ids : String → Fresh) where
  -- `applyVerifiedLink` on a link that is concluded, where the other actions do not come up.
  unfoldable pub perform_ending : PaymentOrder → PaymentLink → LinkAction → Step (Unit {0})
  perform_ending order link (finishes update) = finish_reconcile env s operation h ids order update
  perform_ending order link settles = settle_paid env s operation h ids order (some link)
  perform_ending order link _ = fail payment_unavailable

  unfoldable pub apply_concluded : PaymentOrder → PaymentLink → Step (Unit {0})
  apply_concluded order link = do
    w ← look
    perform_ending order link (apply_verified_link (env.jitter 0) w.now order (some link))

  unfoldable pub recover_cancel : PaymentOrder → Step (Unit {0})
  recover_cancel order =
      cancel_or_look env s operation h ids apply_concluded qr_recovery_cancel_pending order

  unfoldable pub after_create :
      PaymentOrder → Bool → Result (Option CreateResponse) → Step (Unit {0})
  after_create order known_link answer = do
    w ← look
    on_option (recovered_link env.parse_url order answer)
        (λ r.
          finish_reconcile env s operation h ids order
            (record (linked_update w.now r) { reset_reconcile_attempts = true }))
        (if known_link
          then recover_cancel order
          else finish_reconcile env s operation h ids order
              (failed_recovery env w.now order answer))

  unfoldable pub create_again : PaymentOrder → Bool → Step (Unit {0})
  create_again order known_link = do
    expires ← read_expiry order
    answer ← attempt (ask_create env (create_request s order expires))
    after_create order known_link answer

  -- `recoverCreate`, with a slot or without.
  unfoldable pub recover_in_slot : PaymentOrder → Bool → Result (Unit {0}) → Step (Unit {0})
  recover_in_slot order known_link (err e) = do
    w ← look
    finish_reconcile env s operation h ids order
        (failure_update (env.jitter 0) w.now order (error_wait e) create_outcome_unknown)
  recover_in_slot order known_link (ok _) = do
    renewed ← renew env s operation h ids order known_link
    create_again (with_link order.payment_link_id renewed) known_link

  unfoldable pub recover_create : PaymentOrder → Bool → Step (Unit {0})
  recover_create order known_link = do
    slot ← attempt (provider_slot env operation)
    recover_in_slot order known_link slot

  unfoldable pub perform_absent : PaymentOrder → AbsentAction → Step (Unit {0})
  perform_absent order cancels_absent = recover_cancel order
  perform_absent order reconciles_cancel = reconcile_cancellation env s operation h ids order
  perform_absent order creates_again = recover_create order false
  perform_absent order (closes_absent update) = finish_reconcile env s operation h ids order update

  unfoldable pub recover_absent : PaymentOrder → Step (Unit {0})
  recover_absent order = do
    expires ← read_expiry order
    w ← look
    perform_absent order (absent_action w.now expires order)

  unfoldable pub perform : PaymentOrder → Option PaymentLink → LinkAction → Step (Unit {0})
  perform order link (finishes update) = finish_reconcile env s operation h ids order update
  perform order link settles = settle_paid env s operation h ids order link
  perform order link cancels_again = reconcile_cancellation env s operation h ids order
  perform order link (recovers_cancel order') = recover_cancel order'
  perform order link (recovers_create order') = recover_create order' true

  unfoldable pub apply_link : PaymentOrder → Option PaymentLink → Step (Unit {0})
  apply_link order link = do
    w ← look
    perform order link (apply_verified_link (env.jitter 0) w.now order link)

  unfoldable pub after_get : PaymentOrder → Result (Option PaymentLink) → Step (Unit {0})
  after_get order (ok link) = apply_link order link
  after_get order (err e) = do
    w ← look
    (if is_not_found e
        then recover_absent order
        else finish_reconcile env s operation h ids order
            (failure_update (env.jitter 0) w.now order (error_wait e) provider_unavailable))

  unfoldable pub reconcile_claimed : PaymentOrder × Bool → Step (Unit {0})
  reconcile_claimed (order, false) = return tt
  reconcile_claimed (order, true) = do
    got ← attempt (get_claimed_link env s operation h ids order)
    after_get order got

  unfoldable pub claim_and_reconcile : String → String → Step (Unit {0})
  claim_and_reconcile token id = do
    w ← look
    claimed ← store operation (λ c. claim_payment_order c token id w.now)
    reconcile_claimed claimed

  -- `reconcileOrder`, under the random token of its claim.
  unfoldable pub reconcile_order : String → String → Step (Unit {0})
  reconcile_order token id = do admit operation s; releasing (claim_and_reconcile token id)
