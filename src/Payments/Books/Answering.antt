-- ===== src/Payments/Books/Answering.antt =====
-- The handling of a webhook (internal/payments/webhook_service.go) keeps the books of the store.
use acb_transaction_webhook.Base.{
  String, is_blank, false, Option, none, some, List, Result, ok, err, Reason, ◌≡◌, not, ◌||◌,
}
use acb_transaction_webhook.Base.Clock.{Instant}
use acb_transaction_webhook.Ledger.{Watch, Books}
use acb_transaction_webhook.Inbox.{Digests, is_pending_work}
use acb_transaction_webhook.Inbox.Books.{save-Ensures}
use acb_transaction_webhook.Settlement.{SettlementResult}
use acb_transaction_webhook.Settlement.Books.{settle-Ensures}
use acb_transaction_webhook.Settlement.Commit.{Fresh}
use acb_transaction_webhook.Payments.{Settings, Step}
use acb_transaction_webhook.Payments.Json.{Fields, valid_webhook_shape}
use acb_transaction_webhook.Payments.Keeps.{
  Keeps, Keeps-bind, Keeps-then, Keeps-return, Keeps-fail, Keeps-attempt, Keeps-if, Keeps-store,
  Keeps-query, Keeps-admit, Keeps-releasing, Keeps-record_activity, Keeps-publish,
}
use acb_transaction_webhook.Payments.Webhook.Evidence.{wake_if-Keeps}
use acb_transaction_webhook.Payments.Webhook.{
  Verified, Sdk, unavailable_or, save_webhook_review, after_settlement_hook, settle_webhook,
  dated_webhook, confirm_sample, route_webhook, noted_webhook, admit_webhook, after_verification,
  handle_webhook, is_pending_reason, is_unusable, is_successful, is_confirmation_sample,
}

unavailable-Keeps :
    {w : Watch} {A : Type 0} (k : A → Step (Unit {0})) (res : Result A)
    → ((a : A) → Keeps (Books w) (k a))
    → Keeps (Books w) (unavailable_or k res)
unavailable-Keeps k (ok a) hk = hk a
unavailable-Keeps k (err e) hk = Keeps-fail _

module _ {w : Watch} (s : Settings) (operation : String) (h : Digests) where
  review-Keeps :
      (v : Verified) (reason : Reason)
      → Keeps (Books w) (save_webhook_review s operation h v reason)
  unfolding save_webhook_review
  review-Keeps v reason =
      Keeps-bind (Keeps-attempt (Keeps-store operation _ (λ c db l. save-Ensures h c _ db l)))
        λ saved. unavailable-Keeps _ saved (λ _. wake_if-Keeps (is_pending_work reason))

  hook-Keeps : (res : SettlementResult) → Keeps (Books w) (after_settlement_hook s operation h res)
  unfolding after_settlement_hook
  hook-Keeps res =
      Keeps-then (Keeps-publish res.event) (wake_if-Keeps (is_pending_reason res.review_reason))

  module _ (f : Fresh) (drawn : is_blank f.transaction_id ≡ false) where
    dated-Keeps :
        (v : Verified) (at : Option Instant) → Keeps (Books w) (dated_webhook s operation h f v at)
    unfolding dated_webhook settle_webhook
    dated-Keeps v none = review-Keeps v _
    dated-Keeps v (some at) = Keeps-if (is_unusable v) (review-Keeps v _) (
        Keeps-bind
          (Keeps-attempt (Keeps-store operation _ (λ c db l. settle-Ensures h c f _ db drawn l)))
          λ settled. unavailable-Keeps _ settled hook-Keeps)

    sample-Keeps : Keeps (Books w) (confirm_sample s operation h)
    unfolding confirm_sample
    sample-Keeps =
        Keeps-bind (Keeps-attempt (Keeps-query operation _))
          λ checked. unavailable-Keeps _ checked (λ _. Keeps-return _)

    route-Keeps :
        (body : Fields) (v : Verified) → Keeps (Books w) (route_webhook s operation h f body v)
    unfolding route_webhook
    route-Keeps body v =
        Keeps-if (not (is_successful body v)) (review-Keeps v _)
          (Keeps-if (is_confirmation_sample v) sample-Keeps (dated-Keeps v _))

    admit_webhook-Keeps :
        (body : Fields) (v : Verified) → Keeps (Books w) (admit_webhook s operation h f body v)
    unfolding admit_webhook noted_webhook
    admit_webhook-Keeps body v = Keeps-bind (Keeps-attempt (Keeps-admit operation s)) λ admitted.
        unavailable-Keeps _ admitted
          (λ _. Keeps-releasing (Keeps-then (route-Keeps body v) (Keeps-record_activity _)))

    verified-Keeps :
        (body : Fields) (res : Result Verified)
        → Keeps (Books w) (after_verification s operation h f body res)
    unfolding after_verification
    verified-Keeps body (ok v) = admit_webhook-Keeps body v
    verified-Keeps body (err e) = Keeps-fail _

    pub handle_webhook-Keeps :
        (sdk : Sdk) (previous : List String) (body : Fields)
        → Keeps (Books w) (handle_webhook s operation h sdk previous f body)
    unfolding handle_webhook
    handle_webhook-Keeps sdk previous body =
        Keeps-if (not (valid_webhook_shape body)) (Keeps-fail _) (
          Keeps-if (not s.has_provider || is_blank s.client_id) (Keeps-fail _)
            (verified-Keeps body _))
