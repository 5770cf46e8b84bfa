-- ===== src/Payments/Webhook/Evidence.antt =====
-- What stands behind an acknowledged webhook (`HandleWebhook` of internal/payments/webhook_service.go).
use acb_transaction_webhook.Base.{
  ◌≡◌, refl, ◌⊎◌, inl, inr, String, is_blank, Bool, true, false, not, ◌||◌, Option, none, some,
  List, Result, ok, err, Reason,
}
use acb_transaction_webhook.Base.Clock.{Instant}
use acb_transaction_webhook.Base.Ensures.{Ensures-map}
use acb_transaction_webhook.Store.{Database}
use acb_transaction_webhook.Inbox.{Digests, is_pending_work}
use acb_transaction_webhook.Inbox.Kept.{save-Kept}
use acb_transaction_webhook.Settlement.{SettlementResult}
use acb_transaction_webhook.Settlement.Commit.{Fresh}
use acb_transaction_webhook.Settlement.Evident.{IsEvident, settle-Evident}
use acb_transaction_webhook.Payments.{Settings, World, releasing}
use acb_transaction_webhook.Payments.Json.{Fields, valid_webhook_shape}
use acb_transaction_webhook.Payments.Keeps.{
  Keeps, Keeps-then, Keeps-return, Keeps-record_activity, Keeps-publish, Keeps-wake,
}
use acb_transaction_webhook.Payments.Ends.{
  Ends, Ends-bind, Ends-then, Ends-fail, Ends-always, Ends-if, Ends-releasing, Ends-store, Ends-map,
  Ends-use,
}
use acb_transaction_webhook.Payments.Webhook.{
  Verified, Sdk, wake_if, unavailable_or, save_webhook_review, after_settlement_hook,
  settle_webhook, dated_webhook, confirm_sample, route_webhook, noted_webhook, admit_webhook,
  after_verification, handle_webhook, is_pending_reason, is_unusable, is_successful,
  is_confirmation_sample, verify_webhook, callback_of, settlement_input,
}

pub wake_if-Keeps : {P : Database → Type 0} (b : Bool) → Keeps P (wake_if b)
unfolding wake_if
wake_if-Keeps true = Keeps-wake
wake_if-Keeps false = Keeps-return _

module _ (s : Settings) (operation : String) (h : Digests) (v : Verified) where
  -- The exact sample of a confirmation, or a durable record of the callback.
  abbrev pub IsAnswered : Database → Type 0
  IsAnswered db =
      (is_confirmation_sample v ≡ true) ⊎ IsEvident h v.contents s.client_id v.contents.reference db

  review-Ends : (reason : Reason) → Ends IsAnswered (save_webhook_review s operation h v reason)
  unfolding save_webhook_review IsEvident
  review-Ends reason =
      Ends-store operation _ _
        (λ c db. Ensures-map (λ a k. inr (inl k)) (save-Kept h c _ v.contents db refl))
        (λ _. wake_if-Keeps (is_pending_work reason)) (λ e. Ends-fail _)

  hook-Keeps :
      {P : Database → Type 0} (res : SettlementResult)
      → Keeps P (after_settlement_hook s operation h res)
  unfolding after_settlement_hook
  hook-Keeps res =
      Keeps-then (Keeps-publish res.event) (wake_if-Keeps (is_pending_reason res.review_reason))

  settle-Ends : (f : Fresh) (at : Instant) → Ends IsAnswered (settle_webhook s operation h f v at)
  unfolding settle_webhook settlement_input
  settle-Ends f at =
      Ends-store operation _ _
        (λ c db.
          Ensures-map (λ a k. inr k)
            (settle-Evident h c f v.contents (callback_of v) (settlement_input s v at) db refl refl
              refl))
        hook-Keeps (λ e. Ends-fail _)

  dated-Ends :
      (f : Fresh) (at : Option Instant) → Ends IsAnswered (dated_webhook s operation h f v at)
  unfolding dated_webhook
  dated-Ends f none = review-Ends _
  dated-Ends f (some at) = Ends-if (is_unusable v) (λ _. review-Ends _) (λ _. settle-Ends f at)

  sample-Ends : is_confirmation_sample v ≡ true → Ends IsAnswered (confirm_sample s operation h)
  sample-Ends e = Ends-always _ (λ db. inl e)

  route-Ends : (f : Fresh) (body : Fields) → Ends IsAnswered (route_webhook s operation h f body v)
  unfolding route_webhook
  route-Ends f body =
      Ends-if (not (is_successful body v)) (λ _. review-Ends _)
        (λ _. Ends-if (is_confirmation_sample v) sample-Ends (λ _. dated-Ends f _))

  admitted-Ends :
      (f : Fresh) (body : Fields) (res : Result (Unit {0}))
      → Ends IsAnswered (unavailable_or (λ _. releasing (noted_webhook s operation h f body v)) res)
  unfolding noted_webhook
  admitted-Ends f body (ok _) =
      Ends-releasing (Ends-then (route-Ends f body) (Keeps-record_activity _))
  admitted-Ends f body (err e) = Ends-fail _

  admit-Ends : (f : Fresh) (body : Fields) → Ends IsAnswered (admit_webhook s operation h f body v)
  unfolding admit_webhook
  admit-Ends f body = Ends-bind _ _ (admitted-Ends f body)

module _ (s : Settings) (operation : String) (h : Digests) (sdk : Sdk) (previous : List String)
    (f : Fresh) (body : Fields) where
  -- The body is signed, and the step has answered it.
  unfoldable pub IsAcknowledged : Database → Type 0
  IsAcknowledged db =
      (v : Verified) × (verify_webhook sdk s.checksum_key previous body ≡ ok v)
      × IsAnswered s operation h v db

  verified-Ends :
      (res : Result Verified)
      → verify_webhook sdk s.checksum_key previous body ≡ res
      → Ends IsAcknowledged (after_verification s operation h f body res)
  unfolding after_verification IsAcknowledged
  verified-Ends (ok v) e = Ends-map (λ db a. (v, e, a)) (admit-Ends s operation h v f body)
  verified-Ends (err x) e = Ends-fail _

  -- Every webhook that is acknowledged (HandleWebhook returns no error) was signed under the present
  -- key or a former one, and it is the exact sample of a confirmation, or its callback is in the
  -- inbox under the digest of its data, or a receipt stands under the channel and its reference.
  pub acknowledged :
      (w w' : World)
      → handle_webhook s operation h sdk previous f body w ≡ (ok tt, w')
      → IsAcknowledged w'.db
  unfolding handle_webhook
  acknowledged w w' e =
      Ends-use {w = w}
        (Ends-if (not (valid_webhook_shape body)) (λ _. Ends-fail _)
          (λ _.
            Ends-if (not s.has_provider || is_blank s.client_id) (λ _. Ends-fail _)
              (λ _. verified-Ends _ refl)))
        e
