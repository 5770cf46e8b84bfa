-- ===== src/Payments/Webhook.antt =====
-- `HandleWebhook` of internal/payments/webhook_service.go, with the verification of the signature
-- (`Verify` of payos.go, `verifyWebhook` of provider_config.go). The SDK's check and decoding of the
-- signed data is an argument.
pub mod Evidence
use acb_transaction_webhook.Base.{
  ℕ, String, str_eq, is_blank, Bool, true, false, not, ◌&&◌, ◌||◌, Option, none, some, List, [],
  ◌∷◌, Result, ok, err, Error, Reason, non_success, invalid_transaction_date, payment_mismatch,
  payment_details_pending, awaiting_order_bind, webhook_unavailable, invalid_webhook,
  invalid_signature, ◌==◌, if◌then◌else◌,
}
use acb_transaction_webhook.Base.Clock.{Instant, parse_stamp}
use acb_transaction_webhook.Store.{WebhookData, check_mutation_allowed}
use acb_transaction_webhook.Inbox.{
  Digests, VerifiedPaymentCallback, is_pending_work, save_verified_payment_callback,
}
use acb_transaction_webhook.Outbox.{realtime}
use acb_transaction_webhook.Settlement.{SettlementResult, settle_payment}
use acb_transaction_webhook.Settlement.Judge.{SettlementInput}
use acb_transaction_webhook.Settlement.Commit.{Fresh, is_hex_text}
use acb_transaction_webhook.Payments.{
  Settings, Step, webhook_activity, ◌>>=◌, ◌>>◌, return, fail, attempt, store, query, admit,
  releasing, record_activity, publish, wake_reconciler,
}
use acb_transaction_webhook.Payments.Json.{
  Json, null, text, flag, number, array, object, Fields, member, is_safe_member,
  valid_field_numbers, valid_webhook_shape,
}

-- payos.WebhookData, and the text of its transaction's time.
pub record Verified : Type 0 where
  pub contents : WebhookData
  pub date_text : String

-- The SDK at a checksum key: is the signature that of the data, and what are the data?
abbrev pub Sdk : Type 0
Sdk = String → String → Fields → Option Verified

abbrev verified_or : Option Verified → Result Verified
verified_or none = err invalid_signature
verified_or (some v) = ok v

unfoldable pub verify_data : Sdk → String → String → Option Json → Result Verified
verify_data sdk key signature (some (object d)) =
    if not (valid_field_numbers d)
      || not (is_safe_member (member "orderCode" d))
      || not (is_safe_member (member "amount" d))
    then err invalid_webhook
    else verified_or (sdk key signature d)
verify_data sdk key signature _ = err invalid_webhook

-- `Verify`.
unfoldable pub verify_signed : Sdk → String → Option Json → Option Json → Result Verified
verify_signed sdk key (some (text signature)) contents =
    if is_hex_text 64 signature
    then verify_data sdk key signature contents
    else err invalid_signature
verify_signed sdk key _ contents = err invalid_signature

unfoldable pub verify : Sdk → String → Fields → Result Verified
verify sdk key body = verify_signed sdk key (member "signature" body) (member "data" body)

-- The keys of the former revisions are tried if the signature does not fit.
unfoldable pub verify_previous :
    Sdk → String → List String → Fields → Result Verified → Result Verified
verify_previous sdk key keys body (ok v) = ok v
verify_previous sdk key [] body (err invalid_signature) = err invalid_signature
verify_previous sdk key (old ∷ keys) body (err invalid_signature) =
    let skipped = verify_previous sdk key keys body (err invalid_signature) in
    let tried = verify_previous sdk key keys body (verify sdk old body) in
    if str_eq old key then skipped else tried
verify_previous sdk key keys body (err e) = err e

-- `verifyWebhook`; `previous` is empty unless the service is a managed snapshot.
unfoldable pub verify_webhook : Sdk → String → List String → Fields → Result Verified
verify_webhook sdk key previous body = verify_previous sdk key previous body (verify sdk key body)

-- `isPayOSConfirmationSample`.
unfoldable pub is_confirmation_sample : Verified → Bool
is_confirmation_sample v =
    (v.contents.order_code == 123)
    && (v.contents.amount == 3000)
    && str_eq v.contents.description "VQRIO123"
    && str_eq v.contents.account_number "12345678"
    && str_eq v.contents.reference "TF230204212323"
    && str_eq v.date_text "2023-02-04 18:25:00"
    && str_eq v.contents.currency "VND"
    && str_eq v.contents.payment_link_id "124c33293c43417ab7879e14c8d9eb18"
    && str_eq v.contents.code "00"

abbrev is_success : Option Json → Option Json → Bool
is_success (some (text code)) (some (flag success)) = str_eq code "00" && success
is_success _ _ = false

unfoldable pub is_successful : Fields → Verified → Bool
is_successful body v =
    is_success (member "code" body) (member "success" body) && str_eq v.contents.code "00"

abbrev pub callback_of : Verified → VerifiedPaymentCallback
callback_of v = record {
  contents = some v.contents;
  order_code = v.contents.order_code;
  payment_link_id = v.contents.payment_link_id;
  reference = v.contents.reference;
  reason = none;
}

unfoldable pub is_unusable : Verified → Bool
is_unusable v =
    not (str_eq v.contents.currency "VND")
    || is_blank v.contents.reference
    || is_blank v.contents.payment_link_id
    || (v.contents.amount == 0)
    || (v.contents.order_code == 0)

unfoldable pub settlement_input : Settings → Verified → Instant → SettlementInput
settlement_input s v at = record {
  channel_id = s.client_id;
  channel_namespace = s.channel_namespace;
  order_code = v.contents.order_code;
  payment_link_id = v.contents.payment_link_id;
  reference = v.contents.reference;
  amount_vnd = v.contents.amount;
  transaction_at = at;
  description = v.contents.description;
  account_number = v.contents.account_number;
  virtual_account_number = v.contents.virtual_account_number;
  source = realtime;
  detected_at = 0;
  inbox_hash = "";
  verified_callback = some (callback_of v);
  verified_get = none;
}

abbrev pub is_pending_reason : Option Reason → Bool
is_pending_reason none = false
is_pending_reason (some reason) = is_pending_work reason

-- Both reasons that are pending work wake the reconciler.
unfoldable pub wake_if : Bool → Step (Unit {0})
wake_if true = wake_reconciler
wake_if false = return tt

-- The errors of the verification that the caller is told.
abbrev pub told : Error → Error
told invalid_signature = invalid_signature
told invalid_webhook = invalid_webhook
told _ = webhook_unavailable

abbrev pub unavailable_or : {A : Type 0} → (A → Step (Unit {0})) → Result A → Step (Unit {0})
unavailable_or k (ok a) = k a
unavailable_or k (err e) = fail webhook_unavailable

module _ (s : Settings) (operation : String) (h : Digests) where
  -- `saveWebhookReview`.
  unfoldable pub save_webhook_review : Verified → Reason → Step (Unit {0})
  save_webhook_review v reason = do
    saved ← attempt (
        store operation (λ c.
          save_verified_payment_callback h c (record (callback_of v) { reason = some reason })))
    unavailable_or (λ _. wake_if (is_pending_work reason)) saved

  unfoldable pub after_settlement_hook : SettlementResult → Step (Unit {0})
  after_settlement_hook result = do
    publish result.event
    wake_if (is_pending_reason result.review_reason)

  unfoldable pub settle_webhook : Fresh → Verified → Instant → Step (Unit {0})
  settle_webhook f v at = do
    settled ← attempt (store operation (λ c. settle_payment h c f (settlement_input s v at)))
    unavailable_or after_settlement_hook settled

  unfoldable pub dated_webhook : Fresh → Verified → Option Instant → Step (Unit {0})
  dated_webhook f v none = save_webhook_review v invalid_transaction_date
  dated_webhook f v (some at) =
      if is_unusable v then save_webhook_review v payment_mismatch else settle_webhook f v at

  unfoldable pub confirm_sample : Step (Unit {0})
  confirm_sample = do
    checked ← attempt (query operation (λ c db. check_mutation_allowed c db))
    unavailable_or return checked

  unfoldable pub route_webhook : Fresh → Fields → Verified → Step (Unit {0})
  route_webhook f body v =
      if not (is_successful body v)
      then save_webhook_review v non_success
      else if is_confirmation_sample v
      then confirm_sample
      else dated_webhook f v (parse_stamp v.contents.transaction_date_time)

  -- The deferred record of the activity, on success.
  unfoldable pub noted_webhook : Fresh → Fields → Verified → Step (Unit {0})
  noted_webhook f body v = do route_webhook f body v; record_activity webhook_activity

  unfoldable pub admit_webhook : Fresh → Fields → Verified → Step (Unit {0})
  admit_webhook f body v = do
    admitted ← attempt (admit operation s)
    unavailable_or (λ _. releasing (noted_webhook f body v)) admitted

  unfoldable pub after_verification : Fresh → Fields → Result Verified → Step (Unit {0})
  after_verification f body (ok v) = admit_webhook f body v
  after_verification f body (err e) = fail (told e)

  -- `HandleWebhook`; what it returns without an error is acknowledged.
  unfoldable pub handle_webhook : Sdk → List String → Fresh → Fields → Step (Unit {0})
  handle_webhook sdk previous f body =
      if not (valid_webhook_shape body)
      then fail invalid_webhook
      else if not s.has_provider || is_blank s.client_id
      then fail webhook_unavailable
      else after_verification f body (verify_webhook sdk s.checksum_key previous body)
