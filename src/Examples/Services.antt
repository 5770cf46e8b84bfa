-- ===== src/Examples/Services.antt =====
-- Runs of the payment service: one payment by a webhook, one by the reconciler.
use acb_transaction_webhook.Base.{
  ◌+◌, ◌*◌, ◌≡◌, refl, String, true, false, none, some, List, [], ◌∷◌, ok, err, fail_if,
  ◌>>=◌ as result_bind, ◌>>◌ as result_then, provider_error,
}
use acb_transaction_webhook.Base.Clock.{second, stamped}
use acb_transaction_webhook.Store.{
  known, paid, pending, create_outcome_unknown, with_tx, commit, check_mutation_allowed,
}
use acb_transaction_webhook.Gate.{check_gate}
use acb_transaction_webhook.Ledger.{Books, Ledger, nothing_watched, Watches}
use acb_transaction_webhook.Inbox.{
  insert_payment_inbox, insert_parts, insert_body, insert_new, insert_known,
  wake_payment_order_inbox, wake_found, wake_order, woken_row, wake_time, mark_details_pending,
}
use acb_transaction_webhook.Reconcile.{PaymentLink, pos, no_update}
use acb_transaction_webhook.Payments.{
  Settings, World, Passage, Environment, after, store, attempt, admit, counted, release, releasing,
  record_activity, publish, wake_reconciler, return, ◌>>=◌, ◌>>◌,
}
use acb_transaction_webhook.Payments.Json.{
  Fields, no_fields, field, text, flag, number, object, integral, valid_webhook_shape,
  valid_data_shape, all_members, member, safe_number, valid_json_numbers, valid_item_numbers,
  valid_field_numbers,
}
use acb_transaction_webhook.Payments.Keeps.{Respects}
use acb_transaction_webhook.Payments.Webhook.{
  Verified, Sdk, handle_webhook, after_verification, verify_webhook, verify_previous, verify,
  verify_signed, verify_data, admit_webhook, noted_webhook, route_webhook, dated_webhook,
  settle_webhook, after_settlement_hook, wake_if, is_successful, is_confirmation_sample,
  is_unusable, settlement_input,
}
use acb_transaction_webhook.Settlement.{settle_payment, carry_out, keep_for_review}
use acb_transaction_webhook.Settlement.Judge.{
  judge, judge_order, judge_receipt, judge_terms, inbox_reason, judge_inbox, final_verdict,
  terms_reason, evidence_matches, is_incomplete, is_space_only,
}
use acb_transaction_webhook.Settlement.Commit.{is_hex_text}
use acb_transaction_webhook.Payments.Webhook.Evidence.{IsAcknowledged, acknowledged}
use acb_transaction_webhook.Payments.Books.{
  ServiceOp, handles, reconciles, cancels, service_run, DrawsNames, DrawsAllNames,
  service_run-Books,
}
use acb_transaction_webhook.Orders.Lease.{PaymentOrderUpdate}
use acb_transaction_webhook.Examples.{linked_store, digests, fresh_ids}

abbrev settings : Settings
settings = record {
  client_id = "channel";
  channel_namespace = "0123456789abcdef0123456789abcdef";
  api_key = "api";
  checksum_key = "checksum";
  public_origin = "https://shop.example";
  payments_enabled = true;
  webhook_confirmed = true;
  max_amount = 100000000;
  has_provider = true;
}

abbrev link : PaymentLink
link = record {
  id = "link";
  order_code = 1000000000001;
  amount = 50000;
  amount_paid = 50000;
  amount_remaining = pos 0;
  status = known paid;
  transactions =
      record {
        reference = "FT1";
        amount = 50000;
        account_number = "0123";
        description = "DH1000000000001";
        transaction_date_time = stamped (150 * second);
        virtual_account_number = none;
      }
      ∷ [];
}

-- A second goes by, and nobody else writes.
abbrev idle : World → Passage
idle w = record { db = w.db; now = w.now + second; quiesced = w.quiesced }

-- A provider that knows the link as paid.
abbrev provider : Environment
provider = record {
  create = λ req w. (err (provider_error 500 0 true), idle w);
  get = λ order_code w. (ok (some link), idle w);
  cancel = λ order_code w. (err (provider_error 500 0 true), idle w);
  slot = λ w. (ok tt, idle w);
  jitter = λ draw bound. none;
  parse_url = λ url. none;
}

abbrev world : World
world = record {
  db = linked_store;
  now = 200 * second;
  quiesced = false;
  active = 0;
  activity = [];
  calls = [];
  published = [];
  wakes = 0;
}

respects : Respects (Books nothing_watched) provider
respects = record {
  on_create = λ req w l. l;
  on_get = λ order_code w l. l;
  on_cancel = λ order_code w l. l;
  on_slot = λ w l. l;
}

abbrev signature : String
signature = "00112233445566778899aabbccddeeff00112233445566778899aabbccddeeff"

abbrev body : Fields
body = field "code" (text "00") (
    field "success" (flag true) (
      field "signature" (text signature) (
        field "data"
          (object (
            field "orderCode" (number (integral (pos 1000000000001)))
              (field "amount" (number (integral (pos 50000))) no_fields)))
          no_fields)))

abbrev signed : Verified
signed = record {
  contents = record {
    order_code = 1000000000001;
    amount = 50000;
    description = "DH1000000000001";
    account_number = "0123";
    reference = "FT1";
    transaction_date_time = stamped (150 * second);
    currency = "VND";
    payment_link_id = "link";
    code = "00";
    virtual_account_number = "";
  };
  date_text = "1970";
}

abbrev sdk : Sdk
sdk key seal contents = some signed

linked_store-Ledger : Ledger linked_store
unfolding Watches
linked_store-Ledger = record {
  unique = (tt, tt);
  settled = (refl, tt);
  credited = refl;
  receipted = refl;
  watched = tt;
}

abbrev service_ops : List ServiceOp
service_ops =
    handles [] fresh_ids body
    ∷ reconciles "claim" "order" (λ hash. fresh_ids)
    ∷ cancels "cancel" "order" (λ hash. fresh_ids)
    ∷ []

service_names : DrawsAllNames service_ops
unfolding DrawsAllNames DrawsNames
service_names = (refl, ((λ hash. refl), ((λ hash. refl), tt)))

service_run-Books_example :
    Ledger (service_run provider settings "" digests (λ t. t) sdk service_ops world).db
service_run-Books_example =
    service_run-Books provider settings "" digests (λ t. t) sdk respects service_ops world
      service_names linked_store-Ledger

abbrev answered : World
answered = (handle_webhook settings "" digests sdk [] fresh_ids body world).1

answered_run : handle_webhook settings "" digests sdk [] fresh_ids body world ≡ (ok tt, answered)
unfolding handle_webhook after_verification verify_webhook verify_previous verify verify_signed
    verify_data admit_webhook noted_webhook route_webhook dated_webhook settle_webhook
    after_settlement_hook wake_if is_successful is_confirmation_sample is_unusable settlement_input
    valid_webhook_shape valid_data_shape all_members member safe_number valid_json_numbers
    valid_item_numbers valid_field_numbers admit counted release releasing attempt store
    record_activity publish wake_reconciler return after ◌>>=◌ ◌>>◌ with_tx commit settle_payment
    carry_out judge judge_order judge_receipt judge_terms inbox_reason judge_inbox final_verdict
    terms_reason evidence_matches is_incomplete is_space_only keep_for_review insert_payment_inbox
    insert_parts insert_body insert_new insert_known wake_payment_order_inbox wake_found wake_order
    woken_row wake_time mark_details_pending is_hex_text check_mutation_allowed check_gate
    result_bind result_then fail_if
answered_run = refl

acknowledged_example : IsAcknowledged settings "" digests sdk [] fresh_ids body answered.db
acknowledged_example =
    acknowledged settings "" digests sdk [] fresh_ids body world answered answered_run

-- An order that payOS does not know, at the end of its time.
abbrev absent_update : PaymentOrderUpdate
absent_update = record no_update {
  status = known pending;
  last_error_code = create_outcome_unknown;
  next_reconcile_at = 88300 * second;
}
