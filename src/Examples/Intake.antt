-- ===== src/Examples/Intake.antt =====
-- Runs of the intake of SePay's messages.
use acb_transaction_webhook.Base.{
  ◌≡◌, refl, ◌↔◌, ◌*◌, ◌≤◌, false, some, none, inl, [], ◌∷◌, Result, ok, err, fail_if,
  ◌>>=◌ as result_bind, ◌>>◌ as result_then,
}
use acb_transaction_webhook.Base.Clock.{second}
use acb_transaction_webhook.Base.Rows.{count_rows}
use acb_transaction_webhook.Store.{Call, check_mutation_allowed}
use acb_transaction_webhook.Gate.{check_gate}
use acb_transaction_webhook.Outbox.{
  emit_transaction_event, emit_new, insert_deliveries, append_event,
}
use acb_transaction_webhook.Reconcile.{pos, negsuc}
use acb_transaction_webhook.Payments.Json.{no_fields}
use acb_transaction_webhook.Sepay.Tables.{Keyring, SepayStore}
use acb_transaction_webhook.Sepay.Ingest.{
  active, TelegramInput, IngestResult, Digester, is_incomplete_input, sepay_payload_hashes,
  check_sepay_revision, ensure_sepay_connection, ensure_found,
}
use acb_transaction_webhook.Sepay.Ingest.Judge.{
  judge_observation, judge_new, judge_first, judge_evidence, judge_credit, judge_known_receipt,
  judge_unseen,
}
use acb_transaction_webhook.Sepay.Ingest.Rows.{insert_observation}
use acb_transaction_webhook.Sepay.Ingest.Booking.{
  book_credit, insert_sepay_credit, credit_clashes, receipt_clashes,
}
use acb_transaction_webhook.Sepay.Ingest.Carry.{
  ingest_sepay_notification, ingest_tx, carry_out_decision,
}
use acb_transaction_webhook.Sepay.Ingest.Effect.{Effect, ingest-Effect}
use acb_transaction_webhook.Sepay.Ingest.Once.{ingest_run, of_credit, no_credits, credited_once}
use acb_transaction_webhook.Examples.{linked_store, fresh_ids}
use acb_transaction_webhook.Sepay.Amount.{parse_amount_vnd}
use acb_transaction_webhook.Sepay.Amount.Spelling.{IsAmount}
use acb_transaction_webhook.Sepay.Amount.Exact.{parse_amount_vnd_exact}
use acb_transaction_webhook.Sepay.Texts.{
  Text, codes, trim_left, trim_right, same, after_prefix, contains, cut_line, split_lines,
  trim_return, has_code,
}
use acb_transaction_webhook.Sepay.Notification.{
  parse_notification, judge_template, read_template, titled_values, header_values, clean_value,
  read_content, check_values, outgoing,
}

abbrev grouped_amount : Text
grouped_amount = codes "1.250.000"

parse_amount_vnd_exact_example :
    (parse_amount_vnd grouped_amount ≡ some 1250000) ↔ IsAmount grouped_amount 1250000
parse_amount_vnd_exact_example = parse_amount_vnd_exact grouped_amount 1250000

-- A message of an outgoing payment.
abbrev outgoing_message : Text
outgoing_message =
    codes
      "SEPAY_STORE_V1\ndirection=ra\namount=1.250.000\naccount=123\nbank=KLB\ntime=x\nreference=FT1\ncontent=hi"

outgoing_test : parse_notification (λ layout text. none) outgoing_message ≡ inl outgoing
unfolding parse_notification judge_template read_template titled_values header_values clean_value
    read_content check_values same after_prefix contains cut_line split_lines trim_return has_code
    trim_left trim_right
outgoing_test = refl

-- A channel that takes one message: 250000 under the reference FT1.
abbrev clear_keys : Keyring
clear_keys = record { seal = λ plain binding. some "sealed"; unseal = λ envelope binding. none }

abbrev message_digester : Digester
message_digester = record {
  size = λ raw. 100;
  decode = λ raw. some no_fields;
  object = λ fields. "object";
  canonical = λ in_ credit. "canonical";
  candidate_id = λ in_ hash reason. "candidate";
  event = λ key kind. "event";
}

abbrev message_input : TelegramInput
message_input = record {
  store_key = "shop";
  bank_code = "KLB";
  account_number = codes "123";
  mode = active;
  review_reason = none;
  bot_id = 7;
  update_id = pos 1;
  chat_id = negsuc 99;
  message_id = 5;
  config_revision = 1;
  activation_at = 10 * second;
  message_at = 100 * second;
  raw_payload = "{}";
  credit = some (record {
    amount_vnd = 250000;
    reference = "FT1";
    transaction_at = 90 * second;
    notification_details = record { balance_vnd = none; description = codes "hi" };
  });
}

abbrev empty_intake : SepayStore
empty_intake = record {
  core = linked_store;
  config_revision = 1;
  connections = [];
  telegram_inbox = [];
  receipts = [];
  credits = [];
  quarantine = [];
  details = [];
}

abbrev intake_call : Call
intake_call = record { now = 110 * second; operation = "" }

abbrev from_ok : {A : Type 0} → A → Result A → A
from_ok a (ok b) = b
from_ok a (err e) = a

abbrev credited_result : IngestResult × SepayStore
credited_result =
    from_ok (record { is_duplicate = false; review_reason = none; event = none }, empty_intake)
      (ingest_sepay_notification (some clear_keys) message_digester intake_call fresh_ids
        message_input empty_intake)

ingest-Effect_example : Effect intake_call fresh_ids message_input empty_intake credited_result
unfolding ingest_sepay_notification is_incomplete_input sepay_payload_hashes ingest_tx
    check_mutation_allowed check_gate fail_if result_bind result_then insert_observation
    check_sepay_revision ensure_sepay_connection ensure_found judge_observation judge_new
    judge_first judge_evidence judge_credit judge_known_receipt judge_unseen carry_out_decision
    book_credit insert_sepay_credit credit_clashes emit_transaction_event emit_new insert_deliveries
    append_event receipt_clashes trim_left trim_right
ingest-Effect_example =
    ingest-Effect (some clear_keys) message_digester intake_call fresh_ids message_input
      empty_intake credited_result refl

credited_once_example :
    count_rows
      (of_credit "shop" "FT1")
      (ingest_run
        (some clear_keys)
        message_digester
        (record { call = intake_call; fresh = fresh_ids; input = message_input } ∷ [])
        empty_intake).credits
    ≤ 1
credited_once_example =
    credited_once (some clear_keys) message_digester
      (record { call = intake_call; fresh = fresh_ids; input = message_input } ∷ []) empty_intake
      "shop" "FT1" no_credits
