-- ===== src/Examples/Payments.antt =====
-- Runs of the payment path.
use acb_transaction_webhook.Base.{
  eq_iff, inl, inr, operation_lost, ◌*◌, ◌≡◌, refl, true, false, none, some, List, [], ◌∷◌, ok, err,
  arith, ◌>>=◌, ◌>>◌, fail_if, idempotency_conflict,
}
use acb_transaction_webhook.Base.Clock.{second, stamped}
use acb_transaction_webhook.Store.{
  blank, no_error, Call, static_url, PaymentOrder, Database, check_mutation_allowed,
}
use acb_transaction_webhook.Gate.{check_gate}
use acb_transaction_webhook.Ledger.{Watches, IsPaidWith, Ledger}
use acb_transaction_webhook.Orders.Lease.{
  PaymentOrderUpdate, renew_payment_order_operation, complete_payment_order_operation,
  claim_payment_order, claim_open, lease_holds, take_over, write_claim, claimed_row,
  next_after_lease,
}
use acb_transaction_webhook.Orders.Lease.Overtaken.{overtaken_refused}
use acb_transaction_webhook.Orders.Lease.Claims.{claim_excludes}
use acb_transaction_webhook.Orders.Reserve.{
  PaymentOrderIntent, reserve_payment_order, reserve_found, insert_order, collides, new_order,
  decimal_text,
}
use acb_transaction_webhook.Orders.Reserve.Replay.{reserve_replays, reserve_conflicts}
use acb_transaction_webhook.History.{
  PaymentOp, completes, reserves, claims, settles, payment_run, DrawsId, DrawsIds, books_balance,
  payment_is_final,
}
use acb_transaction_webhook.Outbox.{
  emit_transaction_event, emit_new, append_event, insert_deliveries, max_seq, realtime,
  EventNotification, EventData,
}
use acb_transaction_webhook.Settlement.{SettlementResult, settle_payment, carry_out}
use acb_transaction_webhook.Settlement.Judge.{
  judge, judge_order, judge_receipt, judge_terms, inbox_reason, judge_inbox, final_verdict,
  terms_reason, evidence_matches, is_incomplete, is_space_only,
}
use acb_transaction_webhook.Settlement.Commit.{
  commit_payment, is_hex_text, violates, book, new_transaction, new_receipt, paid_row, event_data,
  mark_inbox_processed,
}
use acb_transaction_webhook.Settlement.Once.{settle_once, settle-Settled, Settled, replay_result}
use acb_transaction_webhook.Examples.{
  at_second, empty_store, intent, draw, reserved, reserved_store, linked, linked_store, digests,
  fresh_ids, payment, paid_order, paid_store,
}

abbrev pub contents : EventData
contents = record {
  provider = "PAYOS";
  bank = "KienlongBank";
  order_code = 1000000000001;
  payment_origin = static_url;
  payment_link_id = "link";
  transaction_id = "txn_1";
  transaction_number = "FT1";
  credit = 50000;
  transaction_at = 150 * second;
  source = realtime;
  description = "DH1000000000001";
  detected_at = 200 * second;
}

abbrev notification : EventNotification
notification = record {
  event_id = "bevt_event";
  event_type = "bank.transaction.credit";
  transaction_id = "txn_1";
  payload = contents;
  created_at = 200 * second;
  journal_seq = 1;
}

reserve_run :
    reserve_payment_order (at_second 100) "create" (draw ∷ []) intent empty_store
    ≡ ok ((reserved, true), reserved_store)
unfolding reserve_payment_order reserve_found insert_order collides new_order check_mutation_allowed
    check_gate ◌>>=◌ ◌>>◌ fail_if decimal_text
reserve_run = refl

reserve_replays_example :
    reserve_payment_order (at_second 3600) "again" [] intent reserved_store
    ≡ ok ((reserved, false), reserved_store)
reserve_replays_example =
    reserve_replays (at_second 100) (at_second 3600) "create" "again" (draw ∷ []) [] intent
      empty_store reserve_run

abbrev dearer : PaymentOrderIntent
dearer = record intent { amount_vnd = 60000; request_hash = "other" }

reserve_conflicts_example :
    reserve_payment_order (at_second 3600) "again" [] dearer reserved_store
    ≡ err idempotency_conflict
reserve_conflicts_example =
    reserve_conflicts (at_second 100) (at_second 3600) "create" "again" (draw ∷ []) [] intent dearer
      empty_store reserve_run refl refl refl (inr (inl (λ e. absurd (omega (arith, e)))))

abbrev claimed : PaymentOrder
claimed = record linked {
  operation_token = "first";
  operation_lease_until = stamped (230 * second);
  next_reconcile_at = stamped (230 * second);
  updated_at = 200 * second;
}

abbrev claimed_store : Database
claimed_store = record linked_store { orders = claimed ∷ [] }

claim_run :
    claim_payment_order (at_second 200) "first" "order" 0 linked_store
    ≡ ok ((claimed, true), claimed_store)
unfolding claim_payment_order claim_open lease_holds take_over write_claim claimed_row
    next_after_lease check_mutation_allowed check_gate ◌>>=◌ ◌>>◌ fail_if
claim_run = refl

claim_excludes_example :
    claim_payment_order (at_second 229) "second" "order" 0 claimed_store
    ≡ ok ((claimed, false), claimed_store)
claim_excludes_example =
    claim_excludes (at_second 200) (at_second 229) "first" "second" "order" 0 0 linked_store refl
      claim_run (omega arith)

abbrev settlement : SettlementResult
settlement = record {
  order = some paid_order;
  duplicate = false;
  event = some notification;
  review_reason = none;
  inbox_hash = "";
}

settle_run :
    settle_payment digests (at_second 200) fresh_ids payment linked_store
    ≡ ok (settlement, paid_store)
unfolding settle_payment carry_out judge judge_order judge_receipt judge_terms inbox_reason
    judge_inbox final_verdict terms_reason evidence_matches is_incomplete is_space_only
    commit_payment is_hex_text violates book new_transaction new_receipt paid_row event_data
    mark_inbox_processed emit_transaction_event emit_new append_event insert_deliveries max_seq
    check_mutation_allowed check_gate ◌>>=◌ ◌>>◌ fail_if
settle_run = refl

linked_books : Ledger linked_store
unfolding Watches
linked_books = record {
  unique = (tt, tt);
  settled = (refl, tt);
  credited = refl;
  receipted = refl;
  watched = tt;
}

gate_is_open : check_mutation_allowed (at_second 900) paid_store ≡ ok tt
unfolding check_mutation_allowed check_gate ◌>>◌
gate_is_open = refl

settle_once_example :
    settle_payment digests (at_second 900) fresh_ids payment paid_store
    ≡ ok (replay_result (some paid_order), paid_store)
settle_once_example =
    settle_once digests (at_second 200) (at_second 900) fresh_ids fresh_ids payment linked_store
      refl linked_books settle_run refl gate_is_open

settle-Settled_example : Settled digests payment settlement paid_store
settle-Settled_example =
    settle-Settled digests (at_second 200) fresh_ids payment linked_store refl linked_books
      settle_run refl

empty_books : Ledger empty_store
unfolding Watches
empty_books = record { unique = tt; settled = tt; credited = refl; receipted = refl; watched = tt }

abbrev order_ops : List (Call × PaymentOp)
order_ops =
    (at_second 100, reserves "create" (draw ∷ []) intent)
    ∷ (at_second 140, claims "claim" "order" 0)
    ∷ (at_second 200, settles fresh_ids payment)
    ∷ (at_second 201, settles fresh_ids payment)
    ∷ []

order_ids : DrawsIds order_ops
unfolding DrawsIds DrawsId
order_ids = (tt, (tt, (refl, (refl, tt))))

books_balance_example : Ledger (payment_run digests order_ops empty_store)
books_balance_example = books_balance digests order_ops empty_store order_ids empty_books

paid_books : Ledger paid_store
unfolding Watches
paid_books = record {
  unique = (tt, tt);
  settled = (refl, tt);
  credited = refl;
  receipted = refl;
  watched = tt;
}

abbrev no_update : PaymentOrderUpdate
no_update = record {
  status = blank;
  payment_link_id = "";
  qr_code = "";
  checkout_url = "";
  bank_bin = "";
  account_number = "";
  account_name = "";
  last_error_code = no_error;
  next_reconcile_at = 0;
  reconcile_attempts = 0;
  reset_reconcile_attempts = false;
  qr_recovery_attempted = false;
}

abbrev late_ops : List (Call × PaymentOp)
late_ops =
    (at_second 210, completes "order" "claim" no_update)
    ∷ (at_second 220, claims "late" "order" 0)
    ∷ (at_second 230, settles (record fresh_ids { transaction_id = "txn_2" }) payment)
    ∷ []

late_ids : DrawsIds late_ops
unfolding DrawsIds DrawsId
late_ids = (tt, (tt, (refl, tt)))

payment_is_final_example :
    IsPaidWith "order" "txn_1" 50000 (payment_run digests late_ops paid_store)
payment_is_final_example =
    payment_is_final digests late_ops paid_store "order" late_ids paid_books refl refl

overtaken_refused_example :
    (renew_payment_order_operation (at_second 210) "order" "old" false claimed_store
      ≡ err operation_lost)
    × (complete_payment_order_operation (at_second 210) "order" "old" no_update claimed_store
        ≡ err operation_lost)
overtaken_refused_example =
    overtaken_refused (at_second 200) (at_second 210) "old" "first" "order" 0 no_update false
      linked_store linked_books claim_run (λ e. cc ((eq_iff "first" "old").1 e)) refl
