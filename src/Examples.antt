-- ===== src/Examples.antt =====
-- Concrete runs: a store with one deployer, one order, one endpoint and one payment.
mod Payments
mod Deployments
mod Deliverances
mod Lifecycles
mod Reconciling
mod Publishing
mod Services
mod Intake
use acb_transaction_webhook.Base.{◌*◌, ℕ, String, true, false, none, some, List, [], ◌∷◌}
use acb_transaction_webhook.Base.Clock.{second, stamped, absent}
use acb_transaction_webhook.Gate.{Control, no_singleton}
use acb_transaction_webhook.Store.{
  PaymentOrder, Call, Database, Endpoint, static_url, creating, no_error, pending, paid, Receipt,
  Transaction, EventRow, JournalEntry, Delivery, waiting,
}
use acb_transaction_webhook.Inbox.{Digests}
use acb_transaction_webhook.Orders.Reserve.{PaymentOrderIntent, Draw}
use acb_transaction_webhook.Outbox.{realtime}
use acb_transaction_webhook.Settlement.Commit.{Fresh}
use acb_transaction_webhook.Settlement.Judge.{SettlementInput, SettlementEvidence}

abbrev pub at_second : ℕ → Call
at_second n = record { now = n * second; operation = "" }

abbrev pub endpoint : Endpoint
endpoint = record { id = "e1"; is_active = true; current_revision = 1; key_id = "k1" }

abbrev pub empty_store : Database
empty_store = record {
  control = no_singleton;
  operations = [];
  orders = [];
  receipts = [];
  transactions = [];
  inbox = [];
  events = [];
  journal = [];
  journal_seq = 0;
  endpoints = endpoint ∷ [];
  deliveries = [];
  attempts = [];
}

abbrev pub intent : PaymentOrderIntent
intent = record {
  channel_id = "channel";
  idempotency_key = "key";
  request_hash = "request";
  amount_vnd = 50000;
  origin = static_url;
}

abbrev pub draw : Draw
draw = ("order", 1000000000001)

-- What the reservation at second 100 leaves.
abbrev pub reserved : PaymentOrder
reserved = record {
  id = "order";
  order_code = 1000000000001;
  channel_id = "channel";
  idempotency_key = "key";
  request_hash = "request";
  amount_vnd = 50000;
  description = "DH1000000000001";
  origin = static_url;
  status = creating;
  payment_link_id = "";
  qr_code = "";
  checkout_url = "";
  bank_bin = "";
  account_number = "";
  account_name = "";
  transaction_id = "";
  last_error_code = no_error;
  next_reconcile_at = stamped (130 * second);
  reconcile_attempts = 0;
  operation_token = "create";
  operation_lease_until = stamped (130 * second);
  qr_recovery_attempted = false;
  created_at = 100 * second;
  updated_at = 100 * second;
  expires_at = stamped (1900 * second);
  paid_at = absent;
}

abbrev pub reserved_store : Database
reserved_store = record empty_store { orders = reserved ∷ [] }

-- An order with its link, open to claims and settlements.
abbrev pub linked : PaymentOrder
linked = record reserved {
  status = pending;
  payment_link_id = "link";
  operation_token = "";
  operation_lease_until = absent;
}

abbrev pub linked_store : Database
linked_store = record empty_store { orders = linked ∷ [] }

abbrev pub digests : Digests
digests = record {
  payload = λ w. "payload";
  settlement = λ channel link reference amount at. "canonical";
  channel = λ channel. "0123456789abcdef0123456789abcdef";
  event = λ namespace key kind. "event";
}

abbrev pub fresh_ids : Fresh
fresh_ids = record { transaction_id = "txn_1"; delivery_id = λ n. "del_1" }

abbrev pub evidence : SettlementEvidence
evidence = record {
  order_code = 1000000000001;
  payment_link_id = "link";
  reference = "FT1";
  amount_vnd = 50000;
  transaction_at = 150 * second;
  account_number = "0123";
  virtual_account_number = "";
}

abbrev pub payment : SettlementInput
payment = record {
  channel_id = "channel";
  channel_namespace = "";
  order_code = 1000000000001;
  payment_link_id = "link";
  reference = "FT1";
  amount_vnd = 50000;
  transaction_at = 150 * second;
  description = "DH1000000000001";
  account_number = "0123";
  virtual_account_number = "";
  source = realtime;
  detected_at = 0;
  inbox_hash = "";
  verified_callback = none;
  verified_get = some evidence;
}

-- What the settlement at second 200 leaves.
abbrev pub paid_order : PaymentOrder
paid_order = record linked {
  status = paid;
  account_number = "0123";
  transaction_id = "txn_1";
  paid_at = stamped (150 * second);
  updated_at = 200 * second;
  next_reconcile_at = absent;
}

abbrev pub receipt : Receipt
receipt = record {
  channel_id = "channel";
  reference = "FT1";
  order_id = "order";
  payment_link_id = "link";
  amount_vnd = 50000;
  transaction_at = 150 * second;
  canonical_hash = "canonical";
  transaction_id = "txn_1";
  received_at = 200 * second;
}

abbrev pub booked : Transaction
booked = record {
  id = "txn_1";
  semantic_key = "PAYOS:0123456789abcdef0123456789abcdef:FT1";
  canonical_hash = "canonical";
  credit = 50000;
  transaction_at = 150 * second;
  description = "DH1000000000001";
  first_seen_at = 200 * second;
}

abbrev pub delivery : Delivery
delivery = record {
  id = "del_1";
  event_id = "bevt_event";
  endpoint_id = "e1";
  endpoint_revision = 1;
  key_id = "k1";
  status = waiting;
  attempts = 0;
  retry_cycle_start_attempt = 0;
  next_attempt_at = 200 * second;
  claim_token = "";
  lease_until = none;
}

abbrev pub event_row : EventRow
event_row = record {
  id = "bevt_event";
  transaction_id = "txn_1";
  event_type = "bank.transaction.credit";
}

abbrev pub journal_entry : JournalEntry
journal_entry = record {
  seq = 1;
  event_type = "bank.transaction.credit";
  aggregate_id = "txn_1";
  created_at = 200 * second;
}

abbrev pub paid_store : Database
paid_store = record linked_store {
  orders = paid_order ∷ [];
  receipts = receipt ∷ [];
  transactions = booked ∷ [];
  events = event_row ∷ [];
  journal = journal_entry ∷ [];
  journal_seq = 1;
  deliveries = delivery ∷ [];
}
