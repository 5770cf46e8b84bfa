-- ===== src/Outbox.antt =====
-- The durable event of a committed transaction: `emitTransactionEventTx` of
-- internal/storage/events.go, with its deliveries and its journal entry.
use acb_transaction_webhook.Base.{
  ℕ, ◌+◌, String, str_eq, not, ◌&&◌, Option, none, some, List, [], ◌∷◌, ◌++◌, Result, ok, err,
  constraint_violation, ◌>>=◌, max, if◌then◌else◌,
}
use acb_transaction_webhook.Base.Clock.{Instant}
use acb_transaction_webhook.Base.Rows.{has_row}
use acb_transaction_webhook.Store.{
  EventRow, JournalEntry, Endpoint, Delivery, waiting, Origin, Database, Tx,
}

pub data Source : Type 0 where
  realtime catch_up : Source
  other_source : String → Source

-- The event's payload (the map that becomes its JSON).
pub record EventData : Type 0 where
  pub provider : String
  pub bank : String
  pub order_code : ℕ
  pub payment_origin : Origin
  pub payment_link_id : String
  pub transaction_id : String
  pub transaction_number : String
  pub credit : ℕ
  pub transaction_at : Instant
  pub source : Source
  pub description : String
  pub detected_at : Instant

pub record EventNotification : Type 0 where
  pub event_id : String
  pub event_type : String
  pub transaction_id : String
  pub payload : EventData
  pub created_at : Instant
  pub journal_seq : ℕ

unfoldable pub max_seq : List JournalEntry → ℕ
max_seq [] = 0
max_seq (e ∷ es) = max e.seq (max_seq es)

-- One INSERT for each active endpoint; `fresh` draws the random ids, one for each insertion.
unfoldable pub insert_deliveries :
    (ℕ → String) → ℕ → String → Instant → List Endpoint → List Delivery → Result (List Delivery)
insert_deliveries fresh n event created [] rows = ok rows
insert_deliveries fresh n event created (e ∷ es) rows =
    let row : Delivery = record {
      id = fresh n;
      event_id = event;
      endpoint_id = e.id;
      endpoint_revision = e.current_revision;
      key_id = e.key_id;
      status = waiting;
      attempts = 0;
      retry_cycle_start_attempt = 0;
      next_attempt_at = created;
      claim_token = "";
      lease_until = none;
    } in
    let skip = insert_deliveries fresh n event created es rows in
    let known = insert_deliveries fresh (n + 1) event created es rows in
    let added = insert_deliveries fresh (n + 1) event created es (rows ++ row ∷ []) in
    if not e.is_active
    then skip
    else if has_row (λ d. str_eq d.event_id event && str_eq d.endpoint_id e.id) rows
    then known
    else if has_row (λ d. str_eq d.id (fresh n)) rows
    then err constraint_violation
    else added

-- SQLite draws the journal's seq by AUTOINCREMENT: above every seq that the table has had.
unfoldable pub append_event :
    String → String → EventData → Instant → List Delivery → Database → EventNotification × Database
append_event event_id event_type contents created deliveries db =
    let seq = max db.journal_seq (max_seq db.journal) + 1 in
    let row : EventRow = record {
      id = event_id;
      transaction_id = contents.transaction_id;
      event_type = event_type;
    } in
    let entry : JournalEntry = record {
      seq = seq;
      event_type = event_type;
      aggregate_id = contents.transaction_id;
      created_at = created;
    } in
    (
      record {
        event_id = event_id;
        event_type = event_type;
        transaction_id = contents.transaction_id;
        payload = contents;
        created_at = created;
        journal_seq = seq;
      },
      record db {
        events = db.events ++ row ∷ [];
        journal = db.journal ++ entry ∷ [];
        journal_seq = seq;
        deliveries = deliveries;
      },
    )

unfoldable pub emit_new :
    (ℕ → String) → String → String → EventData → Instant → Tx (Option EventNotification)
emit_new fresh event_id event_type contents created db = do
  rows ← insert_deliveries fresh 0 event_id created db.endpoints db.deliveries
  let emitted = append_event event_id event_type contents created rows db
  ok (some emitted.0, emitted.1)

-- A duplicate event produces neither deliveries nor a journal entry. `event_id` is the digest.
unfoldable pub emit_transaction_event :
    (ℕ → String) → String → String → EventData → Instant → Tx (Option EventNotification)
emit_transaction_event fresh event_id event_type contents created db =
    if has_row
      (λ e. str_eq e.transaction_id contents.transaction_id && str_eq e.event_type event_type)
      db.events
    then ok (none, db)
    else if has_row (λ e. str_eq e.id event_id) db.events
    then err constraint_violation
    else emit_new fresh event_id event_type contents created db
