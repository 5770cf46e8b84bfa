-- ===== src/Deliveries.antt =====
-- Deliveries of events to the webhook endpoints: internal/storage/deliveries.go, with
-- FailDelivery and RecordAttempt of events.go and ReplayDelivery of notifications.go.
pub mod Serial
pub mod Claim
pub mod Schedule
pub mod Dispatch
use acb_transaction_webhook.Base.{
  ℕ, ◌+◌, String, str_eq, is_blank, Bool, true, false, not, ◌&&◌, ◌||◌, Option, none, some, List,
  [], ◌∷◌, ◌++◌, Result, ok, err, no_rows, lease_not_positive, claim_required, not_dead_letter,
  endpoint_not_active, constraint_violation, ◌>>=◌, ◌>>◌, fail_if, ◌==◌, if◌then◌else◌,
}
use acb_transaction_webhook.Base.Clock.{Instant, text_before}
use acb_transaction_webhook.Base.Rows.{find_row, has_row, update_rows, count_rows}
use acb_transaction_webhook.Store.{
  Endpoint, Delivery, DeliveryStatus, waiting, in_flight, delivered, dead_letter, Attempt, Database,
  Tx,
}

abbrev pub is_waiting : DeliveryStatus → Bool
is_waiting waiting = true
is_waiting _ = false

abbrev pub is_in_flight : DeliveryStatus → Bool
is_in_flight in_flight = true
is_in_flight _ = false

abbrev pub is_dead_letter : DeliveryStatus → Bool
is_dead_letter dead_letter = true
is_dead_letter _ = false

-- `lease_until < ?` and `lease_until >= ?`, both of them false for NULL.
abbrev pub lapsed : Instant → Option Instant → Bool
lapsed now none = false
lapsed now (some until) = text_before until now

abbrev pub running : Instant → Option Instant → Bool
running now none = false
running now (some until) = not (text_before until now)

-- The rows that a claim at `now` may take: due, or abandoned.
unfoldable pub claimable : Instant → Delivery → Bool
claimable now d =
    is_waiting d.status && not (text_before now d.next_attempt_at)
    || is_in_flight d.status && lapsed now d.lease_until

-- `active` is another row of the endpoint that is in flight.
unfoldable pub blocks_claim : Instant → Delivery → Delivery → Bool
blocks_claim now d active =
    str_eq active.endpoint_id d.endpoint_id
    && is_in_flight active.status
    && running now active.lease_until
    && not (str_eq active.id d.id)

unfoldable pub candidate : Instant → Database → Delivery → Bool
candidate now db d =
    has_row (λ e. str_eq e.id d.endpoint_id && e.is_active) db.endpoints
    && claimable now d
    && not (has_row (blocks_claim now d) db.deliveries)

-- `earlier` is SQLite's order of texts, for the ids of rows that are due at one text.
module _ (earlier : String → String → Bool) where
  -- `ORDER BY next_attempt_at, id`.
  unfoldable pub due_first : Delivery → Delivery → Bool
  due_first a b =
      text_before a.next_attempt_at b.next_attempt_at
      || not (text_before b.next_attempt_at a.next_attempt_at) && earlier a.id b.id

  -- `LIMIT 1` of the rows that meet a condition.
  unfoldable pub first_due : (Delivery → Bool) → List Delivery → Option Delivery
  first_due p [] = none
  first_due p (d ∷ ds) =
      let rest = first_due p ds in
      if p d
      then elim rest [ none ↦ some d | some b ↦ (if due_first b d then some b else some d) ]
      else rest

  unfoldable pub claimed_row : String → Instant → Delivery → Delivery
  claimed_row token until d = record d {
    status = in_flight;
    attempts = d.attempts + 1;
    claim_token = token;
    lease_until = some until;
  }

  abbrev pub take_claim : Instant → Delivery → Delivery → Bool
  take_claim now d row = str_eq row.id d.id && claimable now row

  -- The UPDATE behind the SELECT.
  unfoldable pub write_claim : String → Instant → ℕ → Delivery → Tx Delivery
  write_claim token now lease d db = do
    fail_if (not (count_rows (take_claim now d) db.deliveries == 1)) no_rows
    ok (
      claimed_row token (now + lease) d,
      record db {
        deliveries = update_rows (take_claim now d) (claimed_row token (now + lease)) db.deliveries;
      },
    )

  unfoldable pub claim_found :
      String → Instant → ℕ → Database → Option Delivery → Result (Delivery × Database)
  claim_found token now lease db none = err no_rows
  claim_found token now lease db (some d) = write_claim token now lease d db

  -- `ClaimDelivery`; `token` is the random id that it draws.
  unfoldable pub claim_delivery : String → Instant → ℕ → Tx Delivery
  claim_delivery token now lease db = do
    fail_if (lease == 0) lease_not_positive
    claim_found token now lease db (first_due (candidate now db) db.deliveries)

-- `WHERE id=? AND status='IN_FLIGHT' AND claim_token=?`.
unfoldable pub holds_claim : String → String → Delivery → Bool
holds_claim id token row =
    str_eq row.id id && is_in_flight row.status && str_eq row.claim_token token

unfoldable pub settled_row : DeliveryStatus → Instant → Delivery → Delivery
settled_row status retry_at d = record d {
  status = status;
  next_attempt_at = retry_at;
  claim_token = "";
  lease_until = none;
}

unfoldable pub failed_row : Delivery → Delivery
failed_row d = record d { status = dead_letter; claim_token = ""; lease_until = none }

abbrev pub completed_status : Bool → DeliveryStatus
completed_status was_delivered = if was_delivered then delivered else waiting

-- An UPDATE that must change one row.
unfoldable pub update_one : (Delivery → Bool) → (Delivery → Delivery) → Tx (Unit {0})
update_one p f db = do
  fail_if (not (count_rows p db.deliveries == 1)) no_rows
  ok (tt, record db { deliveries = update_rows p f db.deliveries })

-- `CompleteDelivery`.
unfoldable pub complete_delivery : Delivery → Bool → Instant → Tx (Unit {0})
complete_delivery d was_delivered retry_at db = do
  fail_if (is_blank d.id || is_blank d.claim_token) claim_required
  update_one (holds_claim d.id d.claim_token)
      (settled_row (completed_status was_delivered) retry_at) db

-- `FailDelivery`; the reason that it is given is not stored.
unfoldable pub fail_delivery : String → String → String → Tx (Unit {0})
fail_delivery id token reason db = do
  fail_if (is_blank id || is_blank token) claim_required
  update_one (holds_claim id token) failed_row db

unfoldable pub replayed_row : Instant → Delivery → Delivery
replayed_row now d = record d {
  status = waiting;
  next_attempt_at = now;
  retry_cycle_start_attempt = d.attempts;
}

unfoldable pub replay_joined :
    Instant → String → Database → Delivery → Option Endpoint → Result (Unit {0} × Database)
replay_joined now id db d none = err no_rows
replay_joined now id db d (some e) = do
  fail_if (not (is_dead_letter d.status)) not_dead_letter
  fail_if (not e.is_active) endpoint_not_active
  update_one (λ r. str_eq r.id id && is_dead_letter r.status) (replayed_row now) db

-- The row joined to its endpoint.
unfoldable pub replay_found :
    Instant → String → Database → Option Delivery → Result (Unit {0} × Database)
replay_found now id db none = err no_rows
replay_found now id db (some d) =
    replay_joined now id db d (find_row (λ e. str_eq e.id d.endpoint_id) db.endpoints)

-- `ReplayDelivery`.
unfoldable pub replay_delivery : Instant → String → Tx (Unit {0})
replay_delivery now id db = replay_found now id db (find_row (λ d. str_eq d.id id) db.deliveries)

-- `RecordAttempt`: one row for each delivery and attempt number. The dispatcher logs the error.
unfoldable pub record_attempt : String → String → ℕ → String → Tx (Unit {0})
record_attempt id delivery number outcome db = do
  fail_if
      (has_row
        (λ a. str_eq a.id id || str_eq a.delivery_id delivery && (a.attempt_number == number))
        db.attempts)
      constraint_violation
  ok (
    tt,
    record db {
      attempts =
          db.attempts
          ++ record { id = id; delivery_id = delivery; attempt_number = number; outcome = outcome }
            ∷ [];
    },
  )
