-- ===== src/Deliveries/Dispatch.antt =====
-- The dispatcher: internal/notification/dispatcher.go. The senders, the lookup of a target and its
-- secret, and the details for Bark are code of other packages, thus parameters.
pub mod Policy
use Prim.Native.String.{◌++◌ as text_append}
use acb_transaction_webhook.Base.{
  ℕ, zero, suc, ◌+◌, ◌-◌, ◌*◌, String, str_eq, is_blank, Bool, true, false, not, ◌&&◌, ◌||◌, Option,
  none, some, List, [], ◌∷◌, Result, ok, err, Error, no_rows, provider_not_registered, max, min,
  length, ltb, leb, ◌==◌, if◌then◌else◌,
}
use acb_transaction_webhook.Base.Clock.{Instant, second, minute}
use acb_transaction_webhook.Base.Rows.{has_row}
use acb_transaction_webhook.Store.{Delivery, Database, with_tx}
use acb_transaction_webhook.Deliveries.{
  claim_delivery, complete_delivery, fail_delivery, record_attempt,
}

pub data Outcome : Type 0 where
  success retry terminal_failure : Outcome

abbrev pub is_success : Outcome → Bool
is_success success = true
is_success _ = false

abbrev pub is_retry : Outcome → Bool
is_retry retry = true
is_retry _ = false

abbrev pub is_terminal : Outcome → Bool
is_terminal terminal_failure = true
is_terminal _ = false

abbrev outcome_text : Outcome → String
outcome_text success = "SUCCESS"
outcome_text retry = "RETRY"
outcome_text terminal_failure = "TERMINAL_FAILURE"

pub record SendResult : Type 0 where
  pub outcome : Outcome
  pub status_text : String
  pub provider_error_code : String

-- `Dispatcher`, less its channels and its locks.
pub record Dispatcher : Type 0 where
  pub max_retries : ℕ
  pub backoffs : List ℕ
  pub paused : Bool

-- `defaultBackoffs`.
abbrev pub default_backoffs : List ℕ
default_backoffs =
    2 * second
    ∷ 5 * second
    ∷ 15 * second
    ∷ 30 * second
    ∷ minute
    ∷ 2 * minute
    ∷ 5 * minute
    ∷ 10 * minute
    ∷ 15 * minute
    ∷ 30 * minute
    ∷ []

-- `NewDispatcher`.
abbrev pub new_dispatcher : Dispatcher
new_dispatcher = record { max_retries = 154; backoffs = default_backoffs; paused = false }

-- `SetMaxRetries` and `SetBackoffs`.
unfoldable pub set_max_retries : ℕ → Dispatcher → Dispatcher
set_max_retries n d = if ltb 0 n then record d { max_retries = n } else d

unfoldable pub set_backoffs : List ℕ → Dispatcher → Dispatcher
set_backoffs [] d = d
set_backoffs (b ∷ bs) d = record d { backoffs = b ∷ bs; max_retries = length (b ∷ bs) }

unfoldable pub set_paused : Bool → Dispatcher → Dispatcher
set_paused b d = record d { paused = b }

-- `delivery.Attempts - delivery.RetryCycleStartAttempt`, and at least 1.
unfoldable pub effective_attempts : Delivery → ℕ
effective_attempts d = max 1 (d.attempts - d.retry_cycle_start_attempt)

-- `d.backoffs[i]`, where the code has cut `i` to the list; 0 stands for the index error of an
-- empty list.
pub backoff_at : List ℕ → ℕ → ℕ
backoff_at [] i = 0
backoff_at (b ∷ []) i = b
backoff_at (b ∷ c ∷ bs) zero = b
backoff_at (b ∷ c ∷ bs) (suc i) = backoff_at (c ∷ bs) i

unfoldable pub backoff_for : Dispatcher → ℕ → ℕ
backoff_for d effective = backoff_at d.backoffs (effective - 1)

unfoldable pub failure_reason : SendResult → String
failure_reason res =
    if is_blank res.provider_error_code
    then text_append "EXHAUSTED_RETRIES_STATUS_" res.status_text
    else res.provider_error_code

unfoldable pub final_outcome : Dispatcher → Delivery → SendResult → Outcome
final_outcome d delivery res =
    if is_retry res.outcome && leb d.max_retries (effective_attempts delivery)
    then terminal_failure
    else res.outcome

-- What follows the sending: the three updates that close the claim.
unfoldable pub close_claim :
    Dispatcher → Instant → Delivery → SendResult → Database → Result (Unit {0}) × Database
close_claim d now delivery res db =
    let effective = effective_attempts delivery in
    if is_success res.outcome
    then with_tx (complete_delivery delivery true 0) db
    else if is_terminal res.outcome || leb d.max_retries effective
    then with_tx (fail_delivery delivery.id delivery.claim_token (failure_reason res)) db
    else with_tx (complete_delivery delivery false (now + backoff_for d effective)) db

unfoldable pub record_and_close :
    Dispatcher → String → Instant → Delivery → SendResult → Database → Result (Unit {0}) × Database
record_and_close d attempt now delivery res db =
    let recorded =
      with_tx
        (record_attempt attempt delivery.id delivery.attempts
          (outcome_text (final_outcome d delivery res)))
        db in
    close_claim d now delivery res recorded.1

-- `_ = d.store.FailDelivery(…)`, and the error that is returned.
unfoldable pub abandon : Delivery → String → Error → Database → Result (Unit {0}) × Database
abandon delivery reason e db =
    (err e, (with_tx (fail_delivery delivery.id delivery.claim_token reason) db).1)

-- `errors.Is(err, sql.ErrNoRows)` is no error: nothing is due.
pub unless_no_rows : Error → Result (Unit {0})
unless_no_rows no_rows = ok tt
unless_no_rows e = err e

module _ (earlier : String → String → Bool) (target_provider : Delivery → Database → Result String)
    (registered : String → Bool) (send : Delivery → SendResult)
    (details_ready : Delivery → Bool) where
  -- `SEPAY_NOTIFICATION_DETAILS_UNAVAILABLE` takes the place of the sender's answer.
  unfoldable pub answer : Delivery → SendResult
  answer delivery = if details_ready delivery then send delivery else record {
    outcome = retry;
    status_text = "0";
    provider_error_code = "SEPAY_NOTIFICATION_DETAILS_UNAVAILABLE";
  }

  -- The claimed delivery; `others` is what the rest of the process does to the database while the
  -- sender runs. The errors of the lookups are closed as dead letters.
  unfoldable pub dispatch_claimed :
      Dispatcher
      → String
      → Instant
      → Delivery
      → (Database → Database)
      → Database
      → Result (Unit {0}) × Database
  dispatch_claimed d attempt now delivery others db = elim (target_provider delivery db) [
    | err e ↦ abandon delivery "ENDPOINT_UNAVAILABLE" e db
    | ok provider ↦
        if not (registered provider)
        then abandon delivery "PROVIDER_NOT_REGISTERED" provider_not_registered db
        else if not (has_row (λ e. str_eq e.id delivery.event_id) db.events)
        then abandon delivery "EVENT_NOT_FOUND" no_rows db
        else record_and_close d attempt now delivery (answer delivery) (others db)
  ]

  -- `DispatchOne`: whether a delivery was processed, and the error beside it.
  unfoldable pub dispatch_one :
      Dispatcher
      → String
      → String
      → Instant
      → (Database → Database)
      → Database
      → (Bool × Result (Unit {0})) × Database
  dispatch_one d token attempt now others db =
      if d.paused
      then ((false, ok tt), db)
      else let (claim, db') = with_tx (claim_delivery earlier token now (30 * second)) db in
        elim claim [
          | err e ↦ ((false, unless_no_rows e), db')
          | ok delivery ↦
              let (outcome, db'') = dispatch_claimed d attempt now delivery others db' in
              ((true, outcome), db'')
        ]
