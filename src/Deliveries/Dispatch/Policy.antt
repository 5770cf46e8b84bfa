-- ===== src/Deliveries/Dispatch/Policy.antt =====
-- The retry policy of internal/notification/dispatcher.go.
use mathlib.Core.Path.{subst}
use acb_transaction_webhook.Base.{
  ap, ◌∙◌, ℕ, zero, suc, ◌+◌, ◌-◌, ◌*◌, ◌≤◌, ◌≡◌, refl, String, eq_iff, Bool, true, false, none,
  some, List, [], ◌∷◌, ◌++◌, length, ◌<◌, Result, ok, ltb, leb, if◌then◌else◌, ◌>>◌, fail_if,
  is_blank, arith, Bool-cases, inl, inr, All,
}
use acb_transaction_webhook.Base.Clock.{Instant, second, minute}
use acb_transaction_webhook.Base.Keys.{has_key, HasUniqueKeys, find-update_self, count_one}
use acb_transaction_webhook.Base.Rows.{find_row}
use acb_transaction_webhook.Store.{
  Delivery, waiting, delivered, dead_letter, Database, with_tx, commit,
}
use acb_transaction_webhook.Deliveries.{
  complete_delivery, fail_delivery, update_one, holds_claim, settled_row, failed_row,
  completed_status,
}
use acb_transaction_webhook.Deliveries.Dispatch.{
  Outcome, success, retry, terminal_failure, SendResult, Dispatcher, default_backoffs,
  effective_attempts, backoff_at, backoff_for, failure_reason, close_claim,
}

abbrev pub delivery_id : Delivery → String
delivery_id d = d.id

-- What the policy promises of a delivery whose claim is closed.
pub data Verdict : Type 0 where
  is_delivered gives_up : Verdict
  tries_again : ℕ → Verdict

-- The attempts of the cycle, from 1, decide between another try and giving up.
pub verdict_of : ℕ → List ℕ → Outcome → ℕ → Verdict
verdict_of max_retries backoffs success n = is_delivered
verdict_of max_retries backoffs terminal_failure n = gives_up
verdict_of max_retries backoffs retry n =
    if ltb n max_retries then tries_again (backoff_at backoffs (n - 1)) else gives_up

pub closed_row : Instant → Verdict → Delivery → Delivery
closed_row now is_delivered row = record row {
  status = delivered;
  next_attempt_at = 0;
  claim_token = "";
  lease_until = none;
}
closed_row now gives_up row = record row {
  status = dead_letter;
  claim_token = "";
  lease_until = none;
}
closed_row now (tries_again wait) row = record row {
  status = waiting;
  next_attempt_at = now + wait;
  claim_token = "";
  lease_until = none;
}

-- The lookup of a claimed row after the update that its claim allows.
abbrev pub Leaves : String → Delivery → Result (Unit {0}) × Database → Type 0
Leaves id row r = (r.0 ≡ ok tt) × (find_row (has_key delivery_id id) r.1.deliveries ≡ some row)

holds_claim-id : (id token : String) (x : Delivery) → holds_claim id token x ≡ true → x.id ≡ id
unfolding holds_claim
holds_claim-id id token x h = (eq_iff x.id id).0 (ground (arith, h))

update_one-Leaves :
    (id token : String) (f : Delivery → Delivery) (db : Database) {row : Delivery}
    → ((x : Delivery) → (f x).id ≡ x.id)
    → HasUniqueKeys delivery_id db.deliveries
    → find_row (has_key delivery_id id) db.deliveries ≡ some row
    → holds_claim id token row ≡ true
    → Leaves id (f row) (commit db (update_one (holds_claim id token) f db))
unfolding update_one ◌>>◌ fail_if commit
update_one-Leaves id token f db {row} keeps unique found held =
    let one =
      count_one delivery_id (holds_claim id token) f id (holds_claim-id id token) keeps
        db.deliveries {x = row} unique found held in
    rw one (
      refl,
      find-update_self delivery_id (holds_claim id token) f id (holds_claim-id id token) keeps
          db.deliveries {x = row} found held,
    )

module _ (now : Instant) (delivery row : Delivery) (db : Database)
    (unique : HasUniqueKeys delivery_id db.deliveries)
    (found : find_row (has_key delivery_id delivery.id) db.deliveries ≡ some row)
    (held : holds_claim delivery.id delivery.claim_token row ≡ true)
    (named : is_blank delivery.id ≡ false) (tokened : is_blank delivery.claim_token ≡ false) where
  complete-Leaves :
      (was_delivered : Bool) (retry_at : Instant)
      → Leaves delivery.id
          (settled_row (completed_status was_delivered) retry_at row)
          (with_tx (complete_delivery delivery was_delivered retry_at) db)
  unfolding complete_delivery with_tx ◌>>◌ fail_if settled_row
  complete-Leaves was_delivered retry_at = rw named (
      rw tokened (
        update_one-Leaves delivery.id delivery.claim_token
          (settled_row (completed_status was_delivered) retry_at) db {row = row} (λ x. refl) unique
          found held))

  fail-Leaves :
      (reason : String)
      → Leaves delivery.id
          (failed_row row)
          (with_tx (fail_delivery delivery.id delivery.claim_token reason) db)
  unfolding fail_delivery with_tx ◌>>◌ fail_if failed_row
  fail-Leaves reason = rw named (
      rw tokened (
        update_one-Leaves delivery.id delivery.claim_token failed_row db {row = row} (λ x. refl)
          unique found held))

  by_outcome :
      (d : Dispatcher) (res : SendResult) (o : Outcome)
      → res.outcome ≡ o
      → Leaves delivery.id
          (closed_row now (verdict_of d.max_retries d.backoffs o (effective_attempts delivery)) row)
          (close_claim d now delivery res db)
  unfolding close_claim closed_row verdict_of settled_row failed_row backoff_for failure_reason
  by_outcome d res success e = rw e (complete-Leaves true 0)
  by_outcome d res terminal_failure e = rw e (fail-Leaves (failure_reason res))
  by_outcome d res retry e = elim (Bool-cases (ltb (effective_attempts delivery) d.max_retries)) [
    | inl more ↦
        let less : leb d.max_retries (effective_attempts delivery) ≡ false = ground (arith, more) in
        rw e (
          rw more
            (rw less (complete-Leaves false (now + backoff_for d (effective_attempts delivery)))))
    | inr last ↦
        let reached : leb d.max_retries (effective_attempts delivery) ≡ true =
          ground (arith, last) in
        rw e (rw last (rw reached (fail-Leaves (failure_reason res))))
  ]

  -- If the row of a delivery still holds the delivery's claim, the dispatcher closes the claim
  -- without an error, and leaves the row as the retry policy says: delivered after a success, dead
  -- after a terminal failure or when the attempts of the cycle are used up, due again after the
  -- backoff of the attempt otherwise. The ids of the table are unique, and neither the id nor the
  -- claim's token is empty.
  pub close_claim-closed_row :
      (d : Dispatcher) (res : SendResult)
      → Leaves delivery.id
          (closed_row now
            (verdict_of d.max_retries d.backoffs res.outcome (effective_attempts delivery))
            row)
          (close_claim d now delivery res db)
  close_claim-closed_row d res = by_outcome d res res.outcome refl

-- The wait of a turn: the element at its place, counted from 0, or the last one from there on.
pub data Turn : ℕ → List ℕ → ℕ → Type 0 where
  due : (before after : List ℕ) (wait : ℕ) → Turn (length before) (before ++ wait ∷ after) wait
  past : (before : List ℕ) (wait n : ℕ) → length before ≤ n → Turn n (before ++ wait ∷ []) wait

due_backoff :
    (before after : List ℕ) (wait : ℕ) → backoff_at (before ++ wait ∷ after) (length before) ≡ wait
unfolding backoff_at
due_backoff [] [] wait = refl
due_backoff [] (a ∷ after) wait = refl
due_backoff (b ∷ []) after wait = due_backoff [] after wait
due_backoff (b ∷ c ∷ before) after wait = due_backoff (c ∷ before) after wait

past_backoff :
    (before : List ℕ) (wait n : ℕ) → length before ≤ n → backoff_at (before ++ wait ∷ []) n ≡ wait
unfolding backoff_at
past_backoff [] wait n le = refl
past_backoff (b ∷ before) wait zero le = absurd (omega (arith, le))
past_backoff (b ∷ []) wait (suc n) le = past_backoff [] wait n (omega arith)
past_backoff (b ∷ c ∷ before) wait (suc n) le = past_backoff (c ∷ before) wait n (omega (arith, le))

Turn-backoff_at : {n : ℕ} {bs : List ℕ} {wait : ℕ} → Turn n bs wait → backoff_at bs n ≡ wait
Turn-backoff_at (due before after wait) = due_backoff before after wait
Turn-backoff_at (past before wait n le) = past_backoff before wait n le

All-middle :
    (P : ℕ → Type 0) (before after : List ℕ) (wait : ℕ) → All P (before ++ wait ∷ after) → P wait
All-middle P [] after wait (p, _) = p
All-middle P (b ∷ before) after wait (_, h) = All-middle P before after wait h

Turn-All : (P : ℕ → Type 0) {n : ℕ} {bs : List ℕ} {wait : ℕ} → Turn n bs wait → All P bs → P wait
Turn-All P (due before after wait) h = All-middle P before after wait h
Turn-All P (past before wait n _) h = All-middle P before [] wait h

IsModest : ℕ → Type 0
IsModest b = (2 * second ≤ b) × (b ≤ 30 * minute)

default_bounded : All IsModest default_backoffs
unfolding IsModest
default_bounded = (
  (omega arith, omega arith),
  (
    (omega arith, omega arith),
    (
      (omega arith, omega arith),
      (
        (omega arith, omega arith),
        (
          (omega arith, omega arith),
          (
            (omega arith, omega arith),
            (
              (omega arith, omega arith),
              (
                (omega arith, omega arith),
                ((omega arith, omega arith), ((omega arith, omega arith), tt)),
              ),
            ),
          ),
        ),
      ),
    ),
  ),
)

next_try :
    (most k wait : ℕ)
    → suc k < most
    → Turn k default_backoffs wait
    → verdict_of most default_backoffs retry (suc k) ≡ tries_again wait
unfolding verdict_of
next_try most k wait more turn =
    let place : suc k - 1 ≡ k = omega arith in
    let below : ltb (suc k) most ≡ true = ground (arith, more) in
    rw below (rw place (ap tries_again (Turn-backoff_at turn)))

module _ (now : Instant) (delivery row : Delivery) (db : Database)
    (unique : HasUniqueKeys delivery_id db.deliveries)
    (found : find_row (has_key delivery_id delivery.id) db.deliveries ≡ some row)
    (held : holds_claim delivery.id delivery.claim_token row ≡ true)
    (named : is_blank delivery.id ≡ false) (tokened : is_blank delivery.claim_token ≡ false) where
  -- With the default backoffs, a send that is to be tried again, as attempt k + 1 of its cycle, which
  -- is not the last one allowed, leaves the row waiting, without its claim, and due again after the
  -- k-th of the backoffs, counted from 0, or the last one from the tenth attempt on. That wait is
  -- between 2 seconds and 30 minutes. The claim is still held, the table's ids are unique, and neither
  -- the id nor the claim's token is empty.
  pub retry_is_due :
      (d : Dispatcher) (res : SendResult) (k wait : ℕ)
      → d.backoffs ≡ default_backoffs
      → res.outcome ≡ retry
      → delivery.attempts ≡ delivery.retry_cycle_start_attempt + suc k
      → suc k < d.max_retries
      → Turn k default_backoffs wait
      → Leaves delivery.id
          (record row {
            status = waiting;
            next_attempt_at = now + wait;
            claim_token = "";
            lease_until = none;
          })
          (close_claim d now delivery res db)
        × (2 * second ≤ wait)
        × (wait ≤ 30 * minute)
  unfolding effective_attempts verdict_of closed_row IsModest
  retry_is_due d res k wait backoffs outcome nth more turn =
      let closed =
        close_claim-closed_row now delivery row db unique found held named tokened d res in
      let attempt : effective_attempts delivery ≡ suc k = omega (arith, nth) in
      let verdict =
        ap (λ (bs : List ℕ). verdict_of d.max_retries bs res.outcome (effective_attempts delivery))
          backoffs
        ∙ ap
            (λ (o : Outcome).
              verdict_of d.max_retries default_backoffs o (effective_attempts delivery))
            outcome
        ∙ ap (λ (n : ℕ). verdict_of d.max_retries default_backoffs retry n) attempt
        ∙ next_try d.max_retries k wait more turn in
      let (low, high) = Turn-All IsModest turn default_bounded in
      (
        subst
            (λ (v : Verdict).
              Leaves delivery.id (closed_row now v row) (close_claim d now delivery res db))
            verdict closed,
        low,
        high,
      )
