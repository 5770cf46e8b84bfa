-- ===== src/Deliveries/Schedule.antt =====
-- Any sequence of the operations of internal/storage/deliveries.go.
use acb_transaction_webhook.Base.{ℕ, ◌≤◌, String, Bool, List, [], ◌∷◌, Result}
use acb_transaction_webhook.Base.Clock.{Instant, text_key}
use acb_transaction_webhook.Base.Ensures.{Ensures}
use acb_transaction_webhook.Store.{Delivery, Database, Tx, commit, with_tx}
use acb_transaction_webhook.Deliveries.{
  claim_delivery, complete_delivery, fail_delivery, replay_delivery,
}
use acb_transaction_webhook.Deliveries.Serial.{
  Kept, IsSerial-later, complete-Kept, fail-Kept, replay-Kept,
}
use acb_transaction_webhook.Deliveries.Claim.{claim-Kept}

pub data DeliveryOp : Type 0 where
  claim : String → ℕ → DeliveryOp
  complete : Delivery → Bool → Instant → DeliveryOp
  fail : String → String → String → DeliveryOp
  replay : String → DeliveryOp

commit-Kept :
    {A : Type 0} (now : Instant) (db : Database) (m : Result (A × Database))
    → Kept now db
    → Ensures (λ r. Kept now r.1) m
    → Kept now (commit db m).1
unfolding commit
commit-Kept now db _ kept (Ensures.returns {a = (a, db')} k) = k
commit-Kept now db _ kept Ensures.fails = kept

committed-Kept :
    {A : Type 0} (now : Instant) (tx : Tx A) (db : Database)
    → Kept now db
    → Ensures (λ r. Kept now r.1) (tx db)
    → Kept now (with_tx tx db).1
unfolding with_tx
committed-Kept now tx db kept ensured = commit-Kept now db (tx db) kept ensured

module _ (earlier : String → String → Bool) where
  pub delivery_step : Instant → DeliveryOp → Database → Database
  delivery_step now (claim token lease) db = (with_tx (claim_delivery earlier token now lease) db).1
  delivery_step now (complete d was_delivered retry_at) db =
      (with_tx (complete_delivery d was_delivered retry_at) db).1
  delivery_step now (fail id token reason) db = (with_tx (fail_delivery id token reason) db).1
  delivery_step now (replay id) db = (with_tx (replay_delivery now id) db).1

  pub delivery_run : List (Instant × DeliveryOp) → Database → Database
  delivery_run [] db = db
  delivery_run ((now, op) ∷ ops) db = delivery_run ops (delivery_step now op db)

  step-Kept :
      (now : Instant) (op : DeliveryOp) (db : Database)
      → Kept now db
      → Kept now (delivery_step now op db)
  unfolding delivery_step
  step-Kept now (claim token lease) db kept =
      committed-Kept now _ db kept (claim-Kept earlier token now lease db kept)
  step-Kept now (complete d was_delivered retry_at) db kept =
      committed-Kept now _ db kept (complete-Kept now d was_delivered retry_at db kept)
  step-Kept now (fail id token reason) db kept =
      committed-Kept now _ db kept (fail-Kept now id token reason db kept)
  step-Kept now (replay id) db kept = committed-Kept now _ db kept (replay-Kept now now id db kept)

  -- The texts of the operations' times do not run back, in the order in which SQL compares them.
  -- Within one second that is not the order of the clock: the text of 5.3 s comes before that of 5 s.
  unfoldable pub InOrder : Instant → List (Instant × DeliveryOp) → Type 0
  InOrder start [] = Unit
  InOrder start ((now, op) ∷ ops) = (text_key start ≤ text_key now) × InOrder now ops

  pub last_instant : Instant → List (Instant × DeliveryOp) → Instant
  last_instant start [] = start
  last_instant start ((now, op) ∷ ops) = last_instant now ops

  -- From a table with unique ids in which every endpoint has at most one delivery under a lease,
  -- any sequence of claims, completions, failures and replays, at times whose texts do not run back,
  -- leads to such a table again. A lease is live while the text of the time comes before that of the
  -- lease's end, as the claim compares them; within one second that is not the order of the clock.
  pub one_at_a_time :
      (start : Instant) (ops : List (Instant × DeliveryOp)) (db : Database)
      → InOrder start ops
      → Kept start db
      → Kept (last_instant start ops) (delivery_run ops db)
  unfolding delivery_run InOrder last_instant
  one_at_a_time start [] db order kept = kept
  one_at_a_time start ((now, op) ∷ ops) db (le, order) (unique, serial) =
      one_at_a_time now ops (delivery_step now op db) order
        (step-Kept now op db (unique, IsSerial-later start now db.deliveries le serial))
