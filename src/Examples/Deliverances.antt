-- ===== src/Examples/Deliverances.antt =====
-- Runs of the deliveries.
use acb_transaction_webhook.Base.{
  ◌+◌, none, ◌*◌, ◌≤◌, ◌≡◌, refl, sym, ap, ◌∙◌, String, Bool, true, false, some, List, [], ◌∷◌,
  arith, inl, inr,
}
use acb_transaction_webhook.Base.Clock.{Instant, second, minute, text_key, fraction_key}
use acb_transaction_webhook.Store.{Delivery, Database, in_flight, waiting}
use acb_transaction_webhook.Deliveries.{holds_claim}
use acb_transaction_webhook.Deliveries.Serial.{Mem, IsSerial, HasUniqueIds, Kept}
use acb_transaction_webhook.Deliveries.Schedule.{
  DeliveryOp, claim, complete, delivery_run, InOrder, last_instant, one_at_a_time,
}
use acb_transaction_webhook.Deliveries.Dispatch.{
  SendResult, retry, new_dispatcher, effective_attempts, close_claim, default_backoffs,
}
use acb_transaction_webhook.Deliveries.Dispatch.Policy.{
  Leaves, closed_row, verdict_of, close_claim-closed_row, retry_is_due, due,
}
use acb_transaction_webhook.Examples.{paid_store, delivery}

abbrev taken : Delivery
taken = record delivery {
  status = in_flight;
  attempts = 3;
  claim_token = "claim";
  lease_until = some (240 * second);
}

abbrev taken_store : Database
taken_store = record paid_store { deliveries = taken ∷ [] }

abbrev no_answer : SendResult
no_answer = record { outcome = retry; status_text = "503"; provider_error_code = "" }

is_held : holds_claim "del_1" "claim" taken ≡ true
unfolding holds_claim
is_held = refl

close_claim-closed_row_example :
    Leaves "del_1"
      (closed_row
        (210 * second)
        (verdict_of 154 default_backoffs retry (effective_attempts taken))
        taken)
      (close_claim new_dispatcher (210 * second) taken no_answer taken_store)
close_claim-closed_row_example =
    close_claim-closed_row (210 * second) taken taken taken_store (tt, tt) refl is_held refl refl
      new_dispatcher no_answer

-- The third attempt of the cycle: the wait at place 2 is 15 seconds.
retry_is_due_example :
    Leaves "del_1"
      (record taken {
        status = waiting;
        next_attempt_at = 210 * second + 15 * second;
        claim_token = "";
        lease_until = none;
      })
      (close_claim new_dispatcher (210 * second) taken no_answer taken_store)
    × (2 * second ≤ 15 * second)
    × (15 * second ≤ 30 * minute)
retry_is_due_example =
    retry_is_due (210 * second) taken taken taken_store (tt, tt) refl is_held refl refl
      new_dispatcher no_answer 2 (15 * second) refl refl refl (omega arith)
      (due (2 * second ∷ 5 * second ∷ [])
        (30 * second
          ∷ minute
          ∷ 2 * minute
          ∷ 5 * minute
          ∷ 10 * minute
          ∷ 15 * minute
          ∷ 30 * minute
          ∷ [])
        (15 * second))

abbrev before : String → String → Bool
before a b = false

abbrev rounds : List (Instant × DeliveryOp)
rounds =
    (201 * second, claim "first" (30 * second))
    ∷ (202 * second, claim "second" (30 * second))
    ∷ (203 * second, complete taken true 0)
    ∷ []

only_one : (x : Delivery) → Mem x (delivery ∷ []) → x ≡ delivery
unfolding Mem
only_one x (inl e) = e
only_one x (inr m) = elim m [ ]

paid-Kept : Kept (200 * second) paid_store
unfolding HasUniqueIds IsSerial
paid-Kept = (
  (λ a b ma mb same. only_one a ma ∙ sym (only_one b mb)),
  (λ a b ma mb la lb same. ap (λ (d : Delivery). d.id) (only_one a ma ∙ sym (only_one b mb))),
)

rounds-InOrder : InOrder before (200 * second) rounds
unfolding InOrder text_key fraction_key
rounds-InOrder = (omega arith, (omega arith, (omega arith, tt)))

one_at_a_time_example :
    Kept (last_instant before (200 * second) rounds) (delivery_run before rounds paid_store)
one_at_a_time_example =
    one_at_a_time before (200 * second) rounds paid_store rounds-InOrder paid-Kept
