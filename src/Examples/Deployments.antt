-- ===== src/Examples/Deployments.antt =====
-- Runs of the deployment gate.
use acb_transaction_webhook.Base.{
  String, str_eq, true, false, ◌*◌, ◌<◌, ◌≡◌, ◌≢◌, refl, List, [], ◌∷◌, ok, err, arith, eq_iff,
  mutation_gate_locked, ltb, if◌then◌else◌,
}
use acb_transaction_webhook.Base.Clock.{Instant, second, minute, stamped}
use acb_transaction_webhook.Gate.{
  GateRow, locked, DeploymentGate, no_singleton, singleton, no_table, acquire_mutation_gate,
  release_mutation_gate, check_gate, force_unlock,
}
use acb_transaction_webhook.Gate.Exclusion.{
  GateOp, acquire, release, renew, gate_run, gate_step, Held, outsiders_locked_out, check-acquire,
  closed_until,
}
use acb_transaction_webhook.Gate.Fencing.{fences_increase}

abbrev held_row : GateRow
held_row = record {
  gate_state = locked;
  owner = "alice";
  lease_token = "token";
  lease_expires_at = stamped (220 * second);
  reason = "deploy";
  fence_generation = 1;
}

held : (now : Instant) → now < 220 * second → Held now held_row
held now h = record { is_locked = refl; until = 220 * second; expiry = refl; live = h }

differ : (a b : String) → str_eq a b ≡ false → a ≢ b
differ a b h e = cc (h, (eq_iff a b).1 e)

outside :
    (now : Instant)
    → now < 220 * second
    → Held now held_row × (held_row.owner ≢ "bob") × ("bob" ≢ force_unlock)
outside now h = (held now h, differ "alice" "bob" refl, differ "bob" force_unlock refl)

abbrev others : List (Instant × GateOp)
others =
    (110 * second, acquire "bob" (60 * second) "mine" "other")
    ∷ (120 * second, release "bob" "")
    ∷ (130 * second, renew "bob" "token" (60 * second))
    ∷ []

outsiders_locked_out_example :
    (gate_run others (singleton held_row) ≡ singleton held_row)
    × (check_gate (200 * second) (gate_run others (singleton held_row)) ≡ err mutation_gate_locked)
outsiders_locked_out_example =
    outsiders_locked_out held_row others (200 * second)
      (
        outside (110 * second) (omega arith),
        (outside (120 * second) (omega arith), (outside (130 * second) (omega arith), tt)),
      )
      (held (200 * second) (omega arith))

abbrev gate_of : GateRow → DeploymentGate
gate_of r = record { row = r; table_exists = true; bootstrap = false; is_stale = false }

acquire_run :
    (acquire_mutation_gate (100 * second) "alice" (2 * minute) "deploy" "token" no_singleton).0
    ≡ ok (gate_of held_row)
unfolding acquire_mutation_gate
acquire_run = refl

migrated : no_singleton ≢ no_table
migrated e = cc

check-acquire_example :
    check_gate
      (219 * second)
      (acquire_mutation_gate (100 * second) "alice" (2 * minute) "deploy" "token" no_singleton).1
    ≡ (if ltb (219 * second) (closed_until (100 * second) (2 * minute))
        then err mutation_gate_locked
        else ok tt)
check-acquire_example =
    check-acquire (100 * second) (219 * second) "alice" "token" "deploy" (2 * minute) no_singleton
      migrated acquire_run

abbrev later_row : GateRow
later_row = record held_row {
  owner = "bob";
  lease_token = "other";
  lease_expires_at = stamped (360 * second);
  fence_generation = 3;
}

abbrev let_go : List (Instant × GateOp)
let_go = (200 * second, release "alice" "token") ∷ []

overtake_run :
    (acquire_mutation_gate (300 * second) "bob" (60 * second) "deploy" "other" (
      gate_run let_go
        (acquire_mutation_gate
          (100 * second)
          "alice"
          (2 * minute)
          "deploy"
          "token"
          no_singleton).1)).0
    ≡ ok (gate_of later_row)
unfolding acquire_mutation_gate gate_run gate_step release_mutation_gate
overtake_run = refl

fences_increase_example : 1 < 3
fences_increase_example =
    fences_increase (100 * second) (300 * second) "alice" "token" "deploy" "bob" "other" "deploy"
      (2 * minute) (60 * second) no_singleton let_go {g₁ = gate_of held_row}
      {g₂ = gate_of later_row} migrated acquire_run overtake_run
