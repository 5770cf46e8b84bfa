-- ===== src/Gate.antt =====
-- The deployment mutation gate: internal/storage/deployment_control.go. The table may be missing
-- (before its migration) and holds at most the row 'singleton'. Each operation reads the clock
-- once. A duration that is not positive is 0, and `fence_generation` (int64) is taken unbounded.
pub mod Exclusion
pub mod Fencing
use acb_transaction_webhook.Base.{
  ℕ, ◌+◌, ◌*◌, ◌≡◌, refl, String, str_eq, is_blank, Bool, true, false, not, ◌&&◌, ◌||◌, Option,
  none, some, Result, ok, err, Error, mutation_gate_locked, mutation_gate_held, invalid_lease_token,
  no_rows, ltb, ◌==◌, if◌then◌else◌,
}
use acb_transaction_webhook.Base.Clock.{
  Instant, Stamp, absent, stamped, parse_stamp, minute, to_seconds,
}

pub data GateState : Type 0 where
  open_gate locked : GateState

pub record GateRow : Type 0 where
  pub gate_state : GateState
  pub owner : String
  pub lease_token : String
  pub lease_expires_at : Stamp
  pub reason : String
  pub fence_generation : ℕ

pub data Control : Type 0 where
  no_table : Control
  no_singleton : Control
  singleton : GateRow → Control

pub record DeploymentGate : Type 0 where
  pub row : GateRow
  pub table_exists : Bool
  pub bootstrap : Bool
  pub is_stale : Bool

abbrev pub is_locked : GateState → Bool
is_locked locked = true
is_locked open_gate = false

-- `time.Parse` succeeds and `nowTime.Before(expTime)`.
abbrev pub lease_live : Instant → Stamp → Bool
lease_live now s = elim (parse_stamp s) [ none ↦ false | some t ↦ ltb now t ]

-- `time.Parse` succeeds and `time.Now().After(expTime)`.
abbrev pub lease_past : Instant → Stamp → Bool
lease_past now s = elim (parse_stamp s) [ none ↦ false | some t ↦ ltb t now ]

abbrev pub no_row : GateRow
no_row = record {
  gate_state = open_gate;
  owner = "";
  lease_token = "";
  lease_expires_at = absent;
  reason = "";
  fence_generation = 0;
}

unfoldable pub get_deployment_gate : Instant → Control → DeploymentGate
get_deployment_gate now no_table = record {
  row = no_row;
  table_exists = false;
  bootstrap = true;
  is_stale = false;
}
get_deployment_gate now no_singleton = record {
  row = no_row;
  table_exists = true;
  bootstrap = false;
  is_stale = false;
}
get_deployment_gate now (singleton r) = record {
  row = r;
  table_exists = true;
  bootstrap = false;
  is_stale = is_locked r.gate_state && lease_past now r.lease_expires_at;
}

abbrev pub lease_or_default : ℕ → ℕ
lease_or_default d = if d == 0 then 2 * minute else d

abbrev held_by_other : Instant → String → GateRow → Bool
held_by_other now owner r =
    is_locked r.gate_state && lease_live now r.lease_expires_at && not (str_eq r.owner owner)

locked_row : Instant → String → ℕ → String → String → ℕ → GateRow
locked_row now owner lease reason token fence = record {
  gate_state = locked;
  owner = owner;
  lease_token = token;
  lease_expires_at = stamped (to_seconds (now + lease_or_default lease));
  reason = reason;
  fence_generation = fence;
}

-- The gate that is returned, with the table after the transaction.
unfoldable pub acquire_mutation_gate :
    Instant → String → ℕ → String → String → Control → Result DeploymentGate × Control
unfolding locked_row
acquire_mutation_gate now owner lease reason token no_table = (
  ok (record {
    row = record (locked_row now owner lease reason token 0) { gate_state = open_gate };
    table_exists = false;
    bootstrap = true;
    is_stale = false;
  }),
  no_table,
)
acquire_mutation_gate now owner lease reason token no_singleton =
    let r = locked_row now owner lease reason token 1 in
    (ok (record { row = r; table_exists = true; bootstrap = false; is_stale = false }), singleton r)
acquire_mutation_gate now owner lease reason token (singleton g) =
    let r = locked_row now owner lease reason token (g.fence_generation + 1) in
    if held_by_other now owner g then (err mutation_gate_held, singleton g) else (
      ok (record { row = r; table_exists = true; bootstrap = false; is_stale = false }),
      singleton r,
    )

abbrev pub force_unlock : String
force_unlock = "force-unlock"

-- May `owner`, with this token, end the lease of the row?
abbrev pub may_release : Instant → String → String → GateRow → Bool
may_release now owner token r =
    str_eq r.owner owner && (is_blank token || str_eq r.lease_token token)
    || lease_past now r.lease_expires_at
    || str_eq owner force_unlock

unfoldable pub release_mutation_gate :
    Instant → String → String → Control → Result (Unit {0}) × Control
release_mutation_gate now owner token no_table = (ok tt, no_table)
release_mutation_gate now owner token no_singleton = (ok tt, no_singleton)
release_mutation_gate now owner token (singleton r) =
    if not (is_locked r.gate_state)
    then (ok tt, singleton r)
    else if not (may_release now owner token r)
    then (err invalid_lease_token, singleton r)
    else (
      ok tt,
      singleton (record {
        gate_state = open_gate;
        owner = "";
        lease_token = "";
        lease_expires_at = absent;
        reason = "released";
        fence_generation = r.fence_generation + 1;
      }),
    )

unfoldable pub renew_mutation_gate :
    Instant → String → String → ℕ → Control → Result (Unit {0}) × Control
renew_mutation_gate now owner token duration no_table = (ok tt, no_table)
renew_mutation_gate now owner token duration no_singleton = (err no_rows, no_singleton)
renew_mutation_gate now owner token duration (singleton r) =
    if not (is_locked r.gate_state)
      || not (str_eq r.owner owner)
      || not (str_eq r.lease_token token)
    then (err invalid_lease_token, singleton r)
    else (
      ok tt,
      singleton
          (record r { lease_expires_at = stamped (to_seconds (now + lease_or_default duration)) }),
    )

unfoldable pub force_unlock_mutation_gate : Instant → Control → Result (Unit {0}) × Control
unfolding release_mutation_gate
force_unlock_mutation_gate now c = release_mutation_gate now force_unlock "" c

-- The gate's part of `CheckMutationAllowed` and of `checkMutationAllowedTx`.
unfoldable pub check_gate : Instant → Control → Result (Unit {0})
check_gate now no_table = ok tt
check_gate now no_singleton = ok tt
check_gate now (singleton r) =
    if is_locked r.gate_state && lease_live now r.lease_expires_at
    then err mutation_gate_locked
    else ok tt
