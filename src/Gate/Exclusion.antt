-- ===== src/Gate/Exclusion.antt =====
-- While one deployer holds the gate, the others are kept out but for a forced unlock, and the store
-- takes no mutation.
use acb_transaction_webhook.Base.{
  ap, All, List, [], ◌∷◌, ltb, if◌then◌else◌, ℕ, ◌+◌, ◌<◌, ◌≡◌, ◌≢◌, refl, String, eq_iff, Result,
  ok, err, arith, mutation_gate_locked, mutation_gate_held, invalid_lease_token,
}
use acb_transaction_webhook.Base.Clock.{Instant, stamped, to_seconds}
use acb_transaction_webhook.Gate.{
  DeploymentGate, GateRow, locked, Control, no_table, no_singleton, singleton, lease_or_default,
  acquire_mutation_gate, release_mutation_gate, renew_mutation_gate, check_gate, force_unlock,
}

-- The row is locked under a lease that ends after `now`.
pub record Held (now : Instant) (r : GateRow) : Type 0 where
  pub is_locked : r.gate_state ≡ locked
  pub until : Instant
  pub expiry : r.lease_expires_at ≡ stamped until
  pub live : now < until

-- what a held gate does
pub check-Held :
    (now : Instant) (r : GateRow)
    → Held now r
    → check_gate now (singleton r) ≡ err mutation_gate_locked
unfolding check_gate
check-Held now r h = ground (arith, h.is_locked, h.expiry, h.live)

pub Held-excludes :
    (now : Instant) (owner token reason : String) (lease : ℕ) (r : GateRow)
    → Held now r
    → r.owner ≢ owner
    → acquire_mutation_gate now owner lease reason token (singleton r)
      ≡ (err mutation_gate_held, singleton r)
unfolding acquire_mutation_gate
Held-excludes now owner token reason lease r h ne =
    ground (arith, h.is_locked, h.expiry, h.live, eq_iff r.owner owner)

pub Held-release_refused :
    (now : Instant) (owner token : String) (r : GateRow)
    → Held now r
    → r.owner ≢ owner
    → owner ≢ force_unlock
    → release_mutation_gate now owner token (singleton r) ≡ (err invalid_lease_token, singleton r)
unfolding release_mutation_gate
Held-release_refused now owner token r h ne nf =
    ground (arith, h.is_locked, h.expiry, h.live, eq_iff r.owner owner, eq_iff owner force_unlock)

-- What a deployer may call on the gate.
pub data GateOp : Type 0 where
  acquire : String → ℕ → String → String → GateOp
  release : String → String → GateOp
  renew : String → String → ℕ → GateOp

abbrev pub caller : GateOp → String
caller (acquire owner lease reason token) = owner
caller (release owner token) = owner
caller (renew owner token duration) = owner

unfoldable pub gate_step : Instant → GateOp → Control → Control
gate_step now (acquire owner lease reason token) c =
    (acquire_mutation_gate now owner lease reason token c).1
gate_step now (release owner token) c = (release_mutation_gate now owner token c).1
gate_step now (renew owner token duration) c = (renew_mutation_gate now owner token duration c).1

unfoldable pub gate_run : List (Instant × GateOp) → Control → Control
gate_run [] c = c
gate_run ((now, op) ∷ rest) c = gate_run rest (gate_step now op c)

renew_by_other :
    (now : Instant) (owner token : String) (d : ℕ) (r : GateRow)
    → r.owner ≢ owner
    → (renew_mutation_gate now owner token d (singleton r)).1 ≡ singleton r
unfolding renew_mutation_gate
renew_by_other now owner token d r ne = ground (arith, eq_iff r.owner owner)

-- An operation of another caller than the owner and the forced unlock changes nothing.
gate_step-Held :
    (now : Instant) (op : GateOp) (r : GateRow)
    → Held now r
    → r.owner ≢ caller op
    → caller op ≢ force_unlock
    → gate_step now op (singleton r) ≡ singleton r
unfolding gate_step
gate_step-Held now (acquire owner lease reason token) r h ne nf =
    ap (λ (p : Result DeploymentGate × Control). p.1)
      (Held-excludes now owner token reason lease r h ne)
gate_step-Held now (release owner token) r h ne nf =
    ap (λ (p : Result (Unit {0}) × Control). p.1) (Held-release_refused now owner token r h ne nf)
gate_step-Held now (renew owner token duration) r h ne nf =
    renew_by_other now owner token duration r ne

-- Every call is by another name than the owner's, no forced unlock, and before the lease ends.
abbrev pub IsOutside : GateRow → Instant × GateOp → Type 0
IsOutside r (now, op) = Held now r × (r.owner ≢ caller op) × (caller op ≢ force_unlock)

-- While a locked row's lease lasts, any sequence of acquisitions, releases and renewals by callers
-- with another name than its owner's, and none of them a forced unlock, which releases any row under
-- a name of its own, leaves the row exactly as it was, so the store goes on refusing mutations at
-- every instant before the lease ends.
pub outsiders_locked_out :
    (r : GateRow) (calls : List (Instant × GateOp)) (later : Instant)
    → All (IsOutside r) calls
    → Held later r
    → (gate_run calls (singleton r) ≡ singleton r)
      × (check_gate later (gate_run calls (singleton r)) ≡ err mutation_gate_locked)
unfolding gate_run
outsiders_locked_out r [] later _ h = (refl, check-Held later r h)
outsiders_locked_out r ((now, op) ∷ calls) later ((live, ne, nf), rest) h =
    rw (gate_step-Held now op r live ne nf) (outsiders_locked_out r calls later rest h)

-- The instant up to which an acquisition at `now` closes the store.
abbrev pub closed_until : Instant → ℕ → Instant
closed_until now lease = to_seconds (now + lease_or_default lease)

-- After an acquisition that succeeded on a migrated store, the store refuses mutations exactly at
-- the instants before the lease's end, cut to whole seconds, and takes them from then on.
pub check-acquire :
    (now later : Instant) (owner token reason : String) (lease : ℕ) (c : Control)
    {g : DeploymentGate}
    → c ≢ no_table
    → (acquire_mutation_gate now owner lease reason token c).0 ≡ ok g
    → check_gate later (acquire_mutation_gate now owner lease reason token c).1
      ≡ (if ltb later (closed_until now lease) then err mutation_gate_locked else ok tt)
unfolding acquire_mutation_gate check_gate
check-acquire now later owner token reason lease no_table ne h = absurd (ne refl)
check-acquire now later owner token reason lease no_singleton ne h = ground arith
check-acquire now later owner token reason lease (singleton r) ne h = ground arith
