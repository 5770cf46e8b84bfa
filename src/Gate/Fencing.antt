-- ===== src/Gate/Fencing.antt =====
-- The fence generation orders the holders of the gate.
use acb_transaction_webhook.Base.{
  ℕ, ◌+◌, ◌≤◌, ◌<◌, ◌≡◌, ◌≢◌, refl, String, List, [], ◌∷◌, ok, arith,
}
use acb_transaction_webhook.Base.Clock.{Instant}
use acb_transaction_webhook.Gate.{
  Control, no_table, no_singleton, singleton, DeploymentGate, acquire_mutation_gate,
  release_mutation_gate, renew_mutation_gate,
}
use acb_transaction_webhook.Gate.Exclusion.{GateOp, acquire, release, renew, gate_step, gate_run}

abbrev pub fence : Control → ℕ
fence no_table = 0
fence no_singleton = 0
fence (singleton r) = r.fence_generation

fence-gate_step : (now : Instant) (op : GateOp) (c : Control) → fence c ≤ fence (gate_step now op c)
unfolding gate_step acquire_mutation_gate release_mutation_gate renew_mutation_gate
fence-gate_step now (acquire owner lease reason token) no_table = ground arith
fence-gate_step now (acquire owner lease reason token) c = ground arith
fence-gate_step now (release owner token) no_table = ground arith
fence-gate_step now (release owner token) c = ground arith
fence-gate_step now (renew owner token d) no_table = ground arith
fence-gate_step now (renew owner token d) c = ground arith

fence-gate_run :
    (calls : List (Instant × GateOp)) (c : Control) → fence c ≤ fence (gate_run calls c)
unfolding gate_run
fence-gate_run [] c = omega arith
fence-gate_run ((now, op) ∷ calls) c =
    omega (arith, fence-gate_step now op c, fence-gate_run calls (gate_step now op c))

acquire_fence :
    (now : Instant) (owner token reason : String) (lease : ℕ) (c : Control) {g : DeploymentGate}
    → c ≢ no_table
    → (acquire_mutation_gate now owner lease reason token c).0 ≡ ok g
    → (g.row.fence_generation ≡ fence c + 1)
      × (fence (acquire_mutation_gate now owner lease reason token c).1 ≡ fence c + 1)
unfolding acquire_mutation_gate
acquire_fence now owner token reason lease no_table ne h = absurd (ne refl)
acquire_fence now owner token reason lease no_singleton ne h = ground arith
acquire_fence now owner token reason lease (singleton r) ne h = ground arith

gate_run_migrated :
    (calls : List (Instant × GateOp)) (c : Control) → c ≢ no_table → gate_run calls c ≢ no_table
unfolding gate_run gate_step acquire_mutation_gate release_mutation_gate renew_mutation_gate
gate_run_migrated [] c h = h
gate_run_migrated ((now, op) ∷ calls) c h =
    gate_run_migrated calls (gate_step now op c) (step_keeps op c h)
  where
    step_keeps : (op : GateOp) (c : Control) → c ≢ no_table → gate_step now op c ≢ no_table
    step_keeps (acquire owner lease reason token) no_table k = absurd (k refl)
    step_keeps (acquire owner lease reason token) c k = ground arith
    step_keeps (release owner token) no_table k = absurd (k refl)
    step_keeps (release owner token) c k = ground arith
    step_keeps (renew owner token d) no_table k = absurd (k refl)
    step_keeps (renew owner token d) c k = ground arith

acquire_migrated :
    (now : Instant) (owner token reason : String) (lease : ℕ) (c : Control)
    → c ≢ no_table
    → (acquire_mutation_gate now owner lease reason token c).1 ≢ no_table
unfolding gate_run gate_step
acquire_migrated now owner token reason lease c m =
    gate_run_migrated ((now, acquire owner lease reason token) ∷ []) c m

-- On a migrated store, of two successful acquisitions the later one, whatever calls came between
-- them, gets the greater fence generation: a holder that was overtaken is recognised by its fence.
pub fences_increase :
    (t₁ t₂ : Instant) (owner₁ token₁ reason₁ owner₂ token₂ reason₂ : String) (lease₁ lease₂ : ℕ)
    (c : Control) (between : List (Instant × GateOp)) {g₁ g₂ : DeploymentGate}
    → c ≢ no_table
    → (acquire_mutation_gate t₁ owner₁ lease₁ reason₁ token₁ c).0 ≡ ok g₁
    → (acquire_mutation_gate t₂ owner₂ lease₂ reason₂ token₂
        (gate_run between (acquire_mutation_gate t₁ owner₁ lease₁ reason₁ token₁ c).1)).0
      ≡ ok g₂
    → g₁.row.fence_generation < g₂.row.fence_generation
fences_increase t₁ t₂ o₁ k₁ r₁ o₂ k₂ r₂ l₁ l₂ c between {g₁} {g₂} m a₁ a₂ =
    let c₁ = (acquire_mutation_gate t₁ o₁ l₁ r₁ k₁ c).1 in
    let first = acquire_fence t₁ o₁ k₁ r₁ l₁ c {g = g₁} m a₁ in
    let migrated = gate_run_migrated between c₁ (acquire_migrated t₁ o₁ k₁ r₁ l₁ c m) in
    let second = acquire_fence t₂ o₂ k₂ r₂ l₂ (gate_run between c₁) {g = g₂} migrated a₂ in
    omega (arith, first.0, first.1, second.0, fence-gate_run between c₁)
