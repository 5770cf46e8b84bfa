-- ===== src/Base/Results.antt =====
-- Errors as values: what a Go function returns beside its result.
use Prim.Native.Nat.{ℕ}
use mathlib.Core.Path.{◌≡◌, refl}
use mathlib.Core.Bool.{Bool, true, false}

-- The reasons under which a callback is kept for review.
pub data Reason : Type 0 where
  invalid_transaction_date payment_mismatch unknown_order reference_conflict : Reason
  payment_details_pending awaiting_order_bind extra_payment_review non_success : Reason

pub data Error : Type 0 where
  mutation_gate_locked mutation_gate_held invalid_lease_token : Error
  provider_config_unavailable : Error
  idempotency_conflict operation_lost invalid_payment_order : Error
  no_rows bad_time constraint_violation context_done : Error
  receipt_invariant_violated invalid_namespace no_event data_required : Error
  lease_not_positive claim_required not_dead_letter endpoint_not_active provider_not_registered :
      Error
  settlement_review : Reason → Error
  -- the errors of internal/payments
  invalid_amount invalid_origin invalid_idempotency_key : Error
  payment_unavailable payments_disabled webhook_unconfirmed : Error
  payment_already_paid payment_not_found : Error
  webhook_unavailable invalid_webhook invalid_signature : Error
  -- the errors of the SePay intake
  keyring_missing incomplete_input invalid_review_reason invalid_payload : Error
  seal_failed receiver_mismatch revision_conflict : Error
  -- `ProviderError`: the HTTP status, the wait that the provider asks for, and whether the outcome is
  -- uncertain
  provider_error : ℕ → ℕ → Bool → Error

pub data Result {ℓ} (A : Type ℓ) : Type ℓ where
  ok : A → Result A
  err : Error → Result A

-- `if b { return err }`.
unfoldable pub fail_if : Bool → Error → Result (Unit {0})
fail_if false e = ok tt
fail_if true e = err e

-- `if err := step; err != nil { return err }`, and what follows.
infixl 5 ◌>>◌
unfoldable pub ◌>>◌ {ℓ} : {A : Type ℓ} → Result (Unit {0}) → Result A → Result A
err e >> rest = err e
ok a >> rest = rest

-- The same with a value, which what follows takes.
infixl 5 ◌>>=◌
unfoldable pub ◌>>=◌ {ℓ₁ ℓ₂} : {X : Type ℓ₁} {Y : Type ℓ₂} → Result X → (X → Result Y) → Result Y
err e >>= rest = err e
ok x >>= rest = rest x

-- A chain that succeeded: its first step did, and so did the rest.
pub >>=-eq-ok {ℓ₁ ℓ₂} :
    {X : Type ℓ₁} {Y : Type ℓ₂} (step : Result X) (rest : X → Result Y) {y : Y}
    → (step >>= rest) ≡ ok y
    → (x : X) × (rest x ≡ ok y) × (step ≡ ok x)
unfolding ◌>>=◌
>>=-eq-ok (err e) rest h = cc
>>=-eq-ok (ok x) rest h = (x, h, refl)

pub fail_if-ok : (b : Bool) (e : Error) → fail_if b e ≡ ok tt → b ≡ false
unfolding fail_if
fail_if-ok true e h = cc
fail_if-ok false e h = refl

pub >>-eq-ok {ℓ} :
    {B : Type ℓ} (m : Result (Unit {0})) (k : Result B) {b : B}
    → (m >> k) ≡ ok b
    → (m ≡ ok tt) × (k ≡ ok b)
unfolding ◌>>◌
>>-eq-ok (ok tt) k h = (refl, h)
>>-eq-ok (err e) k h = cc
