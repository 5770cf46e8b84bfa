-- ===== src/Base/Ensures.antt =====
-- A postcondition of the values that a computation returns: errors meet every postcondition.
use mathlib.Core.Path.{subst}
use acb_transaction_webhook.Base.{
  ◌≡◌, refl, Bool, true, false, Result, ok, err, ◌>>=◌, ◌>>◌, if◌then◌else◌, Error, fail_if,
}

pub data Ensures {ℓ} {A : Type ℓ} (Q : A → Type 0) : Result A → Type ℓ where
  returns : {a : A} → Q a → Ensures Q (ok a)
  fails : {e : Error} → Ensures Q (err e)

pub Ensures-bind {ℓ κ} :
    {A : Type ℓ} {B : Type κ} {Q : B → Type 0} (m : Result A) (f : A → Result B)
    → ((a : A) → m ≡ ok a → Ensures Q (f a))
    → Ensures Q (m >>= f)
unfolding ◌>>=◌
Ensures-bind (ok a) f k = k a refl
Ensures-bind (err e) f k = Ensures.fails

pub Ensures-if {ℓ} :
    {A : Type ℓ} {Q : A → Type 0} (b : Bool) (x y : Result A)
    → (b ≡ true → Ensures Q x)
    → (b ≡ false → Ensures Q y)
    → Ensures Q (if b then x else y)
Ensures-if true x y t f = t refl
Ensures-if false x y t f = f refl

pub Ensures-then {ℓ} :
    {A : Type ℓ} {Q : A → Type 0} (m : Result (Unit {0})) (k : Result A)
    → (m ≡ ok tt → Ensures Q k)
    → Ensures Q (m >> k)
unfolding ◌>>◌
Ensures-then (ok tt) k h = h refl
Ensures-then (err e) k h = Ensures.fails

pub Ensures-fail_if {ℓ} :
    {A : Type ℓ} {Q : A → Type 0} (b : Bool) (e : Error) (k : Result A)
    → (b ≡ false → Ensures Q k)
    → Ensures Q (fail_if b e >> k)
unfolding ◌>>◌ fail_if
Ensures-fail_if true e k h = Ensures.fails
Ensures-fail_if false e k h = h refl

-- What an `ok` result satisfies.
pub Ensures-use {ℓ} : {A : Type ℓ} {Q : A → Type 0} {a : A} → Ensures Q (ok a) → Q a
Ensures-use (Ensures.returns q) = q

pub Ensures-at {ℓ} :
    {A : Type ℓ} {Q : A → Type 0} {m : Result A} {a : A} → m ≡ ok a → Ensures Q m → Q a
Ensures-at {Q = Q} e h = Ensures-use (subst (Ensures Q) e h)

pub Ensures-map {ℓ} :
    {A : Type ℓ} {Q R : A → Type 0} {m : Result A}
    → ((a : A) → Q a → R a)
    → Ensures Q m
    → Ensures R m
Ensures-map f (Ensures.returns {a = a} q) = Ensures.returns (f a q)
Ensures-map f Ensures.fails = Ensures.fails
