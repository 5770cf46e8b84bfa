-- ===== src/Payments/Ends.antt =====
-- What a step of internal/payments has established of the store when it succeeds, rule by rule.
use acb_transaction_webhook.Base.{
  ◌≡◌, refl, String, Bool, true, false, Result, ok, err, Error, if◌then◌else◌,
}
use acb_transaction_webhook.Base.Ensures.{Ensures}
use acb_transaction_webhook.Store.{Database, Call, Tx, commit, with_tx}
use acb_transaction_webhook.Payments.{
  World, Step, after, ◌>>=◌, ◌>>◌, fail, attempt, store, release, releasing, call_at,
}
use acb_transaction_webhook.Payments.Keeps.{Keeps, KeepsTx}

module _ (Q : Database → Type 0) where
  abbrev pub Succeeds : {A : Type 0} → Result A × World → Type 0
  Succeeds (ok a, w) = Q w.db
  Succeeds (err e, w) = Unit {0}

  pub record Ends {A : Type 0} (m : Step A) : Type 0 where
    pub ends : (w : World) → Succeeds (m w)

  after-Ends :
      {A B : Type 0} (k : A → Step B) (r : Result A × World)
      → ((a : A) → Ends (k a))
      → Succeeds (after k r)
  unfolding after
  after-Ends k (ok a, w) h = (h a).ends w
  after-Ends k (err e, w) h = tt

  kept-Ends : {A : Type 0} (r : Result A × World) → Q r.1.db → Succeeds r
  kept-Ends (ok a, w) q = q
  kept-Ends (err e, w) q = tt

  after_carries :
      {A B : Type 0} (k : A → Step B) (r : Result A × World)
      → ((a : A) → Keeps Q (k a))
      → Succeeds r
      → Succeeds (after k r)
  unfolding after
  after_carries k (err e, w) h q = tt
  after_carries k (ok a, w) h q = kept-Ends (k a w) ((h a).keep w q)

  released : {A : Type 0} (r : Result A × World) → Succeeds r → Succeeds (r.0, release r.1)
  unfolding release
  released (ok a, w) q = q
  released (err e, w) q = tt

  stored-Ends :
      {A B : Type 0} (w : World) (m : Result (A × Database)) (k : Result A → Step B)
      → ((a : A) → Keeps Q (k (ok a)))
      → ((e : Error) → Ends (k (err e)))
      → Ensures (KeepsTx Q) m
      → Succeeds (k (commit w.db m).0 (record w { db = (commit w.db m).1 }))
  unfolding commit
  stored-Ends w _ k hk he (Ensures.returns {a = (a, db')} q) =
      kept-Ends (k (ok a) (record w { db = db' })) ((hk a).keep (record w { db = db' }) q)
  stored-Ends w _ k hk he (Ensures.fails {e = e}) = (he e).ends w

Succeeds-map :
    (Q R : Database → Type 0) {A : Type 0}
    → ((db : Database) → Q db → R db)
    → (r : Result A × World) → Succeeds Q r
    → Succeeds R r
Succeeds-map Q R f (ok a, w) q = f w.db q
Succeeds-map Q R f (err e, w) q = tt

module _ {Q : Database → Type 0} where
  -- What follows establishes it.
  pub Ends-bind :
      {A B : Type 0} (m : Step A) (k : A → Step B) → ((a : A) → Ends Q (k a)) → Ends Q (m >>= k)
  unfolding ◌>>=◌
  Ends-bind m k h = record { ends = λ w. after-Ends Q k (m w) h }

  -- The step establishes it, and what follows keeps it.
  pub Ends-then : {A B : Type 0} {m : Step A} {k : Step B} → Ends Q m → Keeps Q k → Ends Q (m >> k)
  unfolding ◌>>=◌ ◌>>◌
  Ends-then {m = m} {k = k} h hk = record {
    ends = λ w. after_carries Q (λ _. k) (m w) (λ _. hk) (h.ends w);
  }

  pub Ends-fail : {A : Type 0} (e : Error) → Ends Q {A = A} (fail e)
  unfolding fail
  Ends-fail e = record { ends = λ w. tt }

  pub Ends-always : {A : Type 0} (m : Step A) → ((db : Database) → Q db) → Ends Q m
  Ends-always m h = record { ends = λ w. kept-Ends Q (m w) (h (m w).1.db) }

  pub Ends-if :
      {A : Type 0} (b : Bool) {x y : Step A}
      → (b ≡ true → Ends Q x)
      → (b ≡ false → Ends Q y)
      → Ends Q (if b then x else y)
  Ends-if true hx hy = hx refl
  Ends-if false hx hy = hy refl

  pub Ends-releasing : {A : Type 0} {m : Step A} → Ends Q m → Ends Q (releasing m)
  unfolding releasing
  Ends-releasing {m = m} h = record { ends = λ w. released Q (m w) (h.ends w) }

  -- A transaction that succeeds establishes it, what follows a success keeps it, and what follows a
  -- failure does not succeed without it.
  pub Ends-store :
      {A B : Type 0} (operation : String) (tx : Call → Tx A) (k : Result A → Step B)
      → ((c : Call) (db : Database) → Ensures (KeepsTx Q) (tx c db))
      → ((a : A) → Keeps Q (k (ok a)))
      → ((e : Error) → Ends Q (k (err e)))
      → Ends Q (attempt (store operation tx) >>= k)
  unfolding ◌>>=◌ after attempt store with_tx
  Ends-store operation tx k h hk he = record {
    ends =
        λ w. stored-Ends Q w (tx (call_at operation w) w.db) k hk he (h (call_at operation w) w.db);
  }

  pub Ends-map :
      {R : Database → Type 0} {A : Type 0} {m : Step A}
      → ((db : Database) → Q db → R db)
      → Ends Q m
      → Ends R m
  Ends-map {R = R} {m = m} f h = record { ends = λ w. Succeeds-map Q R f (m w) (h.ends w) }

  pub Ends-use :
      {A : Type 0} {m : Step A} {w w' : World} {a : A} → Ends Q m → m w ≡ (ok a, w') → Q w'.db
  Ends-use {m = m} {w = w} h e = rw e at (h.ends w)
