-- ===== src/Payments/Keeps.antt =====
-- What a step of internal/payments leaves of a property of the store, rule by rule.
use acb_transaction_webhook.Base.{
  ℕ, String, Bool, true, false, Option, none, some, Result, ok, err, Error, not, ◌||◌,
  if◌then◌else◌,
}
use acb_transaction_webhook.Base.Ensures.{Ensures}
use acb_transaction_webhook.Store.{Database, Call, Tx, commit, with_tx, check_mutation_allowed}
use acb_transaction_webhook.Outbox.{EventNotification}
use acb_transaction_webhook.Payments.{
  Settings, CreateRequest, World, Step, Environment, ActivityKind, after, ◌>>=◌, ◌>>◌, return, fail,
  attempt, on_option, look, store, query, counted, admit, release, releasing, ask_create, ask_get,
  ask_cancel, provider_slot, record_activity, publish, wake_reconciler, call_at,
}

module _ (P : Database → Type 0) where
  pub record Keeps {A : Type 0} (m : Step A) : Type 0 where
    pub keep : (w : World) → P w.db → P (m w).1.db

  -- While an operation waits, the others keep the property.
  pub record Respects (env : Environment) : Type 0 where
    pub on_create : (req : CreateRequest) (w : World) → P w.db → P (env.create req w).1.db
    pub on_get : (code : ℕ) (w : World) → P w.db → P (env.get code w).1.db
    pub on_cancel : (code : ℕ) (w : World) → P w.db → P (env.cancel code w).1.db
    pub on_slot : (w : World) → P w.db → P (env.slot w).1.db

  abbrev pub KeepsTx : {A : Type 0} → A × Database → Type 0
  KeepsTx (a, db) = P db

module _ (P : Database → Type 0) where
  after_keeps :
      {A B : Type 0} (k : A → Step B) (r : Result A × World)
      → ((a : A) → Keeps P (k a))
      → P r.1.db
      → P (after k r).1.db
  unfolding after
  after_keeps k (ok a, w) h p = (h a).keep w p
  after_keeps k (err e, w) h p = p

  commit_keeps :
      {A : Type 0} (db : Database) (r : Result (A × Database))
      → Ensures (KeepsTx P) r
      → P db
      → P (commit db r).1
  unfolding commit
  commit_keeps db _ (Ensures.returns {a = (a, db')} k) p = k
  commit_keeps db _ Ensures.fails p = p

  if_keeps :
      {A : Type 0} (b : Bool) (x y : Result A × World)
      → P x.1.db
      → P y.1.db
      → P (if b then x else y).1.db
  if_keeps true x y px py = px
  if_keeps false x y px py = py

  counted_keeps : (w : World) (r : Result (Unit {0})) → P w.db → P (counted w r).1.db
  unfolding counted
  counted_keeps w (ok _) p = p
  counted_keeps w (err e) p = p

module _ {P : Database → Type 0} where
  pub Keeps-bind :
      {A B : Type 0} {m : Step A} {k : A → Step B}
      → Keeps P m
      → ((a : A) → Keeps P (k a))
      → Keeps P (m >>= k)
  unfolding ◌>>=◌
  Keeps-bind {m = m} {k = k} hm hk = record { keep = λ w p. after_keeps P k (m w) hk (hm.keep w p) }

  pub Keeps-then :
      {A B : Type 0} {m : Step A} {k : Step B} → Keeps P m → Keeps P k → Keeps P (m >> k)
  unfolding ◌>>◌
  Keeps-then hm hk = Keeps-bind hm (λ _. hk)

  pub Keeps-return : {A : Type 0} (a : A) → Keeps P (return a)
  unfolding return
  Keeps-return a = record { keep = λ w p. p }

  pub Keeps-fail : {A : Type 0} (e : Error) → Keeps P {A = A} (fail e)
  unfolding fail
  Keeps-fail e = record { keep = λ w p. p }

  pub Keeps-attempt : {A : Type 0} {m : Step A} → Keeps P m → Keeps P (attempt m)
  unfolding attempt
  Keeps-attempt h = record { keep = λ w p. h.keep w p }

  pub Keeps-look : Keeps P look
  unfolding look
  Keeps-look = record { keep = λ w p. p }

  pub Keeps-if :
      {A : Type 0} (b : Bool) {x y : Step A} → Keeps P x → Keeps P y → Keeps P (if b then x else y)
  Keeps-if true hx hy = hx
  Keeps-if false hx hy = hy

  pub Keeps-option :
      {A B : Type 0} (o : Option A) {k : A → Step B} {other : Step B}
      → ((a : A) → Keeps P (k a))
      → Keeps P other
      → Keeps P (on_option o k other)
  unfolding on_option
  Keeps-option (some a) hk ho = hk a
  Keeps-option none hk ho = ho

  pub Keeps-store :
      {A : Type 0} (operation : String) (tx : Call → Tx A)
      → ((c : Call) (db : Database) → P db → Ensures (KeepsTx P) (tx c db))
      → Keeps P (store operation tx)
  unfolding store with_tx
  Keeps-store operation tx h = record {
    keep = λ w p.
        commit_keeps P w.db (tx (call_at operation w) w.db) (h (call_at operation w) w.db p) p;
  }

  pub Keeps-query :
      {A : Type 0} (operation : String) (read : Call → Database → Result A)
      → Keeps P (query operation read)
  unfolding query
  Keeps-query operation read = record { keep = λ w p. p }

  pub Keeps-admit : (operation : String) (s : Settings) → Keeps P (admit operation s)
  unfolding admit
  Keeps-admit operation s = record {
    keep = λ w p.
        if_keeps P (w.quiesced || not s.has_provider) _ _ p
          (counted_keeps P w (check_mutation_allowed (call_at operation w) w.db) p);
  }

  pub Keeps-releasing : {A : Type 0} {m : Step A} → Keeps P m → Keeps P (releasing m)
  unfolding releasing release
  Keeps-releasing h = record { keep = λ w p. h.keep w p }

  pub Keeps-record_activity : (kind : ActivityKind) → Keeps P (record_activity kind)
  unfolding record_activity
  Keeps-record_activity kind = record { keep = λ w p. p }

  pub Keeps-publish : (e : Option EventNotification) → Keeps P (publish e)
  unfolding publish
  Keeps-publish none = record { keep = λ w p. p }
  Keeps-publish (some e) = record { keep = λ w p. p }

  pub Keeps-wake : Keeps P wake_reconciler
  unfolding wake_reconciler
  Keeps-wake = record { keep = λ w p. p }

  module _ {env : Environment} (r : Respects P env) where
    pub Keeps-ask_create : (req : CreateRequest) → Keeps P (ask_create env req)
    unfolding ask_create
    Keeps-ask_create req = record { keep = λ w p. r.on_create req w p }

    pub Keeps-ask_get : (code : ℕ) → Keeps P (ask_get env code)
    unfolding ask_get
    Keeps-ask_get code = record { keep = λ w p. r.on_get code w p }

    pub Keeps-ask_cancel : (code : ℕ) → Keeps P (ask_cancel env code)
    unfolding ask_cancel
    Keeps-ask_cancel code = record { keep = λ w p. r.on_cancel code w p }

    pub Keeps-provider_slot : (operation : String) → Keeps P (provider_slot env operation)
    unfolding provider_slot
    Keeps-provider_slot operation = record {
      keep = λ w p. if_keeps P w.quiesced _ _ p (r.on_slot w p);
    }
