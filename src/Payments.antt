-- ===== src/Payments.antt =====
-- The payment service of internal/payments: what its operations read and change, the steps that
-- they are made of, and the admission of requests (service.go, types.go, the first part of
-- reconcile.go). payOS, the waits and whatever else runs meanwhile are an environment.
pub mod Keeps
pub mod Ends
pub mod Books
pub mod Create
pub mod Recover
pub mod Cancel
pub mod Json
pub mod Webhook
use acb_transaction_webhook.Base.{
  ℕ, zero, suc, ◌+◌, ◌-◌, String, str_eq, is_blank, Bool, true, false, not, ◌||◌, Option, none,
  some, List, [], ◌∷◌, ◌++◌, Result, ok, err, Error, payment_unavailable, if◌then◌else◌,
  operation_lost,
}
use acb_transaction_webhook.Base.Clock.{Instant}
use acb_transaction_webhook.Store.{StatusText, Database, Call, Tx, with_tx, check_mutation_allowed}
use acb_transaction_webhook.Outbox.{EventNotification}
use acb_transaction_webhook.Reconcile.{PaymentLink}

-- The settings of config.Config that the service reads.
pub record Settings : Type 0 where
  pub client_id : String
  pub channel_namespace : String
  pub api_key : String
  pub checksum_key : String
  pub public_origin : String
  pub payments_enabled : Bool
  pub webhook_confirmed : Bool
  pub max_amount : ℕ
  pub has_provider : Bool

pub data Readiness : Type 0 where
  ready unconfigured disabled unconfirmed unavailable : Readiness

-- `Config().Status`.
unfoldable pub readiness : Settings → Readiness
readiness s =
    if is_blank s.client_id || is_blank s.api_key || is_blank s.checksum_key
    then unconfigured
    else if not s.payments_enabled
    then disabled
    else if not s.webhook_confirmed
    then unconfirmed
    else if not s.has_provider
    then unavailable
    else ready

-- payos.CreatePaymentLinkRequest and its answer.
pub record CreateRequest : Type 0 where
  pub order_code : ℕ
  pub amount : ℕ
  pub description : String
  pub return_url : String
  pub cancel_url : String
  pub expired_at : ℕ

pub record CreateResponse : Type 0 where
  pub order_code : ℕ
  pub amount : ℕ
  pub currency : String
  pub status : StatusText
  pub payment_link_id : String
  pub qr_code : String
  pub checkout_url : String
  pub bin : String
  pub account_number : String
  pub account_name : String

pub data ProviderCall : Type 0 where
  asked_create : CreateRequest → ProviderCall
  asked_get asked_cancel : ℕ → ProviderCall

pub data ActivityKind : Type 0 where
  webhook_activity reconciled_activity : ActivityKind

-- What the operations of a service read and change: the store, the clock, the admission of requests,
-- the times of RecordPaymentActivity, and what left the process: calls of the provider, events given
-- to onCommit and hints to the reconciler.
pub record World : Type 0 where
  pub db : Database
  pub now : Instant
  pub quiesced : Bool
  pub active : ℕ
  pub activity : List (ActivityKind × Instant)
  pub calls : List ProviderCall
  pub published : List EventNotification
  pub wakes : ℕ

-- What others and time have made of the world while the operation waited.
pub record Passage : Type 0 where
  pub db : Database
  pub now : Instant
  pub quiesced : Bool

abbrev pub pass : Passage → World → World
pass p w = record w { db = p.db; now = p.now; quiesced = p.quiesced }

-- A step of an operation: its error or its value, and the world after it. A step that fails keeps
-- what it has done.
abbrev pub Step : Type 0 → Type 0
Step A = World → Result A × World

-- `url.Parse`, as far as the checkout URL is looked at.
pub record Url : Type 0 where
  pub scheme : String
  pub hostname : String
  pub port : String
  pub has_user : Bool

-- The provider, its slots, the random numbers (`jitter` at the number of the draw and its bound) and
-- the standard library's parser of URLs.
pub record Environment : Type 0 where
  pub create : CreateRequest → World → Result (Option CreateResponse) × Passage
  pub get : ℕ → World → Result (Option PaymentLink) × Passage
  pub cancel : ℕ → World → Result (Option PaymentLink) × Passage
  pub slot : World → Result (Unit {0}) × Passage
  pub jitter : ℕ → ℕ → Option ℕ
  pub parse_url : String → Option Url

unfoldable pub after : {A B : Type 0} → (A → Step B) → Result A × World → Result B × World
after k (ok a, w) = k a w
after k (err e, w) = (err e, w)

-- `x, err := m; if err != nil { return err }`, and the rest.
infixl 5 ◌>>=◌ ◌>>◌
unfoldable pub ◌>>=◌ : {A B : Type 0} → Step A → (A → Step B) → Step B
unfolding after
◌>>=◌ m k w = after k (m w)

unfoldable pub ◌>>◌ : {A B : Type 0} → Step A → Step B → Step B
unfolding ◌>>=◌
m >> k = m >>= λ _. k

unfoldable pub return : {A : Type 0} → A → Step A
return a w = (ok a, w)

unfoldable pub fail : {A : Type 0} → Error → Step A
fail e w = (err e, w)

-- `x, err := m`, with the error left to what follows.
unfoldable pub attempt : {A : Type 0} → Step A → Step (Result A)
attempt m w = (ok (m w).0, (m w).1)

-- `if x != nil { … }`, and what follows otherwise.
unfoldable pub on_option : {A B : Type 0} → Option A → (A → Step B) → Step B → Step B
on_option (some a) k other = k a
on_option none k other = other

-- The world as the step finds it: the clock and the service's fields.
unfoldable pub look : Step World
look w = (ok w, w)

-- The service's own reading of the clock, and the operation token of a pinned snapshot.
abbrev pub call_at : String → World → Call
call_at operation w = record { now = w.now; operation = operation }

unfoldable pub counted : World → Result (Unit {0}) → Result (Unit {0}) × World
counted w (ok _) = (ok tt, record w { active = w.active + 1 })
counted w (err e) = (err e, w)

module _ (operation : String) where
  -- A call of the store in a transaction of its own.
  unfoldable pub store : {A : Type 0} → (Call → Tx A) → Step A
  store tx w = let (r, db') = with_tx (tx (call_at operation w)) w.db in (r, record w { db = db' })

  -- A read of the store, or a check.
  unfoldable pub query : {A : Type 0} → (Call → Database → Result A) → Step A
  query read w = (read (call_at operation w) w.db, w)

  -- `beginPaymentRequest`; `endPaymentRequest` is `release`.
  unfoldable pub admit : Settings → Step (Unit {0})
  admit s w =
      if w.quiesced || not s.has_provider
      then (err payment_unavailable, w)
      else counted w (check_mutation_allowed (call_at operation w) w.db)

unfoldable pub release : World → World
release w = record w { active = w.active - 1 }

-- `defer s.endPaymentRequest()`.
unfoldable pub releasing : {A : Type 0} → Step A → Step A
releasing m w = ((m w).0, release (m w).1)

-- What a wait for a slot found.
unfoldable pub slot_found : String → World → Result (Unit {0}) → Result (Unit {0})
slot_found operation w (err e) = err e
slot_found operation w (ok _) =
    if w.quiesced
    then err payment_unavailable
    else check_mutation_allowed (call_at operation w) w.db

-- The calls of the provider. Each takes time, in which the world goes on.
module _ (env : Environment) where
  unfoldable pub ask_create : CreateRequest → Step (Option CreateResponse)
  ask_create req w =
      let (answer, p) = env.create req w in
      (answer, pass p (record w { calls = w.calls ++ asked_create req ∷ [] }))

  unfoldable pub ask_get : ℕ → Step (Option PaymentLink)
  ask_get code w =
      let (answer, p) = env.get code w in
      (answer, pass p (record w { calls = w.calls ++ asked_get code ∷ [] }))

  unfoldable pub ask_cancel : ℕ → Step (Option PaymentLink)
  ask_cancel code w =
      let (answer, p) = env.cancel code w in
      (answer, pass p (record w { calls = w.calls ++ asked_cancel code ∷ [] }))

  -- `providerSlot`: the wait for a slot, an error if the service was quiesced or its context ended,
  -- and the check of the gate.
  unfoldable pub provider_slot : String → Step (Unit {0})
  provider_slot operation w =
      if w.quiesced
      then (err payment_unavailable, w)
      else (slot_found operation (pass (env.slot w).1 w) (env.slot w).0, pass (env.slot w).1 w)

-- `recordActivity`: the row of its kind, whose errors are not looked at.
unfoldable pub record_activity : ActivityKind → Step (Unit {0})
record_activity kind w = (ok tt, record w { activity = (kind, w.now) ∷ w.activity })

unfoldable pub publish : Option EventNotification → Step (Unit {0})
publish none w = (ok tt, w)
publish (some e) w = (ok tt, record w { published = w.published ++ e ∷ [] })

-- `wakeReconciler`: a hint only.
unfoldable pub wake_reconciler : Step (Unit {0})
wake_reconciler w = (ok tt, record w { wakes = w.wakes + 1 })
