-- ===== src/Orders/Lease/Overtaken.antt =====
-- A caller whose claim was taken over, in internal/storage/payment_orders.go.
use acb_transaction_webhook.Base.{
  ◌≡◌, ◌≢◌, refl, sym, ap, ◌∙◌, String, eq_iff, is_blank, Bool, true, false, not, ◌&&◌, ◌||◌, none,
  some, Option-cases, inl, inr, List, [], ◌∷◌, ok, err, operation_lost, ◌>>=◌, ◌>>◌, fail_if,
  Bool-cases, arith,
}
use acb_transaction_webhook.Base.Clock.{Instant}
use acb_transaction_webhook.Base.Ensures.{Ensures-at}
use acb_transaction_webhook.Base.Keys.{has_key, HasUniqueKeys, find-key_of}
use acb_transaction_webhook.Base.Rows.{find_row}
use acb_transaction_webhook.Store.{PaymentOrder, Database, Call, valid_payment_status}
use acb_transaction_webhook.Ledger.{Ledger, order_id}
use acb_transaction_webhook.Orders.{payment_order}
use acb_transaction_webhook.Orders.Lease.{
  PaymentOrderUpdate, holder, held_order, is_requested, is_paid_text, claim_payment_order,
  claimed_row, renew_payment_order_operation, complete_payment_order_operation,
}
use acb_transaction_webhook.Orders.Lease.Claims.{claim-Claimed}
use acb_transaction_webhook.Orders.Lease.Completion.{claim-Ensures}

find_row-holds :
    (p : PaymentOrder → Bool) (rows : List PaymentOrder) {x : PaymentOrder}
    → find_row p rows ≡ some x
    → p x ≡ true
find_row-holds p [] e = absurd (cc)
find_row-holds p (y ∷ rows) {x} e = elim (Bool-cases (p y)) [
  | inl t ↦ ground (arith, t, e)
  | inr t ↦ find_row-holds p rows {x = x} (ground (arith, t, e))
]

-- The order of an id has one holder.
no_holder :
    (id token : String) (db : Database) {o : PaymentOrder}
    → HasUniqueKeys order_id db.orders
    → payment_order id db ≡ some o
    → o.operation_token ≢ token
    → find_row (holder id token) db.orders ≡ none
no_holder id token db {o} unique found other =
    elim (Option-cases (find_row (holder id token) db.orders)) [
      | inl absent ↦ absent
      | inr (x, e) ↦
          let t = find_row-holds (holder id token) db.orders {x = x} e in
          let named : x.id ≡ id = (eq_iff x.id id).0 (ground (arith, t)) in
          let owned : x.operation_token ≡ token =
            (eq_iff x.operation_token token).0 (ground (arith, t)) in
          let at : find_row (has_key order_id id) db.orders ≡ some x =
            ap (λ (k : String). find_row (has_key order_id k) db.orders) (sym named)
            ∙ find-key_of order_id (holder id token) db.orders {x = x} unique e in
          let same : o ≡ x = cc (found, at) in
          absurd (other (ap (λ (r : PaymentOrder). r.operation_token) same ∙ owned))
    ]

-- The update asks for a status that a completion may set.
abbrev pub IsAllowed : PaymentOrderUpdate → Type 0
IsAllowed u =
    (is_requested u.status && (not (valid_payment_status u.status) || is_paid_text u.status))
    ≡ false

renew_lost :
    (c : Call) (id token : String) (recovery : Bool) (db : Database)
    → find_row (holder id token) db.orders ≡ none
    → renew_payment_order_operation c id token recovery db ≡ err operation_lost
unfolding renew_payment_order_operation ◌>>=◌ ◌>>◌ fail_if
renew_lost c id token recovery db h = elim (Bool-cases (is_blank token)) [
  | inl b ↦ rw b refl
  | inr b ↦ rw b (rw (h, held_order) refl)
]

complete_lost :
    (c : Call) (id token : String) (u : PaymentOrderUpdate) (db : Database)
    → IsAllowed u
    → find_row (holder id token) db.orders ≡ none
    → complete_payment_order_operation c id token u db ≡ err operation_lost
unfolding complete_payment_order_operation ◌>>=◌ ◌>>◌ fail_if
complete_lost c id token u db allowed h = elim (Bool-cases (is_blank token)) [
  | inl b ↦ rw b refl
  | inr b ↦ rw b (rw allowed (rw (h, held_order) refl))
]

-- Once an order has been claimed under another token, on balanced books, the caller that held it
-- under the old token can neither renew its lease nor complete its operation, with any update
-- whose status a completion may set: both are refused as lost.
pub overtaken_refused :
    (c₁ c₂ : Call) (old token id : String) (at : Instant) (u : PaymentOrderUpdate) (recovery : Bool)
    (db : Database) {o : PaymentOrder} {db' : Database}
    → Ledger db
    → claim_payment_order c₁ token id at db ≡ ok ((o, true), db')
    → token ≢ old
    → IsAllowed u
    → (renew_payment_order_operation c₂ id old recovery db' ≡ err operation_lost)
      × (complete_payment_order_operation c₂ id old u db' ≡ err operation_lost)
unfolding claimed_row
overtaken_refused c₁ c₂ old token id at u recovery db {o} {db'} l h other allowed =
    let k = claim-Claimed c₁ token id at db h in
    let kept : Ledger db' = Ensures-at h (claim-Ensures c₁ token id at db l) in
    let owner : o.operation_token ≡ token = ap (λ (r : PaymentOrder). r.operation_token) k.result in
    let gone =
      no_holder id old db' {o = o} kept.unique k.found_after (λ e. other (sym owner ∙ e)) in
    (renew_lost c₂ id old recovery db' gone, complete_lost c₂ id old u db' allowed gone)
