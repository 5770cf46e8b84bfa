-- ===== src/Orders/Lease/Claims.antt =====
-- What a successful claim leaves, and whom it keeps out.
use acb_transaction_webhook.Base.{
  ◌+◌, ◌<◌, ◌≡◌, refl, String, str_eq, eq_iff, is_blank, Bool, true, false, some, List, Result, ok,
  arith, ◌==◌, if◌then◌else◌, >>=-eq-ok, >>-eq-ok, ◌>>=◌,
}
use acb_transaction_webhook.Base.Clock.{Instant, Stamp}
use acb_transaction_webhook.Base.Rows.{find_row, update_rows}
use acb_transaction_webhook.Base.Keys.{find-update_self}
use acb_transaction_webhook.Store.{PaymentOrder, Database, Call, is_paid, check_mutation_allowed}
use acb_transaction_webhook.Orders.{payment_order, payment_operation_lease}
use acb_transaction_webhook.Orders.Lease.{
  claim_payment_order, claimed_row, claim_target, claim_open, take_over, write_claim, lease_holds,
  next_after_lease, read_order,
}

pub claim_target_only :
    (id token : String) (o : PaymentOrder) → claim_target id token o ≡ true → o.id ≡ id
claim_target_only id token o h = ground (arith, eq_iff o.id id)

pub find-id :
    (id : String) (rows : List PaymentOrder) {o : PaymentOrder}
    → find_row (λ o. str_eq o.id id) rows ≡ some o
    → o.id ≡ id
find-id id List.[] h = ground arith
find-id id (List.◌∷◌ x rows) {o} h = ground (arith, eq_iff x.id id, find-id id rows {o = o})

-- What the claim found, and what it left.
pub record Claimed (token id : String) (now : Instant) (db db' : Database) (o' : PaymentOrder)
    : Type 0 where
  pub before : PaymentOrder
  pub next : Stamp
  pub found : payment_order id db ≡ some before
  pub unpaid : is_paid before.status ≡ false
  pub free : lease_holds now before ≡ ok false
  pub result : o' ≡ claimed_row now token next before
  pub orders_after :
      db'.orders
      ≡ update_rows (claim_target id before.operation_token) (claimed_row now token next) db.orders
  pub found_after : payment_order id db' ≡ some o'

abbrev pub claim_time : Call → Instant → Instant
claim_time c at = if at == 0 then c.now else at

read_order-ok :
    (id : String) (db : Database) {o : PaymentOrder}
    → read_order id db ≡ ok o
    → payment_order id db ≡ some o
read_order-ok id db h = ground arith

unfoldable pub after_claim : String → String → Instant → Stamp → PaymentOrder → Database → Database
after_claim token id now next order db = record db {
  orders =
      update_rows (claim_target id order.operation_token) (claimed_row now token next) db.orders;
}

claimed_lookup :
    (token id : String) (now : Instant) (next : Stamp) (order : PaymentOrder) (db : Database)
    → payment_order id db ≡ some order
    → is_paid order.status ≡ false
    → payment_order id (after_claim token id now next order db)
      ≡ some (claimed_row now token next order)
unfolding claimed_row after_claim
claimed_lookup token id now next order db found unpaid =
    find-update_self (λ (o : PaymentOrder). o.id) (claim_target id order.operation_token)
      (claimed_row now token next) id (claim_target_only id order.operation_token) (λ o. refl)
      db.orders found
      (ground (
        arith,
        find-id id db.orders {o = order},
        eq_iff order.id id,
        eq_iff order.operation_token order.operation_token,
      ))

written-Claimed :
    (token id : String) (now : Instant) (db : Database) (order : PaymentOrder) (next : Stamp)
    {o : PaymentOrder} {db' : Database}
    → payment_order id db ≡ some order
    → is_paid order.status ≡ false
    → lease_holds now order ≡ ok false
    → write_claim token id now next order db ≡ ok ((o, true), db')
    → Claimed token id now db db' o
unfolding write_claim after_claim ◌>>=◌
written-Claimed token id now db order next {o} {db'} found unpaid free h =
    let look = claimed_lookup token id now next order db found unpaid in
    record {
      before = order;
      next = next;
      found = found;
      unpaid = unpaid;
      free = free;
      result = ground (arith, look);
      orders_after = ground (arith, look);
      found_after = ground (arith, look);
    }

take_over-Claimed :
    (c : Call) (token id : String) (now : Instant) (db : Database) (order : PaymentOrder)
    {o : PaymentOrder} {db' : Database}
    → payment_order id db ≡ some order
    → is_paid order.status ≡ false
    → lease_holds now order ≡ ok false
    → take_over c token id now order db ≡ ok ((o, true), db')
    → Claimed token id now db db' o
unfolding take_over
take_over-Claimed c token id now db order found unpaid free h =
    let (_, rest) = >>-eq-ok (check_mutation_allowed c db) _ h in
    let (next, rest', _) =
      >>=-eq-ok (next_after_lease (now + payment_operation_lease) order.next_reconcile_at) _ rest in
    written-Claimed token id now db order next found unpaid free rest'

not_claimed :
    (order o : PaymentOrder) (db db' : Database)
    → ◌≡◌ {A = Result ((PaymentOrder × Bool) × Database)}
        (ok ((order, false), db))
        (ok ((o, true), db'))
    → ⊥
not_claimed order o db db' h = cc

free-Claimed :
    (c : Call) (token id : String) (now : Instant) (db : Database) (order : PaymentOrder)
    (holds : Bool) {o : PaymentOrder} {db' : Database}
    → payment_order id db ≡ some order
    → is_paid order.status ≡ false
    → lease_holds now order ≡ ok holds
    → (if holds then ok ((order, false), db) else take_over c token id now order db)
      ≡ ok ((o, true), db')
    → Claimed token id now db db' o
free-Claimed c token id now db order true {o} {db'} found unpaid free h =
    absurd (not_claimed order o db db' h)
free-Claimed c token id now db order false found unpaid free h =
    take_over-Claimed c token id now db order found unpaid free h

claim_open-Claimed :
    (c : Call) (token id : String) (now : Instant) (db : Database) (order : PaymentOrder)
    {o : PaymentOrder} {db' : Database}
    → payment_order id db ≡ some order
    → is_paid order.status ≡ false
    → claim_open c token id now order db ≡ ok ((o, true), db')
    → Claimed token id now db db' o
unfolding claim_open
claim_open-Claimed c token id now db order found unpaid h =
    let (holds, rest, free) = >>=-eq-ok (lease_holds now order) _ h in
    free-Claimed c token id now db order holds found unpaid free rest

unpaid-Claimed :
    (c : Call) (token id : String) (now : Instant) (db : Database) (order : PaymentOrder) (b : Bool)
    {o : PaymentOrder} {db' : Database}
    → payment_order id db ≡ some order
    → is_paid order.status ≡ b
    → (if b then ok ((order, false), db) else claim_open c token id now order db)
      ≡ ok ((o, true), db')
    → Claimed token id now db db' o
unpaid-Claimed c token id now db order true {o} {db'} found unpaid h =
    absurd (not_claimed order o db db' h)
unpaid-Claimed c token id now db order false found unpaid h =
    claim_open-Claimed c token id now db order found unpaid h

pub claim-Claimed :
    (c : Call) (token id : String) (at : Instant) (db : Database) {o : PaymentOrder}
    {db' : Database}
    → claim_payment_order c token id at db ≡ ok ((o, true), db')
    → Claimed token id (claim_time c at) db db' o
unfolding claim_payment_order
claim-Claimed c token id at db h =
    let (order, rest, found) = >>=-eq-ok (read_order id db) _ h in
    unpaid-Claimed c token id (claim_time c at) db order (is_paid order.status)
      (read_order-ok id db found) refl rest

-- After a claim under a token that is not empty has succeeded, a second one, by any caller and
-- under any token, within 30 seconds gets the order as it stands and no claim, and writes nothing.
pub claim_excludes :
    (c₁ c₂ : Call) (token₁ token₂ id : String) (at₁ at₂ : Instant) (db : Database)
    {o : PaymentOrder} {db' : Database}
    → is_blank token₁ ≡ false
    → claim_payment_order c₁ token₁ id at₁ db ≡ ok ((o, true), db')
    → claim_time c₂ at₂ < claim_time c₁ at₁ + payment_operation_lease
    → claim_payment_order c₂ token₂ id at₂ db' ≡ ok ((o, false), db')
unfolding claim_payment_order claim_open lease_holds claimed_row ◌>>=◌
claim_excludes c₁ c₂ token₁ token₂ id at₁ at₂ db nonblank h within =
    let k = claim-Claimed c₁ token₁ id at₁ db h in
    ground (arith, k.found_after, k.result, k.unpaid, nonblank)
