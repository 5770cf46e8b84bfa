-- ===== src/Ledger.antt =====
-- The books of the store: what the paid orders, the transactions and the receipts have in common.
use acb_transaction_webhook.Base.{
  some, refl, str_eq, arith, ◌∙◌, ap, sym, ◌++◌, ℕ, ◌≡◌, String, is_blank, Bool, true, not, List,
  [], ◌∷◌, All, total, arith, if◌then◌else◌, Bool-cases, inl, inr,
}
use acb_transaction_webhook.Base.Rows.{update_rows, find_row}
use acb_transaction_webhook.Orders.{payment_order}
use acb_transaction_webhook.Base.Keys.{HasUniqueKeys, update-HasUniqueKeys, total-update_same}
use acb_transaction_webhook.Store.{PaymentOrder, Receipt, Transaction, Database, is_paid}

-- The money of an order that counts as received.
abbrev pub paid_amount : PaymentOrder → ℕ
paid_amount o = if is_paid o.status then o.amount_vnd else 0

abbrev pub order_id : PaymentOrder → String
order_id o = o.id

-- An order is PAID exactly when a transaction is bound to it.
abbrev pub IsSettled : PaymentOrder → Type 0
IsSettled o = is_paid o.status ≡ not (is_blank o.transaction_id)

-- A payment to keep an eye on: the order's id, its transaction and its amount.
pub data Watch : Type 0 where
  nothing_watched : Watch
  watched_payment : String → String → ℕ → Watch

-- The order of the watched payment is there, PAID with that transaction and that amount.
unfoldable pub IsPaidWith : String → String → ℕ → Database → Type 0
IsPaidWith id transaction amount db =
    (o : PaymentOrder) × (payment_order id db ≡ some o)
    × (is_paid o.status ≡ true)
    × (o.transaction_id ≡ transaction)
    × (o.amount_vnd ≡ amount)

unfoldable pub Watches : Watch → Database → Type 0
Watches nothing_watched db = Unit
Watches (watched_payment id transaction amount) db = IsPaidWith id transaction amount db

pub record Books (w : Watch) (db : Database) : Type 0 where
  pub unique : HasUniqueKeys order_id db.orders
  pub settled : All IsSettled db.orders
  pub credited : total (λ (t : Transaction). t.credit) db.transactions ≡ total paid_amount db.orders
  pub receipted : total (λ (r : Receipt). r.amount_vnd) db.receipts ≡ total paid_amount db.orders
  pub watched : Watches w db

-- Balanced books.
abbrev pub Ledger : Database → Type 0
Ledger db = Books nothing_watched db

pub All-update_rows :
    (p : PaymentOrder → Bool) (f : PaymentOrder → PaymentOrder) (rows : List PaymentOrder)
    → ((o : PaymentOrder) → p o ≡ true → IsSettled o → IsSettled (f o))
    → All IsSettled rows
    → All IsSettled (update_rows p f rows)
All-update_rows p f [] keeps h = tt
All-update_rows p f (o ∷ rows) keeps (s, h) = elim (Bool-cases (p o)) [
  | inl e ↦ (rw e (keeps o e s), All-update_rows p f rows keeps h)
  | inr e ↦ (rw e s, All-update_rows p f rows keeps h)
]

-- What an order says of its payment is left alone.
abbrev pub SamePayment : PaymentOrder → PaymentOrder → Type 0
SamePayment o o' =
    (is_paid o'.status ≡ is_paid o.status)
    × (o'.transaction_id ≡ o.transaction_id)
    × (o'.amount_vnd ≡ o.amount_vnd)

SamePayment-paid_amount : (o o' : PaymentOrder) → SamePayment o o' → paid_amount o' ≡ paid_amount o
SamePayment-paid_amount o o' (status, _, amount) = rw status (rw amount refl)

SamePayment-IsSettled : (o o' : PaymentOrder) → SamePayment o o' → IsSettled o → IsSettled o'
SamePayment-IsSettled o o' (status, transaction, _) s =
    status ∙ s ∙ ap (λ (t : String). not (is_blank t)) (sym transaction)

-- A row that is found by its id is found after an update, changed if the update meets it.
found_after_update :
    (id : String) (p : PaymentOrder → Bool) (f : PaymentOrder → PaymentOrder)
    (rows : List PaymentOrder) {o : PaymentOrder}
    → ((x : PaymentOrder) → (f x).id ≡ x.id)
    → find_row (λ x. str_eq x.id id) rows ≡ some o
    → find_row (λ x. str_eq x.id id) (update_rows p f rows) ≡ some (if p o then f o else o)
found_after_update id p f [] keeps h = absurd (cc)
found_after_update id p f (x ∷ rows) {o} keeps h =
    ground (arith, keeps x, found_after_update id p f rows {o = o} keeps)

pub Watches-update :
    (w : Watch) (db db' : Database) (p : PaymentOrder → Bool) (f : PaymentOrder → PaymentOrder)
    → ((o : PaymentOrder) → (f o).id ≡ o.id)
    → ((id : String) (o : PaymentOrder)
        → payment_order id db ≡ some o
        → is_paid o.status ≡ true
        → p o ≡ true
        → SamePayment o (f o))
    → db'.orders ≡ update_rows p f db.orders
    → Watches w db
    → Watches w db'
unfolding Watches IsPaidWith
Watches-update nothing_watched db db' p f keeps same e h = tt
Watches-update (watched_payment id transaction amount) db db' p f keeps same e
      (o, found, paid, t, a) =
    let after = found_after_update id p f db.orders {o = o} keeps found in
    let lookup = ap (λ (rows : List PaymentOrder). find_row (λ x. str_eq x.id id) rows) e in
    elim (Bool-cases (p o)) [
      | inl met ↦
          let (s, t', a') = same id o found paid met in
          (f o, lookup ∙ rw met at after, s ∙ paid, t' ∙ t, a' ∙ a)
      | inr other ↦ (o, lookup ∙ rw other at after, paid, t, a)
    ]

-- An update of orders that leaves their ids and their payments alone.
pub Books-update :
    {w : Watch} (db : Database) (p : PaymentOrder → Bool) (f : PaymentOrder → PaymentOrder)
    → ((o : PaymentOrder) → (f o).id ≡ o.id)
    → ((o : PaymentOrder) → p o ≡ true → SamePayment o (f o))
    → Books w db
    → Books w (record db { orders = update_rows p f db.orders })
Books-update {w = w} db p f keeps same l =
    let money =
      total-update_same order_id p f keeps paid_amount db.orders
        (λ o e. SamePayment-paid_amount o (f o) (same o e)) in
    record {
      unique = update-HasUniqueKeys order_id p f keeps db.orders l.unique;
      settled =
          All-update_rows p f db.orders (λ o e s. SamePayment-IsSettled o (f o) (same o e) s)
            l.settled;
      credited = omega (arith, money, l.credited);
      receipted = omega (arith, money, l.receipted);
      watched = Watches-update w db _ p f keeps (λ id o _ _ e. same o e) refl l.watched;
    }

-- New tables beside the orders, the transactions and the receipts.
pub Watches-same :
    (w : Watch) (db db' : Database) → db'.orders ≡ db.orders → Watches w db → Watches w db'
unfolding Watches IsPaidWith
Watches-same nothing_watched db db' e h = tt
Watches-same (watched_payment id transaction amount) db db' e (o, found, paid, t, a) = (
  o,
  ap (λ (rows : List PaymentOrder). find_row (λ x. str_eq x.id id) rows) e ∙ found,
  paid,
  t,
  a,
)

found_after_append :
    (id : String) (rows more : List PaymentOrder) {o : PaymentOrder}
    → find_row (λ x. str_eq x.id id) rows ≡ some o
    → find_row (λ x. str_eq x.id id) (rows ++ more) ≡ some o
found_after_append id [] more h = absurd (cc)
found_after_append id (x ∷ rows) more {o} h =
    ground (arith, found_after_append id rows more {o = o})

pub Watches-append :
    (w : Watch) (db : Database) (more : List PaymentOrder)
    → Watches w db
    → Watches w (record db { orders = db.orders ++ more })
unfolding Watches IsPaidWith
Watches-append nothing_watched db more h = tt
Watches-append (watched_payment id transaction amount) db more (o, found, paid, t, a) =
    (o, found_after_append id db.orders more {o = o} found, paid, t, a)

-- What a transaction on the books returns leaves them balanced.
abbrev pub KeepsBooks {ℓ} : Watch → {A : Type ℓ} → A × Database → Type 0
KeepsBooks w (a, db) = Books w db
