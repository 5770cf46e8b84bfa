-- ===== src/Orders/Reserve/Replay.antt =====
-- A reservation is made once for each channel and key.
use acb_transaction_webhook.Base.{
  ℕ, ◌≡◌, ◌≢◌, ◌⊎◌, inl, inr, Bool-cases, refl, String, str_eq, eq_refl, eq_iff, Bool, true, false,
  Option, none, some, List, [], ◌∷◌, ◌++◌, ok, err, arith, ◌>>=◌, ◌>>◌, fail_if, total-append,
  All-append, idempotency_conflict, ◌∙◌, ap, sym,
}
use acb_transaction_webhook.Base.Clock.{Instant}
use acb_transaction_webhook.Base.Rows.{find_row, has_row}
use acb_transaction_webhook.Base.Keys.{find-snoc, HasUniqueKeys-snoc}
use acb_transaction_webhook.Base.Ensures.{
  Ensures, Ensures-bind, Ensures-then, Ensures-if, Ensures-fail_if, Ensures-at, Ensures-map,
}
use acb_transaction_webhook.Store.{
  Origin, static_url, operator_dynamic, other_origin, PaymentOrder, Database, Call,
}
use acb_transaction_webhook.Ledger.{
  Watches-append, Watch, Books, KeepsBooks, IsSettled, paid_amount, order_id,
}
use acb_transaction_webhook.Orders.{payment_order_by_key}
use acb_transaction_webhook.Orders.Lease.{read_order}
use acb_transaction_webhook.Orders.Reserve.{
  PaymentOrderIntent, Draw, new_order, collides, insert_order, reserve_found, reserve_payment_order,
  for_key, differs, is_invalid_intent, same_origin,
}

-- What the loop inserts, and under which key it is found from then on.
pub record Reserved (in_ : PaymentOrderIntent) (db' : Database) (o : PaymentOrder) : Type 0 where
  pub by_key : payment_order_by_key in_.channel_id in_.idempotency_key db' ≡ some o
  pub hash : o.request_hash ≡ in_.request_hash
  pub amount : o.amount_vnd ≡ in_.amount_vnd
  pub origin : o.origin ≡ in_.origin

abbrev pub IsReserved : PaymentOrderIntent → (PaymentOrder × Bool) × Database → Type 0
IsReserved in_ ((o, created), db') = Reserved in_ db' o

has_row-find {ℓ} :
    {A : Type ℓ} (p : A → Bool) (rows : List A) → has_row p rows ≡ false → find_row p rows ≡ none
has_row-find p [] h = refl
has_row-find p (x ∷ rows) h = ground (arith, has_row-find p rows)

appended :
    {w : Watch} (now : Instant) (token : String) (in_ : PaymentOrderIntent) (id : String) (code : ℕ)
    (db : Database)
    → collides in_ (id, code) db.orders ≡ false
    → Books w db
    → Books w (record db { orders = db.orders ++ new_order now token in_ (id, code) ∷ [] })
unfolding collides new_order
appended now token in_ id code db free l =
    let o = new_order now token in_ (id, code) in
    let grows = total-append paid_amount db.orders (o ∷ []) in
    record {
      unique = HasUniqueKeys-snoc order_id db.orders o l.unique (ground (arith, free));
      settled = All-append IsSettled db.orders (o ∷ []) l.settled (refl, tt);
      credited = omega (arith, grows, l.credited);
      receipted = omega (arith, grows, l.receipted);
      watched = Watches-append _ db (o ∷ []) l.watched;
    }

appended-Reserved :
    (now : Instant) (token : String) (in_ : PaymentOrderIntent) (id : String) (code : ℕ)
    (db : Database) (o' : PaymentOrder)
    → collides in_ (id, code) db.orders ≡ false
    → read_order id (record db { orders = db.orders ++ new_order now token in_ (id, code) ∷ [] })
      ≡ ok o'
    → Reserved in_ (record db { orders = db.orders ++ new_order now token in_ (id, code) ∷ [] }) o'
unfolding collides new_order
appended-Reserved now token in_ id code db o' free h =
    let o = new_order now token in_ (id, code) in
    let found =
      find-snoc (λ (x : PaymentOrder). str_eq x.id id) db.orders o
        (has_row-find (λ (x : PaymentOrder). str_eq x.id id) db.orders (ground (arith, free)))
        (eq_refl id) in
    let keyed =
      find-snoc (for_key in_.channel_id in_.idempotency_key) db.orders o
        (has_row-find (for_key in_.channel_id in_.idempotency_key) db.orders (ground (arith, free)))
        (ground (arith, eq_refl in_.channel_id, eq_refl in_.idempotency_key)) in
    let same : o ≡ o' = ground (arith, found, h) in
    record {
      by_key = keyed ∙ ap some same;
      hash = ap (λ (x : PaymentOrder). x.request_hash) (sym same);
      amount = ap (λ (x : PaymentOrder). x.amount_vnd) (sym same);
      origin = ap (λ (x : PaymentOrder). x.origin) (sym same);
    }

insert-Ensures :
    {w : Watch} (now : Instant) (token : String) (in_ : PaymentOrderIntent) (draws : List Draw)
    (db : Database)
    → Books w db
    → Ensures (KeepsBooks w) (insert_order now token in_ draws db)
unfolding insert_order
insert-Ensures now token in_ [] db l = Ensures.fails
insert-Ensures now token in_ ((id, code) ∷ draws) db l =
    Ensures-if (collides in_ (id, code) db.orders) _ _
      (λ _. insert-Ensures now token in_ draws db l)
      λ free. Ensures-bind _ _ λ o _. Ensures.returns (appended now token in_ id code db free l)

insert-Reserved :
    (now : Instant) (token : String) (in_ : PaymentOrderIntent) (draws : List Draw) (db : Database)
    → Ensures (IsReserved in_) (insert_order now token in_ draws db)
unfolding insert_order
insert-Reserved now token in_ [] db = Ensures.fails
insert-Reserved now token in_ ((id, code) ∷ draws) db =
    Ensures-if (collides in_ (id, code) db.orders) _ _ (λ _. insert-Reserved now token in_ draws db)
      λ free.
        Ensures-bind _ _
          λ o e. Ensures.returns (appended-Reserved now token in_ id code db o free e)

reserve_found-Ensures :
    {w : Watch} (c : Call) (token : String) (draws : List Draw) (in_ : PaymentOrderIntent)
    (found : Option PaymentOrder) (db : Database)
    → Books w db
    → Ensures (KeepsBooks w) (reserve_found c token draws in_ found db)
unfolding reserve_found
reserve_found-Ensures c token draws in_ none db l =
    Ensures-then _ _ λ _. insert-Ensures c.now token in_ draws db l
reserve_found-Ensures c token draws in_ (some o) db l = Ensures-fail_if _ _ _ λ _. Ensures.returns l

pub reserve-Ensures :
    {w : Watch} (c : Call) (token : String) (draws : List Draw) (in_ : PaymentOrderIntent)
    (db : Database)
    → Books w db
    → Ensures (KeepsBooks w) (reserve_payment_order c token draws in_ db)
unfolding reserve_payment_order
reserve-Ensures c token draws in_ db l =
    Ensures-fail_if _ _ _ λ _. reserve_found-Ensures c token draws in_ _ db l

same_origin_refl : (x : Origin) → same_origin x x ≡ true
same_origin_refl static_url = refl
same_origin_refl operator_dynamic = refl
same_origin_refl (other_origin s) = eq_refl s

not_differs :
    (in_ : PaymentOrderIntent) (db : Database) (o : PaymentOrder)
    → Reserved in_ db o
    → differs in_ o ≡ false
not_differs in_ db o r =
    ground
      (arith, r.hash, r.amount, r.origin, eq_refl in_.request_hash, same_origin_refl in_.origin)

-- The order that the key gives from then on, on the terms of the intent.
abbrev pub IsBound : PaymentOrderIntent → (PaymentOrder × Bool) × Database → Type 0
IsBound in_ ((o, created), db') =
    (is_invalid_intent in_ ≡ false)
    × (payment_order_by_key in_.channel_id in_.idempotency_key db' ≡ some o)
    × (differs in_ o ≡ false)

reserve_found-IsBound :
    (c : Call) (token : String) (draws : List Draw) (in_ : PaymentOrderIntent)
    (found : Option PaymentOrder) (db : Database)
    → is_invalid_intent in_ ≡ false
    → payment_order_by_key in_.channel_id in_.idempotency_key db ≡ found
    → Ensures (IsBound in_) (reserve_found c token draws in_ found db)
unfolding reserve_found
reserve_found-IsBound c token draws in_ none db valid e = Ensures-then _ _ λ _.
    Ensures-map (λ ((o, b), db') r. (valid, r.by_key, not_differs in_ db' o r))
      (insert-Reserved c.now token in_ draws db)
reserve_found-IsBound c token draws in_ (some o) db valid e =
    Ensures-fail_if _ _ _ λ same. Ensures.returns (valid, e, same)

reserve-IsBound :
    (c : Call) (token : String) (draws : List Draw) (in_ : PaymentOrderIntent) (db : Database)
    → Ensures (IsBound in_) (reserve_payment_order c token draws in_ db)
unfolding reserve_payment_order
reserve-IsBound c token draws in_ db =
    Ensures-fail_if _ _ _ λ valid. reserve_found-IsBound c token draws in_ _ db valid refl

-- Once a reservation has returned an order, the same intent returns that order again, uncreated,
-- and writes nothing: at any time, with any random draws, and also while the deployment gate is
-- closed.
pub reserve_replays :
    (c₁ c₂ : Call) (token₁ token₂ : String) (draws₁ draws₂ : List Draw) (in_ : PaymentOrderIntent)
    (db : Database) {o : PaymentOrder} {created : Bool} {db' : Database}
    → reserve_payment_order c₁ token₁ draws₁ in_ db ≡ ok ((o, created), db')
    → reserve_payment_order c₂ token₂ draws₂ in_ db' ≡ ok ((o, false), db')
unfolding reserve_payment_order reserve_found ◌>>=◌ ◌>>◌ fail_if
reserve_replays c₁ c₂ token₁ token₂ draws₁ draws₂ in_ db h =
    let (valid, found, same) = Ensures-at h (reserve-IsBound c₁ token₁ draws₁ in_ db) in
    rw valid (rw (found, reserve_found) (rw same refl))

same_origin_sound : (x y : Origin) → same_origin x y ≡ true → x ≡ y
same_origin_sound static_url static_url e = refl
same_origin_sound operator_dynamic operator_dynamic e = refl
same_origin_sound (other_origin s) (other_origin t) e = ap other_origin ((eq_iff s t).0 e)
same_origin_sound static_url operator_dynamic e = absurd (cc)
same_origin_sound static_url (other_origin t) e = absurd (cc)
same_origin_sound operator_dynamic static_url e = absurd (cc)
same_origin_sound operator_dynamic (other_origin t) e = absurd (cc)
same_origin_sound (other_origin s) static_url e = absurd (cc)
same_origin_sound (other_origin s) operator_dynamic e = absurd (cc)

-- Two intents that differ in the request, the money or the origin.
abbrev pub AsksOtherwise : PaymentOrderIntent → PaymentOrderIntent → Type 0
AsksOtherwise a b =
    (a.request_hash ≢ b.request_hash) ⊎ ((a.amount_vnd ≢ b.amount_vnd) ⊎ (a.origin ≢ b.origin))

same_terms :
    (in_ : PaymentOrderIntent) (o : PaymentOrder)
    → differs in_ o ≡ false
    → (o.request_hash ≡ in_.request_hash)
      × (o.amount_vnd ≡ in_.amount_vnd)
      × (o.origin ≡ in_.origin)
same_terms in_ o e = (
  ground (arith, e, eq_iff o.request_hash in_.request_hash),
  ground (arith, e),
  same_origin_sound o.origin in_.origin (ground (arith, e)),
)

terms_clash :
    (a b : PaymentOrderIntent) (o : PaymentOrder)
    → differs a o ≡ false
    → differs b o ≡ false
    → ¬ (AsksOtherwise b a)
terms_clash a b o ea eb (inl ne) = ne (sym (same_terms b o eb).0 ∙ (same_terms a o ea).0)
terms_clash a b o ea eb (inr (inl ne)) = ne (sym (same_terms b o eb).1 ∙ (same_terms a o ea).1)
terms_clash a b o ea eb (inr (inr ne)) = ne (sym (same_terms b o eb).2 ∙ (same_terms a o ea).2)

other_differs :
    (a b : PaymentOrderIntent) (o : PaymentOrder)
    → differs a o ≡ false
    → AsksOtherwise b a
    → differs b o ≡ true
other_differs a b o ea other = elim (Bool-cases (differs b o)) [
  | inl clash ↦ clash
  | inr same ↦ absurd (terms_clash a b o ea same other)
]

-- Once a reservation has returned an order, another valid intent under the same channel and key,
-- with another digest of the request, another amount or another origin than the first intent, is
-- refused as a conflict.
pub reserve_conflicts :
    (c₁ c₂ : Call) (token₁ token₂ : String) (draws₁ draws₂ : List Draw)
    (in₁ in₂ : PaymentOrderIntent) (db : Database) {o : PaymentOrder} {created : Bool}
    {db' : Database}
    → reserve_payment_order c₁ token₁ draws₁ in₁ db ≡ ok ((o, created), db')
    → in₂.channel_id ≡ in₁.channel_id
    → in₂.idempotency_key ≡ in₁.idempotency_key
    → is_invalid_intent in₂ ≡ false
    → AsksOtherwise in₂ in₁
    → reserve_payment_order c₂ token₂ draws₂ in₂ db' ≡ err idempotency_conflict
unfolding reserve_payment_order reserve_found ◌>>=◌ ◌>>◌ fail_if
reserve_conflicts c₁ c₂ token₁ token₂ draws₁ draws₂ in₁ in₂ db {o} h ch key valid other =
    let (_, found, same) = Ensures-at h (reserve-IsBound c₁ token₁ draws₁ in₁ db) in
    let clash = other_differs in₁ in₂ o same other in
    rw valid (rw (ch, key) (rw (found, reserve_found) (rw clash refl)))
