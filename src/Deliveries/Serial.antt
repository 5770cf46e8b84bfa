-- ===== src/Deliveries/Serial.antt =====
-- One delivery at a time for each endpoint, over internal/storage/deliveries.go.
use acb_transaction_webhook.Base.{
  ◌∙◌, ◌≤◌, ◌≡◌, refl, sym, ap, String, Bool, true, false, ◌&&◌, Option, none, some, List, [], ◌∷◌,
  arith, Bool-cases, inl, inr, ◌⊎◌,
}
use acb_transaction_webhook.Base.Clock.{Instant, text_key}
use acb_transaction_webhook.Base.Ensures.{Ensures, Ensures-fail_if}
use acb_transaction_webhook.Base.Rows.{has_row, update_rows}
use acb_transaction_webhook.Store.{Endpoint, Delivery, Database}
use acb_transaction_webhook.Deliveries.{
  is_in_flight, running, settled_row, failed_row, completed_status, update_one, complete_delivery,
  fail_delivery, replayed_row, replay_found, replay_joined, replay_delivery,
}

unfoldable pub Mem : Delivery → List Delivery → Type 0
Mem x [] = ⊥
Mem x (y ∷ ys) = (x ≡ y) ⊎ Mem x ys

-- A row that its lease covers at `now`.
unfoldable pub live : Instant → Delivery → Bool
live now d = is_in_flight d.status && running now d.lease_until

-- At `now`, an endpoint has at most one delivery under a lease.
unfoldable pub IsSerial : Instant → List Delivery → Type 0
IsSerial now rows =
    (a b : Delivery)
    → Mem a rows
    → Mem b rows
    → live now a ≡ true
    → live now b ≡ true
    → a.endpoint_id ≡ b.endpoint_id
    → a.id ≡ b.id

pub Mem-has_row :
    (p : Delivery → Bool) (x : Delivery) (xs : List Delivery)
    → Mem x xs
    → p x ≡ true
    → has_row p xs ≡ true
unfolding Mem
Mem-has_row p x [] m h = elim m [ ]
Mem-has_row p x (y ∷ xs) (inl e) h = ground (arith, ap p e, h)
Mem-has_row p x (y ∷ xs) (inr m) h = ground (arith, Mem-has_row p x xs m h)

-- Where a row of an updated table comes from.
unfoldable pub Origin : (Delivery → Bool) → (Delivery → Delivery) → Delivery → Delivery → Type 0
Origin p f y x = ((p x ≡ false) × (y ≡ x)) ⊎ ((p x ≡ true) × (y ≡ f x))

pub Mem-update :
    (p : Delivery → Bool) (f : Delivery → Delivery) (y : Delivery) (xs : List Delivery)
    → Mem y (update_rows p f xs)
    → (x : Delivery) × Mem x xs × Origin p f y x
unfolding Mem Origin
Mem-update p f y [] m = elim m [ ]
Mem-update p f y (x ∷ xs) (inl e) = elim (Bool-cases (p x)) [
  | inl t ↦ (x, inl refl, inr (t, rw t at e))
  | inr t ↦ (x, inl refl, inl (t, rw t at e))
]
Mem-update p f y (x ∷ xs) (inr m) = let (z, held, o) = Mem-update p f y xs m in (z, inr held, o)

unfoldable pub HasUniqueIds : List Delivery → Type 0
HasUniqueIds rows = (a b : Delivery) → Mem a rows → Mem b rows → a.id ≡ b.id → a ≡ b

pub HasUniqueIds-update :
    (p : Delivery → Bool) (f : Delivery → Delivery) (rows : List Delivery)
    → ((d : Delivery) → (f d).id ≡ d.id)
    → HasUniqueIds rows
    → HasUniqueIds (update_rows p f rows)
unfolding HasUniqueIds Origin
HasUniqueIds-update p f rows keeps unique a b ma mb same =
    let (x, mx, ox) = Mem-update p f a rows ma in
    let (y, my, oy) = Mem-update p f b rows mb in
    let xy : x ≡ y = unique x y mx my (sym (origin_id x a ox) ∙ same ∙ origin_id y b oy) in
    elim ox [
      | inl (t, ex) ↦ elim oy [
        | inl (_, ey) ↦ ex ∙ xy ∙ sym ey
        | inr (u, _) ↦ absurd (cc (t, u, ap p xy))
      ]
      | inr (t, ex) ↦ elim oy [
        | inl (u, _) ↦ absurd (cc (t, u, ap p xy))
        | inr (_, ey) ↦ ex ∙ ap f xy ∙ sym ey
      ]
    ]
  where
    origin_id : (x y : Delivery) → Origin p f y x → y.id ≡ x.id
    origin_id x y (inl (_, e)) = ap (λ (d : Delivery). d.id) e
    origin_id x y (inr (_, e)) = ap (λ (d : Delivery). d.id) e ∙ keeps x

-- An update that leaves no row live that was not.
IsSerial-quiet :
    (now : Instant) (p : Delivery → Bool) (f : Delivery → Delivery) (rows : List Delivery)
    → ((d : Delivery) → p d ≡ true → live now (f d) ≡ false)
    → IsSerial now rows
    → IsSerial now (update_rows p f rows)
unfolding IsSerial Origin
IsSerial-quiet now p f rows quiet serial a b ma mb la lb same =
    let (x, mx, ox) = Mem-update p f a rows ma in
    let (y, my, oy) = Mem-update p f b rows mb in
    elim ox [
      | inl (_, ex) ↦ elim oy [
        | inl (_, ey) ↦
            ap (λ (d : Delivery). d.id) ex
            ∙ serial x y mx my (ap (live now) (sym ex) ∙ la) (ap (live now) (sym ey) ∙ lb) (
                ap (λ (d : Delivery). d.endpoint_id) (sym ex)
                ∙ same
                ∙ ap (λ (d : Delivery). d.endpoint_id) ey)
            ∙ ap (λ (d : Delivery). d.id) (sym ey)
        | inr (t, ey) ↦ absurd (cc (quiet y t, ap (live now) ey, lb))
      ]
      | inr (t, ex) ↦ absurd (cc (quiet x t, ap (live now) ex, la))
    ]

-- Leases only run out.
running_earlier :
    (now later : Instant) (until : Option Instant)
    → text_key now ≤ text_key later
    → running later until ≡ true
    → running now until ≡ true
running_earlier now later none le h = h
running_earlier now later (some until) le h = ground (arith, le, h)

live_earlier :
    (now later : Instant) (d : Delivery)
    → text_key now ≤ text_key later
    → live later d ≡ true
    → live now d ≡ true
unfolding live
live_earlier now later d le h = ground (arith, h, running_earlier now later d.lease_until le)

pub IsSerial-later :
    (now later : Instant) (rows : List Delivery)
    → text_key now ≤ text_key later
    → IsSerial now rows
    → IsSerial later rows
unfolding IsSerial
IsSerial-later now later rows le serial a b ma mb la lb same =
    serial a b ma mb (live_earlier now later a le la) (live_earlier now later b le lb) same

-- A completed, failed or replayed delivery is not under a lease.
settled_quiet :
    (now retry_at : Instant) (was_delivered : Bool) (d : Delivery)
    → live now (settled_row (completed_status was_delivered) retry_at d) ≡ false
unfolding live settled_row
settled_quiet now retry_at true d = refl
settled_quiet now retry_at false d = refl

-- What the table keeps at `now`.
abbrev pub Kept : Instant → Database → Type 0
Kept now db = HasUniqueIds db.deliveries × IsSerial now db.deliveries

update_one-Kept :
    (now : Instant) (p : Delivery → Bool) (f : Delivery → Delivery) (db : Database)
    → ((d : Delivery) → (f d).id ≡ d.id)
    → ((d : Delivery) → p d ≡ true → live now (f d) ≡ false)
    → Kept now db
    → Ensures (λ r. Kept now r.1) (update_one p f db)
unfolding update_one
update_one-Kept now p f db keeps quiet (unique, serial) = Ensures-fail_if _ _ _ λ one.
    Ensures.returns (
      HasUniqueIds-update p f db.deliveries keeps unique,
      IsSerial-quiet now p f db.deliveries quiet serial,
    )

pub complete-Kept :
    (now : Instant) (d : Delivery) (was_delivered : Bool) (retry_at : Instant) (db : Database)
    → Kept now db
    → Ensures (λ r. Kept now r.1) (complete_delivery d was_delivered retry_at db)
unfolding complete_delivery settled_row
complete-Kept now d was_delivered retry_at db serial = Ensures-fail_if _ _ _ λ named.
    update_one-Kept now _ _ db (λ x. refl) (λ x t. settled_quiet now retry_at was_delivered x)
      serial

pub fail-Kept :
    (now : Instant) (id token reason : String) (db : Database)
    → Kept now db
    → Ensures (λ r. Kept now r.1) (fail_delivery id token reason db)
unfolding fail_delivery failed_row live
fail-Kept now id token reason db serial =
    Ensures-fail_if _ _ _ λ named. update_one-Kept now _ _ db (λ x. refl) (λ x t. refl) serial

replayed-Kept :
    (now at : Instant) (id : String) (db : Database) (d : Delivery) (e : Option Endpoint)
    → Kept now db
    → Ensures (λ r. Kept now r.1) (replay_joined at id db d e)
unfolding replay_joined replayed_row live
replayed-Kept now at id db d none serial = Ensures.fails
replayed-Kept now at id db d (some e) serial = Ensures-fail_if _ _ _ λ dead.
    Ensures-fail_if _ _ _ λ active. update_one-Kept now _ _ db (λ x. refl) (λ x t. refl) serial

replay_found-Kept :
    (now at : Instant) (id : String) (db : Database) (d : Option Delivery)
    → Kept now db
    → Ensures (λ r. Kept now r.1) (replay_found at id db d)
unfolding replay_found
replay_found-Kept now at id db none serial = Ensures.fails
replay_found-Kept now at id db (some d) serial = replayed-Kept now at id db d _ serial

pub replay-Kept :
    (now at : Instant) (id : String) (db : Database)
    → Kept now db
    → Ensures (λ r. Kept now r.1) (replay_delivery at id db)
unfolding replay_delivery
replay-Kept now at id db serial = replay_found-Kept now at id db _ serial
