-- ===== src/Base/Keys.antt =====
-- Tables with a text key: what an update of the rows of one key does to a lookup by key.
use acb_transaction_webhook.Base.{
  ℕ, ◌+◌, ◌≡◌, ◌≢◌, refl, String, str_eq, eq_iff, Bool, true, false, some, List, [], ◌∷◌, ◌++◌,
  none, arith, All, All-append, Bool-cases, inl, inr, total,
}
use acb_transaction_webhook.Base.Rows.{has_row, find_row, update_rows, count_rows}

module _ {A : Type 0} (key : A → String) where
  abbrev pub has_key : String → A → Bool
  has_key k x = str_eq (key x) k

  abbrev pub HasUniqueKeys : List A → Type 0
  HasUniqueKeys [] = Unit
  HasUniqueKeys (x ∷ xs) = All (λ y. key y ≢ key x) xs × HasUniqueKeys xs

  -- `f` keeps the key of the rows that it changes.
  module _ (p : A → Bool) (f : A → A) (keeps : (x : A) → key (f x) ≡ key x) where
    All-update :
        (Q : String → Type 0) (xs : List A)
        → All (λ y. Q (key y)) xs
        → All (λ y. Q (key y)) (update_rows p f xs)
    All-update Q [] h = tt
    All-update Q (y ∷ xs) (q, h) = elim (Bool-cases (p y)) [
      | inl e ↦ (rw e (rw (keeps y) q), All-update Q xs h)
      | inr e ↦ (rw e q, All-update Q xs h)
    ]

    pub update-HasUniqueKeys : (xs : List A) → HasUniqueKeys xs → HasUniqueKeys (update_rows p f xs)
    update-HasUniqueKeys [] h = tt
    update-HasUniqueKeys (y ∷ xs) (q, h) = elim (Bool-cases (p y)) [
      | inl e ↦ (rw e (rw (keeps y) (All-update (λ z. z ≢ key y) xs q)), update-HasUniqueKeys xs h)
      | inr e ↦ (rw e (All-update (λ z. z ≢ key y) xs q), update-HasUniqueKeys xs h)
    ]

    -- a measure that `f` keeps is kept in total
    pub total-update_same :
        (g : A → ℕ) (xs : List A)
        → ((x : A) → p x ≡ true → g (f x) ≡ g x)
        → total g (update_rows p f xs) ≡ total g xs
    total-update_same g [] same = refl
    total-update_same g (y ∷ xs) same = ground (arith, same y, total-update_same g xs same)

  -- `p` holds only of rows with key `k`, and `f` keeps the key.
  module _ (p : A → Bool) (f : A → A) (k : String) (only : (x : A) → p x ≡ true → key x ≡ k)
      (keeps : (x : A) → key (f x) ≡ key x) where
    pub find-update_self :
        (xs : List A) {x : A}
        → find_row (has_key k) xs ≡ some x
        → p x ≡ true
        → find_row (has_key k) (update_rows p f xs) ≡ some (f x)
    find-update_self [] h px = ground arith
    find-update_self (y ∷ xs) {x} h px = ground (
      arith,
      only y,
      keeps y,
      eq_iff (key y) k,
      eq_iff (key (f y)) k,
      find-update_self xs {x = x},
    )

    pub find-update_other :
        (xs : List A) (j : String)
        → j ≢ k
        → find_row (has_key j) (update_rows p f xs) ≡ find_row (has_key j) xs
    find-update_other [] j ne = refl
    find-update_other (y ∷ xs) j ne =
        ground (
          arith,
          only y,
          keeps y,
          eq_iff (key y) j,
          eq_iff (key (f y)) j,
          find-update_other xs j ne,
        )

    count_none : (xs : List A) → All (λ y. key y ≢ k) xs → count_rows p xs ≡ 0
    count_none [] h = refl
    count_none (y ∷ xs) (q, h) = ground (arith, only y, count_none xs h)

    pub count_one :
        (xs : List A) {x : A}
        → HasUniqueKeys xs
        → find_row (has_key k) xs ≡ some x
        → p x ≡ true
        → count_rows p xs ≡ 1
    count_one [] u h px = ground arith
    count_one (y ∷ xs) {x} (q, u) h px = elim (Bool-cases (str_eq (key y) k)) [
      | inl e ↦
          let same : key y ≡ k = (eq_iff (key y) k).0 e in
          ground (arith, e, count_none xs (rw same at q))
      | inr e ↦ ground (arith, e, only y, eq_iff (key y) k, count_one xs {x = x} u)
    ]

    -- the total of a measure that moves only at the updated row
    update_absent : (xs : List A) → All (λ y. key y ≢ k) xs → update_rows p f xs ≡ xs
    update_absent [] h = refl
    update_absent (y ∷ xs) (q, h) = ground (arith, only y, update_absent xs h)

    pub total-update :
        (g : A → ℕ) (xs : List A) {x : A}
        → HasUniqueKeys xs
        → find_row (has_key k) xs ≡ some x
        → p x ≡ true
        → total g (update_rows p f xs) + g x ≡ total g xs + g (f x)
    total-update g [] u h px = ground arith
    total-update g (y ∷ xs) {x} (q, u) h px = elim (Bool-cases (str_eq (key y) k)) [
      | inl e ↦
          let same : key y ≡ k = (eq_iff (key y) k).0 e in
          ground (arith, e, update_absent xs (rw same at q))
      | inr e ↦ ground (arith, e, only y, eq_iff (key y) k, total-update g xs {x = x} u)
    ]

  find-absent :
      (k : String) (xs : List A) (q : A → Bool) {x : A}
      → All (λ y. key y ≢ k) xs
      → find_row q xs ≡ some x
      → key x ≢ k
  find-absent k [] q h e = absurd (cc)
  find-absent k (y ∷ xs) q {x} (n, h) e = elim (Bool-cases (q y)) [
    | inl t ↦ ground (arith, t, n)
    | inr t ↦ find-absent k xs q {x = x} h (ground (arith, t))
  ]

  -- A row that is found by another condition is the row of its key.
  pub find-key_of :
      (q : A → Bool) (xs : List A) {x : A}
      → HasUniqueKeys xs
      → find_row q xs ≡ some x
      → find_row (has_key (key x)) xs ≡ some x
  find-key_of q [] u e = absurd (cc)
  find-key_of q (y ∷ xs) {x} (n, u) e = elim (Bool-cases (q y)) [
    | inl t ↦ ground (arith, t, eq_iff (key y) (key x))
    | inr t ↦
        let rest : find_row q xs ≡ some x = ground (arith, t) in
        ground (
          arith,
          t,
          eq_iff (key y) (key x),
          find-absent (key y) xs q {x = x} n rest,
          find-key_of q xs {x = x} u rest,
        )
  ]

  pub HasUniqueKeys-snoc :
      (xs : List A) (x : A)
      → HasUniqueKeys xs
      → has_row (has_key (key x)) xs ≡ false
      → HasUniqueKeys (xs ++ x ∷ [])
  HasUniqueKeys-snoc [] x u h = (tt, tt)
  HasUniqueKeys-snoc (y ∷ xs) x (n, u) h = (
    All-append (λ z. key z ≢ key y) xs (x ∷ []) n
        ((λ e. ground (arith, eq_iff (key y) (key x), h, e)), tt),
    HasUniqueKeys-snoc xs x u (ground (arith, h)),
  )

-- Lookups by any condition.
module _ {A : Type 0} where
  pub find-update_same :
      (q p : A → Bool) (f : A → A) (xs : List A) {x : A}
      → ((y : A) → q (f y) ≡ q y)
      → find_row q xs ≡ some x
      → p x ≡ true
      → find_row q (update_rows p f xs) ≡ some (f x)
  find-update_same q p f [] keeps h px = absurd (cc)
  find-update_same q p f (y ∷ xs) {x} keeps h px =
      ground (arith, keeps y, find-update_same q p f xs {x = x} keeps)

  pub find-snoc :
      (q : A → Bool) (xs : List A) (x : A)
      → find_row q xs ≡ none
      → q x ≡ true
      → find_row q (xs ++ x ∷ []) ≡ some x
  find-snoc q [] x h e = ground arith
  find-snoc q (y ∷ xs) x h e = ground (arith, find-snoc q xs x)
