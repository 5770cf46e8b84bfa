-- ===== src/Base/Rows.antt =====
-- A table as the list of its rows: `SELECT … WHERE` and `UPDATE … WHERE` over a Boolean condition.
use acb_transaction_webhook.Base.{
  ℕ, ◌+◌, ◌≡◌, true, map, All, Bool-cases, inl, inr, Bool, Option, none, some, List, [], ◌∷◌, ◌||◌,
  if◌then◌else◌,
}

module _ {ℓ} {A : Type ℓ} where
  -- The first row that meets the condition.
  abbrev pub find_row : (A → Bool) → List A → Option A
  find_row p [] = none
  find_row p (x ∷ xs) = if p x then some x else find_row p xs

  abbrev pub has_row : (A → Bool) → List A → Bool
  has_row p [] = Bool.false
  has_row p (x ∷ xs) = p x || has_row p xs

  abbrev pub update_rows : (A → Bool) → (A → A) → List A → List A
  update_rows p f [] = []
  update_rows p f (x ∷ xs) = (if p x then f x else x) ∷ update_rows p f xs

  abbrev pub count_rows : (A → Bool) → List A → ℕ
  count_rows p [] = 0
  count_rows p (x ∷ xs) = (if p x then 1 else 0) + count_rows p xs

  abbrev pub filter_rows : (A → Bool) → List A → List A
  filter_rows p [] = []
  filter_rows p (x ∷ xs) = if p x then x ∷ filter_rows p xs else filter_rows p xs

module _ {ℓ} {A : Type ℓ} where
  pub All-map :
      (P Q : A → Type 0) (f : A → A) (cs : List A)
      → ((c : A) → P c → Q (f c))
      → All P cs
      → All Q (map f cs)
  All-map P Q f [] step h = tt
  All-map P Q f (c ∷ cs) step (p, h) = (step c p, All-map P Q f cs step h)

  -- The rows that a test keeps, with what it says of them.
  pub All-filter :
      (P Q : A → Type 0) (test : A → Bool) (cs : List A)
      → ((c : A) → test c ≡ true → P c → Q c)
      → All P cs
      → All Q (filter_rows test cs)
  All-filter P Q test [] step h = tt
  All-filter P Q test (c ∷ cs) step (p, h) = elim (Bool-cases (test c)) [
    | inl t ↦ rw t (step c t p, All-filter P Q test cs step h)
    | inr t ↦ rw t (All-filter P Q test cs step h)
  ]

  pub All-weaken : (P Q : A → Type 0) (cs : List A) → ((c : A) → P c → Q c) → All P cs → All Q cs
  All-weaken P Q [] step h = tt
  All-weaken P Q (c ∷ cs) step (p, h) = (step c p, All-weaken P Q cs step h)
