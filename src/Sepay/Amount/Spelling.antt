-- ===== src/Sepay/Amount/Spelling.antt =====
-- How a text spells an amount, whatever `parseAmountVND` of internal/sepay/parser.go does: plain
-- digits, or a first group of one to three digits and groups of three behind one separator.
use acb_transaction_webhook.Base.{
  ℕ, ◌+◌, ◌-◌, ◌*◌, ◌^◌, ◌≤◌, true, List, [], ◌∷◌, ◌++◌, ◌≡◌, length, All,
}
use acb_transaction_webhook.Payments.Create.{max_safe_integer}
use acb_transaction_webhook.Sepay.Amount.{is_digit, is_separator}

abbrev pub IsDigit : ℕ → Type 0
IsDigit ch = is_digit ch ≡ true

-- Groups of three digits, each behind the separator; the text, and its digits.
pub data Groups (separator : ℕ) : List ℕ → List ℕ → Type 0 where
  no_group : Groups separator [] []
  group :
      (a b c : ℕ) {text digits : List ℕ}
      → IsDigit a
      → IsDigit b
      → IsDigit c
      → Groups separator text digits
      → Groups separator (separator ∷ a ∷ b ∷ c ∷ text) (a ∷ b ∷ c ∷ digits)

-- A text whose first group, of one to three digits, is complete but for the `n` digits before it.
pub data Leading (separator n : ℕ) : List ℕ → List ℕ → Type 0 where
  leading :
      (first : List ℕ) {text digits : List ℕ}
      → All IsDigit first
      → 1 ≤ n + length first
      → n + length first ≤ 3
      → Groups separator text digits
      → Leading separator n (first ++ text) (first ++ digits)

-- The digits that an amount's text spells.
pub data Spells : List ℕ → List ℕ → Type 0 where
  plain : (digits : List ℕ) → All IsDigit digits → 1 ≤ length digits → Spells digits digits
  grouped :
      (separator : ℕ) {text digits : List ℕ}
      → is_separator separator ≡ true
      → Leading separator 0 text digits
      → Spells text digits

-- The number that digits stand for.
abbrev pub decimal : List ℕ → ℕ
decimal [] = 0
decimal (d ∷ ds) = (d - 48) * 10 ^ length ds + decimal ds

-- The amount that a text denotes: within 1 and the largest safe integer.
abbrev pub IsAmount : List ℕ → ℕ → Type 0
IsAmount text n =
    (ds : List ℕ) × Spells text ds × (decimal ds ≡ n) × (1 ≤ n) × (n ≤ max_safe_integer)
