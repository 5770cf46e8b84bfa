-- ===== src/Sepay/Amount/Exact.antt =====
-- `parseAmountVND` of internal/sepay/parser.go accepts nothing but the texts that spell an amount.
use native.Mathlib.Nat.{pow-suc}
use mathlib.Core.Path.{subst}
use acb_transaction_webhook.Base.{
  ℕ, suc, ◌+◌, ◌-◌, ◌*◌, ◌^◌, ◌≤◌, true, false, Option, none, some, List, [], ◌∷◌, ◌++◌, ◌≡◌, refl,
  sym, ap, ◌∙◌, ◌↔◌, ◌⊎◌, inl, inr, length, All, Bool-cases, arith,
}
use acb_transaction_webhook.Payments.Create.{max_safe_integer}
use acb_transaction_webhook.Sepay.Amount.{
  is_digit, is_separator, group_fits, scan, without, digits_value, amount_of, amount_behind,
  parse_amount_vnd,
}
use acb_transaction_webhook.Sepay.Amount.Spelling.{
  IsDigit, Groups, no_group, group, Leading, leading, Spells, plain, grouped, decimal, IsAmount,
}
use acb_transaction_webhook.Sepay.Amount.Grouped.{
  scan-digit, without-digit, without-separator, behind-separator, parse_amount_vnd-Spells,
}

-- A text within a group, of which `n` digits have been read.
data Partial (separator n : ℕ) : List ℕ → List ℕ → Type 0 where
  partial :
      (first : List ℕ) {text digits : List ℕ}
      → All IsDigit first
      → n + length first ≡ 3
      → Groups separator text digits
      → Partial separator n (first ++ text) (first ++ digits)

digit-Partial :
    {s n ch : ℕ} {text ds : List ℕ}
    → IsDigit ch
    → Partial s (suc n) text ds
    → Partial s n (ch ∷ text) (ch ∷ ds)
digit-Partial {ch = ch} h (partial first hs e rest) =
    partial (ch ∷ first) (h, hs) (omega (arith, e)) rest

whole_group : {s : ℕ} {text ds : List ℕ} → Partial s 0 text ds → Groups s (s ∷ text) ds
whole_group (partial [] hs e rest) = absurd (omega (arith, e))
whole_group (partial (a ∷ []) hs e rest) = absurd (omega (arith, e))
whole_group (partial (a ∷ b ∷ []) hs e rest) = absurd (omega (arith, e))
whole_group (partial (a ∷ b ∷ c ∷ []) (ha, (hb, (hc, _))) e rest) = group a b c ha hb hc rest
whole_group (partial (a ∷ b ∷ c ∷ d ∷ ds) hs e rest) = absurd (omega (arith, e))

-- What an accepted text has where a digit is not.
scan-stops :
    (ch : ℕ) (rest : List ℕ) (s n g r : ℕ)
    → is_digit ch ≡ false
    → scan (ch ∷ rest) s n g ≡ some r
    → (is_separator ch ≡ true)
      × ((s ≡ 0) ⊎ (s ≡ ch))
      × (group_fits g n ≡ true)
      × (scan rest ch 0 (suc g) ≡ some r)
unfolding scan
scan-stops ch rest s n g r no_digit h = ground arith

scan-ends : (s n g r : ℕ) → scan [] s n (suc g) ≡ some r → (n ≡ 3) × (r ≡ s)
unfolding scan
scan-ends s n g r h = ground arith

separator_not_blank : (s ch : ℕ) → is_separator s ≡ true → (s ≡ 0) ⊎ (s ≡ ch) → s ≡ ch
separator_not_blank s ch hs (inl e) = absurd (ground arith)
separator_not_blank s ch hs (inr e) = e

next_group :
    (s n : ℕ) (rest : List ℕ)
    → n ≡ 3
    → Partial s 0 rest (without s rest)
    → Partial s n (s ∷ rest) (without s (s ∷ rest))
next_group s n rest e p =
    subst (Partial s n (s ∷ rest)) (sym (without-separator s rest))
      (partial [] tt (omega (arith, e)) (whole_group p))

-- Behind the first separator.
scan-later :
    (raw : List ℕ) (s n g r : ℕ)
    → is_separator s ≡ true
    → scan raw s n (suc g) ≡ some r
    → (r ≡ s) × Partial s n raw (without s raw)
unfolding without
scan-later [] s n g r hs h =
    let e = scan-ends s n g r h in (e.1, partial [] tt (omega (arith, e.0)) no_group)
scan-later (ch ∷ rest) s n g r hs h = elim (Bool-cases (is_digit ch)) [
  | inl digit ↦
      let later =
        scan-later rest s (suc n) g r hs (sym (scan-digit ch rest s n (suc g) digit) ∙ h) in
      (
        later.0,
        subst (Partial s n (ch ∷ rest)) (sym (without-digit ch s rest hs digit))
            (digit-Partial digit later.1),
      )
  | inr no_digit ↦
      let stop = scan-stops ch rest s n (suc g) r no_digit h in
      let same = separator_not_blank s ch hs stop.1 in
      let later =
        scan-later rest s 0 (suc g) r hs (ap (λ x. scan rest x 0 (suc (suc g))) same ∙ stop.3) in
      (
        later.0,
        subst (λ x. Partial s n (x ∷ rest) (without s (x ∷ rest))) same
            (next_group s n rest (ground arith) later.1),
      )
]

-- In the first group: no separator comes, or one behind a first group that fits.
data Opening (n : ℕ) (raw : List ℕ) : ℕ → Type 0 where
  no_separator : All IsDigit raw → Opening n raw 0
  separated : (s : ℕ) → is_separator s ≡ true → Leading s n raw (without s raw) → Opening n raw s

digit-Leading :
    {s n ch : ℕ} {text ds : List ℕ}
    → IsDigit ch
    → Leading s (suc n) text ds
    → Leading s n (ch ∷ text) (ch ∷ ds)
digit-Leading {ch = ch} h (leading first hs low high rest) =
    leading (ch ∷ first) (h, hs) (omega (arith, low)) (omega (arith, high)) rest

digit-Opening :
    {n ch r : ℕ} {rest : List ℕ} → IsDigit ch → Opening (suc n) rest r → Opening n (ch ∷ rest) r
digit-Opening digit (no_separator hs) = no_separator (digit, hs)
digit-Opening {n = n} {ch = ch} {rest = rest} digit (separated s hs l) = separated s hs (
    subst (Leading s n (ch ∷ rest)) (sym (without-digit ch s rest hs digit))
      (digit-Leading digit l))

first_separator :
    (s n r : ℕ) (rest : List ℕ)
    → is_separator s ≡ true
    → group_fits 0 n ≡ true
    → scan rest s 0 1 ≡ some r
    → Opening n (s ∷ rest) r
first_separator s n r rest hs fits h =
    let later = scan-later rest s 0 0 r hs h in
    subst (Opening n (s ∷ rest)) (sym later.0) (
      separated s hs (
        subst (Leading s n (s ∷ rest)) (sym (without-separator s rest))
          (leading [] tt (ground arith) (ground arith) (whole_group later.1))))

scan-first : (raw : List ℕ) (n r : ℕ) → scan raw 0 n 0 ≡ some r → Opening n raw r
unfolding scan
scan-first [] n r h = subst (Opening n []) (ground arith) (no_separator tt)
scan-first (ch ∷ rest) n r h = elim (Bool-cases (is_digit ch)) [
  | inl digit ↦
      digit-Opening digit (scan-first rest (suc n) r (sym (scan-digit ch rest 0 n 0 digit) ∙ h))
  | inr no_digit ↦
      let stop = scan-stops ch rest 0 n 0 r no_digit h in
      first_separator ch n r rest stop.0 stop.2 stop.3
]

Opening-Spells :
    (ch : ℕ) (rest : List ℕ) (r n : ℕ)
    → Opening 0 (ch ∷ rest) r
    → amount_behind (ch ∷ rest) (some r) ≡ some n
    → (ds : List ℕ) × Spells (ch ∷ rest) ds × (amount_of ds ≡ some n)
unfolding amount_behind
Opening-Spells ch rest r n (no_separator hs) h = (ch ∷ rest, plain (ch ∷ rest) hs (omega arith), h)
Opening-Spells ch rest r n (separated s hs l) h =
    (without s (ch ∷ rest), grouped s hs l, sym (behind-separator (ch ∷ rest) s hs) ∙ h)

decimal-digits_value : (ds : List ℕ) (n : ℕ) → digits_value n ds ≡ n * 10 ^ length ds + decimal ds
unfolding digits_value
decimal-digits_value [] n = omega arith
decimal-digits_value (d ∷ ds) n =
    decimal-digits_value ds (n * 10 + (d - 48))
    ∙ omega (arith, ap (λ (t : ℕ). n * t) (pow-suc 10 (length ds)))

amount_of_iff :
    (ds : List ℕ) (n : ℕ)
    → (amount_of ds ≡ some n) ↔ ((decimal ds ≡ n) × (1 ≤ n) × (n ≤ max_safe_integer))
unfolding amount_of
amount_of_iff ds n = let e = decimal-digits_value ds 0 in ((λ h. ground arith), (λ h. ground arith))

behind-Spells :
    (ch : ℕ) (rest : List ℕ) (n : ℕ) (scanned : Option ℕ)
    → scan (ch ∷ rest) 0 0 0 ≡ scanned
    → amount_behind (ch ∷ rest) scanned ≡ some n
    → (ds : List ℕ) × Spells (ch ∷ rest) ds × (amount_of ds ≡ some n)
unfolding amount_behind
behind-Spells ch rest n none e h = ground arith
behind-Spells ch rest n (some r) e h = Opening-Spells ch rest r n (scan-first (ch ∷ rest) 0 r e) h

parsed-Spells :
    (raw : List ℕ) (n : ℕ)
    → parse_amount_vnd raw ≡ some n
    → (ds : List ℕ) × Spells raw ds × (amount_of ds ≡ some n)
unfolding parse_amount_vnd
parsed-Spells [] n h = ground arith
parsed-Spells (ch ∷ rest) n h = behind-Spells ch rest n (scan (ch ∷ rest) 0 0 0) refl h

-- `parseAmountVND` accepts a text with an amount exactly when the text spells that amount: plain
-- digits, or a first group of one to three digits followed by groups of three, each behind a comma or
-- each behind a full stop, whose decimal value lies between 1 and 9007199254740991.
pub parse_amount_vnd_exact :
    (raw : List ℕ) (n : ℕ) → (parse_amount_vnd raw ≡ some n) ↔ IsAmount raw n
parse_amount_vnd_exact raw n = (
  (λ h.
      let s = parsed-Spells raw n h in
      let bounds = (amount_of_iff s.0 n).0 s.2 in (s.0, s.1, bounds.0, bounds.1, bounds.2)),
  (λ s. parse_amount_vnd-Spells s.1 ∙ (amount_of_iff s.0 n).1 (s.2, s.3, s.4)),
)
