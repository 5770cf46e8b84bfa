-- ===== src/Sepay/Amount/Grouped.antt =====
-- `parseAmountVND` of internal/sepay/parser.go on the texts that spell an amount: it reads their digits.
use acb_transaction_webhook.Base.{
  ℕ, suc, ◌+◌, ◌≤◌, not, ◌&&◌, true, false, some, List, [], ◌∷◌, ◌++◌, ◌≡◌, refl, ap, ◌∙◌, ◌⊎◌, inl,
  inr, length, length-append, All, ◌==◌, arith,
}
use acb_transaction_webhook.Sepay.Amount.{
  is_digit, is_separator, group_fits, scan, without, amount_of, amount_behind, parse_amount_vnd,
}
use acb_transaction_webhook.Sepay.Amount.Spelling.{
  IsDigit, Groups, no_group, group, Leading, leading, Spells, plain, grouped,
}

pub scan-digit :
    (ch : ℕ) (rest : List ℕ) (s n g : ℕ)
    → IsDigit ch
    → scan (ch ∷ rest) s n g ≡ scan rest s (suc n) g
unfolding scan
scan-digit ch rest s n g h = simp (h)

scan-digits :
    (ds rest : List ℕ) (s n g : ℕ)
    → All IsDigit ds
    → scan (ds ++ rest) s n g ≡ scan rest s (n + length ds) g
scan-digits [] rest s n g _ = ap (λ k. scan rest s k g) (omega arith)
scan-digits (d ∷ ds) rest s n g (h, hs) =
    scan-digit d (ds ++ rest) s n g h
    ∙ scan-digits ds rest s (suc n) g hs
    ∙ ap (λ k. scan rest s k g) (omega arith)

pub separator_no_digit : (ch : ℕ) → is_separator ch ≡ true → is_digit ch ≡ false
separator_no_digit ch h = ground arith

digit_no_separator : (ch s : ℕ) → is_separator s ≡ true → IsDigit ch → (ch == s) ≡ false
digit_no_separator ch s hs h = ground arith

free_separator : (s ch : ℕ) → (s ≡ 0) ⊎ (s ≡ ch) → (not (s == 0) && not (s == ch)) ≡ false
free_separator s ch e = ground arith

-- A separator behind a complete group, in the first group and in a later one.
scan-separator :
    (separator s : ℕ) (rest : List ℕ) (n g : ℕ)
    → is_separator separator ≡ true
    → (s ≡ 0) ⊎ (s ≡ separator)
    → group_fits g n ≡ true
    → scan (separator ∷ rest) s n g ≡ scan rest separator 0 (suc g)
unfolding scan
scan-separator separator s rest n g h e fits =
    simp (separator_no_digit separator h, h, free_separator s separator e, fits)

pub without-digit :
    (ch separator : ℕ) (rest : List ℕ)
    → is_separator separator ≡ true
    → IsDigit ch
    → without separator (ch ∷ rest) ≡ ch ∷ without separator rest
unfolding without
without-digit ch separator rest hs h = simp (digit_no_separator ch separator hs h)

without-digits :
    (separator : ℕ) (ds rest : List ℕ)
    → is_separator separator ≡ true
    → All IsDigit ds
    → without separator (ds ++ rest) ≡ ds ++ without separator rest
without-digits separator [] rest hs _ = refl
without-digits separator (d ∷ ds) rest hs (h, hds) =
    without-digit d separator (ds ++ rest) hs h
    ∙ ap (d ∷◌) (without-digits separator ds rest hs hds)

pub scan-plain : (ds : List ℕ) (s n : ℕ) → All IsDigit ds → scan ds s n 0 ≡ some s
unfolding scan
scan-plain [] s n _ = refl
scan-plain (d ∷ ds) s n (h, hs) = scan-digit d ds s n 0 h ∙ scan-plain ds s (suc n) hs

later_fits : (g : ℕ) → group_fits (suc g) 3 ≡ true
later_fits g = ground arith

scan-Groups :
    (separator : ℕ) {text ds : List ℕ} (g : ℕ)
    → is_separator separator ≡ true
    → Groups separator text ds
    → scan text separator 3 (suc g) ≡ some separator
unfolding scan
scan-Groups separator g h no_group = ground arith
scan-Groups separator g h (group a b c {text = text} ha hb hc rest) =
    scan-separator separator separator (a ∷ b ∷ c ∷ text) 3 (suc g) h (inr refl) (later_fits g)
    ∙ scan-digits (a ∷ b ∷ c ∷ []) text separator 0 (suc (suc g)) (ha, (hb, (hc, tt)))
    ∙ scan-Groups separator (suc g) h rest

pub without-separator : (s : ℕ) (rest : List ℕ) → without s (s ∷ rest) ≡ without s rest
unfolding without
without-separator s rest = ground arith

without-Groups :
    (separator : ℕ) {text ds : List ℕ}
    → is_separator separator ≡ true
    → Groups separator text ds
    → without separator text ≡ ds
unfolding without
without-Groups separator h no_group = refl
without-Groups separator h (group a b c {text = text} ha hb hc rest) =
    without-separator separator (a ∷ b ∷ c ∷ text)
    ∙ without-digits separator (a ∷ b ∷ c ∷ []) text h (ha, (hb, (hc, tt)))
    ∙ ap (λ ds. a ∷ b ∷ c ∷ ds) (without-Groups separator h rest)

parse_amount_vnd-behind :
    (raw : List ℕ) → 1 ≤ length raw → parse_amount_vnd raw ≡ amount_behind raw (scan raw 0 0 0)
unfolding parse_amount_vnd
parse_amount_vnd-behind [] h = absurd (omega (arith, h))
parse_amount_vnd-behind (ch ∷ rest) h = refl

pub separator_not_zero : (s : ℕ) → is_separator s ≡ true → (s == 0) ≡ false
separator_not_zero s h = ground arith

pub behind-separator :
    (raw : List ℕ) (s : ℕ)
    → is_separator s ≡ true
    → amount_behind raw (some s) ≡ amount_of (without s raw)
unfolding amount_behind
behind-separator raw s h = simp (separator_not_zero s h)

Leading-length : {separator : ℕ} {text ds : List ℕ} → Leading separator 0 text ds → 1 ≤ length text
Leading-length (leading first {text = text} _ low high _) =
    omega (arith, length-append first text, low)

-- The scan of a text that starts with its first group: no separator, or the one of its groups.
amount-Leading :
    (separator : ℕ) {text ds : List ℕ}
    → is_separator separator ≡ true
    → Leading separator 0 text ds
    → amount_behind text (scan text 0 0 0) ≡ amount_of ds
unfolding scan amount_behind
amount-Leading separator h (leading first ds_first low high no_group) =
    ap (amount_behind (first ++ [])) (scan-digits first [] 0 0 0 ds_first)
amount-Leading separator h
      (leading first hf low high (group a b c {text = text} {digits = ds} ha hb hc rest)) =
    ap (amount_behind (first ++ separator ∷ a ∷ b ∷ c ∷ text)) (
      scan-digits first (separator ∷ a ∷ b ∷ c ∷ text) 0 0 0 hf
      ∙ scan-separator separator 0 (a ∷ b ∷ c ∷ text) (0 + length first) 0 h (inl refl)
          (ground arith)
      ∙ scan-digits (a ∷ b ∷ c ∷ []) text separator 0 1 (ha, (hb, (hc, tt)))
      ∙ scan-Groups separator 0 h rest)
    ∙ behind-separator (first ++ separator ∷ a ∷ b ∷ c ∷ text) separator h
    ∙ ap amount_of (
        without-digits separator first (separator ∷ a ∷ b ∷ c ∷ text) h hf
        ∙ ap (first ++◌) (without-Groups separator h (group a b c ha hb hc rest)))

-- What spells an amount is read as its digits.
pub parse_amount_vnd-Spells :
    {text ds : List ℕ} → Spells text ds → parse_amount_vnd text ≡ amount_of ds
unfolding amount_behind
parse_amount_vnd-Spells (plain ds h low) =
    parse_amount_vnd-behind ds low ∙ ap (amount_behind ds) (scan-plain ds 0 0 h)
parse_amount_vnd-Spells (grouped separator {text = text} h l) =
    parse_amount_vnd-behind text (Leading-length l) ∙ amount-Leading separator h l
