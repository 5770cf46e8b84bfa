-- ===== src/Sepay/Amount.antt =====
-- The amounts of a SePay message: `parseAmountVND` and `parseBalanceVND` of
-- internal/sepay/parser.go. A text is the list of its code points: the code walks its bytes, and the
-- bytes of what is not ASCII are refused as the code points are.
pub mod Spelling
pub mod Grouped
pub mod Exact
use acb_transaction_webhook.Base.{
  ℕ, zero, suc, ◌+◌, ◌-◌, ◌*◌, ◌^◌, Bool, not, ◌&&◌, ◌||◌, Option, none, some, List, [], ◌∷◌, ltb,
  leb, ◌==◌, if◌then◌else◌,
}
use mathlib.Core.Option.{map}
use acb_transaction_webhook.Reconcile.{ℤ, pos, negsuc}
use acb_transaction_webhook.Payments.Create.{max_safe_integer}

abbrev pub is_digit : ℕ → Bool
is_digit ch = leb 48 ch && leb ch 57

-- ',' and '.'.
abbrev pub is_separator : ℕ → Bool
is_separator ch = (ch == 44) || (ch == 46)

-- May a group of `group_length` digits end before a separator?
abbrev pub group_fits : ℕ → ℕ → Bool
group_fits groups group_length =
    if groups == 0 then leb 1 group_length && leb group_length 3 else group_length == 3

-- The loop over the text, with its three variables: the separator at its end, 0 for none, if the
-- last group is complete.
unfoldable pub scan : List ℕ → ℕ → ℕ → ℕ → Option ℕ
scan [] separator group_length groups =
    if ltb 0 groups && not (group_length == 3) then none else some separator
scan (ch ∷ rest) separator group_length groups =
    let digit = scan rest separator (suc group_length) groups in
    let group = scan rest ch 0 (suc groups) in
    if is_digit ch
    then digit
    else if not (is_separator ch) || not (separator == 0) && not (separator == ch)
    then none
    else if group_fits groups group_length
    then group
    else none

-- `strings.ReplaceAll(raw, string(separator), "")`.
unfoldable pub without : ℕ → List ℕ → List ℕ
without separator [] = []
without separator (ch ∷ rest) =
    let kept = without separator rest in if ch == separator then kept else ch ∷ kept

-- The value of a list of digits, as `strconv.ParseInt` reads it.
unfoldable pub digits_value : ℕ → List ℕ → ℕ
digits_value n [] = n
digits_value n (ch ∷ rest) = digits_value (n * 10 + (ch - 48)) rest

-- `strconv.ParseInt` of digits, which fails outside int64, and the bounds of an amount.
unfoldable pub amount_of : List ℕ → Option ℕ
amount_of digits =
    let n = digits_value 0 digits in
    if leb (2 ^ 63) n then none else if (n == 0) || ltb max_safe_integer n then none else some n

unfoldable pub amount_behind : List ℕ → Option ℕ → Option ℕ
amount_behind raw none = none
amount_behind raw (some separator) =
    amount_of (if separator == 0 then raw else without separator raw)

-- `parseAmountVND`.
unfoldable pub parse_amount_vnd : List ℕ → Option ℕ
parse_amount_vnd [] = none
parse_amount_vnd (ch ∷ rest) = amount_behind (ch ∷ rest) (scan (ch ∷ rest) 0 0 0)

-- `-n`.
abbrev pub negated : ℕ → ℤ
negated zero = pos 0
negated (suc n) = negsuc n

-- `parseBalanceVND` of a text without the space around it.
unfoldable pub parse_balance_vnd : List ℕ → Option ℤ
parse_balance_vnd [] = none
parse_balance_vnd (ch ∷ rest) =
    if ch == 45 then map negated (parse_amount_vnd rest) else map pos (parse_amount_vnd (ch ∷ rest))
