-- ===== src/Sepay/Notification.antt =====
-- `ParseNotification` of internal/sepay/parser.go and `ParseTransactionDate` of
-- internal/bankdate/date.go.
use mathlib.Core.Option.{map}
use acb_transaction_webhook.Base.{
  ℕ, String, Bool, true, false, not, ◌&&◌, ◌||◌, Option, none, some, List, [], ◌∷◌, ◌⊎◌, inl, inr,
  length, ltb, ◌==◌, if◌then◌else◌,
}
use acb_transaction_webhook.Base.Clock.{Instant}
use acb_transaction_webhook.Reconcile.{ℤ}
use acb_transaction_webhook.Sepay.Amount.{parse_amount_vnd, parse_balance_vnd}
use acb_transaction_webhook.Sepay.Texts.{
  Text, codes, trim_space, same, after_prefix, contains, cut_line, has_code, split_lines,
  trim_return, ◌>>=◌,
}

-- What an observation is recorded as.
pub data SepayReason : Type 0 where
  invalid_template outgoing account_mismatch invalid_amount invalid_transaction_date : SepayReason
  missing_reference edited_message reference_conflict : SepayReason
  accepted duplicate observation pre_activation : SepayReason

pub record Notification : Type 0 where
  pub amount_vnd : ℕ
  pub balance_vnd : Option ℤ
  pub account_number : Text
  pub bank_name : Text
  pub reference : Text
  pub description : Text
  pub transaction_at : Instant

-- The layouts of `ParseTransactionDate`.
abbrev pub with_time : List String
with_time =
    "02/01/2006 15:04:05" ∷ "02/01/2006 15:04" ∷ "02/01/2006T15:04:05" ∷ "2006-01-02 15:04:05"
    ∷ "2006-01-02T15:04:05" ∷ "2006-01-02T15:04:05Z07:00" ∷ "2006-01-02T15:04:05.999999999Z07:00"
    ∷ []

abbrev pub date_only : List String
date_only = "02/01/2006" ∷ "2006-01-02" ∷ []

-- `time.ParseInLocation` with the bank's location, by layout.
abbrev pub Layouts : Type 0
Layouts = String → Text → Option Instant

abbrev pub or_later : {A : Type 0} → Option A → Option A → Option A
or_later none o = o
or_later (some a) o = some a

unfoldable pub first_layout : Layouts → Bool → List String → Text → Option (Instant × Bool)
first_layout parse_in has_time [] s = none
first_layout parse_in has_time (layout ∷ rest) s =
    or_later (map (λ t. (t, has_time)) (parse_in layout s)) (first_layout parse_in has_time rest s)

-- `ParseTransactionDate`: the time, and whether the text has a time of day.
unfoldable pub parse_transaction_date : Layouts → Text → Option (Instant × Bool)
parse_transaction_date parse_in raw =
    let s = trim_space raw in
    if length s == 0
    then none
    else or_later (first_layout parse_in true with_time s) (first_layout parse_in false date_only s)

abbrev pub is_clean : Text → Bool
is_clean value =
    not (has_code 13 value)
    && not (has_code 0 value)
    && not (contains (codes "{{") value)
    && not (contains (codes "}}") value)

-- The value of a header line.
unfoldable pub clean_value : Option Text → Option Text
clean_value none = none
clean_value (some rest) = let v = trim_space rest in if is_clean v then some v else none

unfoldable pub header_values : List String → List Text → Option (List Text)
header_values [] lines = some []
header_values (prefix ∷ prefixes) [] = none
header_values (prefix ∷ prefixes) (line ∷ lines) = do
  value ← clean_value (after_prefix (codes prefix) (trim_return line))
  rest ← header_values prefixes lines
  some (value ∷ rest)

-- The balance, if its line is there, and the memo behind content=.
unfoldable pub read_content : Text → Option (Option ℤ × Text)
read_content content = elim (after_prefix (codes "balance=") content) [
  | none ↦ map (λ memo. (none, memo)) (after_prefix (codes "content=") content)
  | some after ↦ do
    cut ← cut_line after
    memo ← after_prefix (codes "content=") cut.1
    some (parse_balance_vnd (trim_space cut.0), memo)
]

-- The tests of the values, in the code's order.
unfoldable pub check_reference :
    ℕ → Text → Text → Text → Instant → Option ℤ × Text → SepayReason ⊎ Notification
check_reference amount account bank reference at content =
    if (length reference == 0) || ltb 200 (length reference)
    then inl missing_reference
    else inr (record {
      amount_vnd = amount;
      balance_vnd = content.0;
      account_number = account;
      bank_name = bank;
      reference = reference;
      description = content.1;
      transaction_at = at;
    })

unfoldable pub check_date :
    ℕ → Text → Text → Text → Option (Instant × Bool) → Option ℤ × Text → SepayReason ⊎ Notification
check_date amount account bank reference (some (at, true)) content =
    check_reference amount account bank reference at content
check_date amount account bank reference _ content = inl invalid_transaction_date

unfoldable pub check_amount :
    Layouts → Option ℕ → Text → Text → Text → Text → Option ℤ × Text → SepayReason ⊎ Notification
check_amount parse_in none account bank date reference content = inl invalid_amount
check_amount parse_in (some amount) account bank date reference content =
    check_date amount account bank reference (parse_transaction_date parse_in date) content

unfoldable pub check_values : Layouts → List Text → Option ℤ × Text → SepayReason ⊎ Notification
check_values parse_in (direction ∷ amount ∷ account ∷ bank ∷ date ∷ reference ∷ []) content =
    let checked =
      check_amount parse_in (parse_amount_vnd amount) account bank date reference content in
    if same direction (codes "ra")
    then inl outgoing
    else if not (same direction (codes "vào")) || (length account == 0) || (length bank == 0)
    then inl invalid_template
    else checked
check_values parse_in _ content = inl invalid_template

abbrev pub prefixes : List String
prefixes = "direction=" ∷ "amount=" ∷ "account=" ∷ "bank=" ∷ "time=" ∷ "reference=" ∷ []

-- The values behind the title line.
unfoldable pub titled_values : List Text → Option (List Text)
titled_values [] = none
titled_values (title ∷ lines) =
    let values = header_values prefixes lines in
    if same (trim_return title) (codes "SEPAY_STORE_V1") then values else none

-- The values and the content of a text of the fixed template.
unfoldable pub read_template : Text → Option (List Text × Option ℤ × Text)
read_template text = do
  split ← split_lines 7 text
  values ← titled_values split.0
  read ← read_content split.1
  some (values, read.0, read.1)

unfoldable pub judge_template :
    Layouts → Option (List Text × Option ℤ × Text) → SepayReason ⊎ Notification
judge_template parse_in none = inl invalid_template
judge_template parse_in (some (values, balance, memo)) =
    check_values parse_in values (balance, memo)

-- `ParseNotification` and, for an error, `notificationReviewReason`.
unfoldable pub parse_notification : Layouts → Text → SepayReason ⊎ Notification
parse_notification parse_in text =
    if ltb 4096 (length text)
    then inl invalid_template
    else judge_template parse_in (read_template text)
