-- ===== src/Payments/Json.antt =====
-- Decoded JSON, and the tests of its shape: `validJSONNumbers`, `safeNumber` of
-- internal/payments/payos.go and `validWebhookShape` of webhook_service.go.
use acb_transaction_webhook.Base.{
  suc, String, str_eq, Bool, true, false, ◌&&◌, Option, none, some, List, [], ◌∷◌, leb,
  if◌then◌else◌,
}
use acb_transaction_webhook.Reconcile.{ℤ, pos, negsuc}
use acb_transaction_webhook.Payments.Create.{max_safe_integer}

-- The value of a number's text: an integer, another rational, or a text that is longer than 128 bytes
-- or has an exponent beyond 128, which is not evaluated.
pub data Number : Type 0 where
  integral : ℤ → Number
  fractional oversized : Number

-- A decoded value; an object has each of its keys once.
mutual
  pub data Json : Type 0 where
    null : Json
    text : String → Json
    flag : Bool → Json
    number : Number → Json
    array : Items → Json
    object : Fields → Json

  pub data Items : Type 0 where
    no_items : Items
    item : Json → Items → Items

  pub data Fields : Type 0 where
    no_fields : Fields
    field : String → Json → Fields → Fields

-- `body[key]`, with `none` for a key that is missing.
unfoldable pub member : String → Fields → Option Json
member key no_fields = none
member key (field k v rest) = if str_eq k key then some v else member key rest

-- `safeNumber` of a number.
unfoldable pub safe_number : Number → Bool
safe_number (integral (pos n)) = leb n max_safe_integer
safe_number (integral (negsuc n)) = leb (suc n) max_safe_integer
safe_number fractional = false
safe_number oversized = false

-- `safeNumber` of a member: what is missing or no number is not safe.
abbrev pub is_safe_member : Option Json → Bool
is_safe_member (some (number n)) = safe_number n
is_safe_member _ = false

unfoldable mutual
  pub valid_json_numbers : Json → Bool
  valid_json_numbers null = true
  valid_json_numbers (text s) = true
  valid_json_numbers (flag b) = true
  valid_json_numbers (number n) = safe_number n
  valid_json_numbers (array xs) = valid_item_numbers xs
  valid_json_numbers (object fs) = valid_field_numbers fs

  pub valid_item_numbers : Items → Bool
  valid_item_numbers no_items = true
  valid_item_numbers (item x xs) = valid_json_numbers x && valid_item_numbers xs

  pub valid_field_numbers : Fields → Bool
  valid_field_numbers no_fields = true
  valid_field_numbers (field k v fs) = valid_json_numbers v && valid_field_numbers fs

abbrev pub is_text : Option Json → Bool
is_text (some (text s)) = true
is_text _ = false

abbrev pub is_flag : Option Json → Bool
is_flag (some (flag b)) = true
is_flag _ = false

-- Absent, or a text; the second also allows null.
abbrev pub is_optional_text : Option Json → Bool
is_optional_text none = true
is_optional_text v = is_text v

abbrev pub is_nullable_text : Option Json → Bool
is_nullable_text (some null) = true
is_nullable_text v = is_optional_text v

unfoldable pub all_members : (Option Json → Bool) → List String → Fields → Bool
all_members test [] fs = true
all_members test (key ∷ keys) fs = test (member key fs) && all_members test keys fs

unfoldable pub valid_data_shape : Option Json → Bool
valid_data_shape (some (object d)) =
    is_safe_member (member "orderCode" d)
    && is_safe_member (member "amount" d)
    && all_members is_optional_text
        ("description" ∷ "accountNumber" ∷ "reference" ∷ "transactionDateTime" ∷ "currency"
          ∷ "paymentLinkId" ∷ "code" ∷ "desc" ∷ [])
        d
    && all_members is_nullable_text
        ("counterAccountBankId" ∷ "counterAccountBankName" ∷ "counterAccountName"
          ∷ "counterAccountNumber" ∷ "virtualAccountName" ∷ "virtualAccountNumber" ∷ [])
        d
valid_data_shape _ = false

-- `validWebhookShape`.
unfoldable pub valid_webhook_shape : Fields → Bool
valid_webhook_shape body =
    valid_json_numbers (object body)
    && is_text (member "code" body)
    && is_flag (member "success" body)
    && is_optional_text (member "desc" body)
    && valid_data_shape (member "data" body)
