-- ===== src/Sepay/Ingest/Judge.antt =====
-- What `IngestSePayNotification` of internal/storage/sepay.go decides of an observation, in the order
-- of its tests.
use acb_transaction_webhook.Base.{
  String, str_eq, Bool, true, false, not, ◌&&◌, ◌||◌, Option, none, some, List, length, Result, ok,
  err, ◌>>=◌, ltb, ◌==◌, if◌then◌else◌, seal_failed, no_rows,
}
use acb_transaction_webhook.Base.Rows.{find_row, has_row}
use acb_transaction_webhook.Payments.Create.{max_safe_integer}
use acb_transaction_webhook.Sepay.Texts.{codes, trim_space}
use acb_transaction_webhook.Sepay.Notification.{
  SepayReason, invalid_template, invalid_amount, invalid_transaction_date, missing_reference,
  edited_message, reference_conflict, accepted, duplicate, observation, pre_activation,
}
use acb_transaction_webhook.Sepay.Tables.{
  payload, inbox_row, Keyring, TelegramRow, SepayReceipt, SepayStore, Plain, int_eq,
}
use acb_transaction_webhook.Sepay.Ingest.{
  Mode, observe, SepayCredit, TelegramInput, Digester, sepay_payload_hashes,
}

-- A known observation again; evidence that contradicts what is kept, with the hash of the latter; the
-- reason that the new row gets, with its transaction and whether the message was seen before; a new
-- credit with its canonical hash.
pub data Decision : Type 0 where
  replays : TelegramRow → Decision
  quarantines : SepayReason → String → Decision
  finishes : Bool → SepayReason → Option String → Decision
  books : SepayCredit → String → Decision

abbrev pub of_update : TelegramInput → TelegramRow → Bool
of_update in_ r = (r.bot_id == in_.bot_id) && int_eq r.update_id in_.update_id

-- Another update with the same message.
abbrev pub of_same_message : TelegramInput → TelegramRow → Bool
of_same_message in_ r =
    (r.bot_id == in_.bot_id)
    && int_eq r.chat_id in_.chat_id
    && (r.message_id == in_.message_id)
    && not (int_eq r.update_id in_.update_id)

abbrev pub of_receipt : String → String → SepayReceipt → Bool
of_receipt store reference r = str_eq r.store_key store && str_eq r.reference reference

abbrev pub is_edited : Option SepayReason → Bool
is_edited (some edited_message) = true
is_edited _ = false

unfoldable pub judge_known : TelegramInput → String → Option TelegramRow → Result Decision
judge_known in_ hash none = err no_rows
judge_known in_ hash (some r) =
    if not (str_eq r.payload_hash hash) || not (str_eq r.store_key in_.store_key)
    then ok (
        quarantines (if is_edited in_.review_reason then edited_message else reference_conflict)
          r.payload_hash)
    else ok (replays r)

-- What the first row of the same message says of this one.
abbrev pub finish_again : TelegramRow → SepayReason → Decision
finish_again r accepted = finishes true duplicate r.transaction_id
finish_again r duplicate = finishes true duplicate r.transaction_id
finish_again r observation = finishes true duplicate r.transaction_id
finish_again r reason = finishes true reason none

abbrev pub unsealed_payload : Option Plain → Result String
unsealed_payload (some (payload raw)) = ok raw
unsealed_payload _ = err seal_failed

unfoldable pub judge_previous :
    Keyring → Digester → TelegramInput → String → TelegramRow → Result Decision
judge_previous keys h in_ message_hash r = do
  raw ← unsealed_payload (keys.unseal r.payload_envelope (inbox_row in_.bot_id r.update_id))
  hashes ← sepay_payload_hashes h raw
  if is_edited in_.review_reason
      then ok (quarantines edited_message r.payload_hash)
      else if not (str_eq hashes.1 message_hash) || not (str_eq r.store_key in_.store_key)
      then ok (quarantines reference_conflict r.payload_hash)
      else ok (finish_again r r.reason)

abbrev pub is_observed : Mode → Bool
is_observed observe = true
is_observed _ = false

-- A credit whose reference has no receipt yet.
unfoldable pub judge_unseen : TelegramInput → SepayCredit → String → Decision
judge_unseen in_ credit hash =
    if ltb credit.transaction_at in_.activation_at
    then finishes false pre_activation none
    else if is_observed in_.mode
    then finishes false observation none
    else books credit hash

unfoldable pub judge_known_receipt :
    TelegramInput → SepayCredit → String → Option SepayReceipt → Decision
judge_known_receipt in_ credit hash none = judge_unseen in_ credit hash
judge_known_receipt in_ credit hash (some r) =
    if str_eq r.canonical_hash hash
    then finishes false duplicate (some r.transaction_id)
    else quarantines reference_conflict r.canonical_hash

unfoldable pub judge_credit : Digester → TelegramInput → List SepayReceipt → SepayCredit → Decision
judge_credit h in_ receipts credit =
    let known = find_row (of_receipt in_.store_key credit.reference) receipts in
    let judged = judge_known_receipt in_ credit (h.canonical in_ credit) known in
    if (credit.amount_vnd == 0) || ltb max_safe_integer credit.amount_vnd
    then finishes false invalid_amount none
    else if credit.transaction_at == 0
    then finishes false invalid_transaction_date none
    else if (length (trim_space (codes credit.reference)) == 0)
        || ltb 200 (length (codes credit.reference))
    then finishes false missing_reference none
    else judged

unfoldable pub judge_evidence :
    Digester
    → TelegramInput
    → List SepayReceipt
    → Option SepayReason
    → Option SepayCredit
    → Decision
judge_evidence h in_ receipts (some reason) credit = finishes false reason none
judge_evidence h in_ receipts none none = finishes false invalid_template none
judge_evidence h in_ receipts none (some credit) = judge_credit h in_ receipts credit

-- The first observation of a message.
unfoldable pub judge_first : Digester → TelegramInput → List SepayReceipt → Decision
judge_first h in_ receipts = judge_evidence h in_ receipts in_.review_reason in_.credit

unfoldable pub judge_new :
    Keyring
    → Digester
    → TelegramInput
    → String
    → List SepayReceipt
    → Option TelegramRow
    → Result Decision
judge_new keys h in_ message_hash receipts (some r) = judge_previous keys h in_ message_hash r
judge_new keys h in_ message_hash receipts none = ok (judge_first h in_ receipts)

-- The decision on a store, by whether the update was known; the rows are those before its insertion.
unfoldable pub judge_observation :
    Keyring → Digester → TelegramInput → String → String → SepayStore → Result Decision
judge_observation keys h in_ payload_hash message_hash st =
    let known = judge_known in_ payload_hash (find_row (of_update in_) st.telegram_inbox) in
    let new =
      judge_new keys h in_ message_hash st.receipts
        (find_row (of_same_message in_) st.telegram_inbox) in
    if has_row (of_update in_) st.telegram_inbox then known else new
