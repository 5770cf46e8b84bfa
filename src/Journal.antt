-- ===== src/Journal.antt =====
-- The journal and its publisher: internal/storage/journal.go and
-- internal/realtimestream/journal_publisher.go. All rows are of the epoch "ep1". The table lists
-- them in the order of their seq, which is the rowid.
pub mod Gapless
use acb_transaction_webhook.Base.{
  ℕ, zero, suc, ◌+◌, ◌-◌, Bool, true, false, ◌&&◌, ◌||◌, ◌==◌, List, [], ◌∷◌, ◌++◌, take, length,
  min, max, ltb, leb, if◌then◌else◌,
}
use acb_transaction_webhook.Base.Rows.{filter_rows}
use acb_transaction_webhook.Store.{JournalEntry}
use acb_transaction_webhook.Outbox.{max_seq}

-- `GetMinJournalSeq`, 0 if there is no row.
pub min_seq : List JournalEntry → ℕ
min_seq [] = 0
min_seq (e ∷ []) = e.seq
min_seq (e ∷ f ∷ es) = min e.seq (min_seq (f ∷ es))

-- `seq > ?` in the order of seq.
abbrev pub unread : ℕ → List JournalEntry → List JournalEntry
unread cursor rows = filter_rows (λ e. ltb cursor e.seq) rows

-- `ReadJournalEvents`.
abbrev pub read_journal_events : ℕ → ℕ → List JournalEntry → List JournalEntry
read_journal_events cursor limit rows =
    take (if limit == 0 || ltb 1000 limit then 100 else limit) (unread cursor rows)

abbrev pub journal_batch_size : ℕ
journal_batch_size = 250

pub record JournalPublisher : Type 0 where
  pub cursor : ℕ
  pub ready : Bool

-- `NewJournalPublisher` and `Init`.
abbrev pub new_journal_publisher : JournalPublisher
new_journal_publisher = record { cursor = 0; ready = false }

unfoldable pub init : List JournalEntry → JournalPublisher → JournalPublisher
init rows p = record { cursor = max_seq rows; ready = true }

-- The jump over rows that retention has deleted.
unfoldable pub retained_cursor : List JournalEntry → ℕ → ℕ
retained_cursor rows cursor =
    if ltb 0 (min_seq rows) && ltb cursor (min_seq rows - 1) then min_seq rows - 1 else cursor

-- The loop over the entries that are published.
pub advance : ℕ → List JournalEntry → ℕ
advance cursor [] = cursor
advance cursor (e ∷ es) = advance (if ltb cursor e.seq then e.seq else cursor) es

-- `process`, under a live context: what is published, the publisher, and whether it wakes itself.
unfoldable pub process :
    List JournalEntry → JournalPublisher → (List JournalEntry × Bool) × JournalPublisher
process rows p =
    let cursor = retained_cursor rows p.cursor in
    let entries = read_journal_events cursor journal_batch_size rows in
    (
      (entries, leb journal_batch_size (length entries)),
      record p { cursor = advance cursor entries },
    )

-- `Run`, for a number of wakes over a journal that does not change: all that is published.
pub process_times : ℕ → List JournalEntry → JournalPublisher → List JournalEntry × JournalPublisher
process_times zero rows p = ([], p)
process_times (suc n) rows p =
    let (batch, p') = process rows p in
    let (rest, p'') = process_times n rows p' in (batch.0 ++ rest, p'')
