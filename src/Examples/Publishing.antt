-- ===== src/Examples/Publishing.antt =====
-- Runs of the journal publisher.
use acb_transaction_webhook.Base.{◌+◌, ◌≡◌, true, List, [], ◌∷◌, arith}
use acb_transaction_webhook.Store.{JournalEntry}
use acb_transaction_webhook.EventHub.{new_hub, subscribe}
use acb_transaction_webhook.EventHub.Runs.{
  HubOp, subscribes, cancels, receives, publishes, hub_run, published, unsubscribes,
}
use acb_transaction_webhook.EventHub.Since.{Stream}
use acb_transaction_webhook.EventHub.Streams.{gapless_for_readers}
use acb_transaction_webhook.Journal.{JournalPublisher, unread, process_times}
use acb_transaction_webhook.Journal.Gapless.{IsIncreasing, process_times-unread}
use acb_transaction_webhook.Examples.{journal_entry}

-- Rows 1 to 4 have been deleted.
abbrev rows : List JournalEntry
rows =
    record journal_entry { seq = 5 }
    ∷ record journal_entry { seq = 6 }
    ∷ record journal_entry { seq = 9 }
    ∷ []

abbrev publisher : JournalPublisher
publisher = record { cursor = 2; ready = true }

rows-IsIncreasing : IsIncreasing rows
unfolding IsIncreasing
rows-IsIncreasing = ((omega arith, (omega arith, tt)), ((omega arith, tt), (tt, tt)))

process_times-unread_example :
    ((process_times 1 rows publisher).0 ≡ unread 2 rows)
    × (unread (process_times 1 rows publisher).1.cursor rows ≡ [])
process_times-unread_example = process_times-unread 1 rows publisher rows-IsIncreasing (omega arith)

abbrev earlier_ops : List HubOp
earlier_ops = subscribes ∷ publishes journal_entry ∷ []

-- The second subscriber reads one of its two events and leaves.
abbrev later_ops : List HubOp
later_ops =
    publishes (record journal_entry { seq = 2 })
    ∷ receives 2
    ∷ publishes (record journal_entry { seq = 3 })
    ∷ cancels 2
    ∷ publishes (record journal_entry { seq = 4 })
    ∷ []

gapless_for_readers_example :
    Stream
      ((hub_run earlier_ops new_hub).next_id + 1)
      (published later_ops)
      (unsubscribes ((hub_run earlier_ops new_hub).next_id + 1) later_ops)
      (hub_run later_ops (subscribe (hub_run earlier_ops new_hub)))
gapless_for_readers_example = gapless_for_readers earlier_ops later_ops
