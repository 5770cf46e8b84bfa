-- ===== src/EventHub.antt =====
-- The hub that passes events on to subscribers: internal/eventhub/hub.go. A channel is its queue,
-- with what its reader has taken; a channel that is closed can still be read to its end.
pub mod Runs
pub mod Since
pub mod Streams
use acb_transaction_webhook.Base.{
  ℕ, ◌+◌, Bool, true, false, not, List, [], ◌∷◌, ◌++◌, map, length, ltb, ◌==◌, if◌then◌else◌,
}
use acb_transaction_webhook.Base.Rows.{filter_rows, count_rows}
use acb_transaction_webhook.Store.{JournalEntry}

-- `Event`: a row of the journal.
abbrev pub Event : Type 0
Event = JournalEntry

pub record Channel : Type 0 where
  pub id : ℕ
  pub queue : List Event
  pub received : List Event

pub record Hub : Type 0 where
  pub subscribers : List Channel
  pub closed : List Channel
  pub next_id : ℕ
  pub dropped : ℕ

-- `New`.
abbrev pub new_hub : Hub
new_hub = record { subscribers = []; closed = []; next_id = 0; dropped = 0 }

abbrev pub channel_size : ℕ
channel_size = 128

-- `Subscribe`.
unfoldable pub subscribe : Hub → Hub
subscribe h =
    let id = h.next_id + 1 in
    record h {
      subscribers = h.subscribers ++ record { id = id; queue = []; received = [] } ∷ [];
      next_id = id;
    }

abbrev pub has_id : ℕ → Channel → Bool
has_id id c = c.id == id

-- The function that `Subscribe` returns; a second call finds no channel.
unfoldable pub cancel : ℕ → Hub → Hub
cancel id h = record h {
  subscribers = filter_rows (λ c. not (has_id id c)) h.subscribers;
  closed = h.closed ++ filter_rows (has_id id) h.subscribers;
}

abbrev pub has_room : Channel → Bool
has_room c = ltb (length c.queue) channel_size

abbrev pub is_full : Channel → Bool
is_full c = not (has_room c)

abbrev pub push : Event → Channel → Channel
push e c = record c { queue = c.queue ++ e ∷ [] }

-- `Publish`: a subscriber without room is disconnected.
unfoldable pub publish : Event → Hub → Hub
publish e h = record h {
  subscribers = map (push e) (filter_rows has_room h.subscribers);
  closed = h.closed ++ filter_rows is_full h.subscribers;
  dropped = h.dropped + count_rows is_full h.subscribers;
}

-- A reader takes the next event of its channel.
abbrev pub take_next : List Event → Channel → Channel
take_next [] c = c
take_next (e ∷ rest) c = record c { queue = rest; received = c.received ++ e ∷ [] }

abbrev pub read_channel : ℕ → Channel → Channel
read_channel id c = if has_id id c then take_next c.queue c else c

unfoldable pub receive : ℕ → Hub → Hub
receive id h = record h {
  subscribers = map (read_channel id) h.subscribers;
  closed = map (read_channel id) h.closed;
}
