-- ===== src/EventHub/Streams.antt =====
-- What a subscriber of internal/eventhub/hub.go gets of what is published since its subscription.
use acb_transaction_webhook.Base.{◌+◌, false, List, []}
use acb_transaction_webhook.EventHub.{new_hub, subscribe}
use acb_transaction_webhook.EventHub.Runs.{HubOp, hub_run, unsubscribes, published, run-Numbered}
use acb_transaction_webhook.EventHub.Since.{Stream, run-Since, subscribed-Since, Since-Stream}

-- Every subscriber, after any operations on a new hub, and after any further ones: its channel is
-- still there, open or closed. If it is open, what was read from it and what waits in it are exactly
-- the events published since the subscription, in order, with at most 128 waiting. If it is closed,
-- they are the first of those events, and its owner unsubscribed or it has been given 128 or more.
pub gapless_for_readers :
    (before after : List HubOp)
    → Stream
        ((hub_run before new_hub).next_id + 1)
        (published after)
        (unsubscribes ((hub_run before new_hub).next_id + 1) after)
        (hub_run after (subscribe (hub_run before new_hub)))
gapless_for_readers before after =
    let h = hub_run before new_hub in
    let numbered =
      run-Numbered before new_hub (record { open_numbers = tt; closed_numbers = tt }) in
    Since-Stream (h.next_id + 1) _ _ _
      (run-Since after (h.next_id + 1) [] false (subscribe h) (subscribed-Since h numbered))
