-- ===== src/EventHub/Runs.antt =====
-- Sequences of the operations of internal/eventhub/hub.go, and the numbers of its channels.
use acb_transaction_webhook.Base.{
  ℕ, ◌+◌, ◌≤◌, ◌≡◌, refl, Bool, false, not, ◌||◌, List, [], ◌∷◌, ◌++◌, All, All-append, ◌==◌,
  Bool-cases, inl, inr, arith,
}
use acb_transaction_webhook.Base.Rows.{filter_rows, All-map, All-filter, All-weaken}
use acb_transaction_webhook.EventHub.{
  Event, Channel, Hub, subscribe, cancel, publish, receive, has_id, has_room, is_full, push,
  take_next, read_channel,
}

pub data HubOp : Type 0 where
  subscribes : HubOp
  cancels receives : ℕ → HubOp
  publishes : Event → HubOp

unfoldable pub hub_step : HubOp → Hub → Hub
hub_step subscribes h = subscribe h
hub_step (cancels id) h = cancel id h
hub_step (receives id) h = receive id h
hub_step (publishes e) h = publish e h

unfoldable pub hub_run : List HubOp → Hub → Hub
hub_run [] h = h
hub_run (op ∷ ops) h = hub_run ops (hub_step op h)

-- Does the subscriber `id` unsubscribe in one of the operations?
unfoldable pub is_cancel_of : ℕ → HubOp → Bool
is_cancel_of id (cancels other) = other == id
is_cancel_of id _ = false

unfoldable pub unsubscribes : ℕ → List HubOp → Bool
unsubscribes id [] = false
unsubscribes id (op ∷ ops) = is_cancel_of id op || unsubscribes id ops

unfoldable pub published_by : HubOp → List Event
published_by (publishes e) = e ∷ []
published_by _ = []

unfoldable pub published : List HubOp → List Event
published [] = []
published (op ∷ ops) = published_by op ++ published ops

-- Every channel has a number that was drawn.
pub record Numbered (h : Hub) : Type 0 where
  pub open_numbers : All (λ c. c.id ≤ h.next_id) h.subscribers
  pub closed_numbers : All (λ c. c.id ≤ h.next_id) h.closed

taken_id : (queue : List Event) (c : Channel) → (take_next queue c).id ≡ c.id
taken_id [] c = refl
taken_id (e ∷ rest) c = refl

pub read_channel_id : (id : ℕ) (c : Channel) → (read_channel id c).id ≡ c.id
read_channel_id id c = elim (Bool-cases (has_id id c)) [
  | inl mine ↦ rw mine (taken_id c.queue c)
  | inr other ↦ rw other refl
]

subscribe-Numbered : (h : Hub) → Numbered h → Numbered (subscribe h)
unfolding subscribe
subscribe-Numbered h n =
    let P = λ (c : Channel). c.id ≤ h.next_id in
    let Q = λ (c : Channel). c.id ≤ h.next_id + 1 in
    record {
      open_numbers =
          All-append Q h.subscribers _
            (All-weaken P Q h.subscribers (λ c le. omega (arith, le)) n.open_numbers)
            (omega arith, tt);
      closed_numbers = All-weaken P Q h.closed (λ c le. omega (arith, le)) n.closed_numbers;
    }

cancel-Numbered : (id : ℕ) (h : Hub) → Numbered h → Numbered (cancel id h)
unfolding cancel
cancel-Numbered id h n =
    let P = λ (c : Channel). c.id ≤ h.next_id in
    record {
      open_numbers =
          All-filter P P (λ c. not (has_id id c)) h.subscribers (λ c t le. le) n.open_numbers;
      closed_numbers =
          All-append P h.closed _ n.closed_numbers
            (All-filter P P (has_id id) h.subscribers (λ c t le. le) n.open_numbers);
    }

receive-Numbered : (id : ℕ) (h : Hub) → Numbered h → Numbered (receive id h)
unfolding receive
receive-Numbered id h n =
    let P = λ (c : Channel). c.id ≤ h.next_id in
    let read : (c : Channel) → c.id ≤ h.next_id → (read_channel id c).id ≤ h.next_id =
      λ c le. omega (arith, read_channel_id id c, le) in
    record {
      open_numbers = All-map P P (read_channel id) h.subscribers read n.open_numbers;
      closed_numbers = All-map P P (read_channel id) h.closed read n.closed_numbers;
    }

publish-Numbered : (e : Event) (h : Hub) → Numbered h → Numbered (publish e h)
unfolding publish
publish-Numbered e h n =
    let P = λ (c : Channel). c.id ≤ h.next_id in
    record {
      open_numbers =
          All-map P P (push e) (filter_rows has_room h.subscribers) (λ c le. le)
            (All-filter P P has_room h.subscribers (λ c t le. le) n.open_numbers);
      closed_numbers =
          All-append P h.closed _ n.closed_numbers
            (All-filter P P is_full h.subscribers (λ c t le. le) n.open_numbers);
    }

step-Numbered : (op : HubOp) (h : Hub) → Numbered h → Numbered (hub_step op h)
unfolding hub_step
step-Numbered subscribes h n = subscribe-Numbered h n
step-Numbered (cancels id) h n = cancel-Numbered id h n
step-Numbered (receives id) h n = receive-Numbered id h n
step-Numbered (publishes e) h n = publish-Numbered e h n

pub run-Numbered : (ops : List HubOp) (h : Hub) → Numbered h → Numbered (hub_run ops h)
unfolding hub_run
run-Numbered [] h n = n
run-Numbered (op ∷ ops) h n = run-Numbered ops (hub_step op h) (step-Numbered op h n)
