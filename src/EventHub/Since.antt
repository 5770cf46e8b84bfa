-- ===== src/EventHub/Since.antt =====
-- What each operation of internal/eventhub/hub.go does to the channel of one subscriber.
use mathlib.Core.Path.{subst}
use acb_transaction_webhook.Base.{
  ℕ, ◌+◌, ◌≤◌, ◌≡◌, refl, sym, ap, ◌∙◌, Bool, true, false, not, ◌||◌, List, [], ◌∷◌, ◌++◌,
  append_assoc, append-nil, length, length-append, All, All-append, ltb→lt, lt→ltb, Bool-cases, ◌⊎◌,
  inl, inr, ◌==◌, ==_iff, arith, map,
}
use acb_transaction_webhook.Base.Rows.{filter_rows, has_row, All-map, All-filter, All-weaken}
use acb_transaction_webhook.EventHub.{
  Event, Channel, Hub, channel_size, subscribe, cancel, publish, receive, has_id, has_room, is_full,
  push, take_next, read_channel,
}
use acb_transaction_webhook.EventHub.Runs.{
  HubOp, subscribes, cancels, receives, publishes, hub_step, hub_run, is_cancel_of, unsubscribes,
  published_by, published, Numbered, read_channel_id,
}

-- What a channel has been given, in order.
abbrev pub history : Channel → List Event
history c = c.received ++ c.queue

-- A subscriber has been given all the events.
abbrev pub IsServed : List Event → Channel → Type 0
IsServed events c = (history c ≡ events) × (length c.queue ≤ channel_size)

-- A closed channel has been given the first of the events, and was left behind only if its owner
-- unsubscribed or 128 events were waiting.
abbrev pub IsCut : List Event → Bool → Channel → Type 0
IsCut events left c =
    (after : List Event) × (events ≡ history c ++ after)
    × ((left ≡ true) ⊎ (channel_size ≤ length (history c)))

-- The channel of a number, open or closed.
pub record Stream (id : ℕ) (events : List Event) (left : Bool) (h : Hub) : Type 0 where
  pub present : (has_row (has_id id) h.subscribers || has_row (has_id id) h.closed) ≡ true
  pub open_stream : All (IsServed events) (filter_rows (has_id id) h.subscribers)
  pub closed_stream : All (IsCut events left) (filter_rows (has_id id) h.closed)

-- The same, channel by channel, and with the number drawn.
abbrev IsLive : ℕ → List Event → Channel → Type 0
IsLive id events c = has_id id c ≡ true → IsServed events c

abbrev IsEnded : ℕ → List Event → Bool → Channel → Type 0
IsEnded id events left c = has_id id c ≡ true → IsCut events left c

pub record Since (id : ℕ) (events : List Event) (left : Bool) (h : Hub) : Type 0 where
  drawn : id ≤ h.next_id
  present : (has_row (has_id id) h.subscribers || has_row (has_id id) h.closed) ≡ true
  live : All (IsLive id events) h.subscribers
  ended : All (IsEnded id events left) h.closed

-- Reading moves an event from the queue to the reader.
taken :
    (queue : List Event) (c : Channel)
    → c.queue ≡ queue
    → (history (take_next queue c) ≡ history c)
      × (length (take_next queue c).queue ≤ length c.queue)
taken [] c e = (refl, omega arith)
taken (x ∷ rest) c e =
    let size = ap (λ (es : List Event). length es) e in
    (
      append_assoc c.received (x ∷ []) rest ∙ ap (λ (es : List Event). c.received ++ es) (sym e),
      omega (arith, size),
    )

read_channel_keeps :
    (id : ℕ) (c : Channel)
    → (history (read_channel id c) ≡ history c)
      × (length (read_channel id c).queue ≤ length c.queue)
read_channel_keeps id c = elim (Bool-cases (has_id id c)) [
  | inl mine ↦ rw mine (taken c.queue c refl)
  | inr other ↦ rw other (refl, omega arith)
]

has_row-append :
    (p : Channel → Bool) (xs ys : List Channel)
    → has_row p (xs ++ ys) ≡ (has_row p xs || has_row p ys)
has_row-append p [] ys = refl
has_row-append p (x ∷ xs) ys = ground (arith, has_row-append p xs ys)

has_row-map :
    (p : Channel → Bool) (f : Channel → Channel) (xs : List Channel)
    → ((c : Channel) → p (f c) ≡ p c)
    → has_row p (map f xs) ≡ has_row p xs
has_row-map p f [] same = refl
has_row-map p f (x ∷ xs) same = ground (arith, same x, has_row-map p f xs same)

-- A row that is found is kept by a test or by its negation.
has_row-parts :
    (p q : Channel → Bool) (xs : List Channel)
    → has_row p xs ≡ true
    → (has_row p (filter_rows q xs) || has_row p (filter_rows (λ c. not (q c)) xs)) ≡ true
has_row-parts p q [] h = h
has_row-parts p q (x ∷ xs) h = ground (arith, h, has_row-parts p q xs)

read_id : (n id : ℕ) (c : Channel) → has_id id (read_channel n c) ≡ has_id id c
read_id n id c = ap (λ k. k == id) (read_channel_id n c)

pushed :
    (id : ℕ) (events : List Event) (e : Event) (c : Channel)
    → has_room c ≡ true
    → IsLive id events c
    → IsLive id (events ++ e ∷ []) (push e c)
pushed id events e c room live mine =
    let served = live mine in
    (
      sym (append_assoc c.received c.queue (e ∷ []))
          ∙ ap (λ (es : List Event). es ++ e ∷ []) served.0,
      omega (arith, length-append c.queue (e ∷ []), ltb→lt (length c.queue) channel_size room),
    )

-- The events that a closed channel no longer gets.
later_cut :
    (id : ℕ) (events more : List Event) (left : Bool) (c : Channel)
    → IsEnded id events left c
    → IsEnded id (events ++ more) left c
later_cut id events more left c ended mine =
    let cut = ended mine in
    (
      cut.0 ++ more,
      ap (λ (es : List Event). es ++ more) cut.1 ∙ append_assoc (history c) cut.0 more,
      cut.2,
    )

overrun :
    (id : ℕ) (events : List Event) (e : Event) (left : Bool) (c : Channel)
    → is_full c ≡ true
    → IsLive id events c
    → IsEnded id (events ++ e ∷ []) left c
overrun id events e left c full live mine =
    let served = live mine in
    let many : channel_size ≤ length c.queue =
      ground (arith, full, lt→ltb (length c.queue) channel_size) in
    (
      e ∷ [],
      ap (λ (es : List Event). es ++ e ∷ []) (sym served.0),
      inr (omega (arith, many, length-append c.received c.queue)),
    )

publish-Since :
    (id : ℕ) (events : List Event) (left : Bool) (e : Event) (h : Hub)
    → Since id events left h
    → Since id (events ++ e ∷ []) left (publish e h)
unfolding publish
publish-Since id events left e h s =
    let after = events ++ e ∷ [] in
    let Q = λ (c : Channel). (has_room c ≡ true) × IsLive id events c in
    record {
      drawn = s.drawn;
      present = ground (
        arith,
        s.present,
        has_row-map (has_id id) (push e) (filter_rows has_room h.subscribers) (λ c. refl),
        has_row-append (has_id id) h.closed (filter_rows is_full h.subscribers),
        has_row-parts (has_id id) has_room h.subscribers,
      );
      live =
          All-map Q (IsLive id after) (push e) (filter_rows has_room h.subscribers)
            (λ c q. pushed id events e c q.0 q.1)
            (All-filter (IsLive id events) Q has_room h.subscribers (λ c t l. (t, l)) s.live);
      ended =
          All-append (IsEnded id after left) h.closed (filter_rows is_full h.subscribers)
            (All-weaken (IsEnded id events left) (IsEnded id after left) h.closed
              (λ c x. later_cut id events (e ∷ []) left c x) s.ended)
            (All-filter (IsLive id events) (IsEnded id after left) is_full h.subscribers
              (λ c t l. overrun id events e left c t l) s.live);
    }

subscribe-Since :
    (id : ℕ) (events : List Event) (left : Bool) (h : Hub)
    → Since id events left h
    → Since id events left (subscribe h)
unfolding subscribe
subscribe-Since id events left h s =
    let new : Channel = record { id = h.next_id + 1; queue = []; received = [] } in
    record {
      drawn = omega (arith, s.drawn);
      present = ground (arith, s.present, has_row-append (has_id id) h.subscribers (new ∷ []));
      live =
          All-append (IsLive id events) h.subscribers (new ∷ []) s.live
            ((λ mine. absurd (ground (arith, s.drawn, mine))), tt);
      ended = s.ended;
    }

left_now :
    (id other : ℕ) (events : List Event) (left : Bool) (c : Channel)
    → has_id other c ≡ true
    → IsLive id events c
    → IsEnded id events (left || (other == id)) c
left_now id other events left c theirs live mine =
    ([], sym (append-nil (history c) ∙ (live mine).0), inl (ground (arith, theirs, mine)))

left_before :
    (id : ℕ) (events : List Event) (left more : Bool) (c : Channel)
    → IsEnded id events left c
    → IsEnded id events (left || more) c
left_before id events left more c ended mine = let cut = ended mine in (cut.0, cut.1, weaker cut.2)
  where
    weaker :
        (left ≡ true) ⊎ (channel_size ≤ length (history c))
        → ((left || more) ≡ true) ⊎ (channel_size ≤ length (history c))
    weaker (inl gone) = inl (ground (arith, gone))
    weaker (inr many) = inr many

cancel-Since :
    (id other : ℕ) (events : List Event) (left : Bool) (h : Hub)
    → Since id events left h
    → Since id events (left || (other == id)) (cancel other h)
unfolding cancel
cancel-Since id other events left h s = record {
  drawn = s.drawn;
  present = ground (
    arith,
    s.present,
    has_row-append (has_id id) h.closed (filter_rows (has_id other) h.subscribers),
    has_row-parts (has_id id) (has_id other) h.subscribers,
  );
  live =
      All-filter (IsLive id events) (IsLive id events) (λ c. not (has_id other c)) h.subscribers
        (λ c t l. l) s.live;
  ended =
      All-append (IsEnded id events (left || (other == id))) h.closed _
        (All-weaken (IsEnded id events left) (IsEnded id events (left || (other == id))) h.closed
          (λ c x. left_before id events left (other == id) c x) s.ended)
        (All-filter (IsLive id events) (IsEnded id events (left || (other == id))) (has_id other)
          h.subscribers (λ c t l. left_now id other events left c t l) s.live);
}

read_live :
    (n id : ℕ) (events : List Event) (c : Channel)
    → IsLive id events c
    → IsLive id events (read_channel n c)
read_live n id events c live mine =
    let served = live (sym (read_id n id c) ∙ mine) in
    let kept = read_channel_keeps n c in (kept.0 ∙ served.0, omega (arith, kept.1, served.1))

read_closed :
    (n id : ℕ) (events : List Event) (left : Bool) (c : Channel)
    → IsEnded id events left c
    → IsEnded id events left (read_channel n c)
read_closed n id events left c ended mine =
    let same = sym (read_channel_keeps n c).0 in
    let cut = ended (sym (read_id n id c) ∙ mine) in
    (
      cut.0,
      cut.1 ∙ ap (λ (es : List Event). es ++ cut.0) same,
      subst (λ (es : List Event). (left ≡ true) ⊎ (channel_size ≤ length es)) same cut.2,
    )

receive-Since :
    (n id : ℕ) (events : List Event) (left : Bool) (h : Hub)
    → Since id events left h
    → Since id events left (receive n h)
unfolding receive
receive-Since n id events left h s = record {
  drawn = s.drawn;
  present = ground (
    arith,
    s.present,
    has_row-map (has_id id) (read_channel n) h.subscribers (read_id n id),
    has_row-map (has_id id) (read_channel n) h.closed (read_id n id),
  );
  live =
      All-map (IsLive id events) (IsLive id events) (read_channel n) h.subscribers
        (read_live n id events) s.live;
  ended =
      All-map (IsEnded id events left) (IsEnded id events left) (read_channel n) h.closed
        (read_closed n id events left) s.ended;
}

or_false : (b : Bool) → (b || false) ≡ b
or_false true = refl
or_false false = refl

-- An operation that publishes nothing and unsubscribes nobody.
quietly :
    (id : ℕ) (events : List Event) (left : Bool) (h : Hub)
    → Since id events left h
    → Since id (events ++ []) (left || false) h
quietly id events left h s =
    subst (λ (es : List Event). Since id es (left || false) h) (sym (append-nil events))
      (subst (λ (b : Bool). Since id events b h) (sym (or_false left)) s)

step-Since :
    (op : HubOp) (id : ℕ) (events : List Event) (left : Bool) (h : Hub)
    → Since id events left h
    → Since id (events ++ published_by op) (left || is_cancel_of id op) (hub_step op h)
unfolding hub_step published_by is_cancel_of
step-Since (publishes e) id events left h s =
    subst (λ (b : Bool). Since id (events ++ e ∷ []) b (publish e h)) (sym (or_false left))
      (publish-Since id events left e h s)
step-Since subscribes id events left h s =
    quietly id events left (subscribe h) (subscribe-Since id events left h s)
step-Since (cancels other) id events left h s =
    subst (λ (es : List Event). Since id es (left || (other == id)) (cancel other h))
      (sym (append-nil events)) (cancel-Since id other events left h s)
step-Since (receives n) id events left h s =
    quietly id events left (receive n h) (receive-Since n id events left h s)

or_assoc : (a b c : Bool) → ((a || b) || c) ≡ (a || (b || c))
or_assoc true b c = refl
or_assoc false b c = refl

pub run-Since :
    (ops : List HubOp) (id : ℕ) (events : List Event) (left : Bool) (h : Hub)
    → Since id events left h
    → Since id (events ++ published ops) (left || unsubscribes id ops) (hub_run ops h)
unfolding hub_run published unsubscribes
run-Since [] id events left h s = quietly id events left h s
run-Since (op ∷ ops) id events left h s =
    subst
      (λ (es : List Event).
        Since id es (left || unsubscribes id (op ∷ ops)) (hub_run ops (hub_step op h)))
      (append_assoc events (published_by op) (published ops))
      (subst
        (λ (b : Bool).
          Since id ((events ++ published_by op) ++ published ops) b (hub_run ops (hub_step op h)))
        (or_assoc left (is_cancel_of id op) (unsubscribes id ops))
        (run-Since ops id (events ++ published_by op) (left || is_cancel_of id op) (hub_step op h)
          (step-Since op id events left h s)))

-- A new channel: no other one has its number.
pub subscribed-Since : (h : Hub) → Numbered h → Since (h.next_id + 1) [] false (subscribe h)
unfolding subscribe
subscribed-Since h n =
    let id = h.next_id + 1 in
    let new : Channel = record { id = id; queue = []; received = [] } in
    record {
      drawn = omega arith;
      present = ground (arith, has_row-append (has_id id) h.subscribers (new ∷ []), ==_iff id id);
      live =
          All-append (IsLive id []) h.subscribers (new ∷ [])
            (All-weaken (λ c. c.id ≤ h.next_id) (IsLive id []) h.subscribers
              (λ c le mine. absurd (ground (arith, le, mine))) n.open_numbers)
            ((λ mine. (refl, omega arith)), tt);
      ended =
          All-weaken (λ c. c.id ≤ h.next_id) (IsEnded id [] false) h.closed
            (λ c le mine. absurd (ground (arith, le, mine))) n.closed_numbers;
    }

pub Since-Stream :
    (id : ℕ) (events : List Event) (left : Bool) (h : Hub)
    → Since id events left h
    → Stream id events left h
Since-Stream id events left h s = record {
  present = s.present;
  open_stream =
      All-filter (IsLive id events) (IsServed events) (has_id id) h.subscribers
        (λ c mine live. live mine) s.live;
  closed_stream =
      All-filter (IsEnded id events left) (IsCut events left) (has_id id) h.closed
        (λ c mine ended. ended mine) s.ended;
}
