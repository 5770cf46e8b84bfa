-- ===== src/Journal/Gapless.antt =====
-- The publisher of internal/realtimestream/journal_publisher.go leaves no gap and repeats nothing.
use mathlib.Core.Path.{subst}
use acb_transaction_webhook.Base.{
  ℕ, zero, suc, ◌-◌, ◌*◌, ◌≤◌, ◌<◌, ◌≡◌, refl, sym, ap, ◌∙◌, true, false, ◌&&◌, List, [], ◌∷◌, ◌++◌,
  take, length, All, ltb, if◌then◌else◌, arith, Bool-cases, inl, inr,
}
use acb_transaction_webhook.Store.{JournalEntry}
use acb_transaction_webhook.Journal.{
  min_seq, unread, journal_batch_size, JournalPublisher, retained_cursor, advance, process,
  process_times,
}

-- The rows in the order of a seq that strictly increases.
unfoldable pub IsIncreasing : List JournalEntry → Type 0
IsIncreasing [] = Unit
IsIncreasing (e ∷ es) = All (λ f. e.seq < f.seq) es × IsIncreasing es

drop : ℕ → List JournalEntry → List JournalEntry
drop zero es = es
drop (suc n) [] = []
drop (suc n) (e ∷ es) = drop n es

take-append-drop : (n : ℕ) (es : List JournalEntry) → take n es ++ drop n es ≡ es
unfolding drop
take-append-drop zero es = refl
take-append-drop (suc n) [] = refl
take-append-drop (suc n) (e ∷ es) = ap (λ (r : List JournalEntry). e ∷ r) (take-append-drop n es)

unread_whole : (c : ℕ) (es : List JournalEntry) → All (λ f. c < f.seq) es → unread c es ≡ es
unread_whole c [] h = refl
unread_whole c (e ∷ es) (lt, h) = ground (arith, lt, unread_whole c es h)

advance_least : (c : ℕ) (es : List JournalEntry) → c ≤ advance c es
unfolding advance
advance_least c [] = omega arith
advance_least c (e ∷ es) = ground (arith, advance_least (if ltb c e.seq then e.seq else c) es)

unread_old :
    (c : ℕ) (e : JournalEntry) (es : List JournalEntry)
    → ltb c e.seq ≡ false
    → unread c (e ∷ es) ≡ unread c es
unread_old c e es h = rw h refl

unread_new :
    (c : ℕ) (e : JournalEntry) (es : List JournalEntry)
    → ltb c e.seq ≡ true
    → unread c (e ∷ es) ≡ e ∷ unread c es
unread_new c e es h = rw h refl

All-above :
    (c d : ℕ) (es : List JournalEntry) → c ≤ d → All (λ f. d < f.seq) es → All (λ f. c < f.seq) es
All-above c d [] le h = tt
All-above c d (e ∷ es) le (lt, h) = (omega (arith, le, lt), All-above c d es le h)

-- After a batch, what is unread is what was unread behind it.
unread-advance :
    (rows : List JournalEntry) (c n : ℕ)
    → IsIncreasing rows
    → unread (advance c (take n (unread c rows))) rows ≡ drop n (unread c rows)
unfolding IsIncreasing drop advance
unread-advance rows c zero inc = refl
unread-advance [] c (suc n) inc = refl
unread-advance (e ∷ es) c (suc n) (above, inc) = elim (Bool-cases (ltb c e.seq)) [
  | inl new ↦
      let rest = unread_whole e.seq es above in
      let later = unread_whole c es (All-above c e.seq es (ground (arith, new)) above) in
      let all = unread_new c e es new ∙ ap (λ (r : List JournalEntry). e ∷ r) later in
      let pick : (if ltb c e.seq then e.seq else c) ≡ e.seq = rw new refl in
      let behind =
        subst (λ (u : List JournalEntry). unread (advance e.seq (take n u)) es ≡ drop n u) rest
          (unread-advance es e.seq n inc) in
      let past = advance_least e.seq (take n es) in
      subst
        (λ (u : List JournalEntry). unread (advance c (take (suc n) u)) (e ∷ es) ≡ drop (suc n) u)
        (sym all)
        (ap (λ (k : ℕ). unread (advance k (take n es)) (e ∷ es)) pick
          ∙ unread_old (advance e.seq (take n es)) e es (ground (arith, past))
          ∙ behind)
  | inr old ↦
      let past = advance_least c (take (suc n) (unread c es)) in
      subst
        (λ (u : List JournalEntry). unread (advance c (take (suc n) u)) (e ∷ es) ≡ drop (suc n) u)
        (sym (unread_old c e es old))
        (unread_old (advance c (take (suc n) (unread c es))) e es (ground (arith, past, old))
          ∙ unread-advance es c (suc n) inc)
]

-- The jump over deleted rows leaves what is unread.
min_seq_least : (es : List JournalEntry) (c : ℕ) → c < min_seq es → All (λ f. c < f.seq) es
unfolding min_seq
min_seq_least [] c h = tt
min_seq_least (e ∷ []) c h = (h, tt)
min_seq_least (e ∷ f ∷ es) c h = (omega (arith, h), min_seq_least (f ∷ es) c (omega (arith, h)))

unread-retained_cursor :
    (rows : List JournalEntry) (c : ℕ) → unread (retained_cursor rows c) rows ≡ unread c rows
unfolding retained_cursor
unread-retained_cursor rows c =
    elim (Bool-cases (ltb 0 (min_seq rows) && ltb c (min_seq rows - 1))) [
      | inl jump ↦ rw jump (
          unread_whole (min_seq rows - 1) rows
            (min_seq_least rows (min_seq rows - 1) (ground (arith, jump)))
          ∙ sym (unread_whole c rows (min_seq_least rows c (ground (arith, jump)))))
      | inr stay ↦ rw stay refl
    ]

length-drop : (n : ℕ) (es : List JournalEntry) → length (drop n es) ≡ length es - n
unfolding drop
length-drop zero es = omega arith
length-drop (suc n) [] = omega arith
length-drop (suc n) (e ∷ es) = omega (arith, length-drop n es)

none_left : (es : List JournalEntry) → length es ≤ 0 → es ≡ []
none_left [] h = refl
none_left (e ∷ es) h = absurd (omega (arith, h))

-- Over a journal in the order of its seq, enough wakes, one for each batch of 250 rows, publish
-- exactly the rows behind the cursor, each once and in order, also if retention has deleted rows
-- behind the cursor, and leave nothing unread.
pub process_times-unread :
    (n : ℕ) (rows : List JournalEntry) (p : JournalPublisher)
    → IsIncreasing rows
    → length (unread p.cursor rows) ≤ n * journal_batch_size
    → ((process_times n rows p).0 ≡ unread p.cursor rows)
      × (unread (process_times n rows p).1.cursor rows ≡ [])
unfolding process_times process
process_times-unread zero rows p inc few =
    let empty = none_left (unread p.cursor rows) (omega (arith, few)) in (sym empty, empty)
process_times-unread (suc n) rows p inc few =
    let c = retained_cursor rows p.cursor in
    let kept = unread-retained_cursor rows p.cursor in
    let batch = take journal_batch_size (unread c rows) in
    let p' : JournalPublisher = record p { cursor = advance c batch } in
    let behind = unread-advance rows c journal_batch_size inc in
    let size = length-drop journal_batch_size (unread c rows) in
    let same = ap (λ (es : List JournalEntry). length es) kept in
    let less = ap (λ (es : List JournalEntry). length es) behind in
    let (all, done) = process_times-unread n rows p' inc (omega (arith, few, size, same, less)) in
    (
      ap (λ (r : List JournalEntry). batch ++ r) (all ∙ behind)
          ∙ take-append-drop journal_batch_size (unread c rows)
          ∙ kept,
      done,
    )
