-- ===== src/Money/ReadBack.antt =====
-- An independent reader of amounts in words, and the proof that it reads every amount back.
pub mod Blocks
pub mod Whole
use acb_transaction_webhook.Base.{
  ℕ, zero, suc, ◌+◌, ◌*◌, ◌/◌, ◌%◌, ◌^◌, ◌<◌, ◌≤◌, ◌≡◌, refl, sym, ap, ◌∙◌, Bool, true, false, List,
  [], ◌∷◌, ◌++◌, arith, ltb, leb, ◌==◌, ◌&&◌, ◌||◌, if◌then◌else◌, ==_iff, append_assoc, replicate,
  Bool-cases, inl, inr,
}
use acb_transaction_webhook.Money.{
  Word, digit, hundred, ten_times, ten, one_after, four_after, five_after, linking, million,
  thousand, billion, read_three_digits, groups, Block, blocks, block_parts, group_part,
  add_billions, speak_blocks, speak_vnd_parts, has_value, flatten_parts,
}

-- Within a group of three digits: what is summed up, and the number before a scale word.
pub record Small : Type 0 where
  pub summed : ℕ
  pub current : ℕ

abbrev pub nothing : Small
nothing = record { summed = 0; current = 0 }

abbrev pub worth : Small → ℕ
worth r = r.summed + r.current

pub small_word : Small → Word → Small
small_word r (digit d) = record { summed = r.summed; current = d }
small_word r hundred = record { summed = r.summed + r.current * 100; current = 0 }
small_word r ten_times = record { summed = r.summed + r.current * 10; current = 0 }
small_word r ten = record { summed = r.summed + 10; current = 0 }
small_word r one_after = record { summed = r.summed; current = 1 }
small_word r four_after = record { summed = r.summed; current = 4 }
small_word r five_after = record { summed = r.summed; current = 5 }
small_word r _ = r

-- The whole reader: the parts of billions that are complete, the last of them, which another "tỷ"
-- multiplies, the millions and thousands of the block, and the group.
pub record Reader : Type 0 where
  pub complete : ℕ
  pub pending : ℕ
  pub block : ℕ
  pub small : Small

abbrev pub read_value : Reader → ℕ
read_value r = r.complete + r.pending + r.block + worth r.small

close_group : Reader → ℕ → Reader
close_group r scale = record r { block = r.block + worth r.small * scale; small = nothing }

close_block : Reader → Reader
close_block r =
    if r.block + worth r.small == 0 then record r { pending = r.pending * 1000000000 } else record {
      complete = r.complete + r.pending;
      pending = (r.block + worth r.small) * 1000000000;
      block = 0;
      small = nothing;
    }

pub read_word : Reader → Word → Reader
unfolding close_group close_block
read_word r million = close_group r 1000000
read_word r thousand = close_group r 1000
read_word r billion = close_block r
read_word r w = record r { small = small_word r.small w }

pub read_words : Reader → List Word → Reader
read_words r [] = r
read_words r (w ∷ ws) = read_words (read_word r w) ws

abbrev pub start : Reader
start = record { complete = 0; pending = 0; block = 0; small = nothing }

-- The number that a text of words says.
pub spoken_value : List Word → ℕ
spoken_value ws = read_value (read_words start ws)

read_words-append :
    (r : Reader) (xs ys : List Word) → read_words r (xs ++ ys) ≡ read_words (read_words r xs) ys
unfolding read_words
read_words-append r [] ys = refl
read_words-append r (x ∷ xs) ys = read_words-append (read_word r x) xs ys

flatten-append :
    (ps qs : List (List Word)) → flatten_parts (ps ++ qs) ≡ flatten_parts ps ++ flatten_parts qs
unfolding flatten_parts
flatten-append [] qs = refl
flatten-append (p ∷ ps) qs = rw (flatten-append ps qs, append_assoc)

-- The words of a group, read alone.
is_small : Word → Bool
is_small million = false
is_small thousand = false
is_small billion = false
is_small _ = true

small_words : Small → List Word → Small
small_words s [] = s
small_words s (w ∷ ws) = small_words (small_word s w) ws

all_small : List Word → Bool
all_small [] = true
all_small (w ∷ ws) = is_small w && all_small ws

small_step :
    (r : Reader) (w : Word)
    → is_small w ≡ true
    → read_word r w ≡ record r { small = small_word r.small w }
unfolding is_small read_word
small_step r million h = absurd (cc)
small_step r thousand h = absurd (cc)
small_step r billion h = absurd (cc)
small_step r _ h = refl

small_read :
    (r : Reader) (ws : List Word)
    → all_small ws ≡ true
    → read_words r ws ≡ record r { small = small_words r.small ws }
unfolding read_words small_words all_small
small_read r [] h = refl
small_read r (w ∷ ws) h =
    let here : is_small w ≡ true = ground arith in
    rw (small_step r w here)
      (small_read (record r { small = small_word r.small w }) ws (ground (arith, here)))

-- Every group, with and without a higher one, by evaluation.
reads_back : Bool → ℕ → Bool
reads_back higher n =
    all_small (read_three_digits n higher)
    && (worth (small_words nothing (read_three_digits n higher)) == n)

holds_below : (ℕ → Bool) → ℕ → Bool
holds_below test zero = true
holds_below test (suc most) = holds_below test most && test most

holds_below-at :
    (test : ℕ → Bool) (bound n : ℕ) → n < bound → holds_below test bound ≡ true → test n ≡ true
unfolding holds_below
holds_below-at test zero n less h = absurd (omega (arith, less))
holds_below-at test (suc most) n less h = elim (Bool-cases (n == most)) [
  | inl e ↦ let same : n ≡ most = ground (arith, e) in rw same (ground (arith, h))
  | inr e ↦ holds_below-at test most n (ground (arith, less, e)) (ground (arith, h))
]

lower_table : holds_below (reads_back false) 1000 ≡ true
unfolding holds_below reads_back small_words small_word all_small is_small read_three_digits
lower_table = refl

higher_table : holds_below (reads_back true) 1000 ≡ true
unfolding holds_below reads_back small_words small_word all_small is_small read_three_digits
higher_table = refl

group_reads : (n : ℕ) (higher : Bool) → n < 1000 → reads_back higher n ≡ true
group_reads n true h = holds_below-at (reads_back true) 1000 n h higher_table
group_reads n false h = holds_below-at (reads_back false) 1000 n h lower_table

-- A group's words leave a reader that has just closed a group with the number in hand.
group_read :
    (r : Reader) (n : ℕ) (higher : Bool)
    → n < 1000
    → r.small ≡ nothing
    → (s : Small) × (read_words r (read_three_digits n higher) ≡ record r { small = s })
      × (worth s ≡ n)
unfolding reads_back
group_read r n higher h e =
    let t = group_reads n higher h in
    let s = small_words nothing (read_three_digits n higher) in
    (
      s,
      small_read r (read_three_digits n higher) (ground (arith, t))
          ∙ ap (λ (x : Small). record r { small = small_words x (read_three_digits n higher) }) e,
      ground (arith, t),
    )
