-- ===== src/Money/ReadBack/Whole.antt =====
-- Whole amounts: the blocks of internal/voicecopy/money_vi.go one behind the other.
use acb_transaction_webhook.Base.{
  ℕ, zero, suc, ◌+◌, ◌*◌, ◌/◌, ◌<◌, ◌≡◌, refl, sym, ap, ◌∙◌, List, [], ◌∷◌, ◌++◌, arith, ◌==◌,
  append-nil, Bool-cases, inl, inr,
}
use acb_transaction_webhook.Money.{
  Word, groups, Block, blocks, block_parts, add_billions, speak_blocks, speak_vnd_parts,
  flatten_parts,
}
use acb_transaction_webhook.Money.ReadBack.Blocks.{
  block_value, IsProper, block_read, scale, scale-suc, scale-add, scale_zero, Adds, block_billions,
}
use acb_transaction_webhook.Money.ReadBack.{
  read_words, start, spoken_value, read_words-append, flatten-append,
}

data AllProper : List Block → Type 0 where
  proper_end : AllProper []
  proper_next : {k : Block} {ks : List Block} → IsProper k → AllProper ks → AllProper (k ∷ ks)

-- What blocks are worth from the b-th on.
total : ℕ → List Block → ℕ
total b [] = 0
total b (k ∷ ks) = scale b (block_value k) + total (suc b) ks

higher_blocks_read :
    (b : ℕ) (ks : List Block)
    → AllProper ks
    → Adds start (total (suc b) ks) (read_words start (flatten_parts (speak_blocks (suc b) ks).0))
unfolding speak_blocks total flatten_parts read_words
higher_blocks_read b [] proper_end = ((refl, refl), refl)
higher_blocks_read b (k ∷ ks) (proper_next proper rest) =
    let above = speak_blocks (suc (suc b)) ks in
    let own = block_parts k above.1 in
    let (clean, sum) = higher_blocks_read (suc b) ks rest in
    let mid = read_words start (flatten_parts above.0) in
    let (clean', sum') = block_billions b mid k above.1 own refl proper clean in
    let path =
      ap (read_words start) (flatten-append above.0 (add_billions (suc b) own))
      ∙ read_words-append start (flatten_parts above.0)
          (flatten_parts (add_billions (suc b) own)) in
    rw path (clean', omega (arith, sum, sum'))

no_billions : (ps : List (List Word)) → add_billions 0 ps ≡ ps
unfolding add_billions
no_billions [] = refl
no_billions (p ∷ []) = ap (λ (q : List Word). q ∷ []) (append-nil p)
no_billions (p ∷ q ∷ ps) = ap (λ (qs : List (List Word)). p ∷ qs) (no_billions (q ∷ ps))

blocks_read :
    (ks : List Block)
    → AllProper ks
    → spoken_value (flatten_parts (speak_blocks 0 ks).0) ≡ total 0 ks
unfolding speak_blocks total flatten_parts read_words spoken_value scale
blocks_read [] proper_end = refl
blocks_read (k ∷ ks) (proper_next proper rest) =
    let above = speak_blocks 1 ks in
    let own = block_parts k above.1 in
    let (clean, sum) = higher_blocks_read 0 ks rest in
    let mid = read_words start (flatten_parts above.0) in
    let (same, held, open_value) = block_read mid k above.1 proper clean in
    let path =
      ap (read_words start) (
        flatten-append above.0 (add_billions 0 own)
        ∙ ap (λ (ps : List (List Word)). flatten_parts above.0 ++ flatten_parts ps)
            (no_billions own))
      ∙ read_words-append start (flatten_parts above.0) (flatten_parts own) in
    rw path (omega (arith, sum, same, held, open_value))

-- The value of groups, the lowest first.
groups_value : List ℕ → ℕ
groups_value [] = 0
groups_value (g ∷ gs) = g + 1000 * groups_value gs

data AllGroups : List ℕ → Type 0 where
  groups_end : AllGroups []
  groups_next : {g : ℕ} {gs : List ℕ} → g < 1000 → AllGroups gs → AllGroups (g ∷ gs)

append_zero : (n : ℕ) → n + 0 ≡ n
append_zero n = omega arith

total-blocks : (b : ℕ) (gs : List ℕ) → total b (blocks gs) ≡ scale b (groups_value gs)
unfolding total blocks groups_value
total-blocks b [] = sym (scale_zero b)
total-blocks b (x ∷ []) =
    let value : x + 0 * 1000 + 0 * 1000000 ≡ x + 1000 * 0 = omega arith in
    cc (ap (scale b) value, append_zero (scale b (x + 0 * 1000 + 0 * 1000000)))
total-blocks b (x ∷ y ∷ []) =
    let value : x + y * 1000 + 0 * 1000000 ≡ x + 1000 * (y + 1000 * 0) = omega arith in
    cc (ap (scale b) value, append_zero (scale b (x + y * 1000 + 0 * 1000000)))
total-blocks b (x ∷ y ∷ z ∷ rest) =
    let v = x + y * 1000 + z * 1000000 in
    let w = groups_value rest in
    let value : v + w * 1000000000 ≡ x + 1000 * (y + 1000 * (z + 1000 * w)) = omega arith in
    ap (λ (t : ℕ). scale b v + t) (total-blocks (suc b) rest ∙ scale-suc b w)
    ∙ sym (scale-add b v (w * 1000000000))
    ∙ ap (scale b) value

blocks_proper : (gs : List ℕ) → AllGroups gs → AllProper (blocks gs)
unfolding blocks
blocks_proper [] groups_end = proper_end
blocks_proper (x ∷ []) (groups_next h groups_end) =
    proper_next (h, omega arith, omega arith) proper_end
blocks_proper (x ∷ y ∷ []) (groups_next h (groups_next i groups_end)) =
    proper_next (h, i, omega arith) proper_end
blocks_proper (x ∷ y ∷ z ∷ rest) (groups_next h (groups_next i (groups_next j more))) =
    proper_next (h, i, j) (blocks_proper rest more)

reach : ℕ → ℕ
reach zero = 1
reach (suc fuel) = 1000 * reach fuel

groups_small : (fuel n : ℕ) → AllGroups (groups fuel n)
unfolding groups
groups_small zero n = groups_end
groups_small (suc fuel) n = elim (Bool-cases (n == 0)) [
  | inl z ↦ rw z groups_end
  | inr nz ↦ rw nz (groups_next (omega arith) (groups_small fuel (n / 1000)))
]

groups_exact : (fuel n : ℕ) → n < reach fuel → groups_value (groups fuel n) ≡ n
unfolding groups groups_value reach
groups_exact zero n h = omega arith
groups_exact (suc fuel) n h = elim (Bool-cases (n == 0)) [
  | inl z ↦ rw z (ground (arith, z))
  | inr nz ↦ rw nz (omega (arith, groups_exact fuel (n / 1000) (omega (arith, h))))
]

-- Every amount below 10 ^ 21, thus every positive int64, is read back from its words by a reader
-- that does not know how they were made.
pub spoken_value-speak_vnd_parts :
    (amount : ℕ)
    → amount < 1000000000000000000000
    → spoken_value (flatten_parts (speak_vnd_parts amount)) ≡ amount
unfolding speak_vnd_parts reach scale
spoken_value-speak_vnd_parts amount h =
    blocks_read (blocks (groups 7 amount)) (blocks_proper (groups 7 amount) (groups_small 7 amount))
    ∙ total-blocks 0 (groups 7 amount)
    ∙ groups_exact 7 amount h
