-- ===== src/Money/ReadBack/Blocks.antt =====
-- Blocks of three groups, and the whole amount.
use acb_transaction_webhook.Base.{
  ℕ, zero, suc, ◌+◌, ◌*◌, ◌<◌, ◌≡◌, refl, sym, ap, ◌∙◌, Bool, List, [], ◌∷◌, ◌++◌, arith, ltb, ◌||◌,
  append_assoc, append-nil, replicate, Bool-cases, inl, inr,
}
use acb_transaction_webhook.Money.{
  Word, million, thousand, billion, read_three_digits, Block, block_parts, group_part, add_billions,
  flatten_parts,
}
use acb_transaction_webhook.Money.ReadBack.{
  Small, nothing, worth, Reader, close_group, close_block, read_word, read_words, read_words-append,
  flatten-append, group_read,
}

-- A group's part as read: a group of 0 has none.
scaled_read :
    (r : Reader) (n : ℕ) (higher : Bool) (scale : ℕ) (w : Word)
    → ((x : Reader) → read_word x w ≡ close_group x scale)
    → n < 1000
    → r.small ≡ nothing
    → read_words r (flatten_parts (group_part n higher (w ∷ [])))
      ≡ record r { block = r.block + n * scale }
unfolding group_part flatten_parts read_words close_group
scaled_read r n higher scale w reads h e = elim (Bool-cases (ltb 0 n)) [
  | inl pos ↦
      let (s, read, value) = group_read r n higher h e in
      rw pos (
        rw (append-nil (read_three_digits n higher ++ w ∷ [])) (
          rw (read_words-append r (read_three_digits n higher) (w ∷ []))
            (rw read (rw reads (ground (arith, value, e))))))
  | inr none ↦ let z : n ≡ 0 = ground (arith, none) in rw none (ground (arith, z))
]

units_read :
    (r : Reader) (n : ℕ) (higher : Bool)
    → n < 1000
    → r.small ≡ nothing
    → (s : Small) × (read_words r (flatten_parts (group_part n higher [])) ≡ record r { small = s })
      × (worth s ≡ n)
unfolding group_part flatten_parts read_words
units_read r n higher h e = elim (Bool-cases (ltb 0 n)) [
  | inl pos ↦
      let (s, read, value) = group_read r n higher h e in
      (
        s,
        rw pos (
            rw (append-nil (read_three_digits n higher ++ []))
              (rw (append-nil (read_three_digits n higher)) read)),
        value,
      )
  | inr none ↦ let z : n ≡ 0 = ground (arith, none) in (nothing, rw none (ground (arith, e)), sym z)
]

abbrev pub block_value : Block → ℕ
block_value k = k.g0 + k.g1 * 1000 + k.g2 * 1000000

abbrev pub IsProper : Block → Type 0
IsProper k = (k.g0 < 1000) × (k.g1 < 1000) × (k.g2 < 1000)

reads_million : (x : Reader) → read_word x million ≡ close_group x 1000000
unfolding read_word
reads_million x = refl

reads_thousand : (x : Reader) → read_word x thousand ≡ close_group x 1000
unfolding read_word
reads_thousand x = refl

-- Nothing is open below the billions.
abbrev pub IsClean : Reader → Type 0
IsClean r = (r.block ≡ 0) × (r.small ≡ nothing)

-- A block's words leave its value open.
abbrev pub Opens : Reader → ℕ → Reader → Type 0
Opens r v r' =
    (r'.complete ≡ r.complete) × (r'.pending ≡ r.pending) × (r'.block + worth r'.small ≡ v)

pub block_read :
    (r : Reader) (k : Block) (higher : Bool)
    → IsProper k
    → IsClean r
    → Opens r (block_value k) (read_words r (flatten_parts (block_parts k higher)))
unfolding block_parts
block_read r k higher (h0, h1, h2) (b, e) =
    let p2 = group_part k.g2 higher (million ∷ []) in
    let p1 = group_part k.g1 (higher || ltb 0 k.g2) (thousand ∷ []) in
    let p0 = group_part k.g0 (higher || ltb 0 k.g2 || ltb 0 k.g1) [] in
    let r2 : Reader = record r { block = r.block + k.g2 * 1000000 } in
    let r1 : Reader = record r2 { block = r2.block + k.g1 * 1000 } in
    let (s, read, value) = units_read r1 k.g0 (higher || ltb 0 k.g2 || ltb 0 k.g1) h0 e in
    let path =
      ap (read_words r) (
        flatten-append p2 (p1 ++ p0)
        ∙ ap (λ (ws : List Word). flatten_parts p2 ++ ws) (flatten-append p1 p0))
      ∙ read_words-append r (flatten_parts p2) (flatten_parts p1 ++ flatten_parts p0)
      ∙ ap (λ (x : Reader). read_words x (flatten_parts p1 ++ flatten_parts p0))
          (scaled_read r k.g2 higher 1000000 million reads_million h2 e)
      ∙ read_words-append r2 (flatten_parts p1) (flatten_parts p0)
      ∙ ap (λ (x : Reader). read_words x (flatten_parts p0))
          (scaled_read r2 k.g1 (higher || ltb 0 k.g2) 1000 thousand reads_thousand h1 e)
      ∙ read in
    rw path (refl, refl, omega (arith, value, b))

-- v * 1000000000 ^ b, by repetition.
unfoldable pub scale : ℕ → ℕ → ℕ
scale zero v = v
scale (suc b) v = scale b (v * 1000000000)

pub scale-add : (b x y : ℕ) → scale b (x + y) ≡ scale b x + scale b y
unfolding scale
scale-add zero x y = refl
scale-add (suc b) x y = ap (scale b) (omega arith) ∙ scale-add b (x * 1000000000) (y * 1000000000)

pub scale-suc : (b v : ℕ) → scale (suc b) v ≡ scale b (v * 1000000000)
unfolding scale
scale-suc b v = refl

pub scale_zero : (b : ℕ) → scale b 0 ≡ 0
unfolding scale
scale_zero zero = refl
scale_zero (suc b) = scale_zero b

billions_clean :
    (b : ℕ) (r : Reader)
    → IsClean r
    → read_words r (replicate b billion) ≡ record r { pending = scale b r.pending }
unfolding read_words read_word close_block scale
billions_clean zero r h = refl
billions_clean (suc b) r (e, s) =
    let here : close_block r ≡ record r { pending = r.pending * 1000000000 } =
      ground (arith, e, s) in
    ap (λ (x : Reader). read_words x (replicate b billion)) here
    ∙ billions_clean b (record r { pending = r.pending * 1000000000 }) (e, s)

billions_open :
    (b v : ℕ) (r : Reader)
    → r.block + worth r.small ≡ v
    → 0 < v
    → read_words r (replicate (suc b) billion) ≡ record {
      complete = r.complete + r.pending;
      pending = scale (suc b) v;
      block = 0;
      small = nothing;
    }
unfolding read_words read_word close_block scale
billions_open b v r e pos =
    let closed : Reader = record {
      complete = r.complete + r.pending;
      pending = v * 1000000000;
      block = 0;
      small = nothing;
    } in
    let here : close_block r ≡ closed = ground (arith, e) in
    ap (λ (x : Reader). read_words x (replicate b billion)) here
    ∙ billions_clean b closed (refl, refl)

flatten-add_billions :
    (b : ℕ) (p : List Word) (ps : List (List Word))
    → flatten_parts (add_billions b (p ∷ ps)) ≡ flatten_parts (p ∷ ps) ++ replicate b billion
unfolding flatten_parts add_billions
flatten-add_billions b p [] = rw (append-nil (p ++ replicate b billion)) (rw (append-nil p) refl)
flatten-add_billions b p (q ∷ ps) =
    ap (λ (ws : List Word). p ++ ws) (flatten-add_billions b q ps)
    ∙ sym (append_assoc p (q ++ flatten_parts ps) (replicate b billion))

no_parts : (k : Block) (higher : Bool) → block_value k ≡ 0 → block_parts k higher ≡ []
unfolding block_parts group_part
no_parts k higher h =
    let z0 : k.g0 ≡ 0 = omega arith in
    let z1 : k.g1 ≡ 0 = omega arith in let z2 : k.g2 ≡ 0 = omega arith in ground (arith, z0, z1, z2)

pub parts_read :
    (r : Reader) (k : Block) (higher : Bool) (ps : List (List Word))
    → block_parts k higher ≡ ps
    → IsProper k
    → IsClean r
    → Opens r (block_value k) (read_words r (flatten_parts ps))
parts_read r k higher ps e proper clean = rw (sym e) (block_read r k higher proper clean)

-- A reader behind a block's billions.
abbrev pub Adds : Reader → ℕ → Reader → Type 0
Adds r v r' = IsClean r' × (r'.complete + r'.pending ≡ r.complete + r.pending + v)

-- A block with its billions, read behind what is complete.
pub block_billions :
    (b : ℕ) (r : Reader) (k : Block) (higher : Bool) (ps : List (List Word))
    → block_parts k higher ≡ ps
    → IsProper k
    → IsClean r
    → Adds r
        (scale (suc b) (block_value k))
        (read_words r (flatten_parts (add_billions (suc b) ps)))
unfolding add_billions flatten_parts read_words
block_billions b r k higher [] e proper (c, s) =
    let (_, _, open_value) = parts_read r k higher [] e proper (c, s) in
    let zero_value : block_value k ≡ 0 = sym open_value ∙ ground (arith, c, s) in
    let none : scale (suc b) (block_value k) ≡ 0 =
      ap (scale (suc b)) zero_value ∙ scale_zero (suc b) in
    ((c, s), omega (arith, none))
block_billions b r k higher (p ∷ ps) e proper clean = elim (Bool-cases (ltb 0 (block_value k))) [
  | inl pos ↦
      let (same, held, open_value) = parts_read r k higher (p ∷ ps) e proper clean in
      let read = read_words r (flatten_parts (p ∷ ps)) in
      let path =
        ap (read_words r) (flatten-add_billions (suc b) p ps)
        ∙ read_words-append r (flatten_parts (p ∷ ps)) (replicate (suc b) billion)
        ∙ billions_open b (block_value k) read open_value (ground (arith, pos)) in
      rw path ((refl, refl), omega (arith, same, held))
  | inr empty ↦ absurd (cc (e, no_parts k higher (ground (arith, empty))))
]
