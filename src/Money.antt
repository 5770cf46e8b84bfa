-- ===== src/Money.antt =====
-- Vietnamese amounts in words: internal/voicecopy/money_vi.go. A word is a constructor with its
-- spelling; the strings of the code are the spellings joined by blanks.
pub mod ReadBack
use Prim.Native.String.{◌++◌ as text_append}
use acb_transaction_webhook.Base.{
  ℕ, zero, suc, ◌+◌, ◌*◌, ◌/◌, ◌%◌, String, Bool, true, false, ◌&&◌, ◌||◌, Option, none, some, List,
  [], ◌∷◌, ◌++◌, ltb, ◌==◌, if◌then◌else◌, replicate,
}

pub data Word : Type 0 where
  digit : ℕ → Word
  hundred ten_times ten one_after four_after five_after linking : Word
  million thousand billion : Word

-- `digits`.
digit_spelling : ℕ → String
digit_spelling d =
    if d == 0
    then "không"
    else if d == 1
    then "một"
    else if d == 2
    then "hai"
    else if d == 3
    then "ba"
    else if d == 4
    then "bốn"
    else if d == 5
    then "năm"
    else if d == 6
    then "sáu"
    else if d == 7
    then "bảy"
    else if d == 8
    then "tám"
    else "chín"

pub spelling : Word → String
unfolding digit_spelling
spelling (digit d) = digit_spelling d
spelling hundred = "trăm"
spelling ten_times = "mươi"
spelling ten = "mười"
spelling one_after = "mốt"
spelling four_after = "tư"
spelling five_after = "lăm"
spelling linking = "linh"
spelling million = "triệu"
spelling thousand = "nghìn"
spelling billion = "tỷ"

-- The word for the units behind a number of tens that is more than one.
units_after_tens : ℕ → List Word
units_after_tens u =
    if u == 1
    then one_after ∷ []
    else if u == 4
    then four_after ∷ []
    else if u == 5
    then five_after ∷ []
    else if ltb 0 u
    then digit u ∷ []
    else []

units_after_ten : ℕ → List Word
units_after_ten u = if u == 5 then five_after ∷ [] else if ltb 0 u then digit u ∷ [] else []

units_alone : Bool → ℕ → List Word
units_alone linked u =
    if ltb 0 u then (if linked then linking ∷ digit u ∷ [] else digit u ∷ []) else []

hundreds_words : Bool → ℕ → List Word
hundreds_words higher h = if ltb 0 h || higher then digit h ∷ hundred ∷ [] else []

-- `readThreeDigits`.
unfoldable pub read_three_digits : ℕ → Bool → List Word
unfolding units_after_tens units_after_ten units_alone hundreds_words
read_three_digits n higher =
    let hundreds = n / 100 in
    let tens = n % 100 / 10 in
    let units = n % 10 in
    hundreds_words higher hundreds
    ++ (if ltb 1 tens
        then digit tens ∷ ten_times ∷ units_after_tens units
        else if tens == 1
        then ten ∷ units_after_ten units
        else units_alone (ltb 0 hundreds || higher) units)

-- The groups of three digits, the lowest first: the first loop of `SpeakVNDParts`. An int64 has at
-- most seven of them, and the loop runs once for each.
pub groups : ℕ → ℕ → List ℕ
groups zero val = []
groups (suc fuel) val =
    let rest = groups fuel (val / 1000) in if val == 0 then [] else (val % 1000) ∷ rest

-- The groups by threes, padded with 0: units, thousands, millions.
pub record Block : Type 0 where
  pub g0 : ℕ
  pub g1 : ℕ
  pub g2 : ℕ

pub blocks : List ℕ → List Block
blocks [] = []
blocks (a ∷ []) = record { g0 = a; g1 = 0; g2 = 0 } ∷ []
blocks (a ∷ b ∷ []) = record { g0 = a; g1 = b; g2 = 0 } ∷ []
blocks (a ∷ b ∷ c ∷ rest) = record { g0 = a; g1 = b; g2 = c } ∷ blocks rest

-- One group's part, if the group is not 0, and whether a higher part precedes what follows.
group_part : ℕ → Bool → List Word → List (List Word)
group_part g higher scale = if ltb 0 g then (read_three_digits g higher ++ scale) ∷ [] else []

unfoldable pub block_parts : Block → Bool → List (List Word)
unfolding group_part
block_parts k higher =
    group_part k.g2 higher (million ∷ [])
    ++ (group_part k.g1 (higher || ltb 0 k.g2) (thousand ∷ [])
        ++ group_part k.g0 (higher || ltb 0 k.g2 || ltb 0 k.g1) [])

-- `blockParts[len(blockParts)-1] += strings.Repeat(" tỷ", b)`.
pub add_billions : ℕ → List (List Word) → List (List Word)
add_billions b [] = []
add_billions b (p ∷ []) = (p ++ replicate b billion) ∷ []
add_billions b (p ∷ q ∷ ps) = p ∷ add_billions b (q ∷ ps)

abbrev pub has_value : Block → Bool
has_value k = ltb 0 k.g2 || ltb 0 k.g1 || ltb 0 k.g0

-- The second loop, from the highest block down: the parts, and `hasHigherOverall` behind them.
unfoldable pub speak_blocks : ℕ → List Block → List (List Word) × Bool
speak_blocks b [] = ([], false)
speak_blocks b (k ∷ ks) =
    let (above, higher) = speak_blocks (suc b) ks in
    (above ++ add_billions b (block_parts k higher), higher || has_value k)

-- `SpeakVNDParts`, with 0 for an amount that is not positive.
unfoldable pub speak_vnd_parts : ℕ → List (List Word)
speak_vnd_parts amount = (speak_blocks 0 (blocks (groups 7 amount))).0

pub join_words : List Word → String
join_words [] = ""
join_words (w ∷ []) = spelling w
join_words (w ∷ v ∷ ws) = text_append (spelling w) (text_append " " (join_words (v ∷ ws)))

pub flatten_parts : List (List Word) → List Word
flatten_parts [] = []
flatten_parts (p ∷ ps) = p ++ flatten_parts ps

-- `SpeakVND`.
unfoldable pub speak_vnd : ℕ → String
speak_vnd amount =
    if amount == 0
    then "không đồng"
    else text_append (join_words (flatten_parts (speak_vnd_parts amount))) " đồng"
