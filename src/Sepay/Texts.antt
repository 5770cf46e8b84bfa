-- ===== src/Sepay/Texts.antt =====
-- The functions of Go's strings that the intake of SePay's messages calls. A text is the list of its
-- code points, and is valid UTF-8, as decoded JSON is.
use Prim.Native.Char.{code}
use acb_transaction_webhook.Base.{
  ℕ, zero, suc, String, Bool, true, false, ◌&&◌, ◌||◌, Option, none, some, List, [], ◌∷◌, leb, ◌==◌,
  is_some, if◌then◌else◌,
}

abbrev pub Text : Type 0
Text = List ℕ

abbrev pub codes : String → Text
codes String.[] = []
codes (String.◌∷◌ c s) = code c ∷ codes s

-- `unicode.IsSpace`.
abbrev pub is_space : ℕ → Bool
is_space c =
    leb 9 c && leb c 13
    || (c == 32)
    || (c == 133)
    || (c == 160)
    || (c == 5760)
    || leb 8192 c && leb c 8202
    || (c == 8232)
    || (c == 8233)
    || (c == 8239)
    || (c == 8287)
    || (c == 12288)

unfoldable pub trim_left : Text → Text
trim_left [] = []
trim_left (c ∷ cs) = let rest = trim_left cs in if is_space c then rest else c ∷ cs

unfoldable pub trim_right : Text → Text
trim_right [] = []
trim_right (c ∷ cs) = keep c (trim_right cs)
  where
    keep : ℕ → Text → Text
    keep c [] = if is_space c then [] else c ∷ []
    keep c (d ∷ ds) = c ∷ d ∷ ds

abbrev pub trim_space : Text → Text
trim_space text = trim_right (trim_left text)

unfoldable pub same : Text → Text → Bool
same [] [] = true
same (a ∷ s) (b ∷ t) = (a == b) && same s t
same _ _ = false

-- `strings.HasPrefix` and `strings.TrimPrefix`: what follows the prefix.
unfoldable pub after_prefix : Text → Text → Option Text
after_prefix [] text = some text
after_prefix (p ∷ ps) [] = none
after_prefix (p ∷ ps) (c ∷ cs) = let rest = after_prefix ps cs in if p == c then rest else none

unfoldable pub contains : Text → Text → Bool
contains part [] = is_some (after_prefix part [])
contains part (c ∷ cs) = is_some (after_prefix part (c ∷ cs)) || contains part cs

-- `strings.Cut` at a line feed.
unfoldable pub cut_line : Text → Option (Text × Text)
cut_line [] = none
cut_line (c ∷ cs) = if c == 10 then some ([], cs) else put c (cut_line cs)
  where
    put : ℕ → Option (Text × Text) → Option (Text × Text)
    put c none = none
    put c (some (line, rest)) = some (c ∷ line, rest)

-- What follows the first step, if there is a result.
infixl 5 ◌>>=◌
abbrev pub ◌>>=◌ : {A B : Type 0} → Option A → (A → Option B) → Option B
none >>= f = none
some a >>= f = f a

-- `strings.SplitN` at line feeds: the first `n` lines, and the rest.
unfoldable pub split_lines : ℕ → Text → Option (List Text × Text)
split_lines zero text = some ([], text)
split_lines (suc n) text = do
  cut ← cut_line text
  split ← split_lines n cut.1
  some (cut.0 ∷ split.0, split.1)

-- `strings.TrimSuffix` of a carriage return.
unfoldable pub trim_return : Text → Text
trim_return [] = []
trim_return (c ∷ []) = if c == 13 then [] else c ∷ []
trim_return (c ∷ d ∷ cs) = c ∷ trim_return (d ∷ cs)

unfoldable pub has_code : ℕ → Text → Bool
has_code code [] = false
has_code code (c ∷ cs) = (c == code) || has_code code cs
