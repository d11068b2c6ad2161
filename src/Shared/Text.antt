-- ===== src/Shared/Text.antt =====
-- Go strings as their bytes, and what the package shared uses of `strings`, `net/url` and `regexp` on
-- them.
use mcp_go_sdk.Prelude.{
  ℕ, zero, suc, ◌≡◌, ◌↔◌, Key, arith, ◌+◌, ◌/◌, ◌%◌, Bool, true, false, ◌&&◌, ◌||◌, Option, none,
  some, List, [], ◌∷◌, ◌++◌, nat_Key, ◌==◌, if◌then◌else◌, leb,
}
use Prim.Native.Char.{code}
use Prim.Native.String.{String}

abbrev pub Text : Type 0
Text = List ℕ

-- The bytes of an ASCII literal
abbrev pub codes : String → Text
codes String.[] = []
codes (String.◌∷◌ c s) = code c ∷ codes s

abbrev pub reverse : Text → Text → Text
reverse [] done = done
reverse (c ∷ rest) done = reverse rest (c ∷ done)

-- `strings.Contains` of one byte
unfoldable pub contains : ℕ → Text → Bool
contains b [] = false
contains b (c ∷ rest) = (c == b) || contains b rest

-- `strings.Index` of one byte: the text before the first one and the text after it
unfoldable pub cut : ℕ → Text → Option (Text × Text)
cut b [] = none
cut b (c ∷ rest) =
    if c == b
    then some ([], rest)
    else elim (cut b rest) [ none ↦ none | some (before, after) ↦ some (c ∷ before, after) ]

-- `strings.Split` at one byte: the first piece, and the others
unfoldable pub split_first : ℕ → Text → Text × List Text
split_first b [] = ([], [])
split_first b (c ∷ rest) =
    let (piece, pieces) = split_first b rest in
    if c == b then ([], piece ∷ pieces) else (c ∷ piece, pieces)

unfoldable pub split : ℕ → Text → List Text
unfolding split_first
split b text = let (piece, pieces) = split_first b text in piece ∷ pieces

-- `strings.Replace(text, b, "", -1)`
unfoldable pub remove_byte : ℕ → Text → Text
remove_byte b [] = []
remove_byte b (c ∷ rest) = if c == b then remove_byte b rest else c ∷ remove_byte b rest

-- `strings.Replace(text, b, new, 1)`
unfoldable pub replace_first : ℕ → ℕ → Text → Text
replace_first b new [] = []
replace_first b new (c ∷ rest) = if c == b then new ∷ rest else c ∷ replace_first b new rest

unfoldable pub join : Text → List Text → Text
join between [] = []
join between (first ∷ []) = first
join between (first ∷ second ∷ rest) = first ++ between ++ join between (second ∷ rest)

abbrev pub between : ℕ → ℕ → ℕ → Bool
between low high c = leb low c && leb c high

abbrev pub ascii_space : ℕ → Bool
ascii_space c = between 9 13 c || (c == 32)

-- The other characters of `unicode.IsSpace`, by their bytes in UTF-8
abbrev pub space_two : ℕ → ℕ → Bool
space_two a b = (a == 194) && ((b == 133) || (b == 160))

abbrev pub space_three : ℕ → ℕ → ℕ → Bool
space_three a b c =
    ((a == 225) && (b == 154) && (c == 128))
    || ((a == 226) && (b == 128) && (between 128 138 c || (c == 168) || (c == 169) || (c == 175)))
    || ((a == 226) && (b == 129) && (c == 159))
    || ((a == 227) && (b == 128) && (c == 128))

-- How many bytes the space has that a text begins with, 0 if it begins with none
abbrev pub space_width : Text → ℕ
space_width [] = 0
space_width (a ∷ []) = if ascii_space a then 1 else 0
space_width (a ∷ b ∷ []) = if ascii_space a then 1 else if space_two a b then 2 else 0
space_width (a ∷ b ∷ c ∷ rest) =
    if ascii_space a then 1 else if space_two a b then 2 else if space_three a b c then 3 else 0

-- The same of the text's end, on the bytes in reverse
abbrev pub space_width_back : Text → ℕ
space_width_back [] = 0
space_width_back (a ∷ []) = if ascii_space a then 1 else 0
space_width_back (a ∷ b ∷ []) = if ascii_space a then 1 else if space_two b a then 2 else 0
space_width_back (a ∷ b ∷ c ∷ rest) =
    if ascii_space a then 1 else if space_two b a then 2 else if space_three c b a then 3 else 0

-- Drops spaces as `width` finds them; the number is how much of one is still to drop.
unfoldable pub skip_spaces : (Text → ℕ) → ℕ → Text → Text
skip_spaces width n [] = []
skip_spaces width (suc n) (c ∷ rest) = skip_spaces width n rest
skip_spaces width zero (c ∷ rest) = elim (width (c ∷ rest)) [
  | zero ↦ c ∷ rest
  | suc n ↦ skip_spaces width n rest
]

unfoldable pub trim_space : Text → Text
unfolding skip_spaces
trim_space text =
    reverse (skip_spaces space_width_back 0 (reverse (skip_spaces space_width 0 text) [])) []

abbrev pub hex_digit : ℕ → ℕ
hex_digit n = if leb n 9 then n + 48 else n + 55

-- What `url.QueryEscape` leaves as it is: letters, digits, and - _ . ~
abbrev pub unreserved : ℕ → Bool
unreserved c =
    between 97 122 c
    || between 65 90 c
    || between 48 57 c
    || (c == 45)
    || (c == 95)
    || (c == 46)
    || (c == 126)

abbrev pub escape_byte : ℕ → Text
escape_byte c =
    if c == 32
    then 43 ∷ []
    else if unreserved c
    then c ∷ []
    else 37 ∷ hex_digit (c / 16) ∷ hex_digit (c % 16) ∷ []

unfoldable pub query_escape : Text → Text
query_escape [] = []
query_escape (c ∷ rest) = escape_byte c ++ query_escape rest

-- What `regexp.QuoteMeta` puts a backslash before: \ . + * ? ( ) | [ ] { } ^ $
abbrev pub is_special : ℕ → Bool
is_special c =
    (c == 92)
    || (c == 46)
    || (c == 43)
    || (c == 42)
    || (c == 63)
    || (c == 40)
    || (c == 41)
    || (c == 124)
    || (c == 91)
    || (c == 93)
    || (c == 123)
    || (c == 125)
    || (c == 94)
    || (c == 36)

unfoldable pub quote_meta : Text → Text
quote_meta [] = []
quote_meta (c ∷ rest) = if is_special c then 92 ∷ c ∷ quote_meta rest else c ∷ quote_meta rest

abbrev pub same_text : Text → Text → Bool
same_text [] [] = true
same_text (c ∷ s) (d ∷ t) = (c == d) && same_text s t
same_text _ _ = false

pub same_text_iff : (s t : Text) → (same_text s t ≡ true) ↔ (s ≡ t)
same_text_iff [] [] = ground arith
same_text_iff [] (d ∷ t) = ground arith
same_text_iff (c ∷ s) [] = ground arith
same_text_iff (c ∷ s) (d ∷ t) = ground (arith, same_text_iff s t, nat_Key.same_iff c d)

instance abbrev pub Text_Key : Key Text
Text_Key = record { same = same_text; same_iff = same_text_iff }
