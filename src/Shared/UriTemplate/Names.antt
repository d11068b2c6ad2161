-- ===== src/Shared/UriTemplate/Names.antt =====
-- shared/uri_template.go: getNames on the text of an expression.
use mcp_go_sdk.Prelude.{
  ℕ, ◌≤◌, ◌≡◌, ◌≢◌, refl, ◌∙◌, ap, Bool, true, false, ◌||◌, some, List, [], ◌∷◌, ◌++◌, nat_Key,
  length, arith, All, All-append,
}
use mathlib.Core.List.{append-nil}
use mcp_go_sdk.Shared.Text.{
  Text, cut, contains, split, split_first, remove_byte, trim_space, skip_spaces,
}
use mcp_go_sdk.Shared.UriTemplate.{clean_names, max_variable_length}

abbrev pub Lacks : ℕ → Text → Type 0
Lacks b = All (λ c. c ≢ b)

pub cut_at :
    (b : ℕ) (before after : Text)
    → Lacks b before
    → cut b (before ++ b ∷ after) ≡ some (before, after)
unfolding cut
cut_at b [] after lacks = ground (arith, nat_Key.same_iff b b)
cut_at b (c ∷ before) after (other, lacks) =
    ground (arith, cut_at b before after lacks, nat_Key.same_iff c b)

pub contains_lacking : (b : ℕ) (text : Text) → Lacks b text → contains b text ≡ false
unfolding contains
contains_lacking b [] lacks = refl
contains_lacking b (c ∷ text) (other, lacks) =
    ground (arith, contains_lacking b text lacks, nat_Key.same_iff c b)

pub contains-append : (b : ℕ) (s t : Text) → contains b (s ++ t) ≡ (contains b s || contains b t)
unfolding contains
contains-append b [] t = refl
contains-append b (c ∷ s) t = ground (arith, contains-append b s t)

split_first_last : (b : ℕ) (text : Text) → Lacks b text → split_first b text ≡ (text, [])
unfolding split_first
split_first_last b [] lacks = refl
split_first_last b (c ∷ text) (other, lacks) =
    rw (split_first_last b text lacks) (ground (arith, nat_Key.same_iff c b))

split_first_next :
    (b : ℕ) (text rest : Text)
    → Lacks b text
    → split_first b (text ++ b ∷ rest) ≡ (text, split b rest)
unfolding split_first split
split_first_next b [] rest lacks = ground (arith, nat_Key.same_iff b b)
split_first_next b (c ∷ text) rest (other, lacks) =
    rw (split_first_next b text rest lacks) (ground (arith, nat_Key.same_iff c b))

remove_byte-append :
    (b : ℕ) (s t : Text) → remove_byte b (s ++ t) ≡ remove_byte b s ++ remove_byte b t
unfolding remove_byte
remove_byte-append b [] t = refl
remove_byte-append b (c ∷ s) t = ground (arith, remove_byte-append b s t)

remove_lacking : (b : ℕ) (text : Text) → Lacks b text → remove_byte b text ≡ text
unfolding remove_byte
remove_lacking b [] lacks = refl
remove_lacking b (c ∷ text) (other, lacks) =
    ground (arith, remove_lacking b text lacks, nat_Key.same_iff c b)

-- A name that getNames takes as it is: not empty, without stars, commas and closing braces, with no
-- space at either end, and not too long.
abbrev pub Clean : Text → Type 0
Clean name =
    (name ≢ [])
    × Lacks 42 name
    × Lacks 44 name
    × Lacks 125 name
    × (trim_space name ≡ name)
    × (length name ≤ max_variable_length)

abbrev pub star : Bool → Text
star true = 42 ∷ []
star false = []

-- The names as an expression lists them
unfoldable pub print_names : Bool → List Text → Text
print_names exploded [] = star exploded
print_names exploded (name ∷ []) = name ++ star exploded
print_names exploded (name ∷ next ∷ rest) = name ++ 44 ∷ print_names exploded (next ∷ rest)

clean_one :
    (text name : Text) (rest : List Text)
    → trim_space (remove_byte 42 text) ≡ name
    → name ≢ []
    → clean_names (text ∷ rest) ≡ name ∷ clean_names rest
unfolding clean_names
clean_one text [] rest e full = elim (full refl) [ ]
clean_one text (c ∷ name) rest e full = rw (clean_names, e) refl

split_last : (b : ℕ) (text : Text) → Lacks b text → split b text ≡ text ∷ []
unfolding split
split_last b text lacks = ap (λ p. p.0 ∷ p.1) (split_first_last b text lacks)

split_next :
    (b : ℕ) (text rest : Text) → Lacks b text → split b (text ++ b ∷ rest) ≡ text ∷ split b rest
unfolding split
split_next b text rest lacks = ap (λ p. p.0 ∷ p.1) (split_first_next b text rest lacks)

star-Lacks : (exploded : Bool) → Lacks 44 (star exploded)
star-Lacks true = (omega arith, tt)
star-Lacks false = tt

remove_byte-star : (exploded : Bool) → remove_byte 42 (star exploded) ≡ []
unfolding remove_byte
remove_byte-star true = refl
remove_byte-star false = refl

star_dropped :
    (exploded : Bool) (name : Text)
    → Lacks 42 name
    → trim_space name ≡ name
    → trim_space (remove_byte 42 (name ++ star exploded)) ≡ name
star_dropped exploded name stars trimmed =
    rw
      (
        remove_byte-append 42 name (star exploded),
        remove_lacking 42 name stars,
        remove_byte-star exploded,
        append-nil name,
      )
      trimmed

pub clean_names-print_names :
    (exploded : Bool) (names : List Text)
    → All Clean names
    → clean_names (split 44 (print_names exploded names)) ≡ names
unfolding print_names split split_first remove_byte clean_names trim_space skip_spaces
clean_names-print_names true [] clean = refl
clean_names-print_names false [] clean = refl
clean_names-print_names exploded (name ∷ []) ((full, stars, commas, braces, trimmed, fits), clean) =
    ap clean_names (
      split_last 44 (name ++ star exploded)
        (All-append (λ c. c ≢ 44) name (star exploded) commas (star-Lacks exploded)))
    ∙ clean_one (name ++ star exploded) name [] (star_dropped exploded name stars trimmed) full
clean_names-print_names exploded (name ∷ next ∷ rest)
      ((full, stars, commas, braces, trimmed, fits), clean) =
    ap clean_names (split_next 44 name (print_names exploded (next ∷ rest)) commas)
    ∙ clean_one name name (split 44 (print_names exploded (next ∷ rest)))
        (ap trim_space (remove_lacking 42 name stars) ∙ trimmed) full
    ∙ ap (λ names. name ∷ names) (clean_names-print_names exploded (next ∷ rest) clean)
