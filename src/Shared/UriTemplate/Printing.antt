-- ===== src/Shared/UriTemplate/Printing.antt =====
-- shared/uri_template.go: the text of template parts, and what parse makes of an expression's text.
use mcp_go_sdk.Prelude.{
  ℕ, suc, ◌≡◌, ◌≢◌, refl, sym, ◌∙◌, ap, Bool, true, false, List, [], ◌∷◌, ◌++◌, nat_Key, arith, ◌⊎◌,
  inl, inr, All, All-append,
}
use mcp_go_sdk.Shared.Text.{Text, contains, split}
use mcp_go_sdk.Shared.UriTemplate.{
  TemplatePart, literal, expression, ExpressionPart, Operator, simple, plus, hash, dot, slash,
  query, ampersand, done, get_names, get_operator, trim_operator, clean_names, expression_of,
  first_name, validate_names, validate_length, open_brace, close_brace,
}
use mcp_go_sdk.Shared.UriTemplate.Names.{
  Lacks, Clean, star, print_names, clean_names-print_names, contains_lacking, contains-append,
}

abbrev pub mark : Operator → Text
mark simple = []
mark plus = 43 ∷ []
mark hash = 35 ∷ []
mark dot = 46 ∷ []
mark slash = 47 ∷ []
mark query = 63 ∷ []
mark ampersand = 38 ∷ []

abbrev pub print_body : ExpressionPart → Text
print_body e = mark e.operator ++ print_names e.exploded e.names

abbrev pub print_part : TemplatePart → Text
print_part (literal text) = text
print_part (expression e) = open_brace ∷ print_body e ++ close_brace ∷ []

abbrev pub print : List TemplatePart → Text
print [] = []
print (part ∷ rest) = print_part part ++ print rest

-- An expression as the parser makes it
abbrev pub Parsed : ExpressionPart → Type 0
Parsed e =
    (e.name ≡ first_name e.names)
    × All Clean e.names
    × (e.operator ≡ simple → get_operator (first_name e.names) ≡ simple)

-- Literals are not empty and not next to each other, and have no opening brace.
pub data Canonical : List TemplatePart → Type 0 where
  empty : Canonical []
  last : {c : ℕ} {text : Text} → Lacks open_brace (c ∷ text) → Canonical (literal (c ∷ text) ∷ [])
  before :
      {c : ℕ} {text : Text} {e : ExpressionPart} {rest : List TemplatePart}
      → Lacks open_brace (c ∷ text)
      → Parsed e
      → Canonical rest
      → Canonical (literal (c ∷ text) ∷ expression e ∷ rest)
  next :
      {e : ExpressionPart} {rest : List TemplatePart}
      → Parsed e
      → Canonical rest
      → Canonical (expression e ∷ rest)

abbrev pub expressions : List TemplatePart → ℕ
expressions [] = 0
expressions (literal text ∷ rest) = expressions rest
expressions (expression e ∷ rest) = suc (expressions rest)

-- The operator and the names

get_operator-append :
    (exploded : Bool) (names : List Text)
    → All Clean names
    → get_operator (first_name names) ≡ simple
    → get_operator (print_names exploded names) ≡ simple
unfolding get_operator print_names
get_operator-append true [] clean unmarked = refl
get_operator-append false [] clean unmarked = refl
get_operator-append exploded ([] ∷ []) ((full, a, b, d, trimmed, fits), clean) unmarked =
    elim (full refl) [ ]
get_operator-append exploded ((c ∷ name) ∷ []) clean unmarked = unmarked
get_operator-append exploded ([] ∷ other ∷ rest) ((full, a, b, d, trimmed, fits), clean) unmarked =
    elim (full refl) [ ]
get_operator-append exploded ((c ∷ name) ∷ other ∷ rest) clean unmarked = unmarked

operator_back :
    (op : Operator) (exploded : Bool) (names : List Text)
    → All Clean names
    → (op ≡ simple → get_operator (first_name names) ≡ simple)
    → (get_operator (mark op ++ print_names exploded names) ≡ op)
      × (trim_operator op (mark op ++ print_names exploded names) ≡ print_names exploded names)
unfolding get_operator
operator_back simple x names clean unmarked =
    (get_operator-append x names clean (unmarked refl), refl)
operator_back plus x names clean unmarked = (refl, refl)
operator_back hash x names clean unmarked = (refl, refl)
operator_back dot x names clean unmarked = (refl, refl)
operator_back slash x names clean unmarked = (refl, refl)
operator_back query x names clean unmarked = (refl, refl)
operator_back ampersand x names clean unmarked = (refl, refl)

get_operator-print : (e : ExpressionPart) → Parsed e → get_operator (print_body e) ≡ e.operator
get_operator-print e (named, clean, unmarked) =
    (operator_back e.operator e.exploded e.names clean unmarked).0

pub get_names-print : (e : ExpressionPart) → Parsed e → get_names (print_body e) ≡ e.names
unfolding get_names
get_names-print e (named, clean, unmarked) =
    let (op, rest) = operator_back e.operator e.exploded e.names clean unmarked in
    ap (λ o. clean_names (split 44 (trim_operator o (print_body e)))) op
    ∙ ap (λ text. clean_names (split 44 text)) rest
    ∙ clean_names-print_names e.exploded e.names clean

-- The stars and the closing brace

mark-Lacks : (b : ℕ) (op : Operator) → (b ≡ 42) ⊎ (b ≡ 125) → Lacks b (mark op)
mark-Lacks b simple is = tt
mark-Lacks b plus is = (ground arith, tt)
mark-Lacks b hash is = (ground arith, tt)
mark-Lacks b dot is = (ground arith, tt)
mark-Lacks b slash is = (ground arith, tt)
mark-Lacks b query is = (ground arith, tt)
mark-Lacks b ampersand is = (ground arith, tt)

contains-star : (exploded : Bool) → contains 42 (star exploded) ≡ exploded
unfolding contains
contains-star true = refl
contains-star false = refl

contains-print_names :
    (exploded : Bool) (names : List Text)
    → All Clean names
    → contains 42 (print_names exploded names) ≡ exploded
unfolding print_names contains
contains-print_names exploded [] clean = contains-star exploded
contains-print_names exploded (name ∷ []) ((full, stars, commas, braces, trimmed, fits), clean) =
    rw (contains-append 42 name (star exploded), contains_lacking 42 name stars)
      (contains-star exploded)
contains-print_names exploded (name ∷ other ∷ rest)
      ((full, stars, commas, braces, trimmed, fits), clean) =
    rw
      (
        contains-append 42 name (44 ∷ print_names exploded (other ∷ rest)),
        contains_lacking 42 name stars,
      )
      (contains-print_names exploded (other ∷ rest) clean)

contains-print : (e : ExpressionPart) → Parsed e → contains 42 (print_body e) ≡ e.exploded
contains-print e (named, clean, unmarked) =
    rw
      (
        contains-append 42 (mark e.operator) (print_names e.exploded e.names),
        contains_lacking 42 (mark e.operator) (mark-Lacks 42 e.operator (inl refl)),
      )
      (contains-print_names e.exploded e.names clean)

star-Lacks_brace : (exploded : Bool) → Lacks 125 (star exploded)
star-Lacks_brace true = (omega arith, tt)
star-Lacks_brace false = tt

print_names-Lacks :
    (exploded : Bool) (names : List Text) → All Clean names → Lacks 125 (print_names exploded names)
unfolding print_names
print_names-Lacks exploded [] clean = star-Lacks_brace exploded
print_names-Lacks exploded (name ∷ []) ((full, stars, commas, braces, trimmed, fits), clean) =
    All-append (λ c. c ≢ 125) name (star exploded) braces (star-Lacks_brace exploded)
print_names-Lacks exploded (name ∷ other ∷ rest)
      ((full, stars, commas, braces, trimmed, fits), clean) =
    All-append (λ c. c ≢ 125) name (44 ∷ print_names exploded (other ∷ rest)) braces
      (omega arith, print_names-Lacks exploded (other ∷ rest) clean)

pub print_body-Lacks : (e : ExpressionPart) → Parsed e → Lacks 125 (print_body e)
print_body-Lacks e (named, clean, unmarked) =
    All-append (λ c. c ≢ 125) (mark e.operator) (print_names e.exploded e.names)
      (mark-Lacks 125 e.operator (inr refl)) (print_names-Lacks e.exploded e.names clean)

pub expression_of-print : (e : ExpressionPart) → Parsed e → expression_of (print_body e) ≡ e
expression_of-print e (named, clean, unmarked) =
    rw
      (
        get_names-print e (named, clean, unmarked),
        get_operator-print e (named, clean, unmarked),
        contains-print e (named, clean, unmarked),
        sym named,
      )
      refl

pub validate_names-Clean : (names : List Text) → All Clean names → validate_names names ≡ done tt
unfolding validate_names validate_length
validate_names-Clean [] clean = refl
validate_names-Clean (name ∷ rest) ((full, stars, commas, braces, trimmed, fits), clean) =
    ground (arith, validate_names-Clean rest clean)
