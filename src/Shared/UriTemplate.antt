-- ===== src/Shared/UriTemplate.antt =====
-- shared/uri_template.go: URI templates, their parts, and the parser.
pub mod Expansion
pub mod Termination
pub mod Names
pub mod Printing
pub mod RoundTrip
pub mod Encoding
use mcp_go_sdk.Prelude.{
  ℕ, zero, suc, ◌+◌, Bool, true, false, Option, none, some, List, [], ◌∷◌, ◌++◌, String, nat_Key,
  ◌==◌, if◌then◌else◌, length, ltb, map,
}
use mcp_go_sdk.Shared.Text.{Text, contains, cut, split, remove_byte, trim_space}

pub data TemplateError : Type 0 where
  too_long : String → ℕ → ℕ → TemplateError
  unclosed_expression : TemplateError
  too_many_expressions : TemplateError
  invalid_pattern : TemplateError
  out_of_fuel : TemplateError

pub data Outcome {ℓ} (A : Type ℓ) : Type ℓ where
  done : A → Outcome A
  failed : TemplateError → Outcome A

infixl 5 ◌>>=◌
abbrev pub ◌>>=◌ {ℓ κ} : {A : Type ℓ} {B : Type κ} → Outcome A → (A → Outcome B) → Outcome B
done a >>= f = f a
failed e >>= f = failed e

pub data Operator : Type 0 where
  simple plus hash dot slash query ampersand : Operator

pub record ExpressionPart : Type 0 where
  pub name : Text
  pub operator : Operator
  pub names : List Text
  pub exploded : Bool

pub data TemplatePart : Type 0 where
  literal : Text → TemplatePart
  expression : ExpressionPart → TemplatePart

pub record UriTemplate : Type 0 where
  pub template : Text
  pub parts : List TemplatePart

abbrev pub max_template_length : ℕ
max_template_length = 1000000

abbrev pub max_variable_length : ℕ
max_variable_length = 1000000

abbrev pub max_template_expressions : ℕ
max_template_expressions = 10000

abbrev pub max_regex_length : ℕ
max_regex_length = 1000000

abbrev pub open_brace : ℕ
open_brace = 123

abbrev pub close_brace : ℕ
close_brace = 125

unfoldable pub validate_length : Text → ℕ → String → Outcome (Unit {0})
validate_length text max context =
    if ltb max (length text) then failed (too_long context max (length text)) else done tt

-- The operator of an expression, and the expression without it
abbrev pub operator_of : ℕ → Operator
operator_of c =
    if c == 43
    then plus
    else if c == 35
    then hash
    else if c == 46
    then dot
    else if c == 47
    then slash
    else if c == 63
    then query
    else if c == 38
    then ampersand
    else simple

unfoldable pub get_operator : Text → Operator
get_operator [] = simple
get_operator (c ∷ rest) = operator_of c

abbrev pub trim_operator : Operator → Text → Text
trim_operator simple expr = expr
trim_operator _ [] = []
trim_operator _ (c ∷ rest) = rest

-- The loop of getNames: the stars and the spaces around are dropped, and the empty names.
unfoldable pub clean_names : List Text → List Text
clean_names [] = []
clean_names (name ∷ rest) = elim (trim_space (remove_byte 42 name)) [
  | [] ↦ clean_names rest
  | c ∷ clean ↦ (c ∷ clean) ∷ clean_names rest
]

unfoldable pub get_names : Text → List Text
unfolding get_operator clean_names
get_names expr = clean_names (split 44 (trim_operator (get_operator expr) expr))

unfoldable pub validate_names : List Text → Outcome (Unit {0})
unfolding validate_length
validate_names [] = done tt
validate_names (name ∷ rest) =
    validate_length name max_variable_length "Variable name" >>= λ ok. validate_names rest

abbrev pub first_name : List Text → Text
first_name [] = []
first_name (name ∷ rest) = name

abbrev pub expression_of : Text → ExpressionPart
expression_of expr = record {
  name = first_name (get_names expr);
  operator = get_operator expr;
  names = get_names expr;
  exploded = contains 42 expr;
}

-- The literal text gathered so far, as a part
abbrev pub flush : Text → List TemplatePart → List TemplatePart
flush [] parts = parts
flush (c ∷ text) parts = parts ++ literal (c ∷ text) ∷ []

-- The loop of parse: the parts so far, the text gathered, the number of expressions, and the rest of
-- the template. Every turn takes a byte of it at least.
unfoldable pub parse_loop : ℕ → List TemplatePart → Text → ℕ → Text → Outcome (List TemplatePart)
unfolding get_names validate_names
parse_loop fuel parts text count [] = done (flush text parts)
parse_loop zero parts text count (c ∷ rest) = failed out_of_fuel
parse_loop (suc fuel) parts text count (c ∷ rest) = elim (c == open_brace) [
  | false ↦ parse_loop fuel parts (text ++ c ∷ []) count rest
  | true ↦ elim (cut close_brace rest) [
    | none ↦ failed unclosed_expression
    | some (expr, after) ↦ elim (ltb max_template_expressions (count + 1)) [
      | true ↦ failed too_many_expressions
      | false ↦ validate_names (get_names expr) >>= λ ok.
          parse_loop fuel (flush text parts ++ expression (expression_of expr) ∷ []) [] (count + 1)
            after
    ]
  ]
]

unfoldable pub parse : Text → Outcome (List TemplatePart)
unfolding parse_loop
parse template = parse_loop (length template) [] [] 0 template

unfoldable pub new_uri_template : Text → Outcome UriTemplate
unfolding parse validate_length
new_uri_template template = validate_length template max_template_length "Template" >>= λ ok.
    parse template >>= λ parts. done (record { template = template; parts = parts })

unfoldable pub part_names : List TemplatePart → List Text
part_names [] = []
part_names (literal text ∷ rest) = part_names rest
part_names (expression e ∷ rest) = e.names ++ part_names rest

unfoldable pub variable_names : UriTemplate → List Text
unfolding part_names
variable_names t = part_names t.parts
