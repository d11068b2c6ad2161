-- ===== src/Shared/UriTemplateExamples.antt =====
-- Instances for the URI templates: "/a/{x,y*}{?q}".
use mcp_go_sdk.Prelude.{◌≡◌, ◌≢◌, refl, true, false, List, [], ◌∷◌, arith}
use mcp_go_sdk.Prelude.Dict.{lookup}
use mcp_go_sdk.Shared.Text.{Text, Text_Key, codes, trim_space, skip_spaces, query_escape, join}
use mcp_go_sdk.Shared.UriTemplate.{
  TemplatePart, literal, expression, ExpressionPart, simple, query, parse, parse_loop, done, failed,
  out_of_fuel, get_operator, validate_length,
}
use mcp_go_sdk.Shared.UriTemplate.Expansion.{
  Variables, texts, expand_part, expand_one, encode_values, encode_value, apply_operator,
}
use mcp_go_sdk.Shared.UriTemplate.Names.{Clean, print_names}
use mcp_go_sdk.Shared.UriTemplate.Printing.{Parsed, before, next, empty}
use mcp_go_sdk.Shared.UriTemplate.RoundTrip.{parse-print}
use mcp_go_sdk.Shared.UriTemplate.Termination.{parse-fuelled}
use mcp_go_sdk.Shared.UriTemplate.Encoding.{Plain, expand_part-Plain}

abbrev template : Text
template = codes "/a/{x,y*}{?q}"

abbrev place : ExpressionPart
place = record {
  name = codes "x";
  operator = simple;
  names = codes "x" ∷ codes "y" ∷ [];
  exploded = true;
}

abbrev asked : ExpressionPart
asked = record { name = codes "q"; operator = query; names = codes "q" ∷ []; exploded = false }

abbrev parts : List TemplatePart
parts = literal (codes "/a/") ∷ expression place ∷ expression asked ∷ []

parse-fuelled_example :
    (parse template ≢ failed out_of_fuel) × (parse_loop 20 [] [] 0 template ≡ parse template)
parse-fuelled_example = parse-fuelled template 20 (omega arith)

x-Clean : Clean (codes "x")
unfolding trim_space skip_spaces
x-Clean = (λ e. cc, (omega arith, tt), (omega arith, tt), (omega arith, tt), refl, omega arith)

y-Clean : Clean (codes "y")
unfolding trim_space skip_spaces
y-Clean = (λ e. cc, (omega arith, tt), (omega arith, tt), (omega arith, tt), refl, omega arith)

q-Clean : Clean (codes "q")
unfolding trim_space skip_spaces
q-Clean = (λ e. cc, (omega arith, tt), (omega arith, tt), (omega arith, tt), refl, omega arith)

place-Parsed : Parsed place
unfolding get_operator
place-Parsed = (refl, (x-Clean, (y-Clean, tt)), λ e. refl)

asked-Parsed : Parsed asked
asked-Parsed = (refl, (q-Clean, tt), λ e. cc)

parse-print_example : parse template ≡ done parts
unfolding print_names
parse-print_example =
    parse-print parts
      (before (omega arith, (omega arith, (omega arith, tt))) place-Parsed
        (next asked-Parsed empty))
      (omega arith)

abbrev one : ExpressionPart
one = record { name = codes "x"; operator = simple; names = codes "x" ∷ []; exploded = false }

abbrev variables : Variables
variables = (codes "x", texts (codes "a/b" ∷ codes "c?" ∷ [])) ∷ []

expand_part-Plain_example : Plain (codes "a%2Fb,c%3F")
unfolding lookup expand_part expand_one encode_values encode_value validate_length query_escape
    apply_operator join
expand_part-Plain_example =
    expand_part-Plain one variables (texts (codes "a/b" ∷ codes "c?" ∷ [])) (codes "a%2Fb,c%3F")
      refl (omega arith) refl
      ((omega arith, (omega arith, (omega arith, tt))), ((omega arith, (omega arith, tt)), tt)) refl
