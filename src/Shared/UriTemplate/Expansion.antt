-- ===== src/Shared/UriTemplate/Expansion.antt =====
-- shared/uri_template.go: Expand and Match. `Regexp` is the package regexp.
use mcp_go_sdk.Prelude.{
  ℕ, Bool, true, false, ◌&&◌, ◌||◌, Option, none, some, List, [], ◌∷◌, ◌++◌, nat_Key, if◌then◌else◌,
  length, ltb, map,
}
use mcp_go_sdk.Prelude.Dict.{Dict, lookup, insert}
use mcp_go_sdk.Shared.Text.{
  Text, Text_Key, codes, contains, remove_byte, replace_first, join, split, query_escape,
  quote_meta,
}
use mcp_go_sdk.Shared.UriTemplate.{
  UriTemplate, TemplatePart, literal, expression, ExpressionPart, Operator, simple, plus, hash, dot,
  slash, query, ampersand, Outcome, done, failed, invalid_pattern, ◌>>=◌, validate_length,
  max_variable_length, max_template_length, max_regex_length,
}

-- The value of a variable: a []string, or what `fmt.Sprintf("%v", value)` prints of another.
pub data Variable : Type 0 where
  texts : List Text → Variable
  printed : Text → Variable

abbrev pub Variables : Type 0
Variables = Dict Text Variable

-- Both cases of the switch are url.QueryEscape.
unfoldable pub encode_value : Text → Operator → Outcome Text
encode_value value operator =
    validate_length value max_variable_length "Variable value" >>= λ ok. done (query_escape value)

unfoldable pub encode_values : List Text → Operator → Outcome (List Text)
unfolding encode_value
encode_values [] operator = done []
encode_values (value ∷ rest) operator = encode_value value operator >>= λ first.
    encode_values rest operator >>= λ others. done (first ∷ others)

unfoldable pub encode_variable : Variable → Operator → Outcome Text
unfolding encode_values encode_value
encode_variable (texts values) operator =
    encode_values values operator >>= λ encoded. done (join (44 ∷ []) encoded)
encode_variable (printed value) operator = encode_value value operator

-- The loop over the names of a query expression
unfoldable pub query_pairs : List Text → Operator → Variables → Outcome (List Text)
unfolding encode_variable
query_pairs [] operator variables = done []
query_pairs (name ∷ rest) operator variables =
    let others = query_pairs rest operator variables in
    elim (lookup name variables) [
      | none ↦ others
      | some value ↦ encode_variable value operator >>= λ encoded.
          others >>= λ pairs. done ((name ++ 61 ∷ encoded) ∷ pairs)
    ]

-- The value of one of several names: not encoded; of a []string, its first text.
abbrev pub plain_value : Variable → Text
plain_value (texts []) = codes "[]"
plain_value (texts (value ∷ rest)) = value
plain_value (printed value) = value

unfoldable pub plain_values : List Text → Variables → List Text
plain_values [] variables = []
plain_values (name ∷ rest) variables =
    let others = plain_values rest variables in
    elim (lookup name variables) [ none ↦ others | some value ↦ plain_value value ∷ others ]

-- The two equal switches at the end of expandPart
unfoldable pub apply_operator : Operator → List Text → Text
apply_operator hash values = 35 ∷ join (44 ∷ []) values
apply_operator dot values = 46 ∷ join (46 ∷ []) values
apply_operator slash values = 47 ∷ join (47 ∷ []) values
apply_operator _ values = join (44 ∷ []) values

abbrev pub is_query : Operator → Bool
is_query query = true
is_query ampersand = true
is_query _ = false

abbrev pub separator : Operator → ℕ
separator ampersand = 38
separator _ = 63

unfoldable pub expand_query : ExpressionPart → Variables → Outcome Text
unfolding query_pairs
expand_query part variables = query_pairs part.names part.operator variables >>= λ pairs.
    elim pairs [
      | [] ↦ done []
      | pair ∷ rest ↦ done (separator part.operator ∷ join (38 ∷ []) (pair ∷ rest))
    ]

unfoldable pub expand_several : ExpressionPart → Variables → Text
unfolding plain_values apply_operator
expand_several part variables = elim (plain_values part.names variables) [
  | [] ↦ []
  | value ∷ rest ↦ apply_operator part.operator (value ∷ rest)
]

abbrev pub values_of : Variable → List Text
values_of (texts values) = values
values_of (printed value) = value ∷ []

unfoldable pub expand_one : ExpressionPart → Variables → Outcome Text
unfolding encode_values apply_operator
expand_one part variables = elim (lookup part.name variables) [
  | none ↦ done []
  | some value ↦ encode_values (values_of value) part.operator >>= λ encoded.
      done (apply_operator part.operator encoded)
]

unfoldable pub expand_part : ExpressionPart → Variables → Outcome Text
unfolding expand_query expand_several expand_one
expand_part part variables =
    if is_query part.operator
    then expand_query part variables
    else if ltb 1 (length part.names)
    then done (expand_several part variables)
    else expand_one part variables

-- The loop of Expand: whether a query parameter came before, and the result so far
unfoldable pub expand_loop : List TemplatePart → Variables → Bool → Text → Outcome Text
unfolding expand_part
expand_loop [] variables has_query result = done result
expand_loop (literal text ∷ rest) variables has_query result =
    expand_loop rest variables has_query (result ++ text)
expand_loop (expression part ∷ rest) variables has_query result =
    expand_part part variables >>= λ expanded. elim expanded [
      | [] ↦ expand_loop rest variables has_query result
      | c ∷ more ↦
          let asks = is_query part.operator in
          let shown = if asks && has_query then replace_first 63 38 (c ∷ more) else c ∷ more in
          expand_loop rest variables (asks || has_query) (result ++ shown)
    ]

unfoldable pub expand : UriTemplate → Variables → Outcome Text
unfolding expand_loop
expand t variables = expand_loop t.parts variables false []

-- `Compile`, and `FindStringSubmatch`: the text of each group
pub record Regexp : Type 1 where
  pub Compiled : Type 0
  pub compile : Text → Option Compiled
  pub find : Compiled → Text → Option (List Text)

pub record PatternInfo : Type 0 where
  pub pattern : Text
  pub name : Text

-- The patterns after the first, of a query expression
unfoldable pub query_patterns : Text → List Text → List PatternInfo
query_patterns prefix [] = []
query_patterns prefix (name ∷ rest) =
    (record { pattern = prefix ++ quote_meta name ++ codes "=([^&]+)"; name = name })
    ∷ query_patterns (codes "&") rest

abbrev pub simple_pattern : Operator → Bool → Text
simple_pattern simple true = codes "([^/]+(?:,[^/]+)*)"
simple_pattern simple false = codes "([^/,]+)"
simple_pattern plus exploded = codes "(.+)"
simple_pattern hash exploded = codes "(.+)"
simple_pattern dot exploded = codes "\\.([^/,]+)"
simple_pattern slash true = codes "/([^/]+(?:,[^/]+)*)"
simple_pattern slash false = codes "/([^/,]+)"
simple_pattern _ exploded = codes "([^/]+)"

unfoldable pub part_to_reg_exp : ExpressionPart → List PatternInfo
unfolding query_patterns
part_to_reg_exp part =
    if is_query part.operator
    then query_patterns (92 ∷ separator part.operator ∷ []) part.names
    else (record { pattern = simple_pattern part.operator part.exploded; name = part.name }) ∷ []

-- The pattern of the parts, and the names of its groups
unfoldable pub pattern_of : List TemplatePart → Text
unfolding part_to_reg_exp
pattern_of [] = []
pattern_of (literal text ∷ rest) = quote_meta text ++ pattern_of rest
pattern_of (expression part ∷ rest) =
    join [] (map (λ p. p.pattern) (part_to_reg_exp part)) ++ pattern_of rest

unfoldable pub group_names : List TemplatePart → List (Text × Bool)
unfolding part_to_reg_exp
group_names [] = []
group_names (literal text ∷ rest) = group_names rest
group_names (expression part ∷ rest) =
    map (λ p. (p.name, part.exploded)) (part_to_reg_exp part) ++ group_names rest

-- The loop over the names and the groups; a group that the match does not have is skipped.
unfoldable pub collect : List (Text × Bool) → List Text → Variables → Variables
collect [] groups result = result
collect (name ∷ names) [] result = result
collect ((name, exploded) ∷ names) (value ∷ groups) result =
    let clean = remove_byte 42 name in
    let kept = if exploded && contains 44 value then texts (split 44 value) else printed value in
    collect names groups (insert clean kept result)

-- Match; no error and no variables where the URI does not match.
unfoldable pub match_uri : Regexp → UriTemplate → Text → Outcome (Option Variables)
unfolding pattern_of group_names collect
match_uri regexp t uri =
    let pattern = 94 ∷ pattern_of t.parts ++ 36 ∷ [] in
    validate_length uri max_template_length "URI" >>= λ ok.
    validate_length pattern max_regex_length "Generated regex pattern" >>= λ ok.
    elim (regexp.compile pattern) [
      | none ↦ failed invalid_pattern
      | some compiled ↦ elim (regexp.find compiled uri) [
        | none ↦ done none
        | some groups ↦ done (some (collect (group_names t.parts) groups []))
      ]
    ]
