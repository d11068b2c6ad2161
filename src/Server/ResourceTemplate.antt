-- ===== src/Server/ResourceTemplate.antt =====
-- server/resource_template.go: ValidateURITemplate. A text is its bytes; the regular expressions,
-- which are fixed there, are written as functions.
pub mod Grammar
use mcp_go_sdk.Prelude.{
  ℕ, zero, suc, Bool, true, false, ◌&&◌, ◌||◌, not, Option, none, some, List, [], ◌∷◌, ◌++◌,
  nat_Key, ◌==◌, if◌then◌else◌,
}
use mcp_go_sdk.Shared.Text.{Text, Text_Key, between}

pub data TemplateFault : Type 0 where
  empty_template nested_braces unmatched_closing unmatched_opening empty_name : TemplateFault
  invalid_name : Text → TemplateFault

-- The loop over the characters; at a closing brace the depth is not negative afterwards.
unfoldable pub check_braces : ℕ → Text → Option TemplateFault
check_braces zero [] = none
check_braces (suc depth) [] = some unmatched_opening
check_braces zero (c ∷ rest) = elim (c == 123) [
  | true ↦ check_braces 1 rest
  | false ↦ elim (c == 125) [ true ↦ some unmatched_closing | false ↦ check_braces zero rest ]
]
check_braces (suc depth) (c ∷ rest) = elim (c == 123) [
  | true ↦ some nested_braces
  | false ↦ elim (c == 125) [
    | true ↦ check_braces depth rest
    | false ↦ check_braces (suc depth) rest
  ]
]

-- [+#./;?&]
abbrev pub is_operator : ℕ → Bool
is_operator c =
    (c == 43) || (c == 35) || (c == 46) || (c == 47) || (c == 59) || (c == 63) || (c == 38)

-- The second group of `([+#./;?&]?)([^}]*)(\*?)` on what stands between two braces: the third one is
-- empty, since the second one takes all that is left.
abbrev pub variable_name : Text → Text
variable_name [] = []
variable_name (c ∷ rest) = if is_operator c then rest else c ∷ rest

-- `FindAllStringSubmatch` of that expression between braces: the texts from an opening brace to the
-- next closing one. The option is the text since the opening brace.
unfoldable pub expressions_in : Option Text → Text → List Text
expressions_in at [] = []
expressions_in none (c ∷ rest) =
    if c == 123 then expressions_in (some []) rest else expressions_in none rest
expressions_in (some expr) (c ∷ rest) =
    if c == 125
    then expr ∷ expressions_in none rest
    else expressions_in (some (expr ++ c ∷ [])) rest

-- ^[a-zA-Z_][a-zA-Z0-9_]*$
abbrev pub is_letter : ℕ → Bool
is_letter c = between 97 122 c || between 65 90 c || (c == 95)

unfoldable pub all_word : Text → Bool
all_word [] = true
all_word (c ∷ rest) = (is_letter c || between 48 57 c) && all_word rest

unfoldable pub is_identifier : Text → Bool
unfolding all_word
is_identifier [] = false
is_identifier (c ∷ rest) = is_letter c && all_word rest

abbrev pub name_fault : Text → Option TemplateFault
name_fault [] = some empty_name
name_fault (c ∷ name) = if is_identifier (c ∷ name) then none else some (invalid_name (c ∷ name))

unfoldable pub check_names : List Text → Option TemplateFault
unfolding is_identifier
check_names [] = none
check_names (expr ∷ rest) = elim (name_fault (variable_name expr)) [
  | some fault ↦ some fault
  | none ↦ check_names rest
]

unfoldable pub validate_uri_template : Text → Option TemplateFault
unfolding check_braces expressions_in check_names
validate_uri_template [] = some empty_template
validate_uri_template (c ∷ text) = elim (check_braces 0 (c ∷ text)) [
  | some fault ↦ some fault
  | none ↦ check_names (expressions_in none (c ∷ text))
]
