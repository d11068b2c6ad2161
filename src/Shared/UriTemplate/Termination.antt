-- ===== src/Shared/UriTemplate/Termination.antt =====
-- shared/uri_template.go: the loop of parse comes to an end.
use mcp_go_sdk.Prelude.{
  ℕ, zero, suc, ◌+◌, ◌≤◌, ◌<◌, ◌≡◌, ◌≢◌, refl, ap, true, false, some, List, [], ◌∷◌, ◌++◌, nat_Key,
  ◌==◌, length, ltb, arith, Option-cases, Bool-cases, inl, inr,
}
use mcp_go_sdk.Shared.Text.{Text, cut}
use mcp_go_sdk.Shared.UriTemplate.{
  Outcome, failed, ◌>>=◌, out_of_fuel, too_many_expressions, TemplatePart, parse, parse_loop,
  validate_names, validate_length, get_names, open_brace, close_brace, expression_of, flush,
  expression, max_variable_length, max_template_expressions,
}

pub cut-shorter :
    (b : ℕ) (text before after : Text)
    → cut b text ≡ some (before, after)
    → length after < length text
unfolding cut
cut-shorter b [] before after h = cc
cut-shorter b (c ∷ rest) before after h = elim (Option-cases (cut b rest)) [
  | inl never ↦ ground arith
  | inr ((x, y), found) ↦ ground (arith, cut-shorter b rest x y found)
]

-- More fuel than the text has bytes changes nothing.
pub parse_loop-fuel :
    (f g : ℕ) (parts : List TemplatePart) (text : Text) (count : ℕ) (rest : Text)
    → length rest ≤ f
    → length rest ≤ g
    → parse_loop f parts text count rest ≡ parse_loop g parts text count rest
unfolding parse_loop
parse_loop-fuel f g parts text count [] le le' = refl
parse_loop-fuel zero g parts text count (c ∷ rest) le le' = ground arith
parse_loop-fuel (suc f) zero parts text count (c ∷ rest) le le' = ground arith
parse_loop-fuel (suc f) (suc g) parts text count (c ∷ rest) le le' =
    elim (Bool-cases (c == open_brace)) [
      | inr other ↦
          rw (parse_loop, other)
            (parse_loop-fuel f g parts (text ++ c ∷ []) count rest (omega arith) (omega arith))
      | inl opens ↦ elim (Option-cases (cut close_brace rest)) [
        | inl never ↦ rw (parse_loop, opens, never) refl
        | inr ((expr, after), found) ↦
            let shorter = cut-shorter close_brace rest expr after found in
            let next = flush text parts ++ expression (expression_of expr) ∷ [] in
            rw (parse_loop, opens, found)
              (ap
                (λ later. elim (ltb max_template_expressions (count + 1)) [
                  | true ↦ failed too_many_expressions
                  | false ↦ validate_names (get_names expr) >>= λ ok. later
                ])
                (parse_loop-fuel f g next [] (count + 1) after (omega arith) (omega arith)))
      ]
    ]

validate_names-fuelled :
    {A : Type 0} (names : List Text) (o : Outcome A)
    → o ≢ failed out_of_fuel
    → (validate_names names >>= λ ok. o) ≢ failed out_of_fuel
unfolding validate_names validate_length
validate_names-fuelled [] o fuelled = fuelled
validate_names-fuelled (name ∷ rest) o fuelled =
    elim (Bool-cases (ltb max_variable_length (length name))) [
      | inl long ↦ rw long (λ e. cc)
      | inr fits ↦ rw fits (validate_names-fuelled rest o fuelled)
    ]

parse_loop-fuelled :
    (f : ℕ) (parts : List TemplatePart) (text : Text) (count : ℕ) (rest : Text)
    → length rest ≤ f
    → parse_loop f parts text count rest ≢ failed out_of_fuel
unfolding parse_loop
parse_loop-fuelled f parts text count [] le = λ e. cc
parse_loop-fuelled zero parts text count (c ∷ rest) le = ground arith
parse_loop-fuelled (suc f) parts text count (c ∷ rest) le = elim (Bool-cases (c == open_brace)) [
  | inr other ↦
      rw (parse_loop, other) (parse_loop-fuelled f parts (text ++ c ∷ []) count rest (omega arith))
  | inl opens ↦ elim (Option-cases (cut close_brace rest)) [
    | inl never ↦ rw (parse_loop, opens, never) (λ e. cc)
    | inr ((expr, after), found) ↦
        let shorter = cut-shorter close_brace rest expr after found in
        elim (Bool-cases (ltb max_template_expressions (count + 1))) [
          | inl many ↦ rw (parse_loop, opens, found, many) (λ e. cc)
          | inr few ↦
              rw (parse_loop, opens, found, few)
                (validate_names-fuelled (get_names expr) _ (
                  parse_loop-fuelled f (flush text parts ++ expression (expression_of expr) ∷ []) []
                    (count + 1) after (omega arith)))
        ]
  ]
]

-- The loop of parse ends within as many turns as the template has bytes, on every template: it never
-- runs out of that fuel, and more fuel gives the same parts or the same error.
pub parse-fuelled :
    (template : Text) (fuel : ℕ)
    → length template ≤ fuel
    → (parse template ≢ failed out_of_fuel) × (parse_loop fuel [] [] 0 template ≡ parse template)
unfolding parse
parse-fuelled template fuel le = (
  parse_loop-fuelled (length template) [] [] 0 template (omega arith),
  parse_loop-fuel fuel (length template) [] [] 0 template le (omega arith),
)
