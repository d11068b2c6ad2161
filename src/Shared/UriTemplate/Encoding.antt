-- ===== src/Shared/UriTemplate/Encoding.antt =====
-- shared/uri_template.go: what the values of variables can put into an expanded URI.
use mcp_go_sdk.Prelude.{
  ℕ, ◌+◌, ◌/◌, ◌%◌, ◌≤◌, ◌<◌, ◌≡◌, refl, sym, ◌∙◌, ap, subst, true, false, ◌||◌, none, some, List,
  [], ◌∷◌, ◌++◌, nat_Key, ◌==◌, if◌then◌else◌, length, leb, ltb, arith, All, All-append, Bool-cases,
  if_elim, inl, inr, ◌⊎◌,
}
use mcp_go_sdk.Prelude.Dict.{lookup}
use mcp_go_sdk.Shared.Text.{Text, Text_Key, query_escape, escape_byte, unreserved, hex_digit, join}
use mcp_go_sdk.Shared.UriTemplate.{
  ExpressionPart, TemplateError, too_long, Outcome, done, failed, ◌>>=◌, Operator, simple,
  max_variable_length, validate_length,
}
use mcp_go_sdk.Shared.UriTemplate.Expansion.{
  Variable, Variables, encode_value, encode_values, values_of, expand_one, expand_query,
  expand_several, is_query, expand_part, apply_operator,
}

abbrev pub Bytes : Text → Type 0
Bytes = All (λ c. c < 256)

-- No byte that has a meaning in a URI but % and + and the given separators
abbrev pub Plain : Text → Type 0
Plain = All (λ c. (unreserved c || (c == 37) || (c == 43) || (c == 44)) ≡ true)

hex_digit-Plain :
    (n : ℕ)
    → n < 16
    → (unreserved (hex_digit n)
        || (hex_digit n == 37)
        || (hex_digit n == 43)
        || (hex_digit n == 44))
      ≡ true
hex_digit-Plain n small =
    if_elim (λ c. (unreserved c || (c == 37) || (c == 43) || (c == 44)) ≡ true) (leb n 9) (n + 48)
      (n + 55) (λ few. ground arith) (λ more. ground arith)

escape_byte-Plain : (c : ℕ) → c < 256 → Plain (escape_byte c)
escape_byte-Plain c small =
    if_elim Plain (c == 32) _ _ (λ e. (refl, tt))
      (λ e.
        if_elim Plain (unreserved c) _ _ (λ h. (rw h refl, tt))
          (λ h. (
            refl,
            (hex_digit-Plain (c / 16) (omega arith), (hex_digit-Plain (c % 16) (omega arith), tt)),
          )))

done_eq : {A : Type 0} {a b : A} → done a ≡ done b → a ≡ b
done_eq e = cc

Outcome-cases :
    {A : Type 0} (o : Outcome A) → ((a : A) × (o ≡ done a)) ⊎ ((e : TemplateError) × (o ≡ failed e))
Outcome-cases (done a) = inl (a, refl)
Outcome-cases (failed e) = inr (e, refl)

query_escape-Plain : (text : Text) → Bytes text → Plain (query_escape text)
unfolding query_escape
query_escape-Plain [] bytes = tt
query_escape-Plain (c ∷ text) (small, bytes) =
    All-append _ (escape_byte c) (query_escape text) (escape_byte-Plain c small)
      (query_escape-Plain text bytes)

encode_value-Plain :
    (value out : Text) (operator : Operator)
    → Bytes value
    → encode_value value operator ≡ done out
    → Plain out
unfolding encode_value validate_length
encode_value-Plain value out operator bytes e =
    elim (Bool-cases (ltb max_variable_length (length value))) [
      | inl long ↦
          let computed : encode_value value operator
              ≡ failed (too_long "Variable value" max_variable_length (length value)) =
            rw (encode_value, long) refl in
          let never = sym computed ∙ e in cc
      | inr fits ↦
          let computed : encode_value value operator ≡ done (query_escape value) =
            rw (encode_value, fits) refl in
          subst Plain (done_eq (sym computed ∙ e)) (query_escape-Plain value bytes)
    ]

encode_values-Plain :
    (values pieces : List Text) (operator : Operator)
    → All Bytes values
    → encode_values values operator ≡ done pieces
    → All Plain pieces
unfolding encode_values
encode_values-Plain [] pieces operator bytes e = subst (All Plain) (done_eq e) tt
encode_values-Plain (value ∷ rest) pieces operator (first, others) e =
    elim (Outcome-cases (encode_value value operator)) [
      | inl (piece, one) ↦ elim (Outcome-cases (encode_values rest operator)) [
        | inl (more, all) ↦
            let computed : encode_values (value ∷ rest) operator ≡ done (piece ∷ more) =
              rw (encode_values, one, all) refl in
            subst (All Plain) (done_eq (sym computed ∙ e)) (
              encode_value-Plain value piece operator first one,
              encode_values-Plain rest more operator others all,
            )
        | inr (bad, fails) ↦
            let computed : encode_values (value ∷ rest) operator ≡ failed bad =
              rw (encode_values, one, fails) refl in
            let never = sym computed ∙ e in cc
      ]
      | inr (bad, fails) ↦
          let computed : encode_values (value ∷ rest) operator ≡ failed bad =
            rw (encode_values, fails) refl in
          let never = sym computed ∙ e in cc
    ]

join-Plain : (pieces : List Text) → All Plain pieces → Plain (join (44 ∷ []) pieces)
unfolding join
join-Plain [] all = tt
join-Plain (first ∷ []) (plain, all) = plain
join-Plain (first ∷ second ∷ rest) (plain, all) =
    All-append _ (first ++ 44 ∷ []) (join (44 ∷ []) (second ∷ rest))
      (All-append _ first (44 ∷ []) plain (refl, tt)) (join-Plain (second ∷ rest) all)

-- The one value of an expression without an operator
expand_part_one :
    (part : ExpressionPart) (variables : Variables) (value : Variable)
    → part.operator ≡ simple
    → length part.names ≤ 1
    → lookup part.name variables ≡ some value
    → expand_part part variables ≡ (
        encode_values (values_of value) part.operator >>= λ pieces.
        done (apply_operator simple pieces))
unfolding expand_part expand_one
expand_part_one part variables value op few found =
    let one : ltb 1 (length part.names) ≡ false = ground arith in
    ap
      (λ b.
        if b
        then expand_query part variables
        else if ltb 1 (length part.names)
        then done (expand_several part variables)
        else expand_one part variables)
      (ap is_query op)
    ∙ ap (λ b. if b then done (expand_several part variables) else expand_one part variables) one
    ∙ ap
        (λ v. elim v [
          | none ↦ done []
          | some w ↦ encode_values (values_of w) part.operator >>= λ pieces.
              done (apply_operator part.operator pieces)
        ])
        found
    ∙ ap
        (λ o. encode_values (values_of value) part.operator >>= λ pieces.
          done (apply_operator o pieces))
        op

-- What a variable puts into an expanded URI for an expression with at most one name and without an
-- operator consists of letters, digits, - _ . ~ and the bytes % + and the commas between the texts of a
-- list, whatever the bytes of its value: it cannot add a path segment, a query or a fragment.
pub expand_part-Plain :
    (part : ExpressionPart) (variables : Variables) (value : Variable) (out : Text)
    → part.operator ≡ simple
    → length part.names ≤ 1
    → lookup part.name variables ≡ some value
    → All Bytes (values_of value)
    → expand_part part variables ≡ done out
    → Plain out
unfolding apply_operator
expand_part-Plain part variables value out op few found bytes e =
    elim (Outcome-cases (encode_values (values_of value) part.operator)) [
      | inl (pieces, all) ↦
          subst Plain
            (done_eq (
              sym (ap (λ o. o >>= λ p. done (apply_operator simple p)) all)
              ∙ sym (expand_part_one part variables value op few found)
              ∙ e))
            (join-Plain pieces
              (encode_values-Plain (values_of value) pieces part.operator bytes all))
      | inr (bad, fails) ↦
          let never =
            sym (ap (λ o. o >>= λ p. done (apply_operator simple p)) fails)
            ∙ sym (expand_part_one part variables value op few found)
            ∙ e in
          cc
    ]
