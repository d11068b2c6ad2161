-- ===== src/Server/ResourceTemplate/Grammar.antt =====
-- server/resource_template.go: which templates ValidateURITemplate accepts.
use mcp_go_sdk.Prelude.{
  ℕ, zero, suc, ◌≡◌, ◌≢◌, ◌↔◌, refl, sym, ◌∙◌, ap, subst, true, false, Option, none, some, List, [],
  ◌∷◌, ◌++◌, nat_Key, ◌==◌, arith, ◌≤◌, length, length-append, Bool-cases, Option-cases, inl, inr,
  eq_of_==,
}
use mathlib.Core.List.{append-nil, append_assoc}
use mcp_go_sdk.Shared.Text.{Text}
use mcp_go_sdk.Shared.UriTemplate.Names.{Lacks}
use mcp_go_sdk.Server.ResourceTemplate.{
  TemplateFault, nested_braces, unmatched_closing, check_braces, variable_name, expressions_in,
  is_identifier, name_fault, check_names, validate_uri_template,
}

-- Characters other than braces, and expressions of an optional operator and an identifier.
pub data Grammar : Text → Type 0 where
  end : Grammar []
  literal : {c : ℕ} {rest : Text} → c ≢ 123 → c ≢ 125 → Grammar rest → Grammar (c ∷ rest)
  expression :
      (expr : Text) {rest : Text}
      → Lacks 123 expr
      → Lacks 125 expr
      → is_identifier (variable_name expr) ≡ true
      → Grammar rest
      → Grammar (123 ∷ expr ++ 125 ∷ rest)

-- In an expression
check_braces_inside :
    (expr rest : Text)
    → Lacks 123 expr
    → Lacks 125 expr
    → check_braces 1 (expr ++ 125 ∷ rest) ≡ check_braces 0 rest
unfolding check_braces
check_braces_inside [] rest opens closes = refl
check_braces_inside (c ∷ expr) rest (not_open, opens) (not_close, closes) =
    let o : (c == 123) ≡ false = ground (arith, nat_Key.same_iff c 123) in
    let s : (c == 125) ≡ false = ground (arith, nat_Key.same_iff c 125) in
    rw (check_braces, o, s) (check_braces_inside expr rest opens closes)

expressions_in_inside :
    (before expr rest : Text)
    → Lacks 125 expr
    → expressions_in (some before) (expr ++ 125 ∷ rest)
      ≡ (before ++ expr) ∷ expressions_in none rest
unfolding expressions_in
expressions_in_inside before [] rest closes =
    ap (λ e. e ∷ expressions_in none rest) (sym (append-nil before))
expressions_in_inside before (c ∷ expr) rest (not_close, closes) =
    let s : (c == 125) ≡ false = ground (arith, nat_Key.same_iff c 125) in
    rw (expressions_in, s)
      (expressions_in_inside (before ++ c ∷ []) expr rest closes
        ∙ ap (λ e. e ∷ expressions_in none rest) (append_assoc before (c ∷ []) expr))

not_brace : (b c : ℕ) → (c == b) ≡ false → c ≢ b
not_brace b c other same = ground (arith, nat_Key.same_iff c b)

-- What stands inside, where the depth comes back to 0
inside :
    (text : Text)
    → check_braces 1 text ≡ none
    → (expr rest : Text) × (text ≡ expr ++ 125 ∷ rest)
      × Lacks 123 expr
      × Lacks 125 expr
      × (check_braces 0 rest ≡ none)
unfolding check_braces
inside [] h = ([], [], cc, tt, tt, cc)
inside (c ∷ text) h = elim (Bool-cases (c == 123)) [
  | inl opens ↦
      let computed : check_braces 1 (c ∷ text) ≡ some nested_braces =
        rw (check_braces, opens) refl in
      let never = sym computed ∙ h in ([], [], cc, tt, tt, cc)
  | inr other ↦ elim (Bool-cases (c == 125)) [
    | inl closes ↦
        let computed : check_braces 1 (c ∷ text) ≡ check_braces 0 text =
          rw (check_braces, other, closes) refl in
        ([], text, ap (λ d. d ∷ text) (eq_of_== c 125 closes), tt, tt, sym computed ∙ h)
    | inr inner ↦
        let computed : check_braces 1 (c ∷ text) ≡ check_braces 1 text =
          rw (check_braces, other, inner) refl in
        let (expr, rest, split, opens, closes, ok) = inside text (sym computed ∙ h) in
        (
          c ∷ expr,
          rest,
          ap (λ t. c ∷ t) split,
          (not_brace 123 c other, opens),
          (not_brace 125 c inner, closes),
          ok,
        )
  ]
]

name_fault_iff : (name : Text) → (name_fault name ≡ none) ↔ (is_identifier name ≡ true)
unfolding is_identifier
name_fault_iff [] = ground arith
name_fault_iff (c ∷ name) = ground arith

-- Accepted, for all depths at once: the two checks as validate_uri_template makes them
abbrev pub Accepts : Text → Type 0
Accepts text = (check_braces 0 text ≡ none) × (check_names (expressions_in none text) ≡ none)

Accepts-expression :
    (expr rest : Text)
    → Lacks 123 expr
    → Lacks 125 expr
    → is_identifier (variable_name expr) ≡ true
    → Accepts rest
    → Accepts (123 ∷ expr ++ 125 ∷ rest)
unfolding check_braces expressions_in check_names
Accepts-expression expr rest opens closes named (braces, names) = (
  check_braces_inside expr rest opens closes ∙ braces,
  ap check_names (expressions_in_inside [] expr rest closes)
      ∙ rw (check_names, (name_fault_iff (variable_name expr)).1 named) names,
)

Accepts-literal : (c : ℕ) (rest : Text) → c ≢ 123 → c ≢ 125 → Accepts rest → Accepts (c ∷ rest)
unfolding check_braces expressions_in
Accepts-literal c rest not_open not_close (braces, names) =
    let o : (c == 123) ≡ false = ground (arith, nat_Key.same_iff c 123) in
    let s : (c == 125) ≡ false = ground (arith, nat_Key.same_iff c 125) in
    (rw (check_braces, o, s) braces, rw (expressions_in, o) names)

Grammar-Accepts : (text : Text) → Grammar text → Accepts text
unfolding check_braces expressions_in check_names
Grammar-Accepts _ end = (refl, refl)
Grammar-Accepts _ (literal {c = c} {rest = rest} not_open not_close more) =
    Accepts-literal c rest not_open not_close (Grammar-Accepts rest more)
Grammar-Accepts _ (expression expr {rest = rest} opens closes named more) =
    Accepts-expression expr rest opens closes named (Grammar-Accepts rest more)

-- The names of a list that passes
first_passes :
    (expr : Text) (rest : List Text)
    → check_names (expr ∷ rest) ≡ none
    → (is_identifier (variable_name expr) ≡ true) × (check_names rest ≡ none)
unfolding check_names
first_passes expr rest h = elim (Option-cases (name_fault (variable_name expr))) [
  | inl good ↦
      let computed : check_names (expr ∷ rest) ≡ check_names rest = rw (check_names, good) refl in
      ((name_fault_iff (variable_name expr)).0 good, sym computed ∙ h)
  | inr (fault, bad) ↦
      let computed : check_names (expr ∷ rest) ≡ some fault = rw (check_names, bad) refl in
      let never = sym computed ∙ h in (cc, cc)
]

-- One step of the grammar from what the checks say
accepted_literal :
    (c : ℕ) (rest : Text) → (c == 123) ≡ false → Accepts (c ∷ rest) → (c ≢ 125) × Accepts rest
unfolding check_braces expressions_in
accepted_literal c rest other (braces, names) = elim (Bool-cases (c == 125)) [
  | inl closes ↦
      let computed : check_braces 0 (c ∷ rest) ≡ some unmatched_closing =
        rw (check_braces, other, closes) refl in
      let never = sym computed ∙ braces in (λ e. cc, (cc, cc))
  | inr inner ↦
      let computed : check_braces 0 (c ∷ rest) ≡ check_braces 0 rest =
        rw (check_braces, other, inner) refl in
      let listed : expressions_in none (c ∷ rest) ≡ expressions_in none rest =
        rw (expressions_in, other) refl in
      (not_brace 125 c inner, (sym computed ∙ braces, sym (ap check_names listed) ∙ names))
]

accepted_expression :
    (text : Text)
    → Accepts (123 ∷ text)
    → (expr rest : Text) × (text ≡ expr ++ 125 ∷ rest)
      × Lacks 123 expr
      × Lacks 125 expr
      × (is_identifier (variable_name expr) ≡ true)
      × Accepts rest
unfolding check_braces expressions_in
accepted_expression text (braces, names) =
    let (expr, rest, split, opens, closes, ok) = inside text braces in
    let listed : expressions_in (some []) text ≡ expr ∷ expressions_in none rest =
      ap (expressions_in (some [])) split ∙ expressions_in_inside [] expr rest closes in
    let (named, others) =
      first_passes expr (expressions_in none rest) (sym (ap check_names listed) ∙ names) in
    (expr, rest, split, opens, closes, named, (ok, others))

Accepts-Grammar : (n : ℕ) (text : Text) → length text ≤ n → Accepts text → Grammar text
Accepts-Grammar n [] le accepts = end
Accepts-Grammar zero (c ∷ text) le accepts =
    let never : [] ≡ c ∷ text = ground arith in subst Grammar never end
Accepts-Grammar (suc n) (c ∷ text) le accepts = elim (Bool-cases (c == 123)) [
  | inl opens ↦
      let same = eq_of_== c 123 opens in
      let (expr, rest, split, opens, closes, named, more) =
        accepted_expression text (subst (λ d. Accepts (d ∷ text)) same accepts) in
      let long = length-append expr (125 ∷ rest) in
      let total = ap length split in
      subst Grammar (sym (ap (λ d. d ∷ text) same ∙ ap (λ t. 123 ∷ t) split))
        (expression expr opens closes named (Accepts-Grammar n rest (omega arith) more))
  | inr other ↦
      let (not_close, more) = accepted_literal c text other accepts in
      literal (not_brace 123 c other) not_close (Accepts-Grammar n text (omega arith) more)
]

-- The outcome of a template that is not empty, by that of the check of the braces
validated :
    (c : ℕ) (text : Text) (o : Option TemplateFault)
    → check_braces 0 (c ∷ text) ≡ o
    → validate_uri_template (c ∷ text)
      ≡ (elim o [ some fault ↦ some fault | none ↦ check_names (expressions_in none (c ∷ text)) ])
unfolding validate_uri_template
validated c text o found =
    ap
      (λ o. elim o [
        | some fault ↦ some fault
        | none ↦ check_names (expressions_in none (c ∷ text))
      ])
      found

validated-Accepts :
    (c : ℕ) (text : Text) → validate_uri_template (c ∷ text) ≡ none → Accepts (c ∷ text)
validated-Accepts c text valid = elim (Option-cases (check_braces 0 (c ∷ text))) [
  | inl braces ↦ (braces, sym (validated c text none braces) ∙ valid)
  | inr (fault, bad) ↦ let never = sym (validated c text (some fault) bad) ∙ valid in (cc, cc)
]

-- ValidateURITemplate accepts exactly the texts that are not empty and consist of characters other than
-- braces and of expressions: an opening brace, an optional operator, an identifier of letters, digits
-- and _ that does not begin with a digit, and a closing brace. A star after the name is not accepted.
pub validate_uri_template_iff :
    (text : Text) → (validate_uri_template text ≡ none) ↔ ((text ≢ []) × Grammar text)
unfolding validate_uri_template
validate_uri_template_iff [] = (λ h. cc, λ p. elim (p.0 refl) [ ])
validate_uri_template_iff (c ∷ text) = (
  λ valid. (
    λ e. cc,
    Accepts-Grammar (length (c ∷ text)) (c ∷ text) (omega arith) (validated-Accepts c text valid),
  ),
  λ p.
      let (braces, names) = Grammar-Accepts (c ∷ text) (p.1) in
      validated c text none braces ∙ names,
)
