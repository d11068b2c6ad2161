-- ===== src/Shared/UriTemplate/RoundTrip.antt =====
-- shared/uri_template.go: parse on the text of parts.
use mcp_go_sdk.Prelude.{
  ℕ, zero, suc, ◌+◌, ◌≤◌, ◌≡◌, refl, sym, ◌∙◌, ap, true, false, some, List, [], ◌∷◌, ◌++◌, nat_Key,
  ◌==◌, length, length-append, arith, ltb,
}
use mathlib.Core.List.{append-nil, append_assoc}
use mcp_go_sdk.Shared.Text.{Text, cut}
use mcp_go_sdk.Shared.UriTemplate.{
  TemplatePart, literal, expression, ExpressionPart, done, failed, ◌>>=◌, parse, parse_loop, flush,
  get_names, expression_of, validate_names, open_brace, close_brace, max_template_expressions,
  too_many_expressions,
}
use mcp_go_sdk.Shared.UriTemplate.Names.{Lacks, cut_at}
use mcp_go_sdk.Shared.UriTemplate.Printing.{
  print_body, print_part, print, Parsed, Canonical, empty, last, before, next, expressions,
  print_body-Lacks, validate_names-Clean, get_names-print, expression_of-print,
}
use mcp_go_sdk.Shared.UriTemplate.Termination.{parse_loop-fuel}

-- A text without opening braces is gathered.
literal_taken :
    (f : ℕ) (parts : List TemplatePart) (text more : Text) (count : ℕ) (rest : Text)
    → Lacks open_brace more
    → length (more ++ rest) ≤ f
    → parse_loop f parts text count (more ++ rest) ≡ parse_loop f parts (text ++ more) count rest
unfolding parse_loop
literal_taken f parts text [] count rest lacks le = rw (append-nil text) refl
literal_taken zero parts text (c ∷ more) count rest lacks le = ground arith
literal_taken (suc f) parts text (c ∷ more) count rest (other, lacks) le =
    let shut : (c == open_brace) ≡ false = ground (arith, nat_Key.same_iff c open_brace) in
    let both = length-append more rest in
    rw (parse_loop, shut)
      (literal_taken f parts (text ++ c ∷ []) more count rest lacks (omega arith)
        ∙ ap (λ t. parse_loop f parts t count rest) (append_assoc text (c ∷ []) more)
        ∙ parse_loop-fuel f (suc f) parts (text ++ c ∷ more) count rest (omega arith) (omega arith))

-- A turn of the loop on an expression
turn :
    (f : ℕ) (parts : List TemplatePart) (text : Text) (count : ℕ) (more expr rest : Text)
    → cut close_brace more ≡ some (expr, rest)
    → count + 1 ≤ max_template_expressions
    → validate_names (get_names expr) ≡ done tt
    → parse_loop (suc f) parts text count (open_brace ∷ more)
      ≡ parse_loop f (flush text parts ++ expression (expression_of expr) ∷ []) [] (count + 1) rest
unfolding parse_loop
turn f parts text count more expr rest found le valid =
    let few : ltb max_template_expressions (count + 1) ≡ false = ground arith in
    rw (parse_loop, found)
      (ap
          (λ b. elim b [
            | true ↦ failed too_many_expressions
            | false ↦ validate_names (get_names expr) >>= λ ok.
                parse_loop f (flush text parts ++ expression (expression_of expr) ∷ []) []
                  (count + 1) rest
          ])
          few
        ∙ ap
            (λ o. o >>= λ ok.
              parse_loop f (flush text parts ++ expression (expression_of expr) ∷ []) [] (count + 1)
                rest)
            valid)

print_expression :
    (e : ExpressionPart) (rest : Text)
    → print_part (expression e) ++ rest ≡ open_brace ∷ print_body e ++ close_brace ∷ rest
print_expression e rest =
    ap (λ t. open_brace ∷ t) (append_assoc (print_body e) (close_brace ∷ []) rest)

expression_taken :
    (f : ℕ) (parts : List TemplatePart) (text : Text) (count : ℕ) (e : ExpressionPart) (rest : Text)
    → Parsed e
    → count + 1 ≤ max_template_expressions
    → length (print_part (expression e) ++ rest) ≤ f
    → parse_loop f parts text count (print_part (expression e) ++ rest)
      ≡ parse_loop f (flush text parts ++ expression e ∷ []) [] (count + 1) rest
expression_taken zero parts text count e rest parsed few le = ground arith
expression_taken (suc f) parts text count e rest (named, clean, unmarked) few le =
    let parsed : Parsed e = (named, clean, unmarked) in
    let long = length-append (print_body e ++ close_brace ∷ []) rest in
    let next = flush text parts ++ expression e ∷ [] in
    ap (parse_loop (suc f) parts text count) (print_expression e rest)
    ∙ turn f parts text count (print_body e ++ close_brace ∷ rest) (print_body e) rest
        (cut_at close_brace (print_body e) rest (print_body-Lacks e parsed)) few
        (ap validate_names (get_names-print e parsed) ∙ validate_names-Clean e.names clean)
    ∙ ap (λ x. parse_loop f (flush text parts ++ expression x ∷ []) [] (count + 1) rest)
        (expression_of-print e parsed)
    ∙ parse_loop-fuel f (suc f) next [] (count + 1) rest (omega arith) (omega arith)

parse_loop-print :
    (f : ℕ) (done_parts parts : List TemplatePart) (count : ℕ)
    → Canonical parts
    → count + expressions parts ≤ max_template_expressions
    → length (print parts) ≤ f
    → parse_loop f done_parts [] count (print parts) ≡ done (done_parts ++ parts)
unfolding parse_loop
parse_loop-print f ps [] count empty few le = ap done (sym (append-nil ps))
parse_loop-print f ps (literal [] ∷ rest) count canonical few le = elim canonical [ ]
parse_loop-print f ps (literal (c ∷ text) ∷ literal other ∷ rest) count canonical few le =
    elim canonical [ ]
parse_loop-print f ps (literal (c ∷ text) ∷ []) count (last lacks) few le =
    literal_taken f ps [] (c ∷ text) count [] lacks le
parse_loop-print f ps (literal (c ∷ text) ∷ expression e ∷ rest) count
      (before lacks parsed canonical) few le =
    let shown = print_part (expression e) ++ print rest in
    let long = length-append (c ∷ text) shown in
    let long_rest = length-append (print_part (expression e)) (print rest) in
    let prefix = ps ++ literal (c ∷ text) ∷ [] in
    literal_taken f ps [] (c ∷ text) count shown lacks le
    ∙ expression_taken f ps (c ∷ text) count e (print rest) parsed (omega arith) (omega arith)
    ∙ parse_loop-print f (prefix ++ expression e ∷ []) rest (count + 1) canonical (omega arith)
        (omega arith)
    ∙ ap done (
        append_assoc prefix (expression e ∷ []) rest
        ∙ append_assoc ps (literal (c ∷ text) ∷ []) (expression e ∷ rest))
parse_loop-print f ps (expression e ∷ rest) count (next parsed canonical) few le =
    let long_rest = length-append (print_part (expression e)) (print rest) in
    expression_taken f ps [] count e (print rest) parsed (omega arith) (omega arith)
    ∙ parse_loop-print f (ps ++ expression e ∷ []) rest (count + 1) canonical (omega arith)
        (omega arith)
    ∙ ap done (append_assoc ps (expression e ∷ []) rest)

-- The parser reads back the text of parts: literals that are not empty, not next to each other and
-- without an opening brace, and at most 10,000 expressions, whose names are clean and whose first name
-- does not begin like an operator where there is none. It finds the same literals, operators, names
-- and explosion marks in the same order.
pub parse-print :
    (parts : List TemplatePart)
    → Canonical parts
    → expressions parts ≤ max_template_expressions
    → parse (print parts) ≡ done parts
unfolding parse
parse-print parts canonical few =
    parse_loop-print (length (print parts)) [] parts 0 canonical (omega arith) (omega arith)
