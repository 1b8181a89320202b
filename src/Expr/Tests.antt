-- ===== src/Expr/Tests.antt =====
-- Runs of the expression parser, and its theorem at a concrete source.
use aart.Base.{◌≡◌, refl, ◌↔◌, [], ◌∷◌, Text, codes, ok, err, trim}
use aart.Expr.{
  steps, property, index, ParsedExpression, operator_token, unknown_root, expected_index,
  unexpected_character, empty_expression, parse_expression,
}
use aart.Expr.Grammar.{IsExpression}
use aart.Expr.Accepts.{parse_expression-eq-ok_iff}

abbrev source : Text
source = codes " {{  steps.fetch.outputs[12].name}} "

abbrev parsed : ParsedExpression
parsed = record {
  root = steps;
  path =
      property (codes "fetch")
      ∷ property (codes "outputs")
      ∷ index 12
      ∷ property (codes "name")
      ∷ [];
  raw = codes "{{  steps.fetch.outputs[12].name}}";
}

accepted : parse_expression source ≡ ok parsed
unfolding parse_expression
accepted = refl

operator : parse_expression (codes "{{ inputs.a + 1 }}") ≡ err (operator_token (codes "+"))
unfolding parse_expression
operator = refl

unknown : parse_expression (codes "{{ env.PATH }}") ≡ err (unknown_root (codes "env"))
unfolding parse_expression
unknown = refl

no_index : parse_expression (codes "{{ inputs.xs[] }}") ≡ err (expected_index 10)
unfolding parse_expression
no_index = refl

stray : parse_expression (codes "{{ inputs a }}") ≡ err (unexpected_character b' ' 6)
unfolding parse_expression
stray = refl

nothing : parse_expression (codes "{{  }}") ≡ err empty_expression
unfolding parse_expression
nothing = refl

parse_expression-eq-ok_iff_example :
    (parse_expression source ≡ ok parsed)
    ↔ ((parsed.raw ≡ trim source) × IsExpression (trim source) parsed.root parsed.path)
parse_expression-eq-ok_iff_example = parse_expression-eq-ok_iff source parsed
