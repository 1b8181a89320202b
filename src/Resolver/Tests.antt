-- ===== src/Resolver/Tests.antt =====
-- Runs of the resolver, and its theorems at concrete inputs.
use aart.Base.{
  ◌≡◌, ◌≢◌, refl, ◌↔◌, inr, Option, none, some, List, [], ◌∷◌, ◌++◌, Text, codes, trim, text_eq,
  if◌then◌else◌, ok, err, arith,
}
use aart.Expr.{inputs, secrets, PathSegment, property, ParsedExpression, parse_expression}
use aart.Expr.Grammar.{IsPath, dot, IsExpression}
use aart.Resolver.{
  Value, undefined, null, function, boolean, number, string, array, object, nil, cons, field,
  ExprContext, root_value, resolve_path, resolve_expression, syntax, resolved_to_undefined,
  nothing_at,
}
use aart.Resolver
use aart.Resolver.Paths.{Walk, resolve_path-eq-ok_iff, resolve_path-secrets_iff}
use aart.Resolver.Tokens.{Part, literal, expression, text_of}
use aart.Resolver.Strings.{fill}
use aart.Resolver.Mixed.{resolve_expression-mixed}
use aart.Resolver.Whole.{resolve_expression-whole}

-- Every object has a `constructor`.
inherited : Text → Value
inherited name = if text_eq name (codes "constructor") then function else undefined

json : Value → Text
json v = codes "{}"

vault : Text → Option Value
vault name = if text_eq name (codes "TOKEN") then some (string (codes "t0k")) else none

abbrev context : ExprContext
context = record {
  inputs_value = object (
      field (codes "n") (number (codes "3"))
        (field (codes "xs") (array (cons null nil)) Resolver.end));
  steps_value = undefined;
  trigger_value = undefined;
  run_value = undefined;
}

abbrev resolved : Text → Value
resolved s = string s

number_kept :
    resolve_expression inherited json none context (string (codes " {{inputs.n}} "))
    ≡ ok (number (codes "3"))
unfolding resolve_expression parse_expression resolve_path inherited
number_kept = refl

interpolated :
    resolve_expression inherited json
      (some vault)
      context
      (string (codes " n={{inputs.n}}, t={{ secrets.TOKEN }}"))
    ≡ ok (string (codes " n=3, t=t0k"))
unfolding resolve_expression parse_expression resolve_path inherited vault
interpolated = refl

missing :
    resolve_expression inherited json none context (string (codes "{{inputs.m}}"))
    ≡ err resolved_to_undefined
unfolding resolve_expression parse_expression resolve_path inherited
missing = refl

not_run :
    resolve_expression inherited json none context (string (codes "{{steps.a.outputs}}"))
    ≡ err (nothing_at 0)
unfolding resolve_expression parse_expression resolve_path inherited
not_run = refl

-- A property that no author wrote.
from_prototype :
    resolve_expression inherited json none context (string (codes "{{inputs.constructor}}"))
    ≡ ok function
unfolding resolve_expression parse_expression resolve_path inherited
from_prototype = refl

abbrev read_n : ParsedExpression
read_n = record { root = inputs; path = property (codes "n") ∷ []; raw = codes "{{inputs.n}}" }

resolve_path-eq-ok_iff_example :
    (resolve_path inherited none context read_n ≡ ok (number (codes "3"))) ↔ (
      Walk inherited read_n.path (root_value context inputs) (number (codes "3"))
      × (number (codes "3") ≢ undefined))
resolve_path-eq-ok_iff_example =
    resolve_path-eq-ok_iff inherited none context read_n (number (codes "3")) (λ e. ground arith)

resolve_path-secrets_iff_example :
    (resolve_path inherited
        (some vault)
        context
        (record { root = secrets; path = property (codes "TOKEN") ∷ []; raw = [] })
      ≡ ok (string (codes "t0k")))
    ↔ ((name : Text) × (◌≡◌ {A = List PathSegment}
          (property (codes "TOKEN") ∷ [])
          (property name ∷ []))
        × (r : Text → Option Value) × (some vault ≡ some r)
        × (r name ≡ some (string (codes "t0k"))))
resolve_path-secrets_iff_example =
    resolve_path-secrets_iff inherited (some vault) context (property (codes "TOKEN") ∷ []) []
      (string (codes "t0k"))

abbrev parts : List Part
parts = literal (codes "n=") ∷ expression (codes " inputs.n ") ∷ []

resolve_expression-mixed_example :
    resolve_expression inherited json none context
      (string (codes " " ++ (text_of parts ++ codes " ")))
    ≡ fill inherited json none context
        (literal (codes " ") ∷ (parts ++ literal (codes " ") ∷ []))
        []
resolve_expression-mixed_example =
    resolve_expression-mixed inherited json none context (codes " ") (codes " ") parts (refl, tt)
      (refl, tt) (ground arith) refl refl (inr (λ e. ground arith))

abbrev padded : Text
padded = codes " {{inputs.n}} "

padded-IsExpression : IsExpression (trim padded) inputs (property (codes "n") ∷ [])
padded-IsExpression = record {
  before = [];
  inner = codes "inputs.n";
  after = [];
  split = refl;
  blank_before = tt;
  blank_after = tt;
  property_path = record {
    tail = codes ".n";
    split = refl;
    rest = dot {name = codes "n"} (refl, tt) IsPath.end;
  };
}

resolve_expression-whole_example :
    resolve_expression inherited json none context (string padded)
    ≡ resolve_path inherited none context
        (record { root = inputs; path = property (codes "n") ∷ []; raw = trim padded })
resolve_expression-whole_example =
    resolve_expression-whole inherited json none context padded inputs (property (codes "n") ∷ [])
      padded-IsExpression
