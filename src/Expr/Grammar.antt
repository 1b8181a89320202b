-- ===== src/Expr/Grammar.antt =====
-- The grammar of a property path, apart from the parser: Root ("." Identifier | "[" Index "]")*.
pub mod Reading
use aart.Base.{ℕ, ◌≡◌, true, false, List, [], ◌∷◌, ◌++◌, Text, codes, All, is_space, trim}
use aart.Expr.{
  ExprRoot, root_name, PathSegment, property, index, is_digit, is_identifier_start,
  is_identifier_char, number_from, ParsedExpression,
}

abbrev pub IsName : Text → Type 0
IsName [] = ⊥
IsName (c ∷ s) = (is_identifier_start c ≡ true) × All (λ d. is_identifier_char d ≡ true) s

abbrev pub IsNumber : Text → Type 0
IsNumber [] = ⊥
IsNumber (c ∷ s) = (is_digit c ≡ true) × All (λ d. is_digit d ≡ true) s

pub data IsPath : Text → List PathSegment → Type 0 where
  end : IsPath [] []
  dot :
      {name rest : Text} {path : List PathSegment}
      → IsName name
      → IsPath rest path
      → IsPath (b'.' ∷ (name ++ rest)) (property name ∷ path)
  bracket :
      (digits : Text) {rest : Text} {path : List PathSegment}
      → IsNumber digits
      → IsPath rest path
      → IsPath (b'[' ∷ (digits ++ b']' ∷ rest)) (index (number_from 0 digits) ∷ path)

-- A text is a root and a path.
pub record IsPropertyPath (inner : Text) (root : ExprRoot) (path : List PathSegment) : Type 0 where
  pub tail : Text
  pub split : inner ≡ root_name root ++ tail
  pub rest : IsPath tail path

-- A text is "{{", white space, a property path, white space and "}}".
pub record IsExpression (raw : Text) (root : ExprRoot) (path : List PathSegment) : Type 0 where
  pub before : Text
  pub inner : Text
  pub after : Text
  pub split : raw ≡ codes "{{" ++ (before ++ (inner ++ (after ++ codes "}}")))
  pub blank_before : All (λ c. is_space c ≡ true) before
  pub blank_after : All (λ c. is_space c ≡ true) after
  pub property_path : IsPropertyPath inner root path
