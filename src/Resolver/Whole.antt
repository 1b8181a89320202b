-- ===== src/Resolver/Whole.antt =====
-- `resolveExpression` of a string that is one expression, of any other string without braces, and
-- of any other value.
use aart.Base.{
  ◌≡◌, refl, sym, ◌∙◌, ap, subst, true, Option, List, [], ◌∷◌, ◌++◌, append_assoc, append-nil,
  reverse-append, Text, codes, trim, All, All-append, ok, ◌>>=◌, ◌>>◌, trim-padded, trim_lem, arith,
}
use aart.Expr.{ExprRoot, PathSegment, ParsedExpression}
use aart.Expr.Grammar.{IsExpression}
use aart.Expr.Inner.{ArePathChars}
use aart.Expr.Accepts.{inner-chars, parse_expression-eq-ok_iff}
use aart.Resolver.{
  Value, string, ExprContext, find_expression_tokens, is_exactly_one, parse,
  assert_expression_delimiters, resolve_path, resolve_matches, resolve_expression,
}
use aart.Resolver.Tokens.{IsPlain, literal, expression, braced, text_of}
use aart.Resolver.Strings.{delimiters-plain}
use aart.Resolver.Mixed.{blank-IsPlain, tokens-text_of}

chars-IsPlain : (s : Text) → ArePathChars s → All IsPlain s
chars-IsPlain [] h = tt
chars-IsPlain (c ∷ s) (e, h) = ((ground arith, ground arith), chars-IsPlain s h)

module _ {raw : Text} {root : ExprRoot} {path : List PathSegment}
    (x : IsExpression raw root path) where
  body : Text
  body = x.before ++ (x.inner ++ x.after)

  raw_braced : raw ≡ braced body
  unfolding body
  raw_braced =
      x.split
      ∙ ap (λ t. codes "{{" ++ t)
          (ap (λ t. x.before ++ t) (sym (append_assoc x.inner x.after (codes "}}")))
            ∙ sym (append_assoc x.before (x.inner ++ x.after) (codes "}}")))

  body-IsPlain : All IsPlain body
  unfolding body
  body-IsPlain =
      All-append IsPlain x.before (x.inner ++ x.after) (blank-IsPlain x.before x.blank_before) (
        All-append IsPlain x.inner x.after
          (chars-IsPlain x.inner (inner-chars x.inner root path x.property_path))
          (blank-IsPlain x.after x.blank_after))

braced-trim : (s : Text) → trim (braced s) ≡ braced s
braced-trim s =
    ap trim (sym (append-nil (braced s)))
    ∙ trim-padded [] (braced s) [] tt tt refl
        (rw (reverse-append (codes "{{" ++ s) (codes "}}")) refl)

module _ (s : Text) (root : ExprRoot) (path : List PathSegment)
    (x : IsExpression (trim s) root path) where
  abbrev parsed : ParsedExpression
  parsed = record { root = root; path = path; raw = trim s }

  parse-braced : parse (braced (body x)) ≡ ok parsed
  parse-braced =
      let same : trim s ≡ trim (braced (body x)) = raw_braced x ∙ sym (braced-trim (body x)) in
      let accepted =
        (parse_expression-eq-ok_iff (braced (body x)) parsed).1
          (same, subst (λ t. IsExpression t root path) same x) in
      rw (accepted, parse)

  one_token : find_expression_tokens (trim s) ≡ (0, braced (body x)) ∷ []
  one_token =
      ap find_expression_tokens (raw_braced x ∙ sym (append-nil (braced (body x))))
      ∙ tokens-text_of (expression (body x) ∷ []) (body-IsPlain x, tt)

  exactly_one : is_exactly_one (trim s) ((0, braced (body x)) ∷ []) ≡ true
  exactly_one = rw (raw_braced x) (ground arith)

  delimiters : assert_expression_delimiters s ≡ ok tt
  delimiters =
      let t = trim_lem s in
      let parts = literal t.before ∷ expression (body x) ∷ literal t.after ∷ [] in
      let same : s ≡ text_of parts =
        t.split
        ∙ ap (λ u. t.before ++ u)
            (ap (λ u. u ++ t.after) (raw_braced x)
              ∙ ap (λ u. braced (body x) ++ u) (sym (append-nil t.after))) in
      ap assert_expression_delimiters same
      ∙ delimiters-plain parts (
        blank-IsPlain t.before t.blank_before,
        (body-IsPlain x, (blank-IsPlain t.after t.blank_after, tt)),
      )

-- A string that, trimmed, is one expression resolves to the value of its path itself, whatever its
-- type, with no conversion to a string.
pub resolve_expression-whole :
    (inherited : Text → Value) (json : Value → Text) (resolver : Option (Text → Option Value))
    (context : ExprContext) (s : Text) (root : ExprRoot) (path : List PathSegment)
    → IsExpression (trim s) root path
    → resolve_expression inherited json resolver context (string s)
      ≡ resolve_path inherited resolver context (record { root = root; path = path; raw = trim s })
unfolding resolve_expression
resolve_expression-whole inherited json resolver context s root path x =
    let resolved = resolve_matches inherited json resolver context s in
    ap (λ r. r >> resolved (find_expression_tokens (trim s))) (delimiters s root path x)
    ∙ ap resolved (one_token s root path x)
    ∙ rw (exactly_one s root path x)
        (ap (λ r. r >>= resolve_path inherited resolver context) (parse-braced s root path x))
