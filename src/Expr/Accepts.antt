-- ===== src/Expr/Accepts.antt =====
-- `parseExpression` accepts exactly the expressions of the grammar.
use aart.Base.{
  ◌≡◌, refl, ◌≢◌, sym, ◌∙◌, ap, inl, inr, ◌↔◌, true, false, false≢true, some, List, [], ◌∷◌, ◌++◌,
  append_assoc, reverse, reverse-append, reverse-reverse, reverse-cons, Text, codes, length, ◌==◌,
  ==_iff, ==_self, Bool-cases, Option-cases, ok, >>=-eq-ok, err-ne-ok, All-append, arith, trim,
  AreBlank, none-ne-some, some_inj, StartsInked, trim-padded, trim_lem,
}
use aart.Expr.{
  ExprRoot, root_name, PathSegment, ParsedExpression, operator_tokens, assert_no_operator_tokens,
  parse_inner, strip, close, unwrap, parse_group, parse_expression, inputs,
}
use aart.Expr.Grammar.{IsPropertyPath, IsExpression}
use aart.Expr.Inner.{
  is_path_char, ArePathChars, IsPath-chars, IsName-chars, root_name-IsName, assert_none_of-path,
  operator_tokens-IsForeign, parse_inner_sound, parse_inner_complete,
}

strip_sound : (t s rest : Text) → strip t s ≡ some rest → t ++ rest ≡ s
strip_sound [] s rest h = sym (ground arith)
strip_sound (d ∷ t) [] rest h = absurd (none-ne-some h)
strip_sound (d ∷ t) (c ∷ s) rest h = elim (Bool-cases (c == d)) [
  | inl e ↦ rw ((==_iff c d).0 e) (ap (λ u. d ∷ u) (strip_sound t s rest (rw e at h)))
  | inr e ↦ absurd (none-ne-some (rw e at h))
]

strip-append : (t rest : Text) → strip t (t ++ rest) ≡ some rest
strip-append [] rest = refl
strip-append (d ∷ t) rest = rw (==_self d) (strip-append t rest)

-- "}}" at the end of a text, read from its end.
strip-closing : (s : Text) → strip (codes "}}") (reverse (s ++ codes "}}")) ≡ some (reverse s)
strip-closing s = rw (reverse-append s (codes "}}")) (strip-append (codes "}}") (reverse s))

close_complete : (middle : Text) → close (middle ++ codes "}}") ≡ some (trim middle)
close_complete middle = rw (strip-closing middle, close) (rw (reverse-reverse middle))

close_sound :
    (opened inner : Text)
    → close opened ≡ some inner
    → (middle : Text) × (opened ≡ middle ++ codes "}}") × (inner ≡ trim middle)
close_sound opened inner h = elim (Option-cases (strip (codes "}}") (reverse opened))) [
  | inl f ↦ absurd (none-ne-some (rw (f, close) at h))
  | inr (turned, f) ↦ (
    reverse turned,
    sym (reverse-reverse opened)
        ∙ ap reverse (sym (strip_sound (codes "}}") (reverse opened) turned f))
        ∙ reverse-append (codes "}}") turned,
    sym (some_inj (rw (f, close) at h)),
  )
]

unwrap_sound :
    (s inner : Text)
    → unwrap s ≡ some inner
    → (middle : Text) × (s ≡ codes "{{" ++ (middle ++ codes "}}")) × (inner ≡ trim middle)
unwrap_sound s inner h = elim (Option-cases (strip (codes "{{") s)) [
  | inl e ↦ absurd (none-ne-some (rw (e, unwrap) at h))
  | inr (opened, e) ↦
      let (middle, closed, trimmed) = close_sound opened inner (rw (e, unwrap) at h) in
      (
        middle,
        sym (strip_sound (codes "{{") s opened e) ∙ ap (λ t. codes "{{" ++ t) closed,
        trimmed,
      )
]

-- Path characters are no white space.
chars-inked : (s : Text) → s ≢ [] → ArePathChars s → StartsInked s
chars-inked [] n h = absurd (n refl)
chars-inked (c ∷ s) n (e, h) = ground arith

chars-reverse : (s : Text) → ArePathChars s → ArePathChars (reverse s)
chars-reverse [] h = tt
chars-reverse (c ∷ s) (e, h) =
    rw reverse-cons
      (All-append (λ d. is_path_char d ≡ true) (reverse s) (c ∷ []) (chars-reverse s h) (e, tt))

root_name-length : (root : ExprRoot) (tail : Text) → (length (root_name root ++ tail) == 0) ≡ false
root_name-length inputs tail = ground arith
root_name-length _ tail = ground arith

module _ (inner : Text) (root : ExprRoot) (path : List PathSegment)
    (p : IsPropertyPath inner root path) where
  pub inner-chars : ArePathChars inner
  inner-chars = rw p.split (
      All-append (λ c. is_path_char c ≡ true) (root_name root) p.tail
        (IsName-chars (root_name root) (root_name-IsName root)) (IsPath-chars p.rest))

  inner-length : (length inner == 0) ≡ false
  inner-length = rw p.split (root_name-length root p.tail)

  inner-nonempty : inner ≢ []
  inner-nonempty e = absurd (false≢true (sym (rw e at inner-length)))

  parse_group_complete :
      (raw : Text) → parse_group inner raw ≡ ok (record { root = root; path = path; raw = raw })
  unfolding assert_no_operator_tokens
  parse_group_complete raw =
      rw
        (
          inner-length,
          assert_none_of-path operator_tokens inner inner-chars operator_tokens-IsForeign,
        )
        (parse_inner_complete inner raw root path p)

  -- White space around the path is trimmed away.
  unwrap-expression :
      (before after : Text)
      → AreBlank before
      → AreBlank after
      → unwrap (codes "{{" ++ (before ++ (inner ++ (after ++ codes "}}")))) ≡ some inner
  unwrap-expression before after b a =
      ap (λ t. unwrap (codes "{{" ++ t))
        (sym (
          append_assoc before (inner ++ after) (codes "}}")
          ∙ ap (λ t. before ++ t) (append_assoc inner after (codes "}}"))))
      ∙ close_complete (before ++ (inner ++ after))
      ∙ ap some (
          trim-padded before inner after b a (chars-inked inner inner-nonempty inner-chars) (
            chars-inked (reverse inner)
              (λ e. inner-nonempty (sym (reverse-reverse inner) ∙ ap reverse e))
              (chars-reverse inner inner-chars)))

parse_group_sound :
    (inner raw : Text) (e : ParsedExpression)
    → parse_group inner raw ≡ ok e
    → (e.raw ≡ raw) × IsPropertyPath inner e.root e.path
parse_group_sound inner raw e h = elim (Bool-cases (length inner == 0)) [
  | inl f ↦ absurd (err-ne-ok (rw f at h))
  | inr f ↦
      let (_, checked, parsed) =
        >>=-eq-ok (assert_no_operator_tokens inner) (λ _. parse_inner inner raw) (rw f at h) in
      parse_inner_sound inner raw e parsed
]

IsExpression-of :
    (s middle inner : Text) (root : ExprRoot) (path : List PathSegment)
    → s ≡ codes "{{" ++ (middle ++ codes "}}")
    → inner ≡ trim middle
    → IsPropertyPath inner root path
    → IsExpression s root path
IsExpression-of s middle inner root path split trimmed p =
    let t = trim_lem middle in
    record {
      before = t.before;
      inner = inner;
      after = t.after;
      split =
          split
          ∙ ap (λ u. codes "{{" ++ u)
              (ap (λ u. u ++ codes "}}") t.split
                ∙ append_assoc t.before (trim middle ++ t.after) (codes "}}")
                ∙ ap (λ u. t.before ++ u) (append_assoc (trim middle) t.after (codes "}}")))
          ∙ ap (λ u. codes "{{" ++ (t.before ++ (u ++ (t.after ++ codes "}}")))) (sym trimmed);
      blank_before = t.blank_before;
      blank_after = t.blank_after;
      property_path = p;
    }

-- A source is accepted exactly if, trimmed, it is an expression of the grammar; the result holds
-- its root and its path, and the trimmed source.
pub parse_expression-eq-ok_iff :
    (source : Text) (e : ParsedExpression)
    → (parse_expression source ≡ ok e)
      ↔ ((e.raw ≡ trim source) × IsExpression (trim source) e.root e.path)
unfolding parse_expression
parse_expression-eq-ok_iff source e = (there, back)
  where
    there :
        parse_expression source ≡ ok e
        → (e.raw ≡ trim source) × IsExpression (trim source) e.root e.path
    there h = elim (Option-cases (unwrap (trim source))) [
      | inl f ↦ absurd (err-ne-ok (rw (f, parse_expression) at h))
      | inr (inner, f) ↦
          let (middle, split, trimmed) = unwrap_sound (trim source) inner f in
          let (raw, p) = parse_group_sound inner (trim source) e (rw (f, parse_expression) at h) in
          (raw, IsExpression-of (trim source) middle inner e.root e.path split trimmed p)
    ]

    back :
        (e.raw ≡ trim source) × IsExpression (trim source) e.root e.path
        → parse_expression source ≡ ok e
    back (raw, x) =
        let wrapped : unwrap (trim source) ≡ some x.inner =
          ap unwrap x.split
          ∙ unwrap-expression x.inner e.root e.path x.property_path x.before x.after x.blank_before
              x.blank_after in
        rw (wrapped, parse_expression)
          (parse_group_complete x.inner e.root e.path x.property_path (trim source)
            ∙ ap (λ r. ok (record e { raw = r })) (sym raw))
