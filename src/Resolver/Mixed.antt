-- ===== src/Resolver/Mixed.antt =====
-- `resolveExpression` of a string that is not one expression alone.
use aart.Base.{
  ℕ, suc, ◌+◌, ◌≡◌, ◌≢◌, refl, sym, ◌∙◌, ap, inl, inr, false, Option, List, [], ◌∷◌, ◌++◌,
  append_assoc, append-nil, reverse, Text, trim, length, length-append, All, All-append, ◌>>◌,
  AreBlank, StartsInked, trim-padded, arith,
}
use aart.Resolver.{
  Value, string, ExprContext, matches_from, find_expression_tokens, is_exactly_one, interpolate,
  assert_expression_delimiters, resolve_matches, resolve_expression,
}
use aart.Resolver.Tokens.{
  IsPlain, Part, literal, expression, braced, text_of, ArePlain, pieces_of, pieces-text_of,
  literals, matches_from-plain,
}
use aart.Resolver.Strings.{delimiters-plain, count, IsMixed, fill, interpolate-fill}

text_of-append : (ps : List Part) (s : Text) → text_of (ps ++ literal s ∷ []) ≡ text_of ps ++ s
text_of-append [] s = append-nil s
text_of-append (literal t ∷ ps) s =
    ap (λ u. t ++ u) (text_of-append ps s) ∙ sym (append_assoc t (text_of ps) s)
text_of-append (expression b ∷ ps) s =
    ap (λ u. braced b ++ u) (text_of-append ps s) ∙ sym (append_assoc (braced b) (text_of ps) s)

pub blank-IsPlain : (s : Text) → AreBlank s → All IsPlain s
blank-IsPlain [] h = tt
blank-IsPlain (c ∷ s) (e, h) = ((ground arith, ground arith), blank-IsPlain s h)

pub tokens-text_of :
    (ps : List Part)
    → ArePlain ps
    → find_expression_tokens (text_of ps) ≡ matches_from 0 (pieces_of ps)
unfolding find_expression_tokens
tokens-text_of ps h = ap (matches_from 0) (pieces-text_of ps h)

length-matches : (i : ℕ) (ps : List Part) → length (matches_from i (pieces_of ps)) ≡ count ps
length-matches i [] = refl
length-matches i (literal s ∷ ps) =
    ap length (matches_from-plain i s (pieces_of ps)) ∙ length-matches (i + length s) ps
length-matches i (expression body ∷ ps) = ap suc (length-matches (i + length (braced body)) ps)

-- The length of all tokens.
abbrev token_length : List (ℕ × Text) → ℕ
token_length [] = 0
token_length ((i, t) ∷ ms) = length t + token_length ms

length-text_of :
    (i : ℕ) (ps : List Part)
    → length (text_of ps) ≡ length (literals ps) + token_length (matches_from i (pieces_of ps))
length-text_of i [] = refl
length-text_of i (literal s ∷ ps) = rw (matches_from-plain i s (pieces_of ps)) (
    omega (
      arith,
      length-append s (text_of ps),
      length-append s (literals ps),
      length-text_of (i + length s) ps,
    ))
length-text_of i (expression body ∷ ps) =
    omega (
      arith,
      length-append (braced body) (text_of ps),
      length-text_of (i + length (braced body)) ps,
    )

length-nonempty : (s : Text) → s ≢ [] → length s ≢ 0
length-nonempty [] h e = h refl
length-nonempty (c ∷ s) h e = absurd (omega arith)

not_exactly_one :
    (ps : List Part)
    → IsMixed ps
    → is_exactly_one (text_of ps) (matches_from 0 (pieces_of ps)) ≡ false
not_exactly_one ps m =
    go (matches_from 0 (pieces_of ps)) (length-matches 0 ps) (length-text_of 0 ps) m
  where
    go :
        (ms : List (ℕ × Text))
        → length ms ≡ count ps
        → length (text_of ps) ≡ length (literals ps) + token_length ms
        → IsMixed ps
        → is_exactly_one (text_of ps) ms ≡ false
    go [] l t m = refl
    go (x ∷ y ∷ ms) l t m = refl
    go ((i, t) ∷ []) l s (inl n) = absurd (n (omega arith))
    go ((i, t) ∷ []) l s (inr n) = let some_text = length-nonempty (literals ps) n in ground arith

nil_of_length : (ms : List (ℕ × Text)) → length ms ≡ 0 → ms ≡ []
nil_of_length [] e = refl
nil_of_length (m ∷ ms) e = absurd (omega arith)

count-append : (ps : List Part) (s : Text) → count (ps ++ literal s ∷ []) ≡ count ps
count-append [] s = refl
count-append (literal t ∷ ps) s = count-append ps s
count-append (expression b ∷ ps) s = ap suc (count-append ps s)

module _ (inherited : Text → Value) (json : Value → Text) (resolver : Option (Text → Option Value))
    (context : ExprContext) where
  loop-fill :
      (value : Text) (all : List Part)
      → value ≡ text_of all
      → ArePlain all
      → interpolate inherited json resolver context value (find_expression_tokens value) 0 []
        ≡ fill inherited json resolver context all []
  loop-fill value all same h =
      rw (same, tokens-text_of all h)
        (interpolate-fill inherited json resolver context all [] [] [])

  resolve_matches-mixed :
      (value : Text) (all : List Part) (ms : List (ℕ × Text))
      → is_exactly_one (trim value) ms ≡ false
      → length ms ≡ count all
      → value ≡ text_of all
      → ArePlain all
      → resolve_matches inherited json resolver context value ms
        ≡ fill inherited json resolver context all []
  unfolding interpolate
  resolve_matches-mixed value all [] e l same h =
      let empty : matches_from 0 (pieces_of all) ≡ [] =
        nil_of_length (matches_from 0 (pieces_of all)) (length-matches 0 all ∙ sym l) in
      let none_left : find_expression_tokens value ≡ [] =
        ap find_expression_tokens same ∙ tokens-text_of all h ∙ empty in
      ap (λ ms. interpolate inherited json resolver context value ms 0 []) (sym none_left)
      ∙ loop-fill value all same h
  resolve_matches-mixed value all ((i, t) ∷ ms) e l same h = rw e (loop-fill value all same h)

-- A string that is more than one expression, or less, resolves to a string: its literals as they
-- are, white space at the ends included, and each expression replaced by the text of its value; the
-- first expression that has no value gives the error. Literals and expressions hold no braces of
-- their own, and the text between the outer white space starts and ends with no white space.
pub resolve_expression-mixed :
    (inherited : Text → Value) (json : Value → Text) (resolver : Option (Text → Option Value))
    (context : ExprContext) (before after : Text) (ps : List Part)
    → AreBlank before
    → AreBlank after
    → ArePlain ps
    → StartsInked (text_of ps)
    → StartsInked (reverse (text_of ps))
    → IsMixed ps
    → resolve_expression inherited json resolver context (string (before ++ (text_of ps ++ after)))
      ≡ fill inherited json resolver context (literal before ∷ (ps ++ literal after ∷ [])) []
unfolding resolve_expression
resolve_expression-mixed inherited json resolver context before after ps b a h first last m =
    let all = literal before ∷ (ps ++ literal after ∷ []) in
    let same : before ++ (text_of ps ++ after) ≡ text_of all =
      ap (λ t. before ++ t) (sym (text_of-append ps after)) in
    let plain_all : ArePlain all = (
      blank-IsPlain before b,
      All-append _ ps (literal after ∷ []) h (blank-IsPlain after a, tt),
    ) in
    let trimmed = trim-padded before (text_of ps) after b a first last in
    let tokens : find_expression_tokens (trim (before ++ (text_of ps ++ after)))
        ≡ matches_from 0 (pieces_of ps) =
      ap find_expression_tokens trimmed ∙ tokens-text_of ps h in
    let value = before ++ (text_of ps ++ after) in
    let ms = matches_from 0 (pieces_of ps) in
    let resolved = resolve_matches inherited json resolver context value in
    ap (λ r. r >> resolved (find_expression_tokens (trim value)))
      (ap assert_expression_delimiters same ∙ delimiters-plain all plain_all)
    ∙ ap resolved tokens
    ∙ resolve_matches-mixed inherited json resolver context value all ms
        (ap (λ t. is_exactly_one t ms) trimmed ∙ not_exactly_one ps m)
        (length-matches 0 ps ∙ sym (count-append ps after)) same plain_all
