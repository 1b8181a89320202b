-- ===== src/Resolver/Strings.antt =====
-- `resolveExpression` of a string of literals and expressions.
use aart.Base.{
  ℕ, suc, ◌+◌, ◌-◌, ◌≡◌, ◌≢◌, refl, sym, ◌∙◌, ap, ◌⊎◌, inl, inr, Option, List, [], ◌∷◌, ◌++◌,
  append_assoc, append-nil, Text, length, length-append, take, drop, Result, ok, ◌>>=◌,
  Result-cases, arith,
}
use aart.Resolver.{
  Value, string, ExprContext, ResolutionError, matches_from, slice, stringify_resolved,
  assert_expression_delimiters, unmatched_delimiters, resolve_token, interpolate,
}
use aart.Resolver.Tokens.{
  Part, literal, expression, braced, text_of, ArePlain, pieces_of, pieces-text_of, literals,
  remainder-pieces_of, literals-IsPlain, includes-open, includes-close, matches_from-plain,
}

drop-append : (s t : Text) → drop (length s) (s ++ t) ≡ t
drop-append [] t = refl
drop-append (c ∷ s) t = drop-append s t

take-append : (s t : Text) → take (length s) (s ++ t) ≡ s
take-append [] t = refl
take-append (c ∷ s) t = ap (λ u. c ∷ u) (take-append s t)

slice-middle :
    (before s after : Text)
    → slice (before ++ (s ++ after)) (length before) (length before + length s) ≡ s
slice-middle before s after =
    let len : length before + length s - length before ≡ length s = omega arith in
    rw (len, drop-append before (s ++ after)) (take-append s after)

pub unmatched-plain : (ps : List Part) → ArePlain ps → unmatched_delimiters (text_of ps) ≡ []
unmatched-plain ps h = rw (
  pieces-text_of ps h,
  remainder-pieces_of ps,
  includes-open (literals ps) (literals-IsPlain ps h),
  includes-close (literals ps) (literals-IsPlain ps h),
)

pub delimiters-plain :
    (ps : List Part) → ArePlain ps → assert_expression_delimiters (text_of ps) ≡ ok tt
delimiters-plain ps h = rw (unmatched-plain ps h, assert_expression_delimiters)

-- How many expressions a text has.
abbrev pub count : List Part → ℕ
count [] = 0
count (literal s ∷ ps) = count ps
count (expression body ∷ ps) = suc (count ps)

-- A text is no expression alone: it has none, or several, or characters outside of the braces.
abbrev pub IsMixed : List Part → Type 0
IsMixed ps = (count ps ≢ 1) ⊎ (literals ps ≢ [])

module _ (inherited : Text → Value) (json : Value → Text) (resolver : Option (Text → Option Value))
    (context : ExprContext) where
  -- What a text of parts stands for: the literals as they are, each expression by the text of its
  -- value, and the error of the first one that has none.
  abbrev pub fill : List Part → Text → Result ResolutionError Value
  fill [] done = ok (string done)
  fill (literal s ∷ ps) done = fill ps (done ++ s)
  fill (expression body ∷ ps) done =
      resolve_token inherited json resolver context (braced body) >>= λ v.
      fill ps (done ++ stringify_resolved json v)

  -- The state at the end of a match.
  abbrev pub FillsFrom : List Part → Text → Text → Text → Type 0
  FillsFrom ps before pending done =
      interpolate inherited json resolver context (before ++ (pending ++ text_of ps))
        (matches_from (length before + length pending) (pieces_of ps)) (length before) done
      ≡ fill ps (done ++ pending)

  fills_at :
      (ps : List Part) (before done value : Text) (n : ℕ)
      → FillsFrom ps before [] done
      → value ≡ before ++ text_of ps
      → n ≡ length before
      → interpolate inherited json resolver context value (matches_from n (pieces_of ps)) n done
        ≡ fill ps done
  fills_at ps before done value n h same at_end =
      let start : length before + 0 ≡ length before = omega arith in
      rw (same, at_end) (rw (start, append-nil done) at h)

  pub interpolate-fill :
      (ps : List Part) (before pending done : Text) → FillsFrom ps before pending done
  unfolding interpolate
  interpolate-fill [] before pending done =
      rw (drop-append before (pending ++ []), append-nil pending)
  interpolate-fill (literal s ∷ ps) before pending done =
      let grown : length before + length pending + length s
          ≡ length before + length (pending ++ s) =
        omega (arith, length-append pending s) in
      rw
        (
          matches_from-plain (length before + length pending) s (pieces_of ps),
          grown,
          ← append_assoc pending s (text_of ps),
          append_assoc done pending s,
        )
        (interpolate-fill ps before (pending ++ s) done)
  interpolate-fill (expression body ∷ ps) before pending done =
      elim (Result-cases (resolve_token inherited json resolver context (braced body))) [
        | inl (e, failed) ↦ rw (failed)
        | inr (v, resolved) ↦
            let before' = before ++ (pending ++ braced body) in
            let done' = (done ++ pending) ++ stringify_resolved json v in
            rw (resolved, slice-middle before pending (braced body ++ text_of ps))
              (fills_at ps before' done' _ _ (interpolate-fill ps before' [] done')
                (sym (
                  append_assoc before (pending ++ braced body) (text_of ps)
                  ∙ ap (λ t. before ++ t) (append_assoc pending (braced body) (text_of ps))))
                (omega (
                  arith,
                  length-append before (pending ++ braced body),
                  length-append pending (braced body),
                )))
      ]
