-- ===== src/Resolver/Tokens.antt =====
-- How a text of literals and expressions is split into its tokens again.
use aart.Base.{
  ℕ, zero, suc, ◌+◌, ◌≤◌, ◌≡◌, refl, ◌∙◌, ap, false, none, some, List, [], ◌∷◌, ◌++◌, map,
  append_assoc, Text, codes, length, length-append, ◌==◌, All, All-append, includes, arith,
}
use aart.Resolver.{
  Piece, plain, token, find_close, match_here, pieces_from, pieces, remainder, matches_from,
}

-- A character that is no brace.
abbrev pub IsPlain : ℕ → Type 0
IsPlain c = ((c == b'{') ≡ false) × ((c == b'}') ≡ false)

-- The parts of a text: what stands outside of the braces, and inside.
pub data Part : Type 0 where
  literal expression : Text → Part

abbrev pub braced : Text → Text
braced body = codes "{{" ++ (body ++ codes "}}")

abbrev pub part_text : Part → Text
part_text (literal s) = s
part_text (expression body) = braced body

abbrev pub text_of : List Part → Text
text_of [] = []
text_of (p ∷ ps) = part_text p ++ text_of ps

abbrev pub inside : Part → Text
inside (literal s) = s
inside (expression body) = body

-- No part has a brace of its own.
abbrev pub ArePlain : List Part → Type 0
ArePlain ps = All (λ p. All IsPlain (inside p)) ps

abbrev pub pieces_of : List Part → List Piece
pieces_of [] = []
pieces_of (literal s ∷ ps) = map plain s ++ pieces_of ps
pieces_of (expression body ∷ ps) = token (braced body) ∷ pieces_of ps

find_close-body :
    (body rest : Text)
    → All IsPlain body
    → find_close (body ++ (codes "}}" ++ rest)) ≡ some (body, rest)
unfolding find_close
find_close-body [] rest h = refl
find_close-body (c ∷ body) rest ((_, e), h) = rw (e, find_close-body body rest h)

match_here-braced :
    (body rest : Text)
    → All IsPlain body
    → match_here (braced body ++ rest) ≡ some (braced body, rest)
unfolding match_here
match_here-braced body rest h =
    rw (append_assoc body (codes "}}") rest, find_close-body body rest h)

match_here-plain : (c : ℕ) (s : Text) → IsPlain c → match_here (c ∷ s) ≡ none
unfolding match_here
match_here-plain c s (e, _) = rw e

pieces_from-literal :
    (fuel : ℕ) (s rest : Text) (ps : List Piece)
    → All IsPlain s
    → length (s ++ rest) ≤ fuel
    → ((n : ℕ) → length rest ≤ n → pieces_from n rest ≡ ps)
    → pieces_from fuel (s ++ rest) ≡ map plain s ++ ps
unfolding pieces_from
pieces_from-literal fuel [] rest ps h room next = next fuel room
pieces_from-literal zero (c ∷ s) rest ps h room next = absurd (omega arith)
pieces_from-literal (suc fuel) (c ∷ s) rest ps (e, h) room next = rw (
  match_here-plain c (s ++ rest) e,
  pieces_from,
  pieces_from-literal fuel s rest ps h (omega arith) next,
)

pieces_from-text_of :
    (fuel : ℕ) (ps : List Part)
    → ArePlain ps
    → length (text_of ps) ≤ fuel
    → pieces_from fuel (text_of ps) ≡ pieces_of ps
unfolding pieces_from
pieces_from-text_of zero [] h room = refl
pieces_from-text_of (suc fuel) [] h room = refl
pieces_from-text_of fuel (literal s ∷ ps) (e, h) room =
    pieces_from-literal fuel s (text_of ps) (pieces_of ps) e room
      (λ n r. pieces_from-text_of n ps h r)
pieces_from-text_of zero (expression body ∷ ps) (e, h) room = absurd (omega arith)
pieces_from-text_of (suc fuel) (expression body ∷ ps) (e, h) room =
    let fewer : length (text_of ps) ≤ fuel =
      omega (arith, length-append (body ++ codes "}}") (text_of ps)) in
    rw (match_here-braced body (text_of ps) e, pieces_from, pieces_from-text_of fuel ps h fewer)

pub pieces-text_of : (ps : List Part) → ArePlain ps → pieces (text_of ps) ≡ pieces_of ps
pieces-text_of ps h = pieces_from-text_of (length (text_of ps)) ps h (omega arith)

-- The literals alone.
abbrev pub literals : List Part → Text
literals [] = []
literals (literal s ∷ ps) = s ++ literals ps
literals (expression body ∷ ps) = literals ps

remainder-plain : (s : Text) (ps : List Piece) → remainder (map plain s ++ ps) ≡ s ++ remainder ps
remainder-plain [] ps = refl
remainder-plain (c ∷ s) ps = ap (λ t. c ∷ t) (remainder-plain s ps)

pub remainder-pieces_of : (ps : List Part) → remainder (pieces_of ps) ≡ literals ps
remainder-pieces_of [] = refl
remainder-pieces_of (literal s ∷ ps) =
    remainder-plain s (pieces_of ps) ∙ ap (λ t. s ++ t) (remainder-pieces_of ps)
remainder-pieces_of (expression body ∷ ps) = remainder-pieces_of ps

pub literals-IsPlain : (ps : List Part) → ArePlain ps → All IsPlain (literals ps)
literals-IsPlain [] h = tt
literals-IsPlain (literal s ∷ ps) (e, h) =
    All-append IsPlain s (literals ps) e (literals-IsPlain ps h)
literals-IsPlain (expression body ∷ ps) (e, h) = literals-IsPlain ps h

pub includes-open : (s : Text) → All IsPlain s → includes s (codes "{{") ≡ false
includes-open [] h = refl
includes-open (c ∷ s) ((e, _), h) = rw (e, includes-open s h)

pub includes-close : (s : Text) → All IsPlain s → includes s (codes "}}") ≡ false
includes-close [] h = refl
includes-close (c ∷ s) ((_, e), h) = rw (e, includes-close s h)

pub matches_from-plain :
    (i : ℕ) (s : Text) (ps : List Piece)
    → matches_from i (map plain s ++ ps) ≡ matches_from (i + length s) ps
matches_from-plain i [] ps = ap (λ j. matches_from j ps) (omega arith)
matches_from-plain i (c ∷ s) ps =
    matches_from-plain (i + 1) s ps ∙ ap (λ j. matches_from j ps) (omega arith)
