-- ===== src/Expr.antt =====
-- packages/expr/src/parser.ts
--
-- A string is the list of its code units. The variable `i` of the parser is the text left to read,
-- with its position for the messages. A thrown `ExprSyntaxError` is an `err`, with what its message
-- is made of.
pub mod Grammar
pub mod Inner
pub mod Accepts
mod Tests
use aart.Base.{
  ℕ, zero, suc, ◌+◌, ◌-◌, ◌*◌, Bool, true, false, not, ◌&&◌, ◌||◌, Option, none, some, List, [],
  ◌∷◌, ◌++◌, reverse, Text, text_eq, codes, trim, includes, length, any, leb, ◌==◌, if◌then◌else◌,
  Result, ok, err, ◌>>=◌, ◌>>◌,
}

-- `EXPR_ROOTS`.
pub data ExprRoot : Type 0 where
  inputs steps trigger run secrets : ExprRoot

abbrev pub root_name : ExprRoot → Text
root_name inputs = codes "inputs"
root_name steps = codes "steps"
root_name trigger = codes "trigger"
root_name run = codes "run"
root_name secrets = codes "secrets"

pub data PathSegment : Type 0 where
  property : Text → PathSegment
  index : ℕ → PathSegment

pub record ParsedExpression : Type 0 where
  pub root : ExprRoot
  pub path : List PathSegment
  pub raw : Text

pub data SyntaxError : Type 0 where
  unmatched_delimiter : List Text → SyntaxError
  not_an_expression : SyntaxError
  empty_expression : SyntaxError
  operator_token : Text → SyntaxError
  expected_root : ℕ → SyntaxError
  unknown_root : Text → SyntaxError
  expected_property : ℕ → SyntaxError
  expected_index : ℕ → SyntaxError
  expected_closing : SyntaxError
  unexpected_character : ℕ → ℕ → SyntaxError

abbrev pub is_digit : ℕ → Bool
is_digit c = leb b'0' c && leb c b'9'

abbrev pub is_letter : ℕ → Bool
is_letter c = (leb b'A' c && leb c b'Z') || (leb b'a' c && leb c b'z')

-- `IDENTIFIER_START_CHAR` and `IDENTIFIER_CHAR`.
abbrev pub is_identifier_start : ℕ → Bool
is_identifier_start c = is_letter c || c == b'_'

abbrev pub is_identifier_char : ℕ → Bool
is_identifier_char c = is_identifier_start c || is_digit c

-- `OPERATOR_TOKENS`.
abbrev pub operator_tokens : List Text
operator_tokens =
    codes "==="
    ∷ codes "!=="
    ∷ codes "=="
    ∷ codes "!="
    ∷ codes "<="
    ∷ codes ">="
    ∷ codes "&&"
    ∷ codes "||"
    ∷ codes "+"
    ∷ codes "-"
    ∷ codes "*"
    ∷ codes "/"
    ∷ codes "%"
    ∷ codes "<"
    ∷ codes ">"
    ∷ codes "!"
    ∷ codes "("
    ∷ codes ")"
    ∷ codes ","
    ∷ codes "?"
    ∷ codes ":"
    ∷ codes "="
    ∷ []

-- The loop of `assertNoOperatorTokens`.
abbrev pub assert_none_of : List Text → Text → Result SyntaxError (Unit {0})
assert_none_of [] inner = ok tt
assert_none_of (op ∷ ops) inner =
    if includes inner op then err (operator_token op) else assert_none_of ops inner

pub assert_no_operator_tokens : Text → Result SyntaxError (Unit {0})
assert_no_operator_tokens inner = assert_none_of operator_tokens inner

-- `isValidRoot`, with the root that the name stands for.
abbrev pub find_root : List ExprRoot → Text → Option ExprRoot
find_root [] value = none
find_root (r ∷ rs) value = if text_eq (root_name r) value then some r else find_root rs value

abbrev pub all_roots : List ExprRoot
all_roots = inputs ∷ steps ∷ trigger ∷ run ∷ secrets ∷ []

abbrev pub valid_root : Text → Option ExprRoot
valid_root value = find_root all_roots value

-- The longest start of a text that passes a test, and what follows it.
unfoldable pub span : (ℕ → Bool) → Text → Text × Text
span p [] = ([], [])
span p (c ∷ s) = let (taken, rest) = span p s in if p c then (c ∷ taken, rest) else ([], c ∷ s)

-- `readIdentifier`; `none` is the error "Expected …".
pub read_identifier : Text → Option (Text × Text)
unfolding span
read_identifier [] = none
read_identifier (c ∷ s) =
    if is_identifier_start c
    then (let (taken, rest) = span is_identifier_char s in some (c ∷ taken, rest))
    else none

-- `Number` of a run of digits, exact where a double is, and far past the end of any array beyond.
unfoldable pub number_from : ℕ → Text → ℕ
number_from n [] = n
number_from n (c ∷ s) = number_from (n * 10 + (c - b'0')) s

abbrev pub Segment : Type 0
Segment = Result SyntaxError (PathSegment × Text)

-- The branch of the loop at ".".
pub read_property : ℕ → Text → Segment
read_property pos s = elim (read_identifier s) [
  | none ↦ err (expected_property pos)
  | some (name, rest) ↦ ok (property name, rest)
]

-- `if (inner[i] !== "]")`, and the round's last lines.
pub close_index : Text → Text → Segment
close_index digits [] = err expected_closing
close_index digits (c ∷ rest) =
    if c == b']' then ok (index (number_from 0 digits), rest) else err expected_closing

-- The branch of the loop at "[".
pub read_index : ℕ → Text → Segment
read_index pos s =
    let (digits, rest) = span is_digit s in
    if length digits == 0 then err (expected_index pos) else close_index digits rest

-- One round of the loop, at the character `ch`.
pub read_segment : ℕ → ℕ → Text → Segment
read_segment pos ch s =
    if ch == b'.'
    then read_property (pos + 1) s
    else if ch == b'['
    then read_index (pos + 1) s
    else err (unexpected_character ch pos)

-- The loop. A round reads a character at least, so that a text's length is fuel enough for it.
pub parse_path : ℕ → ℕ → Text → Result SyntaxError (List PathSegment)
parse_path fuel len [] = ok []
parse_path zero len (ch ∷ s) = err (unexpected_character ch (len - length (ch ∷ s)))
parse_path (suc fuel) len (ch ∷ s) = elim (read_segment (len - length (ch ∷ s)) ch s) [
  | err e ↦ err e
  | ok (segment, rest) ↦ (parse_path fuel len rest >>= λ path. ok (segment ∷ path))
]

abbrev pub parse_inner : Text → Text → Result SyntaxError ParsedExpression
parse_inner inner raw = elim (read_identifier inner) [
  | none ↦ err (expected_root 0)
  | some (name, rest) ↦ elim (valid_root name) [
    | none ↦ err (unknown_root name)
    | some root ↦ do
      path ← parse_path (length rest) (length inner) rest
      ok (record { root = root; path = path; raw = raw })
  ]
]

-- The text behind a prefix.
abbrev pub strip : Text → Text → Option Text
strip [] s = some s
strip (d ∷ t) [] = none
strip (d ∷ t) (c ∷ s) = if c == d then strip t s else none

-- What stands before the closing braces, less its outer white space.
abbrev pub close : Text → Option Text
close opened = elim (strip (codes "}}") (reverse opened)) [
  | none ↦ none
  | some turned ↦ some (trim (reverse turned))
]

-- `EXPRESSION_WRAPPER.exec(…)`: the group is what stands between the braces, less its outer white
-- space, since the white space before it is matched greedily, and the group itself lazily.
abbrev pub unwrap : Text → Option Text
unwrap s = elim (strip (codes "{{") s) [ none ↦ none | some opened ↦ close opened ]

abbrev pub parse_group : Text → Text → Result SyntaxError ParsedExpression
parse_group inner raw =
    if length inner == 0
    then err empty_expression
    else do assert_no_operator_tokens inner; parse_inner inner raw

unfoldable pub parse_expression : Text → Result SyntaxError ParsedExpression
unfolding assert_no_operator_tokens read_identifier number_from read_property close_index read_index
    read_segment parse_path
parse_expression source = elim (unwrap (trim source)) [
  | none ↦ err not_an_expression
  | some inner ↦ parse_group inner (trim source)
]
