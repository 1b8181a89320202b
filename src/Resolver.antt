-- ===== src/Resolver.antt =====
-- packages/expr/src/resolver.ts, and the token functions of packages/expr/src/parser.ts
--
-- A JavaScript value is data; a number is given by its `String` form, and a function has no parts.
-- What the language or the caller supplies is a parameter: `inherited` is the property that an
-- object has from `Object.prototype` (`undefined` for most names), `json` is `JSON.stringify`, and
-- `secret_resolver` is the caller's, whose `none` is a throw. A rejected promise is an `err`.
pub mod Paths
pub mod Tokens
pub mod Strings
pub mod Whole
pub mod Mixed
mod Tests
use aart.Base.{
  ℕ, zero, suc, ◌+◌, ◌-◌, Bool, true, false, not, ◌&&◌, Option, none, some, List, [], ◌∷◌, ◌++◌,
  Text, text_eq, codes, trim, includes, starts_with, length, take, drop, ◌==◌, if◌then◌else◌,
  Result, ok, err, ◌>>=◌, ◌>>◌,
}
use aart.Expr.{
  ExprRoot, inputs, steps, trigger, run, secrets, PathSegment, property, index, ParsedExpression,
  SyntaxError, unmatched_delimiter, parse_expression,
}

mutual
  pub data Value : Type 0 where
    undefined null function : Value
    boolean : Bool → Value
    number string : Text → Value
    array : Items → Value
    object : Fields → Value

  pub data Items : Type 0 where
    nil : Items
    cons : Value → Items → Items

  pub data Fields : Type 0 where
    end : Fields
    field : Text → Value → Fields → Fields

pub record ExprContext : Type 0 where
  pub inputs_value : Value
  pub steps_value : Value
  pub trigger_value : Value
  pub run_value : Value

pub data ResolutionError : Type 0 where
  syntax : SyntaxError → ResolutionError
  secret_shape no_secret_resolver secret_resolver_threw : ResolutionError
  nothing_at not_an_object not_an_array : ℕ → ResolutionError
  resolved_to_undefined : ResolutionError

-- `(context as Record<string, unknown>)[parsed.root]`
abbrev pub root_value : ExprContext → ExprRoot → Value
root_value context inputs = context.inputs_value
root_value context steps = context.steps_value
root_value context trigger = context.trigger_value
root_value context run = context.run_value
root_value context secrets = undefined

-- `current[segment.index]` of an array.
abbrev pub item : ℕ → Items → Value
item n nil = undefined
item zero (cons v vs) = v
item (suc n) (cons v vs) = item n vs

module _ (inherited : Text → Value) where
  -- `current[segment.name]` of an object: its own property, or one that every object has.
  abbrev pub get_property : Text → Fields → Value
  get_property name end = inherited name
  get_property name (field key v fs) = if text_eq key name then v else get_property name fs

  -- One round of the loop of `resolvePath`, with `i` segments read.
  unfoldable pub read_step : ℕ → PathSegment → Value → Result ResolutionError Value
  read_step i segment undefined = err (nothing_at i)
  read_step i segment null = err (nothing_at i)
  read_step i (property name) (object fs) = ok (get_property name fs)
  read_step i (property name) v = err (not_an_object i)
  read_step i (index n) (array vs) = ok (item n vs)
  read_step i (index n) v = err (not_an_array i)

  unfoldable pub walk : ℕ → List PathSegment → Value → Result ResolutionError Value
  walk i [] current = ok current
  walk i (segment ∷ path) current = read_step i segment current >>= walk (i + 1) path

-- The check behind the loop.
abbrev pub defined : Value → Result ResolutionError Value
defined undefined = err resolved_to_undefined
defined v = ok v

-- `await options.secretResolver(name)`
abbrev pub ask : Option (Text → Option Value) → Text → Result ResolutionError Value
ask none name = err no_secret_resolver
ask (some resolver) name = elim (resolver name) [ none ↦ err secret_resolver_threw | some v ↦ ok v ]

abbrev pub resolve_secret :
    Option (Text → Option Value) → List PathSegment → Result ResolutionError Value
resolve_secret resolver (property name ∷ []) = ask resolver name
resolve_secret resolver path = err secret_shape

module _ (inherited : Text → Value) (secret_resolver : Option (Text → Option Value))
    (context : ExprContext) where
  abbrev pub resolve_root : ExprRoot → List PathSegment → Result ResolutionError Value
  resolve_root secrets path = resolve_secret secret_resolver path
  resolve_root root path = walk inherited 0 path (root_value context root) >>= defined

  unfoldable pub resolve_path : ParsedExpression → Result ResolutionError Value
  unfolding walk read_step
  resolve_path parsed = resolve_root parsed.root parsed.path

-- What `/\{\{[\s\S]*?\}\}/g` makes of a text: its matches, and the characters outside of them.
pub data Piece : Type 0 where
  plain : ℕ → Piece
  token : Text → Piece

-- The text up to the first "}}", and what follows it.
pub find_close : Text → Option (Text × Text)
find_close [] = none
find_close (c ∷ s) =
    let rest = find_close s in
    if starts_with (c ∷ s) (codes "}}")
    then some ([], drop 1 s)
    else elim rest [ none ↦ none | some (body, after) ↦ some (c ∷ body, after) ]

-- A match at the start of a text.
pub match_here : Text → Option (Text × Text)
match_here s =
    if starts_with s (codes "{{")
    then elim (find_close (drop 2 s)) [
      | none ↦ none
      | some (body, after) ↦ some (codes "{{" ++ (body ++ codes "}}"), after)
    ]
    else none

pub pieces_from : ℕ → Text → List Piece
pieces_from fuel [] = []
pieces_from zero (c ∷ s) = []
pieces_from (suc fuel) (c ∷ s) = elim (match_here (c ∷ s)) [
  | none ↦ plain c ∷ pieces_from fuel s
  | some (t, after) ↦ token t ∷ pieces_from fuel after
]

-- A piece is a character at least, so that the length is fuel enough.
abbrev pub pieces : Text → List Piece
pieces s = pieces_from (length s) s

-- `value.replace(…, "")`
abbrev pub remainder : List Piece → Text
remainder [] = []
remainder (plain c ∷ ps) = c ∷ remainder ps
remainder (token t ∷ ps) = remainder ps

abbrev pub unmatched_delimiters : Text → List Text
unmatched_delimiters value =
    let rest = remainder (pieces value) in
    (if includes rest (codes "{{") then codes "{{" ∷ [] else [])
    ++ (if includes rest (codes "}}") then codes "}}" ∷ [] else [])

abbrev pub assert_expression_delimiters : Text → Result ResolutionError (Unit {0})
assert_expression_delimiters value = elim (unmatched_delimiters value) [
  | [] ↦ ok tt
  | d ∷ ds ↦ err (syntax (unmatched_delimiter (d ∷ ds)))
]

-- `value.matchAll(…)`: each match with its index.
abbrev pub matches_from : ℕ → List Piece → List (ℕ × Text)
matches_from i [] = []
matches_from i (plain c ∷ ps) = matches_from (i + 1) ps
matches_from i (token t ∷ ps) = (i, t) ∷ matches_from (i + length t) ps

pub find_expression_tokens : Text → List (ℕ × Text)
find_expression_tokens value = matches_from 0 (pieces value)

-- `value.slice(a, b)`
abbrev pub slice : Text → ℕ → ℕ → Text
slice value a b = take (b - a) (drop a value)

-- A syntax error is thrown on as it is.
abbrev pub parse : Text → Result ResolutionError ParsedExpression
parse source = elim (parse_expression source) [ ok e ↦ ok e | err e ↦ err (syntax e) ]

module _ (json : Value → Text) where
  abbrev pub stringify_resolved : Value → Text
  stringify_resolved null = []
  stringify_resolved (string s) = s
  stringify_resolved (number s) = s
  stringify_resolved (boolean true) = codes "true"
  stringify_resolved (boolean false) = codes "false"
  stringify_resolved v = json v

-- `trimmedMatches.length === 1 && …`
abbrev pub is_exactly_one : Text → List (ℕ × Text) → Bool
is_exactly_one trimmed ((i, t) ∷ []) = i == 0 && i + length t == length trimmed
is_exactly_one trimmed matches = false

module _ (inherited : Text → Value) (json : Value → Text)
    (secret_resolver : Option (Text → Option Value)) (context : ExprContext) where
  abbrev pub resolve_token : Text → Result ResolutionError Value
  resolve_token t = parse t >>= resolve_path inherited secret_resolver context

  -- The loop of the string interpolation, and its last line.
  pub interpolate : Text → List (ℕ × Text) → ℕ → Text → Result ResolutionError Value
  interpolate value [] cursor result = ok (string (result ++ drop cursor value))
  interpolate value ((i, t) ∷ matches) cursor result = resolve_token t >>= λ resolved.
      interpolate value matches (i + length t)
        ((result ++ slice value cursor i) ++ stringify_resolved json resolved)

  abbrev pub resolve_matches : Text → List (ℕ × Text) → Result ResolutionError Value
  resolve_matches value [] = ok (string value)
  resolve_matches value ((i, t) ∷ matches) =
      if is_exactly_one (trim value) ((i, t) ∷ matches)
      then resolve_token t
      else interpolate value (find_expression_tokens value) 0 []

  unfoldable pub resolve_expression : Value → Result ResolutionError Value
  unfolding find_close match_here pieces_from find_expression_tokens interpolate
  resolve_expression (string value) = do
    assert_expression_delimiters value
    resolve_matches value (find_expression_tokens (trim value))
  resolve_expression v = ok v
