-- ===== src/EditDistance.antt =====
-- packages/governance/src/validation/edit-distance.ts
pub mod Spec
pub mod Rows
pub mod Laws
pub mod Suggest
mod Tests
use aart.Base.{
  ℕ, zero, suc, ◌+◌, ◌/◌, max, Bool, true, Option, none, some, List, [], ◌∷◌, ◌++◌, map, Text,
  text_eq, is_inherited, length, get_or, ltb, ◌==◌, if◌then◌else◌,
}
use Prim.Native.Nat.{◌-◌, min}

-- A number of a row; `none` is `Infinity`.
abbrev pub Cell : Type 0
Cell = Option ℕ

-- `x + n`.
abbrev pub plus : Cell → ℕ → Cell
plus none n = none
plus (some m) n = some (m + n)

-- `Math.min` of two of its arguments.
abbrev pub min_cell : Cell → Cell → Cell
min_cell none y = y
min_cell (some m) none = some m
min_cell (some m) (some n) = some (min m n)

-- The loop over `j`, over the characters of `b` not yet read; `current` is grown by `push`, and
-- `row[k] ?? Infinity` is a read with `Infinity` out of range.
fill_row : ℕ → List Cell → Text → ℕ → List Cell → List Cell
fill_row x previous [] j current = current
fill_row x previous (y ∷ ys) j current =
    let cost : ℕ = if x == y then 0 else 1 in
    let insertion = plus (get_or current (j - 1) none) 1 in
    let deletion = plus (get_or previous j none) 1 in
    let substitution = plus (get_or previous (j - 1) none) cost in
    fill_row x previous ys (j + 1)
      (current ++ min_cell (min_cell insertion deletion) substitution ∷ [])

-- The loop over `i`, over the characters of `a` not yet read.
pub fill_rows : Text → ℕ → Text → List Cell → List Cell
fill_rows [] i b previous = previous
fill_rows (x ∷ xs) i b previous = fill_rows xs (i + 1) b (fill_row x previous b 1 (some i ∷ []))

-- `Array.from({ length: n }, (_, j) => j)`, from the index `j` on.
pub indices : ℕ → ℕ → List Cell
indices j zero = []
indices j (suc n) = some j ∷ indices (j + 1) n

-- `row[k] ?? other`, where the row ends in a number.
abbrev cell_or : Cell → ℕ → ℕ
cell_or none other = other
cell_or (some n) other = n

unfoldable pub levenshtein_distance : Text → Text → ℕ
unfolding fill_row fill_rows indices
levenshtein_distance a b =
    if text_eq a b
    then 0
    else if length a == 0
    then length b
    else if length b == 0
    then length a
    else cell_or (get_or (fill_rows a 1 b (indices 0 (length b + 1))) (length b) none)
        (max (length a) (length b))

-- `best`, the closest candidate so far and its distance.
abbrev pub Best : Type 0
Best = Option (Text × ℕ)

-- The test of the loop's last line.
abbrev closer : Text → ℕ → Best → Best
closer candidate distance none = some (candidate, distance)
closer candidate distance (some (c, d)) =
    if ltb distance d then some (candidate, distance) else some (c, d)

-- The loop over the catalog.
best_of : Text → ℕ → List Text → Best → Best
best_of input max_distance [] best = best
best_of input max_distance (candidate ∷ catalog) best =
    let distance = levenshtein_distance input candidate in
    best_of input max_distance catalog
      (if ltb max_distance distance then best else closer candidate distance best)

-- What `computeDidYouMean` returns: a text, or a member of `Object.prototype`, which is a value that is
-- no text and that `if (aliasHit)` takes for a hit.
pub data Suggestion : Type 0 where
  suggested : Text → Suggestion
  inherited_member : Text → Suggestion

-- `aliasTable[input]`: an own entry of the table, or else a member that every object inherits.
abbrev pub alias_of : Text → List (Text × Text) → Option Suggestion
alias_of input [] = if is_inherited input then some (inherited_member input) else none
alias_of input ((k, v) ∷ table) =
    if text_eq k input then some (suggested v) else alias_of input table

-- `options.maxDistance ?? Math.max(2, Math.floor(input.length / 3))`.
abbrev pub max_distance_of : Option ℕ → Text → ℕ
max_distance_of (some n) input = n
max_distance_of none input = max 2 (length input / 3)

abbrev candidate_of : Best → Option Suggestion
candidate_of none = none
candidate_of (some (c, d)) = some (suggested c)

-- `if (aliasHit) return aliasHit`: the empty string is no hit.
abbrev pub or_else : Option Suggestion → Option Suggestion → Option Suggestion
or_else none other = other
or_else (some (suggested [])) other = other
or_else (some (suggested (c ∷ s))) other = some (suggested (c ∷ s))
or_else (some (inherited_member name)) other = some (inherited_member name)

unfoldable pub compute_did_you_mean :
    Text → List Text → List (Text × Text) → Option ℕ → Option Suggestion
unfolding best_of
compute_did_you_mean input catalog alias_table max_distance =
    or_else (alias_of input alias_table)
      (candidate_of (best_of input (max_distance_of max_distance input) catalog none))
