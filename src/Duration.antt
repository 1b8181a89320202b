-- ===== src/Duration.antt =====
-- packages/engine/src/duration.ts
--
-- `Number` of the digits is exact, as a double is up to 2 ^ 53; a thrown error is `none`.
mod Tests
use aart.Base.{
  ℕ, ◌*◌, Option, none, some, List, [], ◌∷◌, Text, text_eq, codes, trim, trim_start, length, ◌==◌,
  if◌then◌else◌,
}
use aart.Expr.{is_digit, span, number_from}

-- `UNIT_MS`
abbrev pub unit_ms : List (Text × ℕ)
unit_ms =
    (codes "ms", 1)
    ∷ (codes "s", 1000)
    ∷ (codes "m", 60000)
    ∷ (codes "h", 3600000)
    ∷ (codes "d", 86400000)
    ∷ []

abbrev pub unit_in : List (Text × ℕ) → Text → Option ℕ
unit_in [] unit = none
unit_in ((name, ms) ∷ units) unit = if text_eq name unit then some ms else unit_in units unit

-- `DURATION_PATTERN`: digits, white space, and a unit up to the end.
unfoldable pub parse_duration_ms : Text → Option ℕ
parse_duration_ms duration =
    let (amount, rest) = span is_digit (trim duration) in
    if length amount == 0 then none else elim (unit_in unit_ms (trim_start rest)) [
      | none ↦ none
      | some ms ↦ some (number_from 0 amount * ms)
    ]
