-- ===== src/Csv/Tests.antt =====
-- Runs of the CSV parser and printer, and the theorems at concrete inputs.
use aart.Base.{
  if◌then◌else◌, text_eq, ◌≡◌, refl, Option, none, some, List, [], ◌∷◌, Text, codes, join, map,
  arith,
}
use aart.Csv.{parse_csv_rows, parse_csv, stringify_csv, newline, columns_of, cell}
use aart.Csv.RoundTrip.{line_of, parse_csv_rows-join}
use aart.Csv.Records.{parse_csv-stringify_csv}

quoted :
    parse_csv_rows (codes "a,\"b,\"\"c\"\n,d")
    ≡ (codes "a" ∷ codes "b,\"c" ∷ []) ∷ ([] ∷ codes "d" ∷ []) ∷ []
unfolding parse_csv_rows
quoted = refl

abbrev table : List (List Text)
table = (codes "x" ∷ codes "y,\"z" ∷ []) ∷ ([] ∷ []) ∷ (codes "1" ∷ []) ∷ []

parse_csv_rows-join_example : parse_csv_rows (join newline (map line_of table)) ≡ table
parse_csv_rows-join_example =
    parse_csv_rows-join table
      (λ e. ground arith, (λ e. ground arith, (λ e. ground arith, λ e. ground arith)))

-- The third column has the name of a member of `Object.prototype`.
abbrev people : List (List (Text × Option Text))
people =
    ((codes "name", some (codes "Ada, C.")) ∷ (codes "age", none) ∷ (codes "toString", none) ∷ [])
    ∷ ((codes "age", some (codes "3\"")) ∷ [])
    ∷ []

as_is : Text → Text
as_is t = t

members : Text → Option Text
members c = if text_eq c (codes "toString") then some (codes "function") else none

parse_csv-stringify_csv_example :
    parse_csv (stringify_csv as_is members people)
    ≡ map (λ w. map (λ c. (c, cell as_is members c w)) (columns_of people [])) people
parse_csv-stringify_csv_example = parse_csv-stringify_csv as_is members people (omega arith) refl

people_back :
    map {B = List (Text × Text)}
      (λ w. map (λ c. (c, cell as_is members c w)) (columns_of people []))
      people
    ≡ ((codes "name", codes "Ada, C.") ∷ (codes "age", []) ∷ (codes "toString", []) ∷ [])
      ∷ ((codes "name", [])
          ∷ (codes "age", codes "3\"")
          ∷ (codes "toString", codes "function")
          ∷ [])
      ∷ []
unfolding as_is members
people_back = refl

-- A column `__proto__` is not read back.
lost_column : parse_csv (codes "a,__proto__\n1,2") ≡ ((codes "a", codes "1") ∷ []) ∷ []
unfolding parse_csv parse_csv_rows
lost_column = refl
