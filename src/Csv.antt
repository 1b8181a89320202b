-- ===== src/Csv.antt =====
-- packages/blocks-core/src/lib/csv.ts
--
-- A string is the list of its code units. `unknown` cell values are a parameter type with the
-- `String` conversion that JavaScript gives them; `null` and `undefined` are `none`. A record is an
-- association list in insertion order, of the keys it has itself; `inherited` is what
-- `Object.prototype` has under a name, `none` where it has nothing.
pub mod Scanning
pub mod RoundTrip
pub mod Records
mod Tests
use aart.Base.{
  ℕ, zero, suc, ◌+◌, Bool, true, false, not, ◌&&◌, ◌||◌, Option, none, some, List, [], ◌∷◌, ◌++◌,
  map, Text, codes, text_eq, join, trim, length, get_or, filter, any, ◌==◌, if◌then◌else◌,
}

-- The variables of `parseCsvRows`; the index is the text left to read.
pub record Scan : Type 0 where
  pub rows : List (List Text)
  pub row : List Text
  pub field : Text
  pub in_quotes : Bool

-- One round of the loop that reads one character.
pub csv_step : ℕ → Scan → Scan
csv_step c s =
    if s.in_quotes
    then (if c == b'"'
        then record s { in_quotes = false }
        else record s { field = s.field ++ c ∷ [] })
    else if c == b'"'
    then record s { in_quotes = true }
    else if c == b','
    then record s { row = s.row ++ s.field ∷ []; field = [] }
    else if c == 13
    then s
    else if c == 10
    then record s { rows = s.rows ++ (s.row ++ s.field ∷ []) ∷ []; row = []; field = [] }
    else record s { field = s.field ++ c ∷ [] }

-- The loop. Inside quotes a doubled quote is read in one round.
pub csv_scan : Text → Scan → Scan
csv_scan [] s = s
csv_scan (c ∷ []) s = csv_step c s
csv_scan (c ∷ d ∷ rest) s =
    let doubled = csv_scan rest (record s { field = s.field ++ b'"' ∷ [] }) in
    let single = csv_scan (d ∷ rest) (csv_step c s) in
    if s.in_quotes && (c == b'"' && d == b'"') then doubled else single

abbrev start : Scan
start = record { rows = []; row = []; field = []; in_quotes = false }

-- What follows the loop: the last row, unless nothing of it was read.
pub csv_finish : Scan → List (List Text)
csv_finish s =
    if not (length s.field == 0) || not (length s.row == 0)
    then s.rows ++ (s.row ++ s.field ∷ []) ∷ []
    else s.rows

unfoldable pub parse_csv_rows : Text → List (List Text)
unfolding csv_step csv_scan csv_finish
parse_csv_rows input = csv_finish (csv_scan input start)

-- A write to this key of an object, with a text as the value, is the setter of `Object.prototype` and
-- has no effect.
abbrev pub prototype_key : Text
prototype_key = codes "__proto__"

abbrev pub replace_entry : Text → Text → List (Text × Text) → List (Text × Text)
replace_entry key value [] = (key, value) ∷ []
replace_entry key value ((k, v) ∷ r) =
    if text_eq k key then (k, value) ∷ r else (k, v) ∷ replace_entry key value r

-- `record[key] = value`.
abbrev pub assign : Text → Text → List (Text × Text) → List (Text × Text)
assign key value r = if text_eq key prototype_key then r else replace_entry key value r

-- `header.forEach((key, idx) => { record[key] = r[idx] ?? "" })`.
abbrev pub fill_record : List Text → ℕ → List Text → List (Text × Text) → List (Text × Text)
fill_record [] idx r acc = acc
fill_record (key ∷ header) idx r acc =
    fill_record header (idx + 1) r (assign key (get_or r idx []) acc)

-- `r.length === 1 && r[0] === ""`.
abbrev pub is_blank_row : List Text → Bool
is_blank_row r = length r == 1 && text_eq (get_or r 0 []) []

abbrev pub records_of : List (List Text) → List (List (Text × Text))
records_of [] = []
records_of (header ∷ data_rows) =
    map (λ r. fill_record header 0 r []) (filter (λ r. not (is_blank_row r)) data_rows)

unfoldable pub parse_csv : Text → List (List (Text × Text))
parse_csv input = if length (trim input) == 0 then [] else records_of (parse_csv_rows input)

-- `str.replace(/"/g, '""')`.
abbrev pub double_quotes : Text → Text
double_quotes [] = []
double_quotes (c ∷ s) = if c == b'"' then b'"' ∷ b'"' ∷ double_quotes s else c ∷ double_quotes s

-- The characters of `/[",\n\r]/`.
abbrev pub is_special : ℕ → Bool
is_special c = c == b'"' || (c == b',' || (c == 10 || c == 13))

-- `csvEscape` of the text of a value.
unfoldable pub csv_escape : Text → Text
csv_escape str = if any is_special str then b'"' ∷ (double_quotes str ++ b'"' ∷ []) else str

-- `seen.has(key)` and the two writes, over the keys of a row.
abbrev pub add_columns : {V : Type 0} → List (Text × V) → List Text → List Text
add_columns [] columns = columns
add_columns ((key, v) ∷ r) columns =
    add_columns r (if any (text_eq key) columns then columns else columns ++ key ∷ [])

abbrev pub columns_of : {V : Type 0} → List (List (Text × V)) → List Text → List Text
columns_of [] columns = columns
columns_of (r ∷ rows) columns = columns_of rows (add_columns r columns)

abbrev pub newline : Text
newline = 13 ∷ 10 ∷ []

abbrev pub comma : Text
comma = b',' ∷ []

module _ {V : Type 0} (to_text : V → Text) (inherited : Text → Option V) where
  -- `String(value)`, and `""` for `null` and `undefined`.
  abbrev pub text_of : Option V → Text
  text_of none = []
  text_of (some w) = to_text w

  -- The text of `row[c]`: of an own value, or else of the one that every object inherits.
  abbrev pub cell : Text → List (Text × Option V) → Text
  cell c [] = text_of (inherited c)
  cell c ((k, v) ∷ r) = if text_eq k c then text_of v else cell c r

  unfoldable pub stringify_csv : List (List (Text × Option V)) → Text
  stringify_csv [] = []
  stringify_csv (r ∷ rows) =
      let columns = columns_of (r ∷ rows) [] in
      join newline (
        join comma (map csv_escape columns)
        ∷ map (λ w. join comma (map (λ c. csv_escape (cell c w)) columns)) (r ∷ rows))
