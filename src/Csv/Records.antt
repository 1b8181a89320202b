-- ===== src/Csv/Records.antt =====
-- Records through the printer and the parser.
use aart.Base.{
  ◌≤◌, append-nil, ◌≡◌, refl, sym, ◌∙◌, ap, inl, inr, Bool, true, false, not, ◌||◌, Option, List,
  [], ◌∷◌, ◌++◌, append_assoc, map, Text, text_eq, text_eq_sym, join, any, any-append, length,
  length-append, length-map, get_or-append_length, Bool-cases, arith, All, All-append, filter,
  trim_nonempty, is_ink,
}
use mathlib.Core.List.{map-map}
use aart.Csv.{
  parse_csv_rows, parse_csv, csv_escape, comma, newline, stringify_csv, add_columns, columns_of,
  cell, fill_record, assign, prototype_key, replace_entry, is_blank_row,
}
use aart.Csv.RoundTrip.{line_of, ArePrintable, parse_csv_rows-join}

abbrev pub Distinct : List Text → Type 0
Distinct [] = Unit
Distinct (c ∷ cs) = (any (text_eq c) cs ≡ false) × Distinct cs

Distinct-snoc :
    (key : Text) (cs : List Text)
    → Distinct cs
    → any (text_eq key) cs ≡ false
    → Distinct (cs ++ key ∷ [])
Distinct-snoc key [] h fresh = (refl, tt)
Distinct-snoc key (c ∷ cs) (own, h) fresh =
    let other : text_eq key c ≡ false = ground arith in
    (rw any-append (ground (arith, text_eq_sym key c other)), Distinct-snoc key cs h (ground arith))

add_columns-Distinct :
    {V : Type 0} (r : List (Text × V)) (cs : List Text) → Distinct cs → Distinct (add_columns r cs)
add_columns-Distinct [] cs h = h
add_columns-Distinct ((key, v) ∷ r) cs h = elim (Bool-cases (any (text_eq key) cs)) [
  | inl seen ↦ rw seen (add_columns-Distinct r cs h)
  | inr fresh ↦ rw fresh (add_columns-Distinct r (cs ++ key ∷ []) (Distinct-snoc key cs h fresh))
]

pub columns_of-Distinct :
    {V : Type 0} (rows : List (List (Text × V))) (cs : List Text)
    → Distinct cs
    → Distinct (columns_of rows cs)
columns_of-Distinct [] cs h = h
columns_of-Distinct (r ∷ rows) cs h =
    columns_of-Distinct rows (add_columns r cs) (add_columns-Distinct r cs h)

-- No key of the record is among the keys still to come.
abbrev AreFresh : List Text → List (Text × Text) → Type 0
AreFresh header acc = All (λ p. any (text_eq p.0) header ≡ false) acc

replace_entry-fresh :
    (key value : Text) (header : List Text) (acc : List (Text × Text))
    → AreFresh (key ∷ header) acc
    → replace_entry key value acc ≡ acc ++ (key, value) ∷ []
replace_entry-fresh key value header [] h = refl
replace_entry-fresh key value header ((k, v) ∷ acc) (fresh, h) =
    ground (arith, replace_entry-fresh key value header acc h)

assign-fresh :
    (key value : Text) (header : List Text) (acc : List (Text × Text))
    → text_eq key prototype_key ≡ false
    → AreFresh (key ∷ header) acc
    → assign key value acc ≡ acc ++ (key, value) ∷ []
assign-fresh key value header acc e h = rw e (replace_entry-fresh key value header acc h)

AreFresh-tail :
    (key : Text) (header : List Text) (acc : List (Text × Text))
    → AreFresh (key ∷ header) acc
    → AreFresh header acc
AreFresh-tail key header [] h = tt
AreFresh-tail key header (p ∷ acc) (fresh, h) = (ground arith, AreFresh-tail key header acc h)

module _ (value : Text → Text) where
  fill_record-map :
      (header before : List Text) (acc : List (Text × Text))
      → Distinct header
      → any (text_eq prototype_key) header ≡ false
      → AreFresh header acc
      → fill_record header (length before) (before ++ map value header) acc
        ≡ acc ++ map (λ c. (c, value c)) header
  fill_record-map [] before acc d p h = sym (append-nil acc)
  fill_record-map (key ∷ header) before acc (own, d) p h =
      let grown = acc ++ (key, value key) ∷ [] in
      let fresh =
        All-append (λ p. any (text_eq p.0) header ≡ false) acc ((key, value key) ∷ [])
          (AreFresh-tail key header acc h) (own, tt) in
      let here : text_eq key prototype_key ≡ false = text_eq_sym prototype_key key (ground arith) in
      let rest : any (text_eq prototype_key) header ≡ false = ground arith in
      let later = fill_record-map header (before ++ value key ∷ []) grown d rest fresh in
      rw
        (
          get_or-append_length before (value key) (map value header) [],
          assign-fresh key (value key) header acc here h,
        )
        (rw
          (
            length-append before (value key ∷ []),
            append_assoc before (value key ∷ []) (map value header),
            append_assoc acc ((key, value key) ∷ []) (map (λ c. (c, value c)) header),
          )
          at later)

or_true : (b : Bool) → (b || true) ≡ true
or_true true = refl
or_true false = refl

-- A row of at least two fields is no blank row.
not_blank :
    (value : Text → Text) (cs : List Text) → 2 ≤ length cs → is_blank_row (map value cs) ≡ false
not_blank value [] h = absurd (omega arith)
not_blank value (c ∷ []) h = absurd (omega arith)
not_blank value (c ∷ d ∷ cs) h = ground arith

ArePrintable-wide :
    (r : List Text) (rows : List (List Text))
    → 2 ≤ length r
    → All (λ s. 2 ≤ length s) rows
    → ArePrintable (r ∷ rows)
ArePrintable-wide [] rows h k = absurd (omega arith)
ArePrintable-wide (f ∷ []) rows h k = absurd (omega arith)
ArePrintable-wide (f ∷ g ∷ r) [] h k = (λ e. ground arith, λ e. ground arith)
ArePrintable-wide (f ∷ g ∷ r) (s ∷ rows) h (l, k) =
    (λ e. ground arith, ArePrintable-wide s rows l k)

line_ink : (r : List Text) → 2 ≤ length r → any is_ink (line_of r) ≡ true
line_ink [] h = absurd (omega arith)
line_ink (f ∷ []) h = absurd (omega arith)
line_ink (f ∷ g ∷ r) h =
    any-append is_ink (csv_escape f) (comma ++ line_of (g ∷ r))
    ∙ or_true (any is_ink (csv_escape f))

lines_ink :
    (r : List Text) (rows : List (List Text))
    → 2 ≤ length r
    → any is_ink (join newline (map line_of (r ∷ rows))) ≡ true
lines_ink r [] h = line_ink r h
lines_ink r (s ∷ rows) h =
    any-append is_ink (line_of r) (newline ++ join newline (map line_of (s ∷ rows)))
    ∙ rw (line_ink r h)

module _ {V : Type 0} (to_text : V → Text) (inherited : Text → Option V) (columns : List Text)
    (wide : 2 ≤ length columns) (plain : any (text_eq prototype_key) columns ≡ false) where
  abbrev row_of : List (Text × Option V) → List Text
  row_of w = map (λ c. cell to_text inherited c w) columns

  abbrev record_of : List (Text × Option V) → List (Text × Text)
  record_of w = map (λ c. (c, cell to_text inherited c w)) columns

  filter-rows :
      (rows : List (List (Text × Option V)))
      → filter (λ r. not (is_blank_row r)) (map row_of rows) ≡ map row_of rows
  filter-rows [] = refl
  filter-rows (w ∷ rows) =
      rw (not_blank (λ c. cell to_text inherited c w) columns wide)
        (ap (λ l. row_of w ∷ l) (filter-rows rows))

  fill-rows :
      (rows : List (List (Text × Option V)))
      → Distinct columns
      → map (λ r. fill_record columns 0 r []) (map row_of rows) ≡ map record_of rows
  fill-rows [] d = refl
  fill-rows (w ∷ rows) d =
      rw (fill_record-map (λ c. cell to_text inherited c w) columns [] [] d plain tt)
        (ap (λ l. record_of w ∷ l) (fill-rows rows d))

  lines-map :
      (rows : List (List (Text × Option V)))
      → map (λ w. join comma (map (λ c. csv_escape (cell to_text inherited c w)) columns)) rows
        ≡ map line_of (map row_of rows)
  lines-map [] = refl
  lines-map (w ∷ rows) = rw (map-map csv_escape (λ c. cell to_text inherited c w) columns) (
      ap (λ l. join comma (map (λ c. csv_escape (cell to_text inherited c w)) columns) ∷ l)
        (lines-map rows))

  wide-rows : (rows : List (List (Text × Option V))) → All (λ r. 2 ≤ length r) (map row_of rows)
  wide-rows [] = tt
  wide-rows (w ∷ rows) =
      (rw (length-map columns (λ c. cell to_text inherited c w)) wide, wide-rows rows)

  parsed_rows :
      (rows : List (List (Text × Option V)))
      → parse_csv_rows (join newline (map line_of (columns ∷ map row_of rows)))
        ≡ columns ∷ map row_of rows
  parsed_rows rows =
      parse_csv_rows-join (columns ∷ map row_of rows)
        (ArePrintable-wide columns (map row_of rows) wide (wide-rows rows))

  -- Header and rows, printed, are read back as one record for each row.
  parse_csv-lines :
      (rows : List (List (Text × Option V)))
      → Distinct columns
      → parse_csv (join newline (map line_of (columns ∷ map row_of rows))) ≡ map record_of rows
  unfolding parse_csv
  parse_csv-lines rows d =
      rw
        (
          trim_nonempty _ (lines_ink columns (map row_of rows) wide),
          parsed_rows rows,
          filter-rows rows,
        )
        (fill-rows rows d)

-- Writing records and reading them back gives, for each record, the text of each of its columns,
-- in the order of the header: the union of the keys, in first-seen order. It holds from two columns
-- on, none of them `__proto__`. A cell that is `null` or `undefined` comes back as the empty text, and so
-- does a missing one, unless every object inherits a member of its column's name: then it comes back as
-- the text of that member.
pub parse_csv-stringify_csv :
    {V : Type 0} (to_text : V → Text) (inherited : Text → Option V)
    (rows : List (List (Text × Option V)))
    → 2 ≤ length (columns_of rows [])
    → any (text_eq prototype_key) (columns_of rows []) ≡ false
    → parse_csv (stringify_csv to_text inherited rows)
      ≡ map (λ w. map (λ c. (c, cell to_text inherited c w)) (columns_of rows [])) rows
unfolding stringify_csv
parse_csv-stringify_csv to_text inherited [] h p = absurd (omega arith)
parse_csv-stringify_csv to_text inherited (r ∷ rows) h p =
    let columns = columns_of (r ∷ rows) [] in
    ap (λ lines. parse_csv (join newline (line_of columns ∷ lines)))
      (lines-map to_text inherited columns h p (r ∷ rows))
    ∙ parse_csv-lines to_text inherited columns h p (r ∷ rows)
        (columns_of-Distinct (r ∷ rows) [] tt)
