-- ===== src/Csv/RoundTrip.antt =====
-- Reading back what the printer writes.
use mathlib.Core.List.{append-nil, append_assoc}
use aart.Base.{◌≡◌, ◌≢◌, refl, sym, ◌∙◌, ap, false, List, [], ◌∷◌, ◌++◌, map, Text, join, arith}
use aart.Csv.{csv_scan, csv_finish, parse_csv_rows, csv_escape, comma, newline}
use aart.Csv.Scanning.{scan_of, csv_scan_through, csv_scan-newline}

-- A line of the printer.
abbrev pub line_of : List Text → Text
line_of fields = join comma (map csv_escape fields)

-- Every row has a field, and the last is not a single empty one, which prints as nothing.
abbrev pub ArePrintable : List (List Text) → Type 0
ArePrintable [] = Unit
ArePrintable (r ∷ []) = (r ≢ []) × (r ≢ [] ∷ [])
ArePrintable (r ∷ s ∷ rows) = (r ≢ []) × ArePrintable (s ∷ rows)

finish-line :
    (acc : List (List Text)) (row fields : List Text) (last : Text)
    → row ++ last ∷ [] ≡ fields
    → fields ≢ [] ∷ []
    → csv_finish (scan_of acc row last false) ≡ acc ++ fields ∷ []
unfolding csv_finish
finish-line acc [] fields [] e h = absurd (h (sym e))
finish-line acc [] fields (c ∷ last) e h = rw (← e) (ground arith)
finish-line acc (r ∷ row) fields last e h = rw (← e) (ground arith)

scan_lines :
    (acc : List (List Text)) (r : List Text) (rows : List (List Text))
    → ArePrintable (r ∷ rows)
    → csv_finish (csv_scan (join newline (map line_of (r ∷ rows))) (scan_of acc [] [] false))
      ≡ acc ++ r ∷ rows
unfolding csv_scan
scan_lines acc [] [] h = absurd (h.0 refl)
scan_lines acc [] (s ∷ rows) h = absurd (h.0 refl)
scan_lines acc (f ∷ fs) [] h =
    let text = line_of (f ∷ fs) in
    let line = csv_scan_through acc [] f fs [] tt in
    ap (λ t. csv_finish (csv_scan t (scan_of acc [] [] false))) (sym (append-nil text))
    ∙ ap csv_finish line.scanned
    ∙ finish-line acc line.row (f ∷ fs) line.last line.same h.1
scan_lines acc (f ∷ fs) (s ∷ rows) h =
    let line =
      csv_scan_through acc [] f fs (newline ++ join newline (map line_of (s ∷ rows)))
        (λ e. ground arith) in
    ap csv_finish (line.scanned ∙ csv_scan-newline acc line.row line.last _)
    ∙ ap
        (λ r.
          csv_finish (
            csv_scan (join newline (map line_of (s ∷ rows))) (scan_of (acc ++ r ∷ []) [] [] false)))
        line.same
    ∙ scan_lines (acc ++ (f ∷ fs) ∷ []) s rows h.1
    ∙ append_assoc acc ((f ∷ fs) ∷ []) (s ∷ rows)

-- Printing rows of any fields and reading them back gives the rows, if each has a field and the
-- last is not a single empty field.
pub parse_csv_rows-join :
    (rows : List (List Text))
    → ArePrintable rows
    → parse_csv_rows (join newline (map line_of rows)) ≡ rows
unfolding parse_csv_rows
parse_csv_rows-join [] h = refl
parse_csv_rows-join (r ∷ rows) h = scan_lines [] r rows h
