-- ===== src/Csv/Scanning.antt =====
-- How the scanner reads what the printer writes.
use mathlib.Core.List.{append-nil, append_assoc}
use aart.Base.{
  ℕ, ◌≡◌, ◌≢◌, refl, ◌∙◌, ◌⊎◌, inl, inr, Bool, true, false, List, [], ◌∷◌, ◌++◌, map, Text, join,
  any, ◌==◌, Bool-cases, arith, ==_iff,
}
use aart.Csv.{Scan, csv_step, csv_scan, double_quotes, is_special, csv_escape, comma, newline}

abbrev pub scan_of : List (List Text) → List Text → Text → Bool → Scan
scan_of rows row field quoted = record { rows = rows; row = row; field = field; in_quotes = quoted }

-- The first character of a text is no quote.
abbrev pub Unquoted : Text → Type 0
Unquoted [] = Unit
Unquoted (c ∷ s) = c ≢ b'"'

csv_scan-step :
    (c : ℕ) (rest : Text) (s : Scan)
    → (s.in_quotes ≡ false) ⊎ ((c ≢ b'"') ⊎ Unquoted rest)
    → csv_scan (c ∷ rest) s ≡ csv_scan rest (csv_step c s)
unfolding csv_scan
csv_scan-step c [] s h = refl
csv_scan-step c (d ∷ rest) s (inl h) = rw h
csv_scan-step c (d ∷ rest) s (inr (inl h)) = ground arith
csv_scan-step c (d ∷ rest) s (inr (inr h)) = ground arith

module _ (rows : List (List Text)) (row : List Text) where
  csv_scan-doubled :
      (acc rest : Text)
      → csv_scan (b'"' ∷ b'"' ∷ rest) (scan_of rows row acc true)
        ≡ csv_scan rest (scan_of rows row (acc ++ b'"' ∷ []) true)
  unfolding csv_scan
  csv_scan-doubled acc rest = refl

  csv_step-plain :
      (c : ℕ) (acc : Text)
      → is_special c ≡ false
      → csv_step c (scan_of rows row acc false) ≡ scan_of rows row (acc ++ c ∷ []) false
  unfolding csv_step
  csv_step-plain c acc h = ground arith

  -- Text without special characters is read as it stands.
  csv_scan-plain :
      (f : Text) (acc rest : Text)
      → any is_special f ≡ false
      → csv_scan (f ++ rest) (scan_of rows row acc false)
        ≡ csv_scan rest (scan_of rows row (acc ++ f) false)
  csv_scan-plain [] acc rest h = rw (append-nil acc)
  csv_scan-plain (c ∷ f) acc rest h =
      let here : is_special c ≡ false = ground arith in
      let later : any is_special f ≡ false = ground arith in
      csv_scan-step c (f ++ rest) _ (inl refl)
      ∙ rw (csv_step-plain c acc here)
          (csv_scan-plain f (acc ++ c ∷ []) rest later ∙ rw (append_assoc acc (c ∷ []) f))

  -- Inside quotes, doubled quotes are read back as one, and the closing quote ends the field.
  csv_scan-quoted :
      (f : Text) (acc rest : Text)
      → Unquoted rest
      → csv_scan (double_quotes f ++ b'"' ∷ rest) (scan_of rows row acc true)
        ≡ csv_scan rest (scan_of rows row (acc ++ f) false)
  unfolding csv_step
  csv_scan-quoted [] acc rest h = csv_scan-step b'"' rest _ (inr (inr h)) ∙ rw (append-nil acc)
  csv_scan-quoted (c ∷ f) acc rest h = elim (Bool-cases (c == b'"')) [
    | inl e ↦
        rw (e, (==_iff c b'"').0 e)
          (csv_scan-doubled acc (double_quotes f ++ b'"' ∷ rest)
            ∙ csv_scan-quoted f (acc ++ b'"' ∷ []) rest h
            ∙ rw (append_assoc acc (b'"' ∷ []) f))
    | inr e ↦ rw e (
        csv_scan-step c (double_quotes f ++ b'"' ∷ rest) _ (inr (inl (λ p. ground arith)))
        ∙ rw e (csv_scan-quoted f (acc ++ c ∷ []) rest h ∙ rw (append_assoc acc (c ∷ []) f)))
  ]

  -- An escaped field is read back, whatever it holds.
  csv_scan-csv_escape :
      (f rest : Text)
      → Unquoted rest
      → csv_scan (csv_escape f ++ rest) (scan_of rows row [] false)
        ≡ csv_scan rest (scan_of rows row f false)
  unfolding csv_escape csv_step
  csv_scan-csv_escape f rest h = elim (Bool-cases (any is_special f)) [
    | inl e ↦ rw e (
        csv_scan-step b'"' ((double_quotes f ++ b'"' ∷ []) ++ rest) _ (inl refl)
        ∙ rw (append_assoc (double_quotes f) (b'"' ∷ []) rest) (csv_scan-quoted f [] rest h))
    | inr e ↦ rw e (csv_scan-plain f [] rest e)
  ]

  csv_scan-comma :
      (f rest : Text)
      → csv_scan (b',' ∷ rest) (scan_of rows row f false)
        ≡ csv_scan rest (scan_of rows (row ++ f ∷ []) [] false)
  unfolding csv_step
  csv_scan-comma f rest = csv_scan-step b',' rest _ (inl refl)

  pub csv_scan-newline :
      (f rest : Text)
      → csv_scan (newline ++ rest) (scan_of rows row f false)
        ≡ csv_scan rest (scan_of (rows ++ (row ++ f ∷ []) ∷ []) [] [] false)
  unfolding csv_step
  csv_scan-newline f rest =
      csv_scan-step 13 (10 ∷ rest) _ (inl refl) ∙ csv_scan-step 10 rest _ (inl refl)

-- The state after the fields of a line: the last of them is still open.
pub record Line (rows : List (List Text)) (fields : List Text) (text rest : Text) (s : Scan)
    : Type 0 where
  pub row : List Text
  pub last : Text
  pub same : row ++ last ∷ [] ≡ fields
  pub scanned : csv_scan (text ++ rest) s ≡ csv_scan rest (scan_of rows row last false)

pub csv_scan_through :
    (rows : List (List Text)) (row : List Text) (f : Text) (fs : List Text) (rest : Text)
    → Unquoted rest
    → Line rows
        (row ++ f ∷ fs)
        (join comma (map csv_escape (f ∷ fs)))
        rest
        (scan_of rows row [] false)
csv_scan_through rows row f [] rest h = record {
  row = row;
  last = f;
  same = refl;
  scanned = csv_scan-csv_escape rows row f rest h;
}
csv_scan_through rows row f (g ∷ fs) rest h =
    let later = csv_scan_through rows (row ++ f ∷ []) g fs rest h in
    record {
      row = later.row;
      last = later.last;
      same = later.same ∙ append_assoc row (f ∷ []) (g ∷ fs);
      scanned =
          rw (append_assoc (csv_escape f) (comma ++ join comma (map csv_escape (g ∷ fs))) rest) (
            csv_scan-csv_escape rows row f _ (λ e. ground arith)
            ∙ csv_scan-comma rows row f _
            ∙ later.scanned);
    }
