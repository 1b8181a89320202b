-- ===== src/Expr/Grammar/Reading.antt =====
-- The parser's loop reads the paths of the grammar, and no others.
use aart.Base.{
  ℕ, zero, suc, ◌+◌, ◌-◌, ◌≤◌, ◌≡◌, refl, ap, subst, inl, inr, Bool, true, false, some, List, [],
  ◌∷◌, ◌++◌, Text, length, length-append, ◌==◌, ==_iff, if◌then◌else◌, Bool-cases, Option-cases, ok,
  err, >>=-eq-ok, Result-cases, ok_inj, err-ne-ok, All, arith,
}
use aart.Expr.{
  PathSegment, property, index, expected_index, is_digit, is_identifier_start, is_identifier_char,
  span, read_identifier, number_from, read_property, close_index, read_index, read_segment,
  parse_path,
}
use aart.Expr.Grammar.{IsName, IsNumber, IsPath, end, dot, bracket}

-- A text does not start with a character that passes the test.
abbrev pub Stops : (ℕ → Bool) → Text → Type 0
Stops p [] = Unit
Stops p (c ∷ s) = p c ≡ false

module _ (p : ℕ → Bool) where
  pub span-append :
      (s rest : Text) → All (λ c. p c ≡ true) s → Stops p rest → span p (s ++ rest) ≡ (s, rest)
  unfolding span
  span-append [] [] h k = refl
  span-append [] (c ∷ rest) h k = rw k
  span-append (c ∷ s) rest (here, h) k = rw (here, span-append s rest h k)

  -- The parts of a text at its first character that fails.
  pub record IsSpan (s : Text) : Type 0 where
    pub joined : (span p s).0 ++ (span p s).1 ≡ s
    pub passing : All (λ c. p c ≡ true) (span p s).0

  pub span_lem : (s : Text) → IsSpan s
  unfolding span
  span_lem [] = record { joined = refl; passing = tt }
  span_lem (c ∷ s) = elim (Bool-cases (p c)) [
    | inl e ↦ record {
      joined = rw e (ap (λ t. c ∷ t) (span_lem s).joined);
      passing = rw e (e, (span_lem s).passing);
    }
    | inr e ↦ record { joined = rw e; passing = rw e tt }
  ]

pub read_identifier-append :
    (name rest : Text)
    → IsName name
    → Stops is_identifier_char rest
    → read_identifier (name ++ rest) ≡ some (name, rest)
unfolding read_identifier
read_identifier-append [] rest h k = absurd h
read_identifier-append (c ∷ s) rest (start, h) k =
    rw (start, span-append is_identifier_char s rest h k)

pub read_identifier_sound :
    (s name rest : Text) → read_identifier s ≡ some (name, rest) → (name ++ rest ≡ s) × IsName name
unfolding read_identifier
read_identifier_sound [] name rest h = cc
read_identifier_sound (c ∷ s) name rest h = elim (Bool-cases (is_identifier_start c)) [
  | inl e ↦
      let parts = span_lem is_identifier_char s in
      let same_name : name ≡ c ∷ (span is_identifier_char s).0 = ground arith in
      let same_rest : rest ≡ (span is_identifier_char s).1 = ground arith in
      rw (same_name, same_rest) (ap (λ t. c ∷ t) parts.joined, (e, parts.passing))
  | inr e ↦ ground arith
]

-- What a round reads is a step of the grammar.
abbrev Extends : Text → PathSegment → Text → Type 0
Extends text segment rest =
    (path : List PathSegment) → IsPath rest path → IsPath text (segment ∷ path)

read_property_sound :
    (pos : ℕ) (s : Text) (segment : PathSegment) (rest : Text)
    → read_property pos s ≡ ok (segment, rest)
    → Extends (b'.' ∷ s) segment rest
unfolding read_property
read_property_sound pos s segment rest h path later = elim (Option-cases (read_identifier s)) [
  | inl e ↦ absurd (ground arith)
  | inr ((name, rest'), e) ↦
      let (joined, named) = read_identifier_sound s name rest' e in
      let same_segment : segment ≡ property name = ground arith in
      let same_rest : rest ≡ rest' = ground arith in
      rw (same_segment, ← joined) (dot named (rw same_rest at later))
]

close_index_sound :
    (digits tail : Text) (segment : PathSegment) (rest : Text)
    → IsNumber digits
    → close_index digits tail ≡ ok (segment, rest)
    → Extends (b'[' ∷ (digits ++ tail)) segment rest
unfolding close_index
close_index_sound digits [] segment rest n h path later = absurd (ground arith)
close_index_sound digits (c ∷ tail) segment rest n h path later = elim (Bool-cases (c == b']')) [
  | inl e ↦
      let same_segment : segment ≡ index (number_from 0 digits) = ground arith in
      let same_rest : rest ≡ tail = ground arith in
      rw (same_segment, (==_iff c b']').0 e) (bracket digits n (rw same_rest at later))
  | inr e ↦ absurd (ground arith)
]

index_sound :
    (pos : ℕ) (digits tail : Text) (segment : PathSegment) (rest : Text)
    → All (λ c. is_digit c ≡ true) digits
    → (if length digits == 0 then err (expected_index pos) else close_index digits tail)
      ≡ ok (segment, rest)
    → Extends (b'[' ∷ (digits ++ tail)) segment rest
index_sound pos [] tail segment rest a h path later = absurd (ground arith)
index_sound pos (c ∷ digits) tail segment rest a h path later =
    close_index_sound (c ∷ digits) tail segment rest a (ground arith) path later

read_index_sound :
    (pos : ℕ) (s : Text) (segment : PathSegment) (rest : Text)
    → read_index pos s ≡ ok (segment, rest)
    → Extends (b'[' ∷ s) segment rest
unfolding read_index
read_index_sound pos s segment rest h path later =
    let parts = span_lem is_digit s in
    subst (λ t. IsPath (b'[' ∷ t) (segment ∷ path)) parts.joined
      (index_sound pos (span is_digit s).0 (span is_digit s).1 segment rest parts.passing h path
        later)

read_segment_sound :
    (pos c : ℕ) (s : Text) (segment : PathSegment) (rest : Text)
    → read_segment pos c s ≡ ok (segment, rest)
    → Extends (c ∷ s) segment rest
unfolding read_segment
read_segment_sound pos c s segment rest h = elim (Bool-cases (c == b'.')) [
  | inl e ↦ rw ((==_iff c b'.').0 e) (read_property_sound (pos + 1) s segment rest (ground arith))
  | inr e ↦ elim (Bool-cases (c == b'[')) [
    | inl f ↦ rw ((==_iff c b'[').0 f) (read_index_sound (pos + 1) s segment rest (ground arith))
    | inr f ↦ absurd (ground arith)
  ]
]

pub parse_path_sound :
    (fuel len : ℕ) (s : Text) (path : List PathSegment)
    → parse_path fuel len s ≡ ok path
    → IsPath s path
unfolding parse_path
parse_path_sound zero len [] path h = subst (λ p. IsPath [] p) (ok_inj h) end
parse_path_sound (suc fuel) len [] path h = subst (λ p. IsPath [] p) (ok_inj h) end
parse_path_sound zero len (c ∷ s) path h = absurd (ground arith)
parse_path_sound (suc fuel) len (c ∷ s) path h =
    elim (Result-cases (read_segment (len - length (c ∷ s)) c s)) [
      | inl (e, failed) ↦ absurd (err-ne-ok (rw (failed, parse_path) at h))
      | inr ((segment, rest), read) ↦
          let (later, parsed, same) =
            >>=-eq-ok (parse_path fuel len rest) (λ path. ok (segment ∷ path))
              (rw (read, parse_path) at h) in
          subst (λ p. IsPath (c ∷ s) p) (ok_inj same)
            (read_segment_sound _ c s segment rest read later
              (parse_path_sound fuel len rest later parsed))
    ]

-- What may follow a name, in a path.
pub IsPath-Stops : {s : Text} {path : List PathSegment} → IsPath s path → Stops is_identifier_char s
IsPath-Stops end = tt
IsPath-Stops (dot n p) = refl
IsPath-Stops (bracket digits n p) = refl

read_segment-dot :
    (pos : ℕ) {name rest : Text} {path : List PathSegment}
    → IsName name
    → IsPath rest path
    → read_segment pos b'.' (name ++ rest) ≡ ok (property name, rest)
unfolding read_segment read_property
read_segment-dot pos {name} {rest} n p =
    rw (read_identifier-append name rest n (IsPath-Stops p), read_property)

read_segment-bracket :
    (pos : ℕ) (digits rest : Text)
    → IsNumber digits
    → read_segment pos b'[' (digits ++ b']' ∷ rest) ≡ ok (index (number_from 0 digits), rest)
unfolding read_segment read_index close_index
read_segment-bracket pos [] rest n = absurd n
read_segment-bracket pos (c ∷ digits) rest n =
    rw (span-append is_digit (c ∷ digits) (b']' ∷ rest) n refl) (ground arith)

pub parse_path_complete :
    (fuel len : ℕ) {s : Text} {path : List PathSegment}
    → IsPath s path
    → length s ≤ fuel
    → parse_path fuel len s ≡ ok path
unfolding parse_path
parse_path_complete zero len end h = refl
parse_path_complete (suc fuel) len end h = refl
parse_path_complete zero len (dot n p) h = absurd (omega arith)
parse_path_complete zero len (bracket digits n p) h = absurd (omega arith)
parse_path_complete (suc fuel) len (dot {name} {rest} n p) h =
    let room : length rest ≤ fuel = omega (arith, length-append name rest) in
    rw (
      read_segment-dot (len - length (b'.' ∷ (name ++ rest))) n p,
      parse_path,
      parse_path_complete fuel len p room,
    )
parse_path_complete (suc fuel) len (bracket digits {rest} n p) h =
    let room : length rest ≤ fuel = omega (arith, length-append digits (b']' ∷ rest)) in
    rw (
      read_segment-bracket (len - length (b'[' ∷ (digits ++ b']' ∷ rest))) digits rest n,
      parse_path,
      parse_path_complete fuel len p room,
    )
