-- ===== src/Expr/Inner.antt =====
-- What `parseExpression` does between the braces.
use aart.Base.{
  ℕ, ◌≡◌, refl, sym, ◌∙◌, subst, inl, inr, Bool, true, false, false≢true, ◌||◌, some, List, [], ◌∷◌,
  Text, text_eq, text_eq_sound, length, ◌==◌, ==_iff, Bool-cases, Option-cases, ok, >>=-eq-ok,
  ok_inj, err-ne-ok, All, All-append, arith, includes, starts_with, none-ne-some,
}
use aart.Expr.{
  ExprRoot, inputs, root_name, PathSegment, ParsedExpression, is_identifier_char, is_digit,
  operator_tokens, assert_none_of, find_root, all_roots, valid_root, read_identifier, parse_path,
  parse_inner,
}
use aart.Expr.Grammar.{IsName, IsNumber, IsPath, end, dot, bracket, IsPropertyPath}
use aart.Expr.Grammar.Reading.{
  IsPath-Stops, read_identifier-append, read_identifier_sound, parse_path_sound,
  parse_path_complete,
}

-- The characters of a property path.
abbrev pub is_path_char : ℕ → Bool
is_path_char c = is_identifier_char c || (c == b'.' || (c == b'[' || c == b']'))

abbrev pub ArePathChars : Text → Type 0
ArePathChars s = All (λ c. is_path_char c ≡ true) s

pub name_chars : (s : Text) → All (λ c. is_identifier_char c ≡ true) s → ArePathChars s
name_chars [] h = tt
name_chars (c ∷ s) (e, h) = (rw e, name_chars s h)

digit_chars : (s : Text) → All (λ c. is_digit c ≡ true) s → ArePathChars s
digit_chars [] h = tt
digit_chars (c ∷ s) (e, h) = (ground arith, digit_chars s h)

pub IsName-chars : (s : Text) → IsName s → ArePathChars s
IsName-chars [] n = absurd n
IsName-chars (c ∷ s) (e, h) = (ground arith, name_chars s h)

IsNumber-chars : (s : Text) → IsNumber s → ArePathChars s
IsNumber-chars [] n = absurd n
IsNumber-chars (c ∷ s) h = digit_chars (c ∷ s) h

pub IsPath-chars : {s : Text} {path : List PathSegment} → IsPath s path → ArePathChars s
IsPath-chars end = tt
IsPath-chars (dot {name} {rest} n p) =
    (refl, All-append (λ c. is_path_char c ≡ true) name rest (IsName-chars name n) (IsPath-chars p))
IsPath-chars (bracket digits {rest} n p) = (
  refl,
  All-append (λ c. is_path_char c ≡ true) digits (b']' ∷ rest) (IsNumber-chars digits n)
      (refl, IsPath-chars p),
)

pub root_name-IsName : (r : ExprRoot) → IsName (root_name r)
root_name-IsName inputs = ground arith
root_name-IsName _ = ground arith

-- A text that starts with a character foreign to another is not in it.
abbrev pub IsForeign : Text → Type 0
IsForeign [] = ⊥
IsForeign (d ∷ t) = is_path_char d ≡ false

starts_with-foreign : (s op : Text) → ArePathChars s → IsForeign op → starts_with s op ≡ false
starts_with-foreign s [] h f = absurd f
starts_with-foreign [] (d ∷ op) h f = refl
starts_with-foreign (c ∷ s) (d ∷ op) (e, h) f = elim (Bool-cases (c == d)) [
  | inl same ↦
      absurd (false≢true (sym f ∙ subst (λ x. is_path_char x ≡ true) ((==_iff c d).0 same) e))
  | inr other ↦ rw other
]

includes-foreign : (s op : Text) → ArePathChars s → IsForeign op → includes s op ≡ false
includes-foreign [] op h f = starts_with-foreign [] op h f
includes-foreign (c ∷ s) op (e, h) f =
    rw (starts_with-foreign (c ∷ s) op (e, h) f) (includes-foreign s op h f)

pub assert_none_of-path :
    (ops : List Text) (s : Text) → ArePathChars s → All IsForeign ops → assert_none_of ops s ≡ ok tt
assert_none_of-path [] s h f = refl
assert_none_of-path (op ∷ ops) s h (e, f) =
    rw (includes-foreign s op h e) (assert_none_of-path ops s h f)

pub operator_tokens-IsForeign : All IsForeign operator_tokens
operator_tokens-IsForeign = ground arith

find_root_sound :
    (rs : List ExprRoot) (name : Text) (r : ExprRoot)
    → find_root rs name ≡ some r
    → root_name r ≡ name
find_root_sound [] name r h = absurd (none-ne-some h)
find_root_sound (q ∷ rs) name r h = elim (Bool-cases (text_eq (root_name q) name)) [
  | inl e ↦ let same : q ≡ r = ground arith in rw (← same) (text_eq_sound (root_name q) name e)
  | inr e ↦ find_root_sound rs name r (ground arith)
]

valid_root-root_name : (r : ExprRoot) → valid_root (root_name r) ≡ some r
valid_root-root_name inputs = refl
valid_root-root_name _ = refl

pub parse_inner_sound :
    (inner raw : Text) (e : ParsedExpression)
    → parse_inner inner raw ≡ ok e
    → (e.raw ≡ raw) × IsPropertyPath inner e.root e.path
parse_inner_sound inner raw e h = elim (Option-cases (read_identifier inner)) [
  | inl f ↦ absurd (err-ne-ok (rw (f, parse_inner) at h))
  | inr ((name, rest), read) ↦ elim (Option-cases (valid_root name)) [
    | inl f ↦ absurd (err-ne-ok (rw (read, f, parse_inner) at h))
    | inr (root, valid) ↦
        let (path, parsed, same) =
          >>=-eq-ok (parse_path (length rest) (length inner) rest)
            (λ path. ok (record { root = root; path = path; raw = raw }))
            (rw (read, valid, parse_inner) at h) in
        let (joined, named) = read_identifier_sound inner name rest read in
        let spelled = find_root_sound all_roots name root valid in
        subst (λ x. (x.raw ≡ raw) × IsPropertyPath inner x.root x.path) (ok_inj same)
          (
            refl,
            record {
              tail = rest;
              split = rw spelled (sym joined);
              rest = parse_path_sound (length rest) (length inner) rest path parsed;
            },
          )
  ]
]

pub parse_inner_complete :
    (inner raw : Text) (root : ExprRoot) (path : List PathSegment)
    → IsPropertyPath inner root path
    → parse_inner inner raw ≡ ok (record { root = root; path = path; raw = raw })
parse_inner_complete inner raw root path p =
    let name = root_name root in
    let read = read_identifier-append name p.tail (root_name-IsName root) (IsPath-Stops p.rest) in
    rw (p.split, read, parse_inner, valid_root-root_name root)
      (rw (parse_path_complete (length p.tail) (length inner) p.rest (omega arith)))
