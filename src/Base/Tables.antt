-- ===== src/Base/Tables.antt =====
-- A table with a primary key: its rows in a list, each with a number for its key.
use Prim.Native.Nat.{ℕ}
use mathlib.Core.Path.{◌≡◌, refl, ap}
use mathlib.Core.Logic.{◌≢◌, inl, inr}
use mathlib.Core.Bool.{Bool, true, false}
use mathlib.Core.Option.{Option, none, some}
use mathlib.Core.List.{List, [], ◌∷◌, ◌++◌}
use native.Mathlib.Omega.{arith}
use aart.Base.Tests.{◌==◌, if◌then◌else◌, Bool-cases}
use aart.Base.Lists.{filter}

abbrev pub map_option : {A B : Type 0} → (A → B) → Option A → Option B
map_option f none = none
map_option f (some x) = some (f x)

-- The value, if it passes a test.
abbrev pub keep_if : {A : Type 0} → (A → Bool) → Option A → Option A
keep_if p none = none
keep_if p (some x) = if p x then some x else none

module _ {A : Type 0} (key : A → ℕ) where
  abbrev pub lookup : ℕ → List A → Option A
  lookup k [] = none
  lookup k (x ∷ xs) = if key x == k then some x else lookup k xs

  -- `UPDATE … WHERE key = k`.
  abbrev pub change : ℕ → (A → A) → List A → List A
  change k f [] = []
  change k f (x ∷ xs) = (if key x == k then f x else x) ∷ change k f xs

  -- `DELETE … WHERE key = k`.
  abbrev pub discard : ℕ → List A → List A
  discard k [] = []
  discard k (x ∷ xs) = if key x == k then discard k xs else x ∷ discard k xs

  -- No two rows have the same key.
  abbrev pub IsKeyed : List A → Type 0
  IsKeyed [] = Unit
  IsKeyed (x ∷ xs) = (lookup (key x) xs ≡ none) × IsKeyed xs

  module _ (f : A → A) (kept : (x : A) → key (f x) ≡ key x) (k : ℕ) where
    pub lookup-change_same : (xs : List A) → lookup k (change k f xs) ≡ map_option f (lookup k xs)
    lookup-change_same [] = refl
    lookup-change_same (x ∷ xs) = elim (Bool-cases (key x == k)) [
      | inl e ↦ rw (e, kept x, e) refl
      | inr e ↦ rw (e, e) (lookup-change_same xs)
    ]

    pub lookup-change_other : (j : ℕ) (xs : List A) → j ≢ k → lookup j (change k f xs) ≡ lookup j xs
    lookup-change_other j [] n = refl
    lookup-change_other j (x ∷ xs) n = elim (Bool-cases (key x == k)) [
      | inl e ↦
          let foreign : (key x == j) ≡ false = ground arith in
          rw (e, kept x, foreign) (lookup-change_other j xs n)
      | inr e ↦ rw e (ap (λ r. if key x == j then some x else r) (lookup-change_other j xs n))
    ]

  -- One row replaced by a row of the same key.
  module _ (y : A) (k : ℕ) (same : key y ≡ k) where
    pub lookup-replace_same :
        (xs : List A) → lookup k (change k (λ x. y) xs) ≡ map_option (λ x. y) (lookup k xs)
    lookup-replace_same [] = refl
    lookup-replace_same (x ∷ xs) = elim (Bool-cases (key x == k)) [
      | inl e ↦ let at_k : (key y == k) ≡ true = ground arith in rw (e, at_k) refl
      | inr e ↦ rw (e, e) (lookup-replace_same xs)
    ]

    pub lookup-replace_other :
        (j : ℕ) (xs : List A) → j ≢ k → lookup j (change k (λ x. y) xs) ≡ lookup j xs
    lookup-replace_other j [] n = refl
    lookup-replace_other j (x ∷ xs) n = elim (Bool-cases (key x == k)) [
      | inl e ↦
          let foreign : (key x == j) ≡ false = ground arith in
          let foreign_y : (key y == j) ≡ false = ground arith in
          rw (e, foreign, foreign_y) (lookup-replace_other j xs n)
      | inr e ↦ rw e (ap (λ r. if key x == j then some x else r) (lookup-replace_other j xs n))
    ]

  pub lookup-discard_same : (k : ℕ) (xs : List A) → lookup k (discard k xs) ≡ none
  lookup-discard_same k [] = refl
  lookup-discard_same k (x ∷ xs) = elim (Bool-cases (key x == k)) [
    | inl e ↦ rw e (lookup-discard_same k xs)
    | inr e ↦ rw (e, e) (lookup-discard_same k xs)
  ]

  pub lookup-discard_other : (j k : ℕ) (xs : List A) → j ≢ k → lookup j (discard k xs) ≡ lookup j xs
  lookup-discard_other j k [] n = refl
  lookup-discard_other j k (x ∷ xs) n = elim (Bool-cases (key x == k)) [
    | inl e ↦
        let foreign : (key x == j) ≡ false = ground arith in
        rw (e, foreign) (lookup-discard_other j k xs n)
    | inr e ↦ rw e (ap (λ r. if key x == j then some x else r) (lookup-discard_other j k xs n))
  ]

  pub lookup-append :
      (k : ℕ) (xs : List A) (y : A)
      → lookup k xs ≡ none
      → lookup k (xs ++ y ∷ []) ≡ (if key y == k then some y else none)
  lookup-append k [] y h = refl
  lookup-append k (x ∷ xs) y h = elim (Bool-cases (key x == k)) [
    | inl e ↦ absurd (ground arith)
    | inr e ↦ rw e (lookup-append k xs y (rw e at h))
  ]

  pub lookup-append_some :
      (k : ℕ) (xs : List A) (y x : A) → lookup k xs ≡ some x → lookup k (xs ++ y ∷ []) ≡ some x
  lookup-append_some k [] y x h = absurd (ground arith)
  lookup-append_some k (w ∷ xs) y x h = elim (Bool-cases (key w == k)) [
    | inl e ↦ rw e (rw e at h)
    | inr e ↦ rw e (lookup-append_some k xs y x (rw e at h))
  ]

  -- A row that is found has the key.
  pub lookup-key : (k : ℕ) (xs : List A) (x : A) → lookup k xs ≡ some x → key x ≡ k
  lookup-key k [] x h = absurd (ground arith)
  lookup-key k (y ∷ xs) x h = elim (Bool-cases (key y == k)) [
    | inl e ↦ ground arith
    | inr e ↦ lookup-key k xs x (rw e at h)
  ]

  module _ (p : A → Bool) where
    pub lookup-filter-none :
        (k : ℕ) (xs : List A) → lookup k xs ≡ none → lookup k (filter p xs) ≡ none
    lookup-filter-none k [] h = refl
    lookup-filter-none k (x ∷ xs) h = elim (Bool-cases (key x == k)) [
      | inl e ↦ absurd (ground arith)
      | inr e ↦
          let rest = lookup-filter-none k xs (rw e at h) in
          elim (Bool-cases (p x)) [ inl q ↦ rw (q, e) rest | inr q ↦ rw q rest ]
    ]

    pub filter-IsKeyed : (xs : List A) → IsKeyed xs → IsKeyed (filter p xs)
    filter-IsKeyed [] u = tt
    filter-IsKeyed (x ∷ xs) (new, u) = elim (Bool-cases (p x)) [
      | inl q ↦ rw q (lookup-filter-none (key x) xs new, filter-IsKeyed xs u)
      | inr q ↦ rw q (filter-IsKeyed xs u)
    ]

    pub lookup-filter :
        (k : ℕ) (xs : List A) → IsKeyed xs → lookup k (filter p xs) ≡ keep_if p (lookup k xs)
    lookup-filter k [] u = refl
    lookup-filter k (x ∷ xs) (new, u) = elim (Bool-cases (key x == k)) [
      | inl e ↦
          let same : key x ≡ k = ground arith in
          let gone = lookup-filter-none k xs (rw same at new) in
          elim (Bool-cases (p x)) [ inl q ↦ rw (q, e, q) refl | inr q ↦ rw (q, e, q) gone ]
      | inr e ↦ elim (Bool-cases (p x)) [
        | inl q ↦ rw (q, e) (lookup-filter k xs u)
        | inr q ↦ rw (q, e) (lookup-filter k xs u)
      ]
    ]
