-- ===== src/EditDistance/Rows.antt =====
-- The two rolling rows hold the textbook recursion's values on the prefixes read so far.
use mathlib.Core.List.{append_assoc}
use aart.Base.{
  ℕ, suc, ◌+◌, ◌-◌, ◌<◌, ◌≡◌, refl, sym, ap, none, some, List, [], ◌∷◌, ◌++◌, reverse, append-nil,
  length, length-append, length-reverse, get_or, get_or-append_length, get_or-append_lt, Text,
  arith, ◌∙◌,
}
use mathlib.Core.List.{reverse_aux, reverse_aux-eq}
use aart.EditDistance.{Cell, fill_row, fill_rows, indices}
use aart.EditDistance.Spec.{least}

-- The row of the prefix whose reverse is `ra`, up to the column whose reversed prefix is `rb`.
abbrev pub row : Text → Text → List Cell
row ra [] = some (least ra []) ∷ []
row ra (y ∷ rb) = row ra rb ++ some (least ra (y ∷ rb)) ∷ []

pub length-row : (ra rb : Text) → length (row ra rb) ≡ length rb + 1
length-row ra [] = refl
length-row ra (y ∷ rb) =
    omega (arith, length-append (row ra rb) (some (least ra (y ∷ rb)) ∷ []), length-row ra rb)

pub length-prefix : (ra zs rb : Text) → length rb < length (row ra (zs ++ rb))
length-prefix ra zs rb = omega (arith, length-row ra (zs ++ rb), length-append zs rb)

pub row_last : (ra rb : Text) → get_or (row ra rb) (length rb) none ≡ some (least ra rb)
row_last ra [] = refl
row_last ra (y ∷ rb) =
    ap (λ i. get_or (row ra (y ∷ rb)) i none) (omega (arith, length-row ra rb))
    ∙ get_or-append_length (row ra rb) (some (least ra (y ∷ rb))) [] none

-- A column keeps its place in every longer row.
row_at : (ra zs rb : Text) → get_or (row ra (zs ++ rb)) (length rb) none ≡ some (least ra rb)
row_at ra [] rb = row_last ra rb
row_at ra (z ∷ zs) rb =
    get_or-append_lt (row ra (zs ++ rb)) (some (least ra (z ∷ (zs ++ rb))) ∷ []) (length rb) none
      (length-prefix ra zs rb)
    ∙ row_at ra zs rb

row_at_reverse :
    (ra ys rb : Text) → get_or (row ra (reverse_aux ys rb)) (length rb) none ≡ some (least ra rb)
row_at_reverse ra ys rb = rw (reverse_aux-eq ys rb) (row_at ra (reverse ys) rb)

fill_row-row :
    (x : ℕ) (ra rb ys : Text)
    → fill_row x (row ra (reverse_aux ys rb)) ys (length rb + 1) (row (x ∷ ra) rb)
      ≡ row (x ∷ ra) (reverse_aux ys rb)
unfolding fill_row
fill_row-row x ra rb [] = refl
fill_row-row x ra rb (y ∷ ys) =
    let diagonal : length rb + 1 - 1 ≡ length rb = omega arith in
    let above : length rb + 1 ≡ length (y ∷ rb) = omega arith in
    rw
      (
        diagonal,
        above,
        row_last (x ∷ ra) rb,
        row_at_reverse ra ys (y ∷ rb),
        row_at_reverse ra (y ∷ ys) rb,
      )
      (fill_row-row x ra (y ∷ rb) ys)

fill_rows-row :
    (xs b ra : Text)
    → fill_rows xs (length ra + 1) b (row ra (reverse b)) ≡ row (reverse_aux xs ra) (reverse b)
unfolding fill_rows
fill_rows-row [] b ra = refl
fill_rows-row (x ∷ xs) b ra =
    let next : length ra + 1 ≡ length (x ∷ ra) = omega arith in
    rw (next, fill_row-row x ra [] b) (fill_rows-row xs b (x ∷ ra))

indices-row :
    (b rb : Text) → row [] rb ++ indices (length rb + 1) (length b) ≡ row [] (reverse_aux b rb)
unfolding indices
indices-row [] rb = append-nil (row [] rb)
indices-row (y ∷ b) rb =
    let next : length rb + 1 ≡ length (y ∷ rb) = omega arith in
    rw next (
      sym (
        append_assoc (row [] rb) (some (length (y ∷ rb)) ∷ [])
          (indices (length (y ∷ rb) + 1) (length b)))
      ∙ indices-row b (y ∷ rb))

module _ (a b : Text) where
  last_row : fill_rows a 1 b (indices 0 (length b + 1)) ≡ row (reverse a) (reverse b)
  unfolding indices
  last_row =
      let first : length b + 1 ≡ suc (length b) = omega arith in
      rw (first, indices-row b []) (fill_rows-row a b [])

  -- The last cell of the last row.
  pub last_cell :
      get_or (fill_rows a 1 b (indices 0 (length b + 1))) (length b) none
      ≡ some (least (reverse a) (reverse b))
  last_cell = rw (last_row, ← length-reverse b) (row_last (reverse a) (reverse b))
