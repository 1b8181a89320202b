-- ===== src/EditDistance/Spec.antt =====
-- What an edit distance is: the least cost of a script of insertions, deletions and substitutions,
-- and the textbook recursion that computes it.
use mathlib.Core.List.{reverse-cons}
use aart.Base.{
  ℕ, suc, ◌+◌, ◌≤◌, min, ◌≡◌, refl, subst, ◌⊎◌, inl, inr, Text, [], ◌∷◌, ◌++◌, append-nil, reverse,
  reverse-reverse, ◌==◌, ==_iff, if◌then◌else◌, Bool-cases, length, arith,
}

-- A script of the given cost that turns one text into another.
pub data Script : ℕ → Text → Text → Type 0 where
  done : Script 0 [] []
  keep : {n x : ℕ} {s t : Text} → Script n s t → Script n (x ∷ s) (x ∷ t)
  substitute : {n x y : ℕ} {s t : Text} → Script n s t → Script (suc n) (x ∷ s) (y ∷ t)
  insert : {n y : ℕ} {s t : Text} → Script n s t → Script (suc n) s (y ∷ t)
  delete : {n x : ℕ} {s t : Text} → Script n s t → Script (suc n) (x ∷ s) t

-- A number is the distance of two texts if a script has that cost, and none has less.
pub record IsDistance (n : ℕ) (s t : Text) : Type 0 where
  pub script : Script n s t
  pub lowest : (m : ℕ) → Script m s t → n ≤ m

-- The textbook recursion.
abbrev pub least : Text → Text → ℕ
least [] t = length t
least (x ∷ s) [] = suc (length s)
least (x ∷ s) (y ∷ t) =
    let insertion : ℕ = least (x ∷ s) t + 1 in
    let deletion : ℕ = least s (y ∷ t) + 1 in
    let substitution : ℕ = least s t + (if x == y then 0 else 1) in
    min (min insertion deletion) substitution

insert_all : (t : Text) → Script (length t) [] t
insert_all [] = done
insert_all (y ∷ t) = insert (insert_all t)

delete_all : (s : Text) → Script (length s) s []
delete_all [] = done
delete_all (x ∷ s) = delete (delete_all s)

replace :
    {n : ℕ} {s t : Text} (x y : ℕ)
    → Script n s t
    → Script (n + (if x == y then 0 else 1)) (x ∷ s) (y ∷ t)
replace {n} {s} {t} x y h = elim (Bool-cases (x == y)) [
  | inl e ↦ rw e (
      subst (λ z. Script (n + 0) (x ∷ s) (z ∷ t)) ((==_iff x y).0 e)
        (subst (λ m. Script m (x ∷ s) (x ∷ t)) (omega arith) (keep h)))
  | inr e ↦ rw e (subst (λ m. Script m (x ∷ s) (y ∷ t)) (omega arith) (substitute h))
]

-- The least of three is one of them.
min_cases : (a b c : ℕ) → (min (min a b) c ≡ a) ⊎ (min (min a b) c ≡ b) ⊎ (min (min a b) c ≡ c)
min_cases a b c = ground arith

module _ {x y : ℕ} {s t : Text} (i d r : ℕ) where
  pick-Script :
      Script i (x ∷ s) t
      → Script d s (y ∷ t)
      → Script r s t
      → Script (min (min (i + 1) (d + 1)) (r + (if x == y then 0 else 1))) (x ∷ s) (y ∷ t)
  pick-Script hi hd hr = elim (min_cases (i + 1) (d + 1) (r + (if x == y then 0 else 1))) [
    | inl e ↦ rw e (subst (λ n. Script n (x ∷ s) (y ∷ t)) (omega arith) (insert hi))
    | inr (inl e) ↦ rw e (subst (λ n. Script n (x ∷ s) (y ∷ t)) (omega arith) (delete hd))
    | inr (inr e) ↦ rw e (replace x y hr)
  ]

least-Script : (s t : Text) → Script (least s t) s t
least-Script [] t = insert_all t
least-Script (x ∷ s) [] = delete_all (x ∷ s)
least-Script (x ∷ s) (y ∷ t) =
    pick-Script (least (x ∷ s) t) (least s (y ∷ t)) (least s t) (least-Script (x ∷ s) t)
      (least-Script s (y ∷ t)) (least-Script s t)

least-nil : (s : Text) → least s [] ≡ length s
least-nil [] = refl
least-nil (x ∷ s) = refl

least_lowest : {m : ℕ} {s t : Text} → Script m s t → least s t ≤ m
least_lowest done = omega arith
least_lowest (keep {x} {s} {t} h) = ground (arith, least_lowest h)
least_lowest (substitute {x} {y} {s} {t} h) = ground (arith, least_lowest h)
least_lowest (insert {s = []} h) = ground (arith, least_lowest h)
least_lowest (insert {s = x ∷ s} h) = ground (arith, least_lowest h)
least_lowest (delete {s} {t = []} h) = ground (arith, least_lowest h, least-nil s)
least_lowest (delete {t = y ∷ t} h) = ground (arith, least_lowest h)

pub least-IsDistance : (s t : Text) → IsDistance (least s t) s t
least-IsDistance s t = record { script = least-Script s t; lowest = λ m. least_lowest }

Script-append :
    {m n : ℕ} {s t s' t' : Text}
    → Script m s t
    → Script n s' t'
    → Script (m + n) (s ++ s') (t ++ t')
Script-append {n} {s'} {t'} done k = subst (λ i. Script i s' t') (omega arith) k
Script-append (keep h) k = keep (Script-append h k)
Script-append {n} {s'} {t'} (substitute {n = i} {x} {y} {s} {t} h) k =
    subst (λ j. Script j (x ∷ s ++ s') (y ∷ t ++ t')) (omega arith) (substitute (Script-append h k))
Script-append {n} {s'} {t'} (insert {n = i} {y} {s} {t} h) k =
    subst (λ j. Script j (s ++ s') (y ∷ t ++ t')) (omega arith) (insert (Script-append h k))
Script-append {n} {s'} {t'} (delete {n = i} {x} {s} {t} h) k =
    subst (λ j. Script j (x ∷ s ++ s') (t ++ t')) (omega arith) (delete (Script-append h k))

one_more : (n : ℕ) → n + 1 ≡ suc n
one_more n = omega arith

Script-reverse : {n : ℕ} {s t : Text} → Script n s t → Script n (reverse s) (reverse t)
Script-reverse done = done
Script-reverse (keep {n} {x} {s} {t} h) =
    rw (reverse-cons, reverse-cons)
      (subst (λ m. Script m (reverse s ++ x ∷ []) (reverse t ++ x ∷ [])) (omega arith)
        (Script-append (Script-reverse h) (keep done)))
Script-reverse (substitute {n} {x} {y} {s} {t} h) =
    rw (reverse-cons, reverse-cons)
      (subst (λ m. Script m (reverse s ++ x ∷ []) (reverse t ++ y ∷ [])) (one_more n)
        (Script-append (Script-reverse h) (substitute done)))
Script-reverse (insert {n} {y} {s} {t} h) = rw reverse-cons (
    subst (λ m. Script m (reverse s) (reverse t ++ y ∷ [])) (one_more n)
      (subst (λ u. Script (n + 1) u (reverse t ++ y ∷ [])) (append-nil (reverse s))
        (Script-append (Script-reverse h) (insert done))))
Script-reverse (delete {n} {x} {s} {t} h) = rw reverse-cons (
    subst (λ m. Script m (reverse s ++ x ∷ []) (reverse t)) (one_more n)
      (subst (λ u. Script (n + 1) (reverse s ++ x ∷ []) u) (append-nil (reverse t))
        (Script-append (Script-reverse h) (delete done))))

-- Reading both texts backwards does not change their distance.
pub IsDistance-reverse :
    {n : ℕ} {s t : Text} → IsDistance n (reverse s) (reverse t) → IsDistance n s t
IsDistance-reverse {n} {s} {t} d = record {
  script =
      subst (λ u. Script n u t) (reverse-reverse s)
        (subst (λ u. Script n (reverse (reverse s)) u) (reverse-reverse t)
          (Script-reverse d.script));
  lowest = λ m h. d.lowest m (Script-reverse h);
}
