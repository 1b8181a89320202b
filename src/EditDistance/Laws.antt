-- ===== src/EditDistance/Laws.antt =====
-- What `levenshteinDistance` promises.
use aart.Base.{
  ℕ, suc, ◌+◌, ◌≤◌, ◌≡◌, refl, ap, inl, inr, ◌↔◌, true, false, [], ◌∷◌, Text, text_eq,
  text_eq_sound, ◌==◌, length, Bool-cases, arith, reverse, subst,
}
use aart.EditDistance.{levenshtein_distance}
use aart.EditDistance.Spec.{
  Script, done, keep, substitute, insert, delete, IsDistance, IsDistance-reverse, least,
  least-IsDistance,
}
use aart.EditDistance.Rows.{last_cell}

keep_all : (s : Text) → Script 0 s s
keep_all [] = done
keep_all (x ∷ s) = keep (keep_all s)

IsDistance-self : (s : Text) → IsDistance 0 s s
IsDistance-self s = record { script = keep_all s; lowest = λ m h. omega arith }

IsDistance-nil_left : (t : Text) → IsDistance (length t) [] t
IsDistance-nil_left t = least-IsDistance [] t

IsDistance-nil_right : (s : Text) → IsDistance (length s) s []
IsDistance-nil_right [] = least-IsDistance [] []
IsDistance-nil_right (x ∷ s) = least-IsDistance (x ∷ s) []

IsDistance-rows : (a b : Text) → IsDistance (least (reverse a) (reverse b)) a b
IsDistance-rows a b = IsDistance-reverse (least-IsDistance (reverse a) (reverse b))

suc-not_zero : (n : ℕ) → (suc n == 0) ≡ false
suc-not_zero n = ground arith

-- The program's early returns and its table, once the texts are known to differ.
unequal-IsDistance : (a b : Text) → text_eq a b ≡ false → IsDistance (levenshtein_distance a b) a b
unfolding levenshtein_distance
unequal-IsDistance [] b e = rw e (IsDistance-nil_left b)
unequal-IsDistance (x ∷ a) [] e = rw (suc-not_zero (length a)) (IsDistance-nil_right (x ∷ a))
unequal-IsDistance (x ∷ a) (y ∷ b) e =
    rw (e, suc-not_zero (length a), suc-not_zero (length b), last_cell (x ∷ a) (y ∷ b))
      (IsDistance-rows (x ∷ a) (y ∷ b))

equal-IsDistance : (a b : Text) → text_eq a b ≡ true → IsDistance (levenshtein_distance a b) a b
unfolding levenshtein_distance
equal-IsDistance a b e =
    rw e (subst (λ t. IsDistance 0 a t) (text_eq_sound a b e) (IsDistance-self a))

-- The table computes the edit distance: the result is the cost of a script that turns the first
-- text into the second, and no script has a lower cost.
pub levenshtein_distance-IsDistance : (a b : Text) → IsDistance (levenshtein_distance a b) a b
levenshtein_distance-IsDistance a b = elim (Bool-cases (text_eq a b)) [
  | inl e ↦ equal-IsDistance a b e
  | inr e ↦ unequal-IsDistance a b e
]

-- Two scripts in a row make one that costs no more than both.
Script-trans :
    {m n : ℕ} {s t u : Text} → Script m s t → Script n t u → (k : ℕ) × Script k s u × (k ≤ m + n)
Script-trans h (insert k) =
    let (i, script, low) = Script-trans h k in (suc i, insert script, omega arith)
Script-trans (delete h) k =
    let (i, script, low) = Script-trans h k in (suc i, delete script, omega arith)
Script-trans done done = (0, done, omega arith)
Script-trans (keep h) (keep k) =
    let (i, script, low) = Script-trans h k in (i, keep script, omega arith)
Script-trans (keep h) (substitute k) =
    let (i, script, low) = Script-trans h k in (suc i, substitute script, omega arith)
Script-trans (keep h) (delete k) =
    let (i, script, low) = Script-trans h k in (suc i, delete script, omega arith)
Script-trans (substitute h) (keep k) =
    let (i, script, low) = Script-trans h k in (suc i, substitute script, omega arith)
Script-trans (substitute h) (substitute k) =
    let (i, script, low) = Script-trans h k in (suc i, substitute script, omega arith)
Script-trans (substitute h) (delete k) =
    let (i, script, low) = Script-trans h k in (suc i, delete script, omega arith)
Script-trans (insert h) (keep k) =
    let (i, script, low) = Script-trans h k in (suc i, insert script, omega arith)
Script-trans (insert h) (substitute k) =
    let (i, script, low) = Script-trans h k in (suc i, insert script, omega arith)
Script-trans (insert h) (delete k) =
    let (i, script, low) = Script-trans h k in (i, script, omega arith)

Script-sym : {n : ℕ} {s t : Text} → Script n s t → Script n t s
Script-sym done = done
Script-sym (keep h) = keep (Script-sym h)
Script-sym (substitute h) = substitute (Script-sym h)
Script-sym (insert h) = delete (Script-sym h)
Script-sym (delete h) = insert (Script-sym h)

Script-zero : {n : ℕ} {s t : Text} → Script n s t → n ≡ 0 → s ≡ t
Script-zero done e = refl
Script-zero (keep {x} h) e = ap (λ s. x ∷ s) (Script-zero h e)
Script-zero (substitute h) e = absurd (omega arith)
Script-zero (insert h) e = absurd (omega arith)
Script-zero (delete h) e = absurd (omega arith)

-- The distance is a metric: it is 0 exactly for equal texts, it is symmetric, and a detour is never
-- shorter.
pub levenshtein_distance_metric :
    (a b c : Text)
    → ((levenshtein_distance a b ≡ 0) ↔ (a ≡ b))
      × (levenshtein_distance a b ≡ levenshtein_distance b a)
      × (levenshtein_distance a c ≤ levenshtein_distance a b + levenshtein_distance b c)
levenshtein_distance_metric a b c =
    let ab = levenshtein_distance-IsDistance a b in
    let ba = levenshtein_distance-IsDistance b a in
    let bc = levenshtein_distance-IsDistance b c in
    let ac = levenshtein_distance-IsDistance a c in
    let (k, detour, low) = Script-trans ab.script bc.script in
    let there : levenshtein_distance a b ≤ levenshtein_distance b a =
      ab.lowest _ (Script-sym ba.script) in
    let back : levenshtein_distance b a ≤ levenshtein_distance a b =
      ba.lowest _ (Script-sym ab.script) in
    let direct : levenshtein_distance a c ≤ k = ac.lowest k detour in
    ((Script-zero ab.script, λ e. zero_of_eq e), omega arith, omega arith)
  where
    zero_of_eq : a ≡ b → levenshtein_distance a b ≡ 0
    zero_of_eq e = rw (← e) (
        let d = levenshtein_distance-IsDistance a a in
        let low : levenshtein_distance a a ≤ 0 = d.lowest 0 (keep_all a) in omega arith)
