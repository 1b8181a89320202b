-- ===== src/Wait/Taint/Growth.antt =====
-- Merging the taint of packages/engine/src/redaction.ts only adds marks.
use aart.Base.{
  ◌≡◌, refl, ap, sym, subst, inl, inr, Bool, true, false, not, ◌&&◌, ◌||◌, Option, some, List, [],
  ◌∷◌, ◌++◌, map, Text, text_eq, text_eq_sound, any, if◌then◌else◌, Bool-cases, arith, All, Member,
  Member-append_left, Member-append_right,
}
use aart.Wait.{StepTrace, RunRecord}
use aart.Wait.Taint.{
  insert_new, or_empty, none_if_empty, merge_string_sets, trace_by_seq, first_of, merge_trace,
  merge_trace_with, merge_operational_run_taint,
}

pub any_member : (x : Text) (set : List Text) → any (text_eq x) set ≡ true → Member x set
any_member x [] h = cc
any_member x (y ∷ set) h = elim (Bool-cases (text_eq x y)) [
  | inl e ↦ inl (text_eq_sound x y e)
  | inr e ↦ inr (any_member x set (rw e at h))
]

pub insert_new_kept : (p : Text) (set xs : List Text) → Member p set → Member p (insert_new set xs)
insert_new_kept p set [] m = m
insert_new_kept p set (x ∷ xs) m = elim (Bool-cases (any (text_eq x) set)) [
  | inl e ↦ rw e (insert_new_kept p set xs m)
  | inr e ↦ rw e (insert_new_kept p (set ++ x ∷ []) xs (Member-append_left p set (x ∷ []) m))
]

pub insert_new_added : (p : Text) (set xs : List Text) → Member p xs → Member p (insert_new set xs)
insert_new_added p set [] m = absurd m
insert_new_added p set (x ∷ xs) (inr m) =
    insert_new_added p (if any (text_eq x) set then set else set ++ x ∷ []) xs m
insert_new_added p set (x ∷ xs) (inl same) = elim (Bool-cases (any (text_eq x) set)) [
  | inl e ↦
      rw e (insert_new_kept p set xs (subst (λ y. Member y set) (sym same) (any_member x set e)))
  | inr e ↦
      rw e (insert_new_kept p (set ++ x ∷ []) xs (Member-append_right p set (x ∷ []) (inl same)))
]

first_of_member :
    (p : Text) (ms : List Text) (o : Option (List Text))
    → Member p ms
    → Member p (or_empty (first_of (none_if_empty ms) o))
first_of_member p [] o m = absurd m
first_of_member p (x ∷ ms) o m = m

-- The paths of the second are among those of the first.
abbrev pub HasPaths : Option (List Text) → Option (List Text) → Type 0
HasPaths more paths = All (λ p. Member p (or_empty more)) (or_empty paths)

All-members : (P : Text → Type 0) (xs : List Text) → ((p : Text) → Member p xs → P p) → All P xs
All-members P [] f = tt
All-members P (x ∷ xs) f = (f x (inl refl), All-members P xs (λ p m. f p (inr m)))

-- One trace's marks are among those of another.
abbrev pub HasMarks : StepTrace → StepTrace → Type 0
HasMarks more t =
    ((t.secret_tainted && not more.secret_tainted) ≡ false)
    × (((t.control_secret_tainted && not more.control_secret_tainted) ≡ false)
        × HasPaths more.secret_tainted_paths t.secret_tainted_paths)

-- Two traces of one entry, which differ in marks alone.
abbrev pub IsSameEntry : StepTrace → StepTrace → Type 0
IsSameEntry t u =
    (t.seq ≡ u.seq)
    × ((t.step_id ≡ u.step_id)
        × ((t.status ≡ u.status)
            × ((t.inputs ≡ u.inputs) × ((t.outputs ≡ u.outputs) × (t.error ≡ u.error)))))

merge_trace-marks : (t a : StepTrace) → HasMarks (merge_trace t a) t × HasMarks (merge_trace t a) a
unfolding merge_string_sets
merge_trace-marks t a =
    let l = or_empty t.secret_tainted_paths in
    let r = or_empty a.secret_tainted_paths in
    (
      (
        or_left t.secret_tainted a.secret_tainted,
        (
          or_left t.control_secret_tainted a.control_secret_tainted,
          All-members _ l (λ p m.
              first_of_member p (insert_new [] (l ++ r)) t.secret_tainted_paths
                (insert_new_added p [] (l ++ r) (Member-append_left p l r m))),
        ),
      ),
      (
        or_right t.secret_tainted a.secret_tainted,
        (
          or_right t.control_secret_tainted a.control_secret_tainted,
          All-members _ r (λ p m.
              first_of_member p (insert_new [] (l ++ r)) t.secret_tainted_paths
                (insert_new_added p [] (l ++ r) (Member-append_right p l r m))),
        ),
      ),
    )
  where
    or_left : (x y : Bool) → (x && not (x || y)) ≡ false
    or_left x y = ground arith

    or_right : (x y : Bool) → (y && not (x || y)) ≡ false
    or_right x y = ground arith

Member-map_of :
    (f : StepTrace → StepTrace) (t : StepTrace) (ts : List StepTrace)
    → Member t ts
    → Member (f t) (map f ts)
Member-map_of f t [] m = absurd m
Member-map_of f t (x ∷ ts) (inl e) = inl (ap f e)
Member-map_of f t (x ∷ ts) (inr m) = inr (Member-map_of f t ts m)

-- An entry of the operational trace that the repaired audit has, by its number, is in the merged run with
-- the same step, status, inputs, outputs and error, and with every mark of either.
pub merge_operational_run_taint-marks :
    (operational repaired_audit : RunRecord) (t a : StepTrace)
    → Member t operational.trace
    → trace_by_seq t.seq repaired_audit.trace ≡ some a
    → (u : StepTrace) × (Member u (merge_operational_run_taint operational repaired_audit).trace
        × (IsSameEntry t u × (HasMarks u t × HasMarks u a)))
unfolding merge_operational_run_taint
merge_operational_run_taint-marks operational audit t a m e =
    let found =
      Member-map_of (λ v. merge_trace_with (trace_by_seq v.seq audit.trace) v) t operational.trace
        m in
    let (old, new) = merge_trace-marks t a in
    (
      merge_trace t a,
      (
        subst
            (λ o.
              Member (merge_trace_with o t)
                (map (λ v. merge_trace_with (trace_by_seq v.seq audit.trace) v) operational.trace))
            e found,
        ((refl, (refl, (refl, (refl, (refl, refl))))), (old, new)),
      ),
    )
