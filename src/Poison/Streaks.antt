-- ===== src/Poison/Streaks.antt =====
-- When a correlation key is flagged.
use aart.Base.{
  ℕ, suc, ◌+◌, ◌-◌, ◌≤◌, ◌<◌, ◌≡◌, refl, ap, sym, ◌∙◌, ◌↔◌, inl, inr, Bool, true, false, not, ◌&&◌,
  Bool-cases, List, [], ◌∷◌, arith, All, Text, length, filter, any, leb, if◌then◌else◌, ltb, leb→le,
  le→leb,
}
use aart.Poison.{
  RunRecord, Trigger, is_failed, starts_before, streak, recent_runs, should_flag_poison,
}
use aart.Poison.Sorting.{
  Sort, IsSort, Untied, Descending, is_counted, runs_for_key-filter, filter-filter, filter-ext,
  any-counts,
}

-- How many runs at the front have failed.
leading : List RunRecord → ℕ
leading [] = 0
leading (r ∷ runs) = let rest = leading runs in if is_failed r.status then suc rest else 0

zero_add : (n : ℕ) → 0 + n ≡ n
zero_add n = omega arith

streak-leading :
    (max c : ℕ) (runs : List RunRecord) → c < max → streak max c runs ≡ leb max (c + leading runs)
unfolding streak leading
streak-leading max c [] l = ground arith
streak-leading max c (r ∷ runs) l = elim (Bool-cases (is_failed r.status)) [
  | inr f ↦ rw f (ground arith)
  | inl f ↦ elim (Bool-cases (leb max (c + 1))) [
    | inl last ↦ rw (f, last) (ground arith)
    | inr more ↦
        let rest = streak-leading max (c + 1) runs (ground arith) in
        let moved : c + 1 + leading runs ≡ c + suc (leading runs) = omega arith in
        rw (f, more) (rest ∙ ap (leb max) moved)
  ]
]

-- A run that has not failed, and started no earlier than another.
abbrev breaks : RunRecord → RunRecord → Bool
breaks r q = not (is_failed q.status) && leb r.started_at q.started_at

-- A failed run later than every run that has not failed.
abbrev pub is_late : List RunRecord → RunRecord → Bool
is_late runs r =
    is_failed r.status
    && not (any (λ q. not (is_failed q.status) && leb r.started_at q.started_at) runs)

any-earlier :
    (r : RunRecord) (runs : List RunRecord)
    → All (λ q. q.started_at < r.started_at) runs
    → any (breaks r) runs ≡ false
any-earlier r [] h = refl
any-earlier r (q ∷ runs) (l, h) = ground (arith, any-earlier r runs h)

none_late :
    (r : RunRecord) (runs rest : List RunRecord)
    → is_failed r.status ≡ false
    → All (λ q. q.started_at < r.started_at) rest
    → length (filter (is_late (r ∷ runs)) rest) ≡ 0
none_late r runs [] f h = refl
none_late r runs (q ∷ rest) f (l, h) =
    let early : leb q.started_at r.started_at ≡ true = ground arith in
    let own : is_late (r ∷ runs) q ≡ false = rw (f, early) (ground arith) in
    rw own (none_late r runs rest f h)

late-leading :
    (runs : List RunRecord) → Descending runs → length (filter (is_late runs) runs) ≡ leading runs
unfolding leading
late-leading [] d = refl
late-leading (r ∷ runs) (below, d) = elim (Bool-cases (is_failed r.status)) [
  | inl f ↦
      let others : filter (is_late (r ∷ runs)) runs ≡ filter (is_late runs) runs =
        filter-ext (is_late (r ∷ runs)) (is_late runs) runs (λ q. rw f refl) in
      let own : is_late (r ∷ runs) r ≡ true = rw (f, any-earlier r runs below) refl in
      rw (own, f) (ap suc (ap length others ∙ late-leading runs d))
  | inr f ↦
      let own : is_late (r ∷ runs) r ≡ false = rw f refl in
      rw (own, f) (none_late r runs runs f below)
]

-- The runs that count: of the workflow, with the trigger's subject, and started in the window.
abbrev pub counted_runs : ℕ → List RunRecord → Text → Trigger → List RunRecord
counted_runs cutoff runs workflow_id trigger =
    filter (λ r. is_counted workflow_id trigger r && leb cutoff r.started_at) runs

module _ (sort : Sort) (sorts : IsSort sort) where
  late-sort :
      (runs : List RunRecord)
      → Untied runs
      → length (filter (is_late runs) runs) ≡ leading (sort starts_before runs)
  late-sort runs u =
      let sorted = sort starts_before runs in
      let same : filter (is_late sorted) sorted ≡ filter (is_late runs) sorted =
        filter-ext (is_late sorted) (is_late runs) sorted (λ r.
          ap (λ b. is_failed r.status && not b)
            (any-counts (breaks r) sorted
              ∙ ap (ltb 0) (sorts.counts starts_before (breaks r) runs)
              ∙ sym (any-counts (breaks r) runs))) in
      sym (sorts.counts starts_before (is_late runs) runs)
      ∙ sym (ap length same)
      ∙ late-leading sorted (sorts.ordered starts_before runs (λ a b. refl) u)

  recent_runs-sort :
      (cutoff : ℕ) (runs : List RunRecord) (workflow_id : Text) (trigger : Trigger)
      → recent_runs sort cutoff runs workflow_id trigger
        ≡ sort starts_before (counted_runs cutoff runs workflow_id trigger)
  recent_runs-sort cutoff runs workflow_id trigger =
      ap (λ rs. sort starts_before (filter (λ r. leb cutoff r.started_at) rs))
        (runs_for_key-filter workflow_id trigger runs)
      ∙ ap (sort starts_before) (filter-filter _ _ runs)

-- A key is flagged exactly if, of the runs that count, at least as many as the limit have failed and
-- started later than every one of them that has not failed. The runs that count are those of the
-- workflow that started in the window and have the trigger's correlation id or, where there is none,
-- its id. The limit is not 0, no two of the runs that count started at the same time, and `sort` is a
-- sort.
pub should_flag_poison_iff :
    (sort : Sort) (sorts : IsSort sort) (max window_ms now : ℕ) (runs : List RunRecord)
    (workflow_id : Text) (trigger : Trigger)
    → 0 < max
    → Untied (counted_runs (now - window_ms) runs workflow_id trigger)
    → (should_flag_poison sort max window_ms now runs workflow_id trigger ≡ true) ↔ (
        max
        ≤ length (
            filter
              (is_late (counted_runs (now - window_ms) runs workflow_id trigger))
              (counted_runs (now - window_ms) runs workflow_id trigger)))
unfolding should_flag_poison
should_flag_poison_iff sort sorts max window_ms now runs workflow_id trigger pos u =
    let counted = counted_runs (now - window_ms) runs workflow_id trigger in
    let answer : streak max 0 (recent_runs sort (now - window_ms) runs workflow_id trigger)
        ≡ leb max (length (filter (is_late counted) counted)) =
      ap (streak max 0) (recent_runs-sort sort sorts (now - window_ms) runs workflow_id trigger)
      ∙ streak-leading max 0 (sort starts_before counted) pos
      ∙ ap (leb max) (zero_add (leading (sort starts_before counted)))
      ∙ ap (leb max) (sym (late-sort sort sorts counted u)) in
    (λ h. leb→le _ _ (sym answer ∙ h), λ l. answer ∙ le→leb _ _ l)
