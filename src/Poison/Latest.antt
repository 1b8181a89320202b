-- ===== src/Poison/Latest.antt =====
-- Whether a key is flagged: the flag of its latest run
use aart.Base.{
  ◌<◌, ◌≡◌, refl, ap, sym, ◌∙◌, inl, inr, Bool, true, false, not, ◌&&◌, ◌||◌, Option, Option-cases,
  none, some, List, [], ◌∷◌, arith, All, Text, filter, any, ltb,
}
use aart.Queue.Reclaim.{RunFlag, FlagKind, poison, reclaim_exhausted}
use aart.Poison.{
  RunRecord, Trigger, starts_before, unresolved_poison, flag_of_first, is_poison_flagged,
}
use aart.Poison.Sorting.{
  Sort, IsSort, Untied, Descending, is_counted, runs_for_key-filter, any-counts,
}

-- A run that none of the runs is later than.
abbrev pub is_latest : List RunRecord → RunRecord → Bool
is_latest runs r = not (any (λ q. ltb r.started_at q.started_at) runs)

any-later :
    (r : RunRecord) (runs : List RunRecord)
    → All (λ q. q.started_at < r.started_at) runs
    → any (λ q. ltb r.started_at q.started_at) runs ≡ false
any-later r [] h = refl
any-later r (q ∷ runs) (l, h) = ground (arith, any-later r runs h)

-- No later run than the first of them.
first-latest :
    (r : RunRecord) (runs : List RunRecord) → Descending (r ∷ runs) → is_latest (r ∷ runs) r ≡ true
first-latest r runs (below, d) =
    let own : ltb r.started_at r.started_at ≡ false = ground arith in
    rw (own, any-later r runs below) refl

same_any :
    (sort : Sort) (sorts : IsSort sort) (p : RunRecord → Bool) (runs : List RunRecord)
    → any p (sort starts_before runs) ≡ any p runs
same_any sort sorts p runs =
    any-counts p (sort starts_before runs)
    ∙ ap (ltb 0) (sorts.counts starts_before p runs)
    ∙ sym (any-counts p runs)

any-ext :
    (p q : RunRecord → Bool) (runs : List RunRecord)
    → ((r : RunRecord) → p r ≡ q r)
    → any p runs ≡ any q runs
any-ext p q [] h = refl
any-ext p q (r ∷ runs) h = rw (h r, any-ext p q runs h) refl

-- A run with a poison flag that is not cleared.
abbrev pub is_poisoned : RunRecord → Bool
is_poisoned r = elim r.flag [
  | none ↦ false
  | some flag ↦ elim flag.kind [
    | reclaim_exhausted ↦ false
    | poison ↦ elim flag.cleared_at [ none ↦ true | some t ↦ false ]
  ]
]

abbrev pub is_some : {A : Type 0} → Option A → Bool
is_some none = false
is_some (some x) = true

is_some-unresolved : (r : RunRecord) → is_some (unresolved_poison r.flag) ≡ is_poisoned r
is_some-unresolved r = elim (Option-cases r.flag) [
  | inl e ↦ rw e refl
  | inr (flag, e) ↦ rw e (by_kind flag flag.kind refl)
]
  where
    by_kind :
        (flag : RunFlag) (k : FlagKind)
        → flag.kind ≡ k
        → is_some (unresolved_poison (some flag)) ≡ elim flag.kind [
          | reclaim_exhausted ↦ false
          | poison ↦ elim flag.cleared_at [ none ↦ true | some t ↦ false ]
        ]
    by_kind flag reclaim_exhausted e = rw e refl
    by_kind flag poison e = elim (Option-cases flag.cleared_at) [
      | inl f ↦ rw (e, f) refl
      | inr (t, f) ↦ rw (e, f) refl
    ]

any_none :
    (p : RunRecord → Bool) (r : RunRecord) (runs rest : List RunRecord)
    → All (λ q. q.started_at < r.started_at) rest
    → any (λ q. is_latest (r ∷ runs) q && p q) rest ≡ false
any_none p r runs [] h = refl
any_none p r runs (q ∷ rest) (l, h) =
    let later : ltb q.started_at r.started_at ≡ true = ground arith in
    rw (later, any_none p r runs rest h) refl

-- Among runs in order, the first is the latest.
flag-any :
    (runs : List RunRecord)
    → Descending runs
    → is_some (flag_of_first runs) ≡ any (λ q. is_latest runs q && is_poisoned q) runs
flag-any [] d = refl
flag-any (r ∷ runs) (below, d) =
    is_some-unresolved r
    ∙ (rw (first-latest r runs (below, d), any_none is_poisoned r runs runs below)
        (or_false (is_poisoned r)))
  where
    or_false : (b : Bool) → b ≡ (b || false)
    or_false true = refl
    or_false false = refl

-- A key is flagged exactly if one of its runs, than which none of its runs started later, has a poison
-- flag that is not cleared. Its runs are those of the workflow that have the trigger's correlation id
-- or, where there is none, its id; no two of them started at the same time, and `sort` is a sort.
pub is_poison_flagged-latest :
    (sort : Sort) (sorts : IsSort sort) (runs : List RunRecord) (workflow_id : Text)
    (trigger : Trigger)
    → Untied (filter (is_counted workflow_id trigger) runs)
    → is_some (is_poison_flagged sort runs workflow_id trigger)
      ≡ any
          (λ r. is_latest (filter (is_counted workflow_id trigger) runs) r && is_poisoned r)
          (filter (is_counted workflow_id trigger) runs)
unfolding is_poison_flagged
is_poison_flagged-latest sort sorts runs workflow_id trigger u =
    let counted = filter (is_counted workflow_id trigger) runs in
    let sorted = sort starts_before counted in
    ap (λ rs. is_some (flag_of_first (sort starts_before rs)))
      (runs_for_key-filter workflow_id trigger runs)
    ∙ flag-any sorted (sorts.ordered starts_before counted (λ a b. refl) u)
    ∙ any-ext (λ q. is_latest sorted q && is_poisoned q) (λ q. is_latest counted q && is_poisoned q)
        sorted
        (λ q.
          ap (λ b. not b && is_poisoned q)
            (same_any sort sorts (λ p. ltb q.started_at p.started_at) counted))
    ∙ same_any sort sorts (λ q. is_latest counted q && is_poisoned q) counted
