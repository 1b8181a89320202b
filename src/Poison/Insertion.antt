-- ===== src/Poison/Insertion.antt =====
-- A sort by insertion, which keeps what `IsSort` asks of `Array.prototype.sort`.
use aart.Base.{
  suc, ◌<◌, ◌≡◌, refl, sym, ◌∙◌, ap, inl, inr, Bool, true, false, Bool-cases, List, [], ◌∷◌, arith,
  All, length, filter, ltb, ◌==◌, if◌then◌else◌,
}
use aart.Poison.{RunRecord}
use aart.Poison.Sorting.{IsSort, Untied, Descending}

module _ (after : RunRecord → RunRecord → Bool) where
  insert : RunRecord → List RunRecord → List RunRecord
  insert x [] = x ∷ []
  insert x (y ∷ runs) = let rest = insert x runs in if after x y then y ∷ rest else x ∷ y ∷ runs

  unfoldable pub sort_runs : List RunRecord → List RunRecord
  unfolding insert
  sort_runs [] = []
  sort_runs (r ∷ runs) = insert r (sort_runs runs)

  insert-counts :
      (p : RunRecord → Bool) (x : RunRecord) (runs : List RunRecord)
      → length (filter p (insert x runs)) ≡ length (filter p (x ∷ runs))
  unfolding insert
  insert-counts p x [] = refl
  insert-counts p x (y ∷ runs) = elim (Bool-cases (after x y)) [
    | inr e ↦ rw e refl
    | inl e ↦
        let rest = insert-counts p x runs in
        elim (Bool-cases (p x)) [
          | inl f ↦ elim (Bool-cases (p y)) [
            | inl g ↦ rw (e, g, f) (ap suc (rw f at rest))
            | inr g ↦ rw (e, g, f) (rw f at rest)
          ]
          | inr f ↦ elim (Bool-cases (p y)) [
            | inl g ↦ rw (e, g, f) (ap suc (rw f at rest))
            | inr g ↦ rw (e, g, f) (rw f at rest)
          ]
        ]
  ]

  sort_runs-counts :
      (p : RunRecord → Bool) (runs : List RunRecord)
      → length (filter p (sort_runs runs)) ≡ length (filter p runs)
  unfolding sort_runs
  sort_runs-counts p [] = refl
  sort_runs-counts p (r ∷ runs) =
      let rest = sort_runs-counts p runs in
      insert-counts p r (sort_runs runs)
      ∙ (elim (Bool-cases (p r)) [ inl e ↦ rw e (ap suc rest) | inr e ↦ rw e rest ])

  All-insert :
      (P : RunRecord → Type 0) (x : RunRecord) (runs : List RunRecord)
      → P x
      → All P runs
      → All P (insert x runs)
  unfolding insert
  All-insert P x [] p h = (p, tt)
  All-insert P x (y ∷ runs) p (q, h) = elim (Bool-cases (after x y)) [
    | inl e ↦ rw e (q, All-insert P x runs p h)
    | inr e ↦ rw e (p, (q, h))
  ]

  All-sort_runs :
      (P : RunRecord → Type 0) (runs : List RunRecord) → All P runs → All P (sort_runs runs)
  unfolding sort_runs
  All-sort_runs P [] h = tt
  All-sort_runs P (r ∷ runs) (p, h) = All-insert P r (sort_runs runs) p (All-sort_runs P runs h)

  module _ (agrees : (a b : RunRecord) → after a b ≡ ltb a.started_at b.started_at) where
    below_trans :
        (x y : RunRecord) (runs : List RunRecord)
        → y.started_at < x.started_at
        → All (λ q. q.started_at < y.started_at) runs
        → All (λ q. q.started_at < x.started_at) runs
    below_trans x y [] l h = tt
    below_trans x y (q ∷ runs) l (k, h) = (omega arith, below_trans x y runs l h)

    insert-Descending :
        (x : RunRecord) (runs : List RunRecord)
        → All (λ q. (x.started_at == q.started_at) ≡ false) runs
        → Descending runs
        → Descending (insert x runs)
    unfolding insert
    insert-Descending x [] u d = (tt, tt)
    insert-Descending x (y ∷ runs) (other, u) (below, d) = elim (Bool-cases (after x y)) [
      | inl e ↦
          let l : ltb x.started_at y.started_at ≡ true = sym (agrees x y) ∙ e in
          rw e (All-insert _ x runs (ground arith) below, insert-Descending x runs u d)
      | inr e ↦
          let l : ltb x.started_at y.started_at ≡ false = sym (agrees x y) ∙ e in
          let later : y.started_at < x.started_at = ground arith in
          rw e ((later, below_trans x y runs later below), (below, d))
    ]

    sort_runs-Descending : (runs : List RunRecord) → Untied runs → Descending (sort_runs runs)
    unfolding sort_runs
    sort_runs-Descending [] u = tt
    sort_runs-Descending (r ∷ runs) (other, u) =
        insert-Descending r (sort_runs runs) (All-sort_runs _ runs other)
          (sort_runs-Descending runs u)

pub sort_runs-IsSort : IsSort sort_runs
sort_runs-IsSort = record {
  counts = sort_runs-counts;
  ordered = λ after runs agrees u. sort_runs-Descending after agrees runs u;
}
