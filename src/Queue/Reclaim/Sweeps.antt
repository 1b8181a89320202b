-- ===== src/Queue/Reclaim/Sweeps.antt =====
-- What one sweep does to every row of the queue and to every run.
use aart.Base.{
  ℕ, ◌+◌, ◌≤◌, ◌≡◌, refl, ap, sym, subst, ◌∙◌, inl, inr, ◌==◌, ==_self, Bool, false, not, ◌&&◌,
  Bool-cases, if◌then◌else◌, Option, none, some, some_inj, none-ne-some, List, [], ◌∷◌, map, arith,
  All, Text, ltb, filter, ok, ok_inj, lookup, keep_if, IsKeyed, filter-IsKeyed, lookup-filter,
}
use aart.Queue.{JobQueueEntry, Queue, id_of, get, is_claimable, list_claimable}
use aart.Queue.Reclaim.{Run, run_key, Sweep, is_claimed, run_reclaim_sweep}
use aart.Queue.Reclaim.Rounds.{is_over, reclaimed, run_of}
use aart.Queue.Reclaim.Loop.{listed_row, listed_run, sweep_entries-Rounds}
use aart.Queue.Listing.{lookup-list_claimable, list_claimable-IsKeyed}

-- The entry is claimed, and its lease has ended.
abbrev pub is_stale : ℕ → JobQueueEntry → Bool
is_stale now e = is_claimed e && is_claimable now e

-- Rows that a table finds are rows of any table that finds the same.
found-All :
    (es : List JobQueueEntry) (q : Queue)
    → IsKeyed id_of es
    → ((k : ℕ) (d : JobQueueEntry) → lookup id_of k es ≡ some d → get k q ≡ some d)
    → All (λ d. get d.run_id q ≡ some d) es
found-All [] q u f = tt
found-All (e ∷ es) q (new, u) f = (
  f e.run_id e (rw (==_self e.run_id) refl),
  found-All es q u (λ k d h. elim (Bool-cases (e.run_id == k)) [
    | inl at_e ↦
        let same : e.run_id ≡ k = ground arith in
        absurd (none-ne-some (sym (subst (λ j. lookup id_of j es ≡ none) same new) ∙ h))
    | inr past ↦ f k d (rw past h)
  ]),
)

keep_stale : (now : ℕ) → Option JobQueueEntry → Option JobQueueEntry
keep_stale now o = keep_if is_claimed (keep_if (is_claimable now) o)

keep_stale-some :
    (now : ℕ) (o : Option JobQueueEntry) (d : JobQueueEntry)
    → keep_stale now o ≡ some d
    → o ≡ some d
unfolding keep_stale
keep_stale-some now none d h = absurd (none-ne-some h)
keep_stale-some now (some e) d h = elim (Bool-cases (is_claimable now e)) [
  | inl c ↦ elim (Bool-cases (is_claimed e)) [
    | inl b ↦ ap some (some_inj (rw (c, b) at h))
    | inr b ↦ absurd (none-ne-some (rw (c, b) at h))
  ]
  | inr c ↦ absurd (none-ne-some (rw c at h))
]

-- The entries that the loop goes over.
lookup-stale :
    (now k : ℕ) (q : Queue)
    → IsKeyed id_of q
    → lookup id_of k (filter is_claimed (list_claimable now q)) ≡ keep_stale now (get k q)
unfolding keep_stale
lookup-stale now k q u =
    lookup-filter id_of is_claimed k (list_claimable now q) (list_claimable-IsKeyed now q u)
    ∙ ap (keep_if is_claimed) (lookup-list_claimable now k q u)

module _ (message : ℕ → Text) (at : ℕ → ℕ) (max_reclaim_count : ℕ) where
  -- A row after the sweep: a stale one is gone if one more reclaim is above the limit, and else
  -- unclaimed with that reclaim on its count; any other is as it was.
  abbrev pub row_after : ℕ → Option JobQueueEntry → Option JobQueueEntry
  row_after now none = none
  row_after now (some e) =
      if is_stale now e then reclaimed message at max_reclaim_count e else some e

  -- A run after the sweep: failed and flagged, if its row was stale and is gone.
  abbrev pub run_after : ℕ → Option JobQueueEntry → Option Run → Option Run
  run_after now none run = run
  run_after now (some e) run =
      if is_stale now e then run_of message at max_reclaim_count e run else run

  listed-row_after :
      (now : ℕ) (o : Option JobQueueEntry)
      → listed_row message at max_reclaim_count (keep_stale now o) o ≡ row_after now o
  unfolding keep_stale
  listed-row_after now none = refl
  listed-row_after now (some e) = elim (Bool-cases (is_claimable now e)) [
    | inl c ↦ elim (Bool-cases (is_claimed e)) [ inl b ↦ rw (c, b) refl | inr b ↦ rw (c, b) refl ]
    | inr c ↦ elim (Bool-cases (is_claimed e)) [ inl b ↦ rw (c, b) refl | inr b ↦ rw (c, b) refl ]
  ]

  listed-run_after :
      (now : ℕ) (o : Option JobQueueEntry) (run : Option Run)
      → listed_run message at max_reclaim_count (keep_stale now o) run ≡ run_after now o run
  unfolding keep_stale
  listed-run_after now none run = refl
  listed-run_after now (some e) run = elim (Bool-cases (is_claimable now e)) [
    | inl c ↦ elim (Bool-cases (is_claimed e)) [ inl b ↦ rw (c, b) refl | inr b ↦ rw (c, b) refl ]
    | inr c ↦ elim (Bool-cases (is_claimed e)) [ inl b ↦ rw (c, b) refl | inr b ↦ rw (c, b) refl ]
  ]

-- A sweep throws nothing, and does this to every run: a row whose lease has ended is unclaimed with
-- one more reclaim on its count, or, if that is above the limit, it is removed, and the run's record,
-- where there is one, is failed and flagged as exhausted; every other row and record stays. It reports
-- the runs it requeued and the runs it exhausted, each in the order of the queue. No two rows have the same run.
pub run_reclaim_sweep-all :
    (message : ℕ → Text) (at : ℕ → ℕ) (max_reclaim_count now : ℕ) (queue : Queue) (runs : List Run)
    (operational failed_events : List ℕ)
    → IsKeyed id_of queue
    → (s : Sweep) × (run_reclaim_sweep message at max_reclaim_count now queue runs operational
          failed_events
        ≡ ok s)
      × ((k : ℕ) → get k s.queue ≡ row_after message at max_reclaim_count now (get k queue))
      × ((k : ℕ)
          → lookup run_key k s.runs
            ≡ run_after message at max_reclaim_count now (get k queue) (lookup run_key k runs))
      × (s.requeued
          ≡ map id_of (
              filter
                (λ e. not (is_over message at max_reclaim_count e))
                (filter is_claimed (list_claimable now queue))))
      × (s.exhausted
          ≡ map id_of (
              filter
                (is_over message at max_reclaim_count)
                (filter is_claimed (list_claimable now queue))))
unfolding run_reclaim_sweep
run_reclaim_sweep-all message at limit now queue runs operational events u =
    let es = filter is_claimed (list_claimable now queue) in
    let keyed = filter-IsKeyed id_of is_claimed _ (list_claimable-IsKeyed now queue u) in
    let (s, run, r) = sweep_entries-Rounds message at limit es _ keyed (
      found-All es queue keyed
        (λ k d h. keep_stale-some now (get k queue) d (sym (lookup-stale now k queue u) ∙ h))) in
    (
      s,
      run,
      (λ k.
          r.rows k
          ∙ ap (λ o. listed_row message at limit o (get k queue)) (lookup-stale now k queue u)
          ∙ listed-row_after message at limit now (get k queue)),
      (λ k.
          r.runs_of k
          ∙ ap (λ o. listed_run message at limit o (lookup run_key k runs))
              (lookup-stale now k queue u)
          ∙ listed-run_after message at limit now (get k queue) (lookup run_key k runs)),
      r.all_requeued,
      r.all_exhausted,
    )

row_after-settled :
    (message : ℕ → Text) (at : ℕ → ℕ) (limit now : ℕ) (o : Option JobQueueEntry) (e : JobQueueEntry)
    → ((d : JobQueueEntry) → o ≡ some d → d.reclaim_count ≤ limit)
    → row_after message at limit now o ≡ some e
    → (is_stale now e ≡ false) × (e.reclaim_count ≤ limit)
row_after-settled message at limit now none e low h = absurd (none-ne-some h)
row_after-settled message at limit now (some d) e low h = elim (Bool-cases (is_stale now d)) [
  | inl b ↦ elim (Bool-cases (ltb limit (d.reclaim_count + 1))) [
    | inl over ↦ absurd (none-ne-some (rw (b, over) at h))
    | inr under ↦
        subst (λ c. (is_stale now c ≡ false) × (c.reclaim_count ≤ limit))
          (some_inj (rw (b, under) at h)) (refl, ground arith)
  ]
  | inr b ↦
      subst (λ c. (is_stale now c ≡ false) × (c.reclaim_count ≤ limit)) (some_inj (rw b at h))
        (b, low d refl)
]

-- After a sweep no row is both claimed and past its lease, and no count of reclaims is above the
-- limit, if none was before. No two rows have the same run.
pub run_reclaim_sweep-settled :
    (message : ℕ → Text) (at : ℕ → ℕ) (max_reclaim_count now : ℕ) (queue : Queue) (runs : List Run)
    (operational failed_events : List ℕ) (s : Sweep) (k : ℕ) (e : JobQueueEntry)
    → IsKeyed id_of queue
    → ((j : ℕ) (d : JobQueueEntry) → get j queue ≡ some d → d.reclaim_count ≤ max_reclaim_count)
    → run_reclaim_sweep message at max_reclaim_count now queue runs operational failed_events ≡ ok s
    → get k s.queue ≡ some e
    → (is_stale now e ≡ false) × (e.reclaim_count ≤ max_reclaim_count)
run_reclaim_sweep-settled message at limit now queue runs operational events s k e u low run f =
    let (s', run', rows, runs', requeued, exhausted) =
      run_reclaim_sweep-all message at limit now queue runs operational events u in
    let same : s' ≡ s = ok_inj (sym run' ∙ run) in
    row_after-settled message at limit now (get k queue) e (low k)
      (sym (rows k) ∙ ap (λ t. get k t.queue) same ∙ f)
