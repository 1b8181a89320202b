-- ===== src/Queue/Reclaim/Loop.antt =====
-- What the rounds of the sweep's loop do together.
use aart.Base.{
  ℕ, ◌≡◌, refl, ap, sym, subst, ◌∙◌, inl, inr, ◌==◌, ==_self, Bool, not, Bool-cases, Option, none,
  some, List, [], ◌∷◌, ◌++◌, map, append-nil, append_assoc, arith, All, Text, filter, ok, ◌>>=◌,
  lookup, IsKeyed,
}
use aart.Queue.{JobQueueEntry, id_of, get}
use aart.Queue.Reclaim.{Run, run_key, Sweep, sweep_entries}
use aart.Queue.Reclaim.Rounds.{is_over, reclaimed, run_of, Round, sweep_entry-Round}

module _ (message : ℕ → Text) (at : ℕ → ℕ) (max_reclaim_count : ℕ) where
  -- What the loop does, over entries of different runs.
  abbrev pub listed_row : Option JobQueueEntry → Option JobQueueEntry → Option JobQueueEntry
  listed_row none row = row
  listed_row (some e) row = reclaimed message at max_reclaim_count e

  abbrev pub listed_run : Option JobQueueEntry → Option Run → Option Run
  listed_run none run = run
  listed_run (some e) run = run_of message at max_reclaim_count e run

  pub record Rounds (es : List JobQueueEntry) (s s' : Sweep) : Type 0 where
    pub rows : (k : ℕ) → get k s'.queue ≡ listed_row (lookup id_of k es) (get k s.queue)
    pub runs_of :
        (k : ℕ)
        → lookup run_key k s'.runs ≡ listed_run (lookup id_of k es) (lookup run_key k s.runs)
    pub all_requeued :
        s'.requeued
        ≡ s.requeued ++ map id_of (filter (λ d. not (is_over message at max_reclaim_count d)) es)
    pub all_exhausted :
        s'.exhausted ≡ s.exhausted ++ map id_of (filter (is_over message at max_reclaim_count) es)

  map-filter_cons :
      (p : JobQueueEntry → Bool) (e : JobQueueEntry) (es : List JobQueueEntry)
      → map id_of (filter p (e ∷ [])) ++ map id_of (filter p es) ≡ map id_of (filter p (e ∷ es))
  map-filter_cons p e es = elim (Bool-cases (p e)) [ inl h ↦ rw h refl | inr h ↦ rw h refl ]

  -- Entries of other runs are still in the queue after a round.
  still_there :
      (e : JobQueueEntry) (es : List JobQueueEntry) (s s' : Sweep)
      → lookup id_of e.run_id es ≡ none
      → Round message at max_reclaim_count e s s'
      → All (λ d. get d.run_id s.queue ≡ some d) es
      → All (λ d. get d.run_id s'.queue ≡ some d) es
  still_there e [] s s' new r h = tt
  still_there e (d ∷ es) s s' new r (p, h) = elim (Bool-cases (d.run_id == e.run_id)) [
    | inl same ↦ absurd (ground arith)
    | inr other ↦ (
      r.other_rows d.run_id (λ same. ground arith) ∙ p,
      still_there e es s s' (rw other at new) r h,
    )
  ]

  Rounds-cons :
      (e : JobQueueEntry) (es : List JobQueueEntry) (s s' s'' : Sweep)
      → lookup id_of e.run_id es ≡ none
      → Round message at max_reclaim_count e s s'
      → Rounds es s' s''
      → Rounds (e ∷ es) s s''
  Rounds-cons e es s s' s'' new r rs = record {
    rows = λ k. elim (Bool-cases (e.run_id == k)) [
      | inl at_e ↦
          subst (λ j. get j s''.queue ≡ listed_row (lookup id_of j (e ∷ es)) (get j s.queue))
            (ground arith) row_at
      | inr past ↦
          rs.rows k
          ∙ ap (listed_row (lookup id_of k es)) (r.other_rows k (λ same. ground arith))
          ∙ rw past refl
    ];
    runs_of = λ k. elim (Bool-cases (e.run_id == k)) [
      | inl at_e ↦
          subst
            (λ j.
              lookup run_key j s''.runs
              ≡ listed_run (lookup id_of j (e ∷ es)) (lookup run_key j s.runs))
            (ground arith) run_at
      | inr past ↦
          rs.runs_of k
          ∙ ap (listed_run (lookup id_of k es)) (r.other_runs k (λ same. ground arith))
          ∙ rw past refl
    ];
    all_requeued =
        rs.all_requeued
        ∙ ap (λ l. l ++ map id_of (filter (λ d. not (is_over message at max_reclaim_count d)) es))
            r.requeued
        ∙ append_assoc s.requeued _ _
        ∙ ap (λ l. s.requeued ++ l)
            (map-filter_cons (λ d. not (is_over message at max_reclaim_count d)) e es);
    all_exhausted =
        rs.all_exhausted
        ∙ ap (λ l. l ++ map id_of (filter (is_over message at max_reclaim_count) es)) r.exhausted
        ∙ append_assoc s.exhausted _ _
        ∙ ap (λ l. s.exhausted ++ l) (map-filter_cons (is_over message at max_reclaim_count) e es);
  }
    where
      row_at :
          get e.run_id s''.queue
          ≡ listed_row (lookup id_of e.run_id (e ∷ es)) (get e.run_id s.queue)
      row_at =
          rs.rows e.run_id
          ∙ ap (λ o. listed_row o (get e.run_id s'.queue)) new
          ∙ r.row
          ∙ rw (==_self e.run_id) refl

      run_at :
          lookup run_key e.run_id s''.runs
          ≡ listed_run (lookup id_of e.run_id (e ∷ es)) (lookup run_key e.run_id s.runs)
      run_at =
          rs.runs_of e.run_id
          ∙ ap (λ o. listed_run o (lookup run_key e.run_id s'.runs)) new
          ∙ r.run
          ∙ rw (==_self e.run_id) refl

  pub sweep_entries-Rounds :
      (es : List JobQueueEntry) (s : Sweep)
      → IsKeyed id_of es
      → All (λ d. get d.run_id s.queue ≡ some d) es
      → (s' : Sweep) × (sweep_entries message at max_reclaim_count es s ≡ ok s') × Rounds es s s'
  unfolding sweep_entries
  sweep_entries-Rounds [] s u h = (
    s,
    refl,
    record {
      rows = λ k. refl;
      runs_of = λ k. refl;
      all_requeued = sym (append-nil s.requeued);
      all_exhausted = sym (append-nil s.exhausted);
    },
  )
  sweep_entries-Rounds (e ∷ es) s (new, u) (f, h) =
      let (s', one, r) = sweep_entry-Round message at max_reclaim_count e s f in
      let (s'', rest, rs) = sweep_entries-Rounds es s' u (still_there e es s s' new r h) in
      (
        s'',
        ap (λ m. m >>= sweep_entries message at max_reclaim_count es) one ∙ rest,
        Rounds-cons e es s s' s'' new r rs,
      )
