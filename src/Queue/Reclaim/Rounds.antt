-- ===== src/Queue/Reclaim/Rounds.antt =====
-- What a round of the sweep's loop does.
use aart.Base.{
  ℕ, ◌+◌, ◌≡◌, refl, ap, sym, ◌∙◌, ◌≢◌, inl, inr, Bool, true, false, not, Bool-cases, if◌then◌else◌,
  Option, none, some, Option-cases, [], ◌∷◌, ◌++◌, map, append-nil, Text, ltb, filter, ok, lookup,
  change, discard, map_option, lookup-change_same, lookup-change_other, lookup-discard_same,
  lookup-discard_other, lookup-key, lookup-replace_same, lookup-replace_other,
}
use aart.Queue.{
  JobQueueEntry, Queue, id_of, get, require, count_row, release_row, increment_reclaim_count,
  release, remove,
}
use aart.Queue.Reclaim.{Run, run_key, Sweep, terminal_run, exhaust, requeue, sweep_entry}

module _ (message : ℕ → Text) (at : ℕ → ℕ) (max_reclaim_count : ℕ) where
  -- One more reclaim is above the limit.
  abbrev pub is_over : JobQueueEntry → Bool
  is_over e = ltb max_reclaim_count (e.reclaim_count + 1)

  -- A stale row after the sweep: gone, or unclaimed with one more reclaim on its count.
  abbrev pub reclaimed : JobQueueEntry → Option JobQueueEntry
  reclaimed e = if is_over e then none else some (release_row (count_row (e.reclaim_count + 1) e))

  -- The run of a stale row after the sweep: failed and flagged, if the row is gone.
  abbrev pub run_of : JobQueueEntry → Option Run → Option Run
  run_of e run =
      if is_over e
      then map_option (terminal_run message at max_reclaim_count (e.reclaim_count + 1)) run
      else run

  -- What one round does.
  pub record Round (e : JobQueueEntry) (s s' : Sweep) : Type 0 where
    pub row : get e.run_id s'.queue ≡ reclaimed e
    pub other_rows : (k : ℕ) → k ≢ e.run_id → get k s'.queue ≡ get k s.queue
    pub run : lookup run_key e.run_id s'.runs ≡ run_of e (lookup run_key e.run_id s.runs)
    pub other_runs : (k : ℕ) → k ≢ e.run_id → lookup run_key k s'.runs ≡ lookup run_key k s.runs
    pub requeued : s'.requeued ≡ s.requeued ++ map id_of (filter (λ d. not (is_over d)) (e ∷ []))
    pub exhausted : s'.exhausted ≡ s.exhausted ++ map id_of (filter is_over (e ∷ []))

  module _ (e : JobQueueEntry) (s : Sweep) where
    counted : Sweep
    counted = record s { queue = change id_of e.run_id (count_row (e.reclaim_count + 1)) s.queue }

    sweep_entry-eq :
        get e.run_id s.queue ≡ some e
        → sweep_entry message at max_reclaim_count e s
          ≡ ok (
              if is_over e
              then exhaust message at max_reclaim_count e.run_id (e.reclaim_count + 1) counted
              else requeue message at max_reclaim_count e.run_id counted)
    unfolding sweep_entry increment_reclaim_count counted
    sweep_entry-eq f =
        rw (f, require) (elim (Bool-cases (is_over e)) [ inl o ↦ rw o refl | inr o ↦ rw o refl ])

    -- A run that is kept out of the store is not put there.
    exhaust-Round :
        is_over e ≡ true
        → Round e s (exhaust message at max_reclaim_count e.run_id (e.reclaim_count + 1) counted)
    unfolding counted remove
    exhaust-Round o =
        let gone : (q : Queue) → lookup id_of e.run_id (discard id_of e.run_id q) ≡ reclaimed e =
          λ q. rw o (lookup-discard_same id_of e.run_id q) in
        let others : (k : ℕ)
            → k ≢ e.run_id
            → get k (
                discard id_of e.run_id
                  (change id_of e.run_id (count_row (e.reclaim_count + 1)) s.queue))
              ≡ get k s.queue =
          λ k n.
            lookup-discard_other id_of k e.run_id _ n
            ∙ lookup-change_other id_of (count_row (e.reclaim_count + 1)) (λ d. refl) e.run_id k
                s.queue n in
        elim (Option-cases (lookup run_key e.run_id s.runs)) [
          | inl f ↦
              rw (f, exhaust)
                record {
                  row = gone _;
                  other_rows = others;
                  run = rw (o, f) refl;
                  other_runs = λ k n. refl;
                  requeued = rw o (sym (append-nil s.requeued));
                  exhausted = rw o refl;
                }
          | inr (r, f) ↦
              let id : run_key r ≡ e.run_id = lookup-key run_key e.run_id s.runs r f in
              let written = terminal_run message at max_reclaim_count (e.reclaim_count + 1) r in
              rw (f, exhaust)
                record {
                  row = gone _;
                  other_rows = others;
                  run = lookup-replace_same run_key written e.run_id id s.runs ∙ rw (f, o) refl;
                  other_runs = λ k n. lookup-replace_other run_key written e.run_id id k s.runs n;
                  requeued = rw o (sym (append-nil s.requeued));
                  exhausted = rw o refl;
                }
        ]

    requeue-Round :
        is_over e ≡ false
        → get e.run_id s.queue ≡ some e
        → Round e s (requeue message at max_reclaim_count e.run_id counted)
    unfolding counted release
    requeue-Round o f =
        let count = count_row (e.reclaim_count + 1) in
        let counted_queue = change id_of e.run_id count s.queue in
        record {
          row =
              lookup-change_same id_of release_row (λ d. refl) e.run_id counted_queue
              ∙ ap (map_option release_row) (
                  lookup-change_same id_of count (λ d. refl) e.run_id s.queue
                  ∙ ap (map_option count) f)
              ∙ rw o refl;
          other_rows = λ k n.
              lookup-change_other id_of release_row (λ d. refl) e.run_id k counted_queue n
              ∙ lookup-change_other id_of count (λ d. refl) e.run_id k s.queue n;
          run = rw o refl;
          other_runs = λ k n. refl;
          requeued = rw o refl;
          exhausted = rw o (sym (append-nil s.exhausted));
        }

    pub sweep_entry-Round :
        get e.run_id s.queue ≡ some e
        → (s' : Sweep) × (sweep_entry message at max_reclaim_count e s ≡ ok s') × Round e s s'
    sweep_entry-Round f = elim (Bool-cases (is_over e)) [
      | inl o ↦ (_, sweep_entry-eq f ∙ rw o refl, exhaust-Round o)
      | inr o ↦ (_, sweep_entry-eq f ∙ rw o refl, requeue-Round o f)
    ]
