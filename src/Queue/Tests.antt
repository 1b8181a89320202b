-- ===== src/Queue/Tests.antt =====
-- Runs of the queue and the sweep, and the theorems at concrete inputs.
use aart.Base.{
  ℕ, ◌+◌, ◌≤◌, ◌≡◌, refl, ◌⊎◌, true, false, not, none, some, [], ◌∷◌, map, arith, All, filter, Text,
  codes, ok, err, lookup, change, IsKeyed, subst,
}
use aart.Queue.{
  JobQueueEntry, Queue, id_of, get, enqueue, is_claimable, goes_before, list_claimable, claim_row,
  set_claim, release, remove, increment_reclaim_count, confirmed, try_claim_next_run, no_entry,
}
use aart.Queue.Leases.{Other, Others, done, next, enqueues, set_claim-exclusive}
use aart.Queue.Claims.{try_claim_next_run-first}
use aart.Queue.Reclaim.{
  Run, run_key, Sweep, failed, running, is_claimed, reclaim_exhausted, run_reclaim_sweep,
}
use aart.Queue.Reclaim.Rounds.{is_over}
use aart.Queue.Reclaim.Sweeps.{
  is_stale, row_after, run_after, run_reclaim_sweep-all, run_reclaim_sweep-settled,
}

abbrev free : ℕ → ℕ → JobQueueEntry
free r p = record {
  run_id = r;
  claimed_by = none;
  claimed_at = none;
  priority = p;
  lease_expires_at = none;
  reclaim_count = 0;
}

abbrev leased : ℕ → ℕ → ℕ → JobQueueEntry
leased r lease count = record {
  run_id = r;
  claimed_by = some 70;
  claimed_at = some 5;
  priority = 0;
  lease_expires_at = some lease;
  reclaim_count = count;
}

-- A free run of each priority, a stale claim, one more at its limit, and a live claim.
abbrev jobs : Queue
jobs = free 1 0 ∷ free 2 5 ∷ leased 3 90 0 ∷ leased 4 80 3 ∷ leased 5 200 1 ∷ []

listed : map id_of (list_claimable 100 jobs) ≡ 2 ∷ 1 ∷ 3 ∷ 4 ∷ []
unfolding list_claimable
listed = refl

not_there : set_claim 9 70 200 100 jobs ≡ err (no_entry 9)
unfolding set_claim
not_there = refl

abbrev jobs_claimed : Queue
jobs_claimed =
    free 1 0 ∷ claim_row 71 150 100 (free 2 5) ∷ leased 3 90 0 ∷ leased 4 80 3 ∷ leased 5 200 1 ∷ []

claimed : set_claim 2 71 150 100 jobs ≡ ok jobs_claimed
unfolding set_claim
claimed = refl

late : set_claim 2 72 160 120 jobs_claimed ≡ ok jobs_claimed
unfolding set_claim
late = refl

same_queue : enqueue 2 5 jobs_claimed ≡ jobs_claimed
unfolding enqueue
same_queue = refl

between : Others 2 150 jobs_claimed jobs_claimed
between =
    next jobs_claimed jobs_claimed jobs_claimed
      (subst (λ q. Other 2 150 jobs_claimed q) same_queue (enqueues 2 5 jobs_claimed))
      (done jobs_claimed)

set_claim-exclusive_example :
    (confirmed 71 (get 2 jobs_claimed) ≡ true) × (confirmed 72 (get 2 jobs_claimed) ≡ false)
set_claim-exclusive_example =
    set_claim-exclusive 2 71 72 150 160 100 120 jobs jobs_claimed jobs_claimed jobs_claimed
      (free 2 5) refl refl claimed between (omega arith) late (λ h. omega arith)

keyed : IsKeyed id_of jobs
keyed = (refl, (refl, (refl, (refl, (refl, tt)))))

try_claim_next_run-first_example :
    ((try_claim_next_run 71 100 50 101 jobs ≡ ok (jobs, none))
      × All (λ d. is_claimable 100 d ≡ true → ⊥) jobs)
    ⊎ ((e : JobQueueEntry) × ((get e.run_id jobs ≡ some e) × (is_claimable 100 e ≡ true))
        × All (λ d. is_claimable 100 d ≡ true → (d ≡ e) ⊎ (goes_before e d ≡ true)) jobs
        × (try_claim_next_run 71 100 50 101 jobs
            ≡ ok (
              change id_of e.run_id (claim_row 71 (100 + 50) 101) jobs,
              some (claim_row 71 (100 + 50) 101 e),
            )))
try_claim_next_run-first_example = try_claim_next_run-first 71 100 50 101 jobs keyed (omega arith)

message : ℕ → Text
message n = codes "reclaim exhausted"

abbrev clock : ℕ → ℕ
clock k = 101

abbrev run_4 : Run
run_4 = record {
  run_id = 4;
  status = running;
  error = none;
  flag = none;
  updated_at = 5;
  ended_at = none;
}

abbrev jobs_after : Queue
jobs_after = free 1 0 ∷ free 2 5 ∷ record (free 3 0) { reclaim_count = 1 } ∷ leased 5 200 1 ∷ []

abbrev swept : Sweep
swept = record {
  queue = jobs_after;
  runs =
      record run_4 {
        status = failed;
        error = some (message 4);
        flag = some (record { kind = reclaim_exhausted; flagged_at = 101; cleared_at = none });
        updated_at = 101;
        ended_at = some 101;
      }
      ∷ [];
  operational = [];
  failed_events = 4 ∷ [];
  requeued = 3 ∷ [];
  exhausted = 4 ∷ [];
}

run_of_sweep : run_reclaim_sweep message clock 3 100 jobs (run_4 ∷ []) (4 ∷ []) [] ≡ ok swept
unfolding run_reclaim_sweep list_claimable increment_reclaim_count release remove
run_of_sweep = refl

run_reclaim_sweep-all_example :
    (s : Sweep) × (run_reclaim_sweep message clock 3 100 jobs (run_4 ∷ []) (4 ∷ []) [] ≡ ok s)
    × ((k : ℕ) → get k s.queue ≡ row_after message clock 3 100 (get k jobs))
    × ((k : ℕ)
        → lookup run_key k s.runs
          ≡ run_after message clock 3 100 (get k jobs) (lookup run_key k (run_4 ∷ [])))
    × (s.requeued
        ≡ map id_of (
            filter
              (λ e. not (is_over message clock 3 e))
              (filter is_claimed (list_claimable 100 jobs))))
    × (s.exhausted
        ≡ map id_of
            (filter (is_over message clock 3) (filter is_claimed (list_claimable 100 jobs))))
run_reclaim_sweep-all_example =
    run_reclaim_sweep-all message clock 3 100 jobs (run_4 ∷ []) (4 ∷ []) [] keyed

low : (j : ℕ) (d : JobQueueEntry) → get j jobs ≡ some d → d.reclaim_count ≤ 3
low j d h = ground arith

run_reclaim_sweep-settled_example :
    (is_stale 100 (record (free 3 0) { reclaim_count = 1 }) ≡ false) × (1 ≤ 3)
run_reclaim_sweep-settled_example =
    run_reclaim_sweep-settled message clock 3 100 jobs (run_4 ∷ []) (4 ∷ []) [] swept 3
      (record (free 3 0) { reclaim_count = 1 }) keyed low run_of_sweep refl
