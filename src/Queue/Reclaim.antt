-- ===== src/Queue/Reclaim.antt =====
-- packages/server/src/worker/reclaim.ts
--
-- Of a run's record, the fields that the sweep reads or writes. A run's operational state is its
-- sealed continuation, of which only the presence counts here. The event log and the sweep's own
-- lists grow at the end. The log lines of the logger are left out.
pub mod Rounds
pub mod Loop
pub mod Sweeps
use aart.Base.{
  ℕ, ◌+◌, Bool, not, Option, none, some, List, [], ◌∷◌, ◌++◌, Text, ltb, if◌then◌else◌, filter,
  Result, ok, err, ◌>>=◌, ◌>>◌, lookup, change, discard,
}
use aart.Queue.{
  JobQueueEntry, Queue, QueueError, is_null, list_claimable, increment_reclaim_count, release,
  remove,
}

pub data RunStatus : Type 0 where
  pending running waiting completed failed cancelled : RunStatus

pub data FlagKind : Type 0 where
  reclaim_exhausted poison : FlagKind

pub record RunFlag : Type 0 where
  pub kind : FlagKind
  pub flagged_at : ℕ
  pub cleared_at : Option ℕ

pub record Run : Type 0 where
  pub run_id : ℕ
  pub status : RunStatus
  pub error : Option Text
  pub flag : Option RunFlag
  pub updated_at : ℕ
  pub ended_at : Option ℕ

abbrev pub run_key : Run → ℕ
run_key r = r.run_id

-- The stores that the sweep writes, and its two result lists.
pub record Sweep : Type 0 where
  pub queue : Queue
  pub runs : List Run
  pub operational : List ℕ
  pub failed_events : List ℕ
  pub requeued : List ℕ
  pub exhausted : List ℕ

-- `a ?? b`
abbrev pub or_default : {A : Type 0} → Option A → A → A
or_default none b = b
or_default (some a) b = a

-- `entry.claimedBy !== null`
abbrev pub is_claimed : JobQueueEntry → Bool
is_claimed e = not (is_null e.claimed_by)

-- `message` words the error of a count, and `at` is what the clock reads at a run.
module _ (message : ℕ → Text) (at : ℕ → ℕ) (max_reclaim_count : ℕ) where
  abbrev pub terminal_run : ℕ → Run → Run
  terminal_run new_count run = record run {
    status = failed;
    error = some (or_default run.error (message new_count));
    flag =
        some (record { kind = reclaim_exhausted; flagged_at = at run.run_id; cleared_at = none });
    updated_at = at run.run_id;
    ended_at = some (or_default run.ended_at (at run.run_id));
  }

  -- The transaction for a run whose count is above the limit, the event, and the result list.
  abbrev pub exhaust : ℕ → ℕ → Sweep → Sweep
  exhaust run_id new_count s = elim (lookup run_key run_id s.runs) [
    | none ↦ record s { queue = remove run_id s.queue; exhausted = s.exhausted ++ run_id ∷ [] }
    | some run ↦ record s {
      runs = change run_key run_id (λ r. terminal_run new_count run) s.runs;
      operational = discard (λ k. k) run_id s.operational;
      queue = remove run_id s.queue;
      failed_events = s.failed_events ++ run_id ∷ [];
      exhausted = s.exhausted ++ run_id ∷ [];
    }
  ]

  -- The other branch of the loop.
  abbrev pub requeue : ℕ → Sweep → Sweep
  requeue run_id s = record s {
    queue = release run_id s.queue;
    requeued = s.requeued ++ run_id ∷ [];
  }

  -- One round of the loop.
  pub sweep_entry : JobQueueEntry → Sweep → Result QueueError Sweep
  sweep_entry entry s = do
    counted ← increment_reclaim_count entry.run_id s.queue
    let counted_sweep : Sweep = record s { queue = counted.1 }
    if ltb max_reclaim_count counted.0
        then ok (exhaust entry.run_id counted.0 counted_sweep)
        else ok (requeue entry.run_id counted_sweep)

  pub sweep_entries : List JobQueueEntry → Sweep → Result QueueError Sweep
  sweep_entries [] s = ok s
  sweep_entries (entry ∷ entries) s = sweep_entry entry s >>= sweep_entries entries

  unfoldable pub run_reclaim_sweep :
      ℕ → Queue → List Run → List ℕ → List ℕ → Result QueueError Sweep
  unfolding sweep_entry sweep_entries
  run_reclaim_sweep now queue runs operational failed_events =
      sweep_entries (filter is_claimed (list_claimable now queue)) (record {
        queue = queue;
        runs = runs;
        operational = operational;
        failed_events = failed_events;
        requeued = [];
        exhausted = [];
      })
