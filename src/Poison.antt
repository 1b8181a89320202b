-- ===== src/Poison.antt =====
-- packages/server/src/poison.ts
--
-- A time is its number of milliseconds, which orders ISO strings. `sort` is `Array.prototype.sort`
-- with a comparison that is 1 where the given test holds and -1 elsewhere.
mod Insertion
pub mod Sorting
pub mod Streaks
pub mod Latest
mod Tests
use aart.Base.{
  ℕ, zero, suc, ◌+◌, ◌-◌, Bool, true, false, not, ◌&&◌, ◌||◌, Option, none, some, List, [], ◌∷◌,
  ◌++◌, Text, text_eq, codes, length, filter, leb, ltb, if◌then◌else◌,
}
use aart.Queue.Reclaim.{
  RunStatus, pending, running, waiting, completed, failed, cancelled, FlagKind, reclaim_exhausted,
  poison, RunFlag,
}

-- Of a trigger and a run's record, the fields that are read.
pub record Trigger : Type 0 where
  pub id : Text
  pub correlation_id : Option Text

pub record RunRecord : Type 0 where
  pub workflow_id : Text
  pub trigger : Trigger
  pub status : RunStatus
  pub started_at : ℕ
  pub flag : Option RunFlag

abbrev pub subject : Trigger → Text
subject trigger = elim trigger.correlation_id [ none ↦ trigger.id | some c ↦ c ]

-- `${workflowId}::${trigger.correlationId ?? trigger.id}`
unfoldable pub correlation_key_for : Text → Trigger → Text
correlation_key_for workflow_id trigger = workflow_id ++ (codes "::" ++ subject trigger)

abbrev pub key_of : RunRecord → Text
key_of run = correlation_key_for run.workflow_id run.trigger

abbrev pub is_failed : RunStatus → Bool
is_failed failed = true
is_failed status = false

abbrev pub is_pending : RunStatus → Bool
is_pending pending = true
is_pending status = false

-- `store.runs.list({ workflowId })`, and the test of the key.
abbrev pub runs_for_key : Text → Trigger → List RunRecord → List RunRecord
runs_for_key workflow_id trigger runs =
    filter (λ r. text_eq (key_of r) (correlation_key_for workflow_id trigger))
      (filter (λ r. text_eq r.workflow_id workflow_id) runs)

-- The guard of `isPoisonFlagged`: an unresolved poison flag.
abbrev pub unresolved_poison : Option RunFlag → Option RunFlag
unresolved_poison none = none
unresolved_poison (some flag) = elim flag.kind [
  | reclaim_exhausted ↦ none
  | poison ↦ elim flag.cleared_at [ none ↦ some flag | some t ↦ none ]
]

abbrev pub flag_of_first : List RunRecord → Option RunFlag
flag_of_first [] = none
flag_of_first (run ∷ runs) = unresolved_poison run.flag

-- The loop of `shouldFlagPoison`.
pub streak : ℕ → ℕ → List RunRecord → Bool
streak max_consecutive_failures consecutive [] = false
streak max_consecutive_failures consecutive (run ∷ runs) =
    let rest = streak max_consecutive_failures (consecutive + 1) runs in
    if not (is_failed run.status)
    then false
    else if leb max_consecutive_failures (consecutive + 1)
    then true
    else rest

-- `a.startedAt < b.startedAt`, where the comparison of both sorts is 1: `a` goes behind `b`.
abbrev pub starts_before : RunRecord → RunRecord → Bool
starts_before a b = ltb a.started_at b.started_at

module _ (sort : (RunRecord → RunRecord → Bool) → List RunRecord → List RunRecord) where
  unfoldable pub is_poison_flagged : List RunRecord → Text → Trigger → Option RunFlag
  is_poison_flagged runs workflow_id trigger =
      flag_of_first (sort starts_before (runs_for_key workflow_id trigger runs))

  -- The runs that the loop goes over: `cutoff` is the start of the window.
  abbrev pub recent_runs : ℕ → List RunRecord → Text → Trigger → List RunRecord
  recent_runs cutoff runs workflow_id trigger =
      sort starts_before
        (filter (λ r. leb cutoff r.started_at) (runs_for_key workflow_id trigger runs))

  unfoldable pub should_flag_poison : ℕ → ℕ → ℕ → List RunRecord → Text → Trigger → Bool
  unfolding streak
  should_flag_poison max_consecutive_failures window_ms now runs workflow_id trigger =
      streak max_consecutive_failures 0 (recent_runs (now - window_ms) runs workflow_id trigger)

unfoldable pub is_over_backpressure_ceiling : ℕ → List RunRecord → Bool
is_over_backpressure_ceiling max_pending_runs runs =
    leb max_pending_runs (length (filter (λ r. is_pending r.status) runs))
