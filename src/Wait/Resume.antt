-- ===== src/Wait/Resume.antt =====
-- packages/engine/src/wait/wait-machine.ts: `claimAndCompleteWait` and `failExpiredWait`
use aart.Base.{
  ℕ, ◌-◌, Bool, true, false, ◌&&◌, ◌||◌, Option, none, some, List, [], ◌∷◌, ◌++◌, Text, text_eq,
  codes, any, ◌==◌, if◌then◌else◌, Result, ok, err, ◌>>=◌, ◌>>◌,
}
use aart.Resolver.{Fields}
use aart.Queue.Reclaim.{RunStatus}
use aart.Wait.{
  WaitCondition, approval, signal, webhook, external_job, queue, timer, manual, version_of,
  StepStatus, StepTrace, RunRecord, Signal, WaitError, schema_version_mismatch, no_waiting_trace,
}
use aart.Wait.Taint.{RunState, insert_new, merge_operational_run_taint}
use aart.Wait.Store.{
  StoredWait, ApprovalTask, TaskStatus, Store, get_run, has_dedupe_key, record_dedupe_key, get_wait,
  delete_wait, get_operational_secret_values, get_approval, put_approval,
}
use aart.Wait.Machine.{Prepare, Layer, settle, take_signal}

abbrev pub is_waiting : StepStatus → Bool
is_waiting StepStatus.waiting = true
is_waiting status = false

abbrev pub is_completed : StepStatus → Bool
is_completed StepStatus.completed = true
is_completed status = false

abbrev pub is_failed : StepStatus → Bool
is_failed StepStatus.failed = true
is_failed status = false

abbrev pub is_waiting_at : Text → StepTrace → Bool
is_waiting_at step_id t = text_eq t.step_id step_id && is_waiting t.status

-- `findWaitingTraceIndex` and the write to the copy of the trace: the last entry of the step that is
-- waiting, and the trace with that entry changed.
abbrev pub update_waiting :
    Text → (StepTrace → StepTrace) → List StepTrace → Option (StepTrace × List StepTrace)
update_waiting step_id f [] = none
update_waiting step_id f (t ∷ trace) = elim (update_waiting step_id f trace) [
  | some (u, rest) ↦ some (u, t ∷ rest)
  | none ↦ if is_waiting_at step_id t then some (t, f t ∷ trace) else none
]

abbrev pub current_engine_schema_version : ℕ
current_engine_schema_version = 2

-- `assertSchemaVersionCompatible`
abbrev pub assert_schema_version : ℕ → Result WaitError (Unit {0})
assert_schema_version version =
    if version == current_engine_schema_version
    then ok tt
    else err (schema_version_mismatch version)

pub data ResumeOutcome : Type 0 where
  resumed : RunRecord → ResumeOutcome
  duplicate unmatched : ResumeOutcome

abbrev pub Transition : Type 0
Transition = Result WaitError (Store × ResumeOutcome)

pub record ClaimArgs : Type 0 where
  pub run_id : Text
  pub step_id : Text
  pub dedupe_key_suffix : Text
  pub outputs : Fields
  pub secrets : List Text
  pub prepare_completed_run : Prepare
  pub signal_audit : Option Signal

module _ (layer : Layer) where
  -- The operational run of a wait's row, with the taint of the public one, and its secrets.
  abbrev pub continued : Option RunState → RunRecord → RunRecord
  continued none public_run = public_run
  continued (some state) public_run = merge_operational_run_taint state.run public_run

  -- The key of one resolution of one entry of a wait.
  abbrev pub dedupe_key : Text → ℕ → Text → Text
  dedupe_key step_id seq suffix =
      step_id ++ (codes ":" ++ (layer.decimal seq ++ (codes ":" ++ suffix)))

  -- The two transitions on an outstanding wait share their head: the guards, the claim by the dedupe
  -- key, and the removal of the row. `finish` is given what comes behind.
  unfoldable pub claim_row :
      Text
      → Text
      → Text
      → StoredWait
      → RunRecord
      → (StepTrace → StepTrace)
      → (List StepTrace → RunRecord → Store → Transition)
      → Store
      → Transition
  claim_row run_id step_id suffix row run change finish s = do
    assert_schema_version run.schema_version
    assert_schema_version (version_of row.wait)
    elim (update_waiting step_id change run.trace) [
      | none ↦ err (no_waiting_trace step_id)
      | some (entry, trace) ↦
          if has_dedupe_key run_id (dedupe_key step_id entry.seq suffix) s
          then ok (s, duplicate)
          else finish trace run (
              delete_wait run_id step_id
                (record_dedupe_key run_id (dedupe_key step_id entry.seq suffix) s))
    ]

  -- `Math.max(0, now - startedAt)`
  abbrev pub complete_entry : ℕ → Fields → StepTrace → StepTrace
  complete_entry now outputs t = record t {
    status = StepStatus.completed;
    outputs = some outputs;
    ended_at = some now;
    duration_ms = some (now - t.started_at);
  }

  abbrev pub fail_entry : ℕ → Text → StepTrace → StepTrace
  fail_entry now error_message t = record t {
    status = StepStatus.failed;
    error = some error_message;
    ended_at = some now;
    duration_ms = some (now - t.started_at);
  }

  abbrev pub state_secrets : Option RunState → List Text
  state_secrets none = []
  state_secrets (some state) = state.secrets

  abbrev pub signal_secrets : Option Signal → Store → List Text
  signal_secrets none s = []
  signal_secrets (some sent) s = get_operational_secret_values sent.id s

  abbrev pub take_signal_if : List Text → Option Signal → Text → Text → Store → Store
  take_signal_if secrets none run_id step_id s = s
  take_signal_if secrets (some sent) run_id step_id s =
      take_signal layer secrets sent run_id step_id s

  -- What comes behind the claim of a wait that is completed.
  unfoldable pub complete :
      ClaimArgs → ℕ → List Text → List StepTrace → RunRecord → Store → Transition
  complete args now secrets trace run s = do
    prepared ←
        args.prepare_completed_run
          (record run { status = RunStatus.running; trace = trace; updated_at = now }) args.step_id
          s
    let known = insert_new secrets prepared.1
    settled ←
        settle layer known [] prepared.0
          (take_signal_if known args.signal_audit args.run_id args.step_id s)
    ok (settled.0, resumed settled.1)

  -- With no row of the wait: whether the step has an entry that ended.
  abbrev pub without_row : Text → (StepStatus → Bool) → RunRecord → ResumeOutcome
  without_row step_id ended run =
      if any (λ t. text_eq t.step_id step_id && ended t.status) run.trace
      then duplicate
      else unmatched

  unfoldable pub claim_and_complete_wait : ClaimArgs → ℕ → Store → Transition
  claim_and_complete_wait args now s = elim (get_run args.run_id s) [
    | none ↦ ok (s, unmatched)
    | some public_run ↦ elim (get_wait args.run_id args.step_id s) [
      | none ↦ ok (s, without_row args.step_id is_completed public_run)
      | some row ↦
          claim_row args.run_id args.step_id args.dedupe_key_suffix row
            (continued row.state public_run) (complete_entry now args.outputs)
            (complete args now (
              insert_new (insert_new args.secrets (state_secrets row.state))
                (signal_secrets args.signal_audit s)))
            s
    ]
  ]

  abbrev pub task_pending : ApprovalTask → Bool
  task_pending t = elim t.status [ TaskStatus.pending ↦ true | _ ↦ false ]

  -- The task of an approval that is still pending expires with its wait.
  abbrev pub expire_task : ℕ → Option ApprovalTask → Store → Store
  expire_task now none s = s
  expire_task now (some t) s =
      if task_pending t
      then put_approval (record t { status = TaskStatus.expired; decided_at = some now }) s
      else s

  abbrev pub expire_approval : ℕ → WaitCondition → Store → Store
  expire_approval now (approval task_id timeout version) s =
      expire_task now (get_approval task_id s) s
  expire_approval now (signal name correlation_id timeout version) s = s
  expire_approval now (webhook event correlation_id timeout version) s = s
  expire_approval now (external_job provider job_id timeout version) s = s
  expire_approval now (queue name correlation_id timeout version) s = s
  expire_approval now (timer resume_at version) s = s
  expire_approval now (manual timeout version) s = s

  -- What comes behind the claim of a wait that has expired.
  unfoldable pub expire :
      Text → WaitCondition → ℕ → List Text → List StepTrace → RunRecord → Store → Transition
  expire run_id wait now secrets trace run s = do
    settled ←
        settle layer secrets []
          (record run { status = RunStatus.running; trace = trace; updated_at = now })
          (expire_approval now wait s)
    ok (settled.0, resumed settled.1)

  abbrev pub is_ended : StepStatus → Bool
  is_ended status = is_completed status || is_failed status

  -- `error_message` words the expiry of a step's wait.
  unfoldable pub fail_expired_wait :
      (Text → Text) → Text → Text → List Text → ℕ → Store → Transition
  fail_expired_wait error_message run_id step_id secrets now s = elim (get_run run_id s) [
    | none ↦ ok (s, unmatched)
    | some public_run ↦ elim (get_wait run_id step_id s) [
      | none ↦ ok (s, without_row step_id is_ended public_run)
      | some row ↦
          claim_row run_id step_id (codes "expiry") row (continued row.state public_run)
            (fail_entry now (error_message step_id))
            (expire run_id row.wait now (insert_new secrets (state_secrets row.state))) s
    ]
  ]
