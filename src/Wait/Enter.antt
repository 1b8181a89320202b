-- ===== src/Wait/Enter.antt =====
-- packages/engine/src/wait/wait-machine.ts: `enterWait`
use aart.Base.{
  ℕ, Bool, true, false, Option, none, some, List, [], ◌∷◌, ◌++◌, Text, codes, length, if◌then◌else◌,
  Result, ok, ◌>>=◌,
}
use aart.Resolver.{Value}
use aart.Queue.Reclaim.{RunStatus}
use aart.Wait.{
  WaitCondition, wait_signal_correlation, StepStatus, StepTrace, RunRecord, Signal, WaitError,
}
use aart.Wait.Audit.{redact_wait_audit}
use aart.Wait.Taint.{
  RunState, ReplayClaim, insert_new, merge_active_run_protection, active_secrets,
  merge_persisted_run_taint,
}
use aart.Wait.Store.{
  StoredWait, StoredSignal, Store, get_run, put_run, get_operational_state,
  delete_operational_state, put_wait, find_unconsumed_match, get_operational_secret_values,
}
use aart.Wait.Machine.{Prepare, Layer, settle, take_signal, normalize_payload_to_outputs}

-- The marks of a new trace entry.
abbrev pub mark : Bool → Bool → StepTrace → StepTrace
mark secret_tainted control_secret_tainted t =
    if secret_tainted
    then record t { secret_tainted = true; secret_tainted_paths = some (codes "*" ∷ []) }
    else if control_secret_tainted
    then record t {
      secret_tainted = true;
      secret_tainted_paths = some [];
      control_secret_tainted = true;
    }
    else t

pub record EnterWaitOptions : Type 0 where
  pub run : RunRecord
  pub step_id : Text
  pub block_id : Text
  pub resolved_inputs : Value
  pub wait : WaitCondition
  pub secrets : List Text
  pub secret_tainted : Bool
  pub control_secret_tainted : Bool
  pub snapshot_captured_for_wait : Bool
  pub prepare_early_arrival_run : Prepare

pub record EnterWaitResult : Type 0 where
  pub run : RunRecord
  pub suspended : Bool

abbrev pub active_replays : Option RunState → List ReplayClaim
active_replays none = []
active_replays (some active) = active.replays

abbrev pub early_signal : WaitCondition → Store → Option StoredSignal
early_signal wait s = elim (wait_signal_correlation wait) [
  | none ↦ none
  | some (name, correlation_id) ↦ find_unconsumed_match name correlation_id s
]

module _ (layer : Layer) where
  abbrev pub entry_of : EnterWaitOptions → ℕ → RunRecord → StepTrace
  entry_of options now run = mark options.secret_tainted options.control_secret_tainted (record {
    seq = length run.trace;
    step_id = options.step_id;
    block = options.block_id;
    status = StepStatus.waiting;
    inputs = options.resolved_inputs;
    outputs = none;
    error = none;
    started_at = now;
    ended_at = none;
    duration_ms = none;
    secret_tainted = false;
    secret_tainted_paths = none;
    control_secret_tainted = false;
    ledger_fingerprint = none;
  })

  -- `enterWait`, where a signal has come already.
  unfoldable pub enter_early :
      EnterWaitOptions
      → ℕ
      → List Text
      → List ReplayClaim
      → RunRecord
      → Signal
      → Store
      → Result WaitError (Store × EnterWaitResult)
  enter_early options now secrets replays run sent s = do
    let known = insert_new secrets (get_operational_secret_values sent.id s)
    let base : RunRecord =
        if options.snapshot_captured_for_wait then record run { snapshot_captured = false } else run
    let trace : StepTrace = record (entry_of options now base) {
      status = StepStatus.completed;
      outputs = some (normalize_payload_to_outputs sent.payload);
      ended_at = some now;
      duration_ms = some 0;
    }
    prepared ←
        options.prepare_early_arrival_run
          (record base { trace = base.trace ++ trace ∷ []; updated_at = now }) options.step_id s
    let all_known = insert_new known prepared.1
    settled ←
        settle layer all_known replays prepared.0
          (take_signal layer all_known sent base.run_id options.step_id s)
    ok (settled.0, record { run = settled.1; suspended = false })

  -- `enterWait`, where none has.
  unfoldable pub enter_suspended :
      EnterWaitOptions
      → ℕ
      → List Text
      → RunRecord
      → Store
      → Result WaitError (Store × EnterWaitResult)
  enter_suspended options now secrets run s = do
    repaired ← layer.revoke secrets (record run {
      status = RunStatus.waiting;
      waits = run.waits ++ options.wait ∷ [];
      trace = run.trace ++ entry_of options now run ∷ [];
      updated_at = now;
    })
    let redacted = layer.redact_run secrets repaired
    let row : StoredWait = record {
      run_id = run.run_id;
      step_id = options.step_id;
      wait = options.wait;
      audit = redact_wait_audit (layer.redact_text secrets) options.wait;
      state = some (record { run = repaired; secrets = secrets; replays = [] });
      created_at = now;
    }
    ok (
      delete_operational_state run.run_id (put_run redacted (put_wait row s)),
      record { run = redacted; suspended = true },
    )

  unfoldable pub enter_wait :
      EnterWaitOptions → ℕ → Store → Result WaitError (Store × EnterWaitResult)
  enter_wait options now s =
      let active = get_operational_state options.run.run_id s in
      let secrets = insert_new options.secrets (active_secrets active) in
      let active_aware = merge_active_run_protection active options.run in
      let run = merge_persisted_run_taint (get_run active_aware.run_id s) active_aware in
      elim (early_signal options.wait s) [
        | some r ↦ enter_early options now secrets (active_replays active) run r.signal s
        | none ↦ enter_suspended options now secrets run s
      ]
