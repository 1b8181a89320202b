-- ===== src/Wait.antt =====
-- packages/types/src/wait.ts and packages/types/src/run.ts (the records), and
-- packages/engine/src/wait/wait-blocks.ts (`waitSignalCorrelation`)
--
-- A time that the code only stores or subtracts is its number of milliseconds; `resumeAt`, which the
-- store compares as text, is text. Of a run and of a step's trace, the fields that waits read or
-- write; `other` is the rest of a run, which only the redaction rewrites. An outcome of the callbacks
-- that throws is `thrown`.
pub mod Audit
pub mod Taint
pub mod Store
pub mod Machine
pub mod Enter
pub mod Resume
pub mod Mechanisms
pub mod Rows
pub mod Claims
pub mod Attempts
pub mod Once
pub mod Entry
pub mod Delivery
pub mod Listing
mod Tests
use aart.Base.{ℕ, Bool, Option, none, some, List, Text}
use aart.Resolver.{Value, Fields}
use aart.Queue.Reclaim.{RunStatus}

pub data WaitCondition : Type 0 where
  approval : Text → Option Text → ℕ → WaitCondition
  signal webhook external_job queue : Text → Text → Option Text → ℕ → WaitCondition
  timer : Text → ℕ → WaitCondition
  manual : Option Text → ℕ → WaitCondition

abbrev pub version_of : WaitCondition → ℕ
version_of (approval task_id timeout version) = version
version_of (signal name correlation_id timeout version) = version
version_of (webhook event correlation_id timeout version) = version
version_of (external_job provider job_id timeout version) = version
version_of (queue name correlation_id timeout version) = version
version_of (timer resume_at version) = version
version_of (manual timeout version) = version

-- `"timeout" in wait ? wait.timeout : undefined`
abbrev pub timeout_of : WaitCondition → Option Text
timeout_of (approval task_id timeout version) = timeout
timeout_of (signal name correlation_id timeout version) = timeout
timeout_of (webhook event correlation_id timeout version) = timeout
timeout_of (external_job provider job_id timeout version) = timeout
timeout_of (queue name correlation_id timeout version) = timeout
timeout_of (timer resume_at version) = none
timeout_of (manual timeout version) = timeout

-- The name and the correlation id that a signal must have.
abbrev pub wait_signal_correlation : WaitCondition → Option (Text × Text)
wait_signal_correlation (signal name correlation_id timeout version) = some (name, correlation_id)
wait_signal_correlation (webhook event correlation_id timeout version) =
    some (event, correlation_id)
wait_signal_correlation (queue name correlation_id timeout version) = some (name, correlation_id)
wait_signal_correlation (external_job provider job_id timeout version) = some (provider, job_id)
wait_signal_correlation (timer resume_at version) = none
wait_signal_correlation (manual timeout version) = none
wait_signal_correlation (approval task_id timeout version) = none

pub data StepStatus : Type 0 where
  pending running waiting completed failed skipped : StepStatus

pub record StepTrace : Type 0 where
  pub seq : ℕ
  pub step_id : Text
  pub block : Text
  pub status : StepStatus
  pub inputs : Value
  pub outputs : Option Fields
  pub error : Option Text
  pub started_at : ℕ
  pub ended_at : Option ℕ
  pub duration_ms : Option ℕ
  pub secret_tainted : Bool
  pub secret_tainted_paths : Option (List Text)
  pub control_secret_tainted : Bool
  pub ledger_fingerprint : Option Text

pub record RunRecord : Type 0 where
  pub run_id : Text
  pub status : RunStatus
  pub waits : List WaitCondition
  pub trace : List StepTrace
  pub updated_at : ℕ
  pub schema_version : ℕ
  pub snapshot_captured : Bool
  pub secret_tainted_input_paths : Option (List Text)
  pub secret_tainted_trigger_paths : Option (List Text)
  pub other : Value

pub record Signal : Type 0 where
  pub id : Text
  pub name : Text
  pub correlation_id : Text
  pub payload : Value

pub data WaitError : Type 0 where
  schema_version_mismatch : ℕ → WaitError
  no_waiting_trace : Text → WaitError
  multiple_wait_matches : Text → Text → WaitError
  invalid_duration : Text → WaitError
  thrown : WaitError
