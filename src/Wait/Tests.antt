-- ===== src/Wait/Tests.antt =====
-- A run that waits for a signal, and the theorems on waits at concrete inputs.
mod Deliveries
mod Listings
use aart.Base.{
  Bool, if◌then◌else◌, ◌+◌, ◌≤◌, ◌≡◌, refl, inl, true, false, Option, none, some, List, [], ◌∷◌,
  Text, codes, Result, ok, err, Member, ◌↔◌, map,
}
use aart.Resolver.{null, end}
use aart.Expr.{span, number_from}
use aart.Queue.Reclaim.{RunStatus}
use aart.Duration.{parse_duration_ms}
use aart.Wait.{StepTrace, StepStatus, signal, manual, RunRecord, Signal, WaitError}
use aart.Wait.Audit.{redact_wait_audit, redact_signal_audit}
use aart.Wait.Taint.{
  merge_string_sets, merge_operational_run_taint, merge_active_run_protection,
  merge_persisted_run_taint,
}
use aart.Wait.Taint.Growth.{IsSameEntry, HasMarks, merge_operational_run_taint-marks}
use aart.Wait.Store.{
  StoredWait, Store, get_run, put_run, has_dedupe_key, record_dedupe_key, get_operational_state,
  delete_operational_state, put_operational_state, get_wait, delete_wait, put_wait,
  find_signal_matches, find_unconsumed_match, get_operational_secret_values, replace_audit,
  mark_consumed, append_signal,
}
use aart.Wait.Machine.{Prepare, Layer, settle, take_signal, normalize_payload_to_outputs}
use aart.Wait.Enter.{enter_early, EnterWaitOptions, EnterWaitResult, enter_suspended, enter_wait}
use aart.Wait.Resume.{
  ResumeOutcome, unmatched, Transition, ClaimArgs, claim_row, complete, claim_and_complete_wait,
  fail_expired_wait,
}
use aart.Wait.Mechanisms.{resume_by_signal}
use aart.Wait.Attempts.{Attempt, claim, expiry, delivery, times_resumed}
use aart.Wait.Once.{times_resumed-le}
use aart.Wait.Listing.{
  due_of, IsExpired, expired_rows, get_expired_waits, get_expired_waits-exact,
  get_expired_waits-malformed,
}

-- A layer that hides nothing and revokes nothing.
abbrev pub plain : Layer
plain = record {
  redact_text = λ secrets t. t;
  redact_value = λ secrets v. v;
  redact_run = λ secrets r. r;
  revoke = λ secrets r. ok r;
  decimal = λ n. (48 + n) ∷ [];
}

abbrev pub prepare_nothing : Prepare
prepare_nothing run step_id s = ok (run, [])

abbrev pub new_run : RunRecord
new_run = record {
  run_id = codes "r1";
  status = RunStatus.running;
  waits = [];
  trace = [];
  updated_at = 0;
  schema_version = 2;
  snapshot_captured = true;
  secret_tainted_input_paths = none;
  secret_tainted_trigger_paths = none;
  other = null;
}

abbrev pub empty_store : Store
empty_store = record {
  runs = new_run ∷ [];
  dedupe_consumed = [];
  active = [];
  waits = [];
  signals = [];
  approvals = [];
}

abbrev pub paid : Signal
paid = record { id = codes "s1"; name = codes "paid"; correlation_id = codes "42"; payload = null }

abbrev pub wait_for_payment : Option Text → EnterWaitOptions
wait_for_payment timeout = record {
  run = new_run;
  step_id = codes "pay";
  block_id = codes "wait.signal";
  resolved_inputs = null;
  wait = signal (codes "paid") (codes "42") timeout 2;
  secrets = [];
  secret_tainted = false;
  control_secret_tainted = false;
  snapshot_captured_for_wait = false;
  prepare_early_arrival_run = prepare_nothing;
}

abbrev pub entered : Result WaitError (Store × EnterWaitResult) → Store
entered (ok (t, r)) = t
entered (err e) = empty_store

abbrev pub entered_result : Result WaitError (Store × EnterWaitResult) → EnterWaitResult
entered_result (ok (t, r)) = r
entered_result (err e) = record { run = new_run; suspended = false }

abbrev pub waiting_store : Option Text → Store
waiting_store timeout = entered (enter_wait plain (wait_for_payment timeout) 5 empty_store)

abbrev pub claim_pay : ClaimArgs
claim_pay = record {
  run_id = codes "r1";
  step_id = codes "pay";
  dedupe_key_suffix = codes "manual";
  outputs = end;
  secrets = [];
  prepare_completed_run = prepare_nothing;
  signal_audit = none;
}

abbrev race : List Attempt
race =
    delivery paid [] prepare_nothing 7
    ∷ claim claim_pay 8
    ∷ expiry (λ t. t) (codes "r1") (codes "pay") [] 9
    ∷ []

pub suspends :
    (entered_result (enter_wait plain (wait_for_payment none) 5 empty_store)).suspended ≡ true
unfolding enter_wait enter_suspended get_run get_operational_state find_unconsumed_match
    merge_active_run_protection merge_persisted_run_taint merge_operational_run_taint
    redact_wait_audit put_wait put_run delete_operational_state merge_string_sets
suspends = refl

resumes_once : times_resumed plain (codes "r1") (codes "pay") race (waiting_store none) ≡ 1
unfolding enter_wait enter_suspended get_run get_operational_state find_unconsumed_match
    merge_active_run_protection merge_persisted_run_taint merge_operational_run_taint
    redact_wait_audit put_wait put_run delete_operational_state merge_string_sets resume_by_signal
    find_signal_matches claim_and_complete_wait fail_expired_wait claim_row complete settle
    take_signal normalize_payload_to_outputs get_wait has_dedupe_key record_dedupe_key delete_wait
    put_operational_state get_operational_secret_values replace_audit mark_consumed
    redact_signal_audit
resumes_once = refl

times_resumed-le_example :
    times_resumed plain (codes "r1") (codes "pay") race (waiting_store none) ≤ 1
times_resumed-le_example =
    times_resumed-le plain (codes "r1") (codes "pay") race (waiting_store none)
