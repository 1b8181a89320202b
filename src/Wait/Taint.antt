-- ===== src/Wait/Taint.antt =====
-- packages/engine/src/redaction.ts: the merging of taint into a run that continues
--
-- A trace's mark that is `undefined` is false: the code tests it with `=== true` alone.
pub mod Growth
use aart.Base.{
  ℕ, Bool, true, ◌||◌, ◌&&◌, Option, none, some, List, [], ◌∷◌, ◌++◌, map, Text, text_eq, codes,
  any, filter, ◌==◌, if◌then◌else◌,
}
use aart.Wait.{StepTrace, RunRecord}

-- `new Set(…)`, in the order of insertion.
abbrev pub insert_new : List Text → List Text → List Text
insert_new set [] = set
insert_new set (x ∷ xs) = insert_new (if any (text_eq x) set then set else set ++ x ∷ []) xs

abbrev pub or_empty : Option (List Text) → List Text
or_empty none = []
or_empty (some xs) = xs

abbrev pub none_if_empty : List Text → Option (List Text)
none_if_empty [] = none
none_if_empty (x ∷ xs) = some (x ∷ xs)

unfoldable pub merge_string_sets : Option (List Text) → Option (List Text) → Option (List Text)
merge_string_sets left right = none_if_empty (insert_new [] (or_empty left ++ or_empty right))

-- `auditTraceBySeq.get(seq)`: the last trace of a number.
abbrev pub trace_by_seq : ℕ → List StepTrace → Option StepTrace
trace_by_seq seq [] = none
trace_by_seq seq (t ∷ trace) =
    let later = trace_by_seq seq trace in
    elim later [ some u ↦ some u | none ↦ if t.seq == seq then some t else none ]

abbrev pub first_of : {A : Type 0} → Option A → Option A → Option A
first_of (some a) b = some a
first_of none b = b

-- One trace with its audit. Marks are only ever added.
abbrev pub merge_trace : StepTrace → StepTrace → StepTrace
merge_trace trace audit =
    let paths = merge_string_sets trace.secret_tainted_paths audit.secret_tainted_paths in
    record trace {
      secret_tainted = trace.secret_tainted || audit.secret_tainted;
      secret_tainted_paths = first_of paths trace.secret_tainted_paths;
      control_secret_tainted = trace.control_secret_tainted || audit.control_secret_tainted;
      ledger_fingerprint = first_of audit.ledger_fingerprint trace.ledger_fingerprint;
    }

abbrev pub merge_trace_with : Option StepTrace → StepTrace → StepTrace
merge_trace_with none trace = trace
merge_trace_with (some audit) trace = merge_trace trace audit

unfoldable pub merge_operational_run_taint : RunRecord → RunRecord → RunRecord
merge_operational_run_taint operational repaired_audit = record operational {
  secret_tainted_input_paths =
      merge_string_sets operational.secret_tainted_input_paths
        repaired_audit.secret_tainted_input_paths;
  secret_tainted_trigger_paths =
      merge_string_sets operational.secret_tainted_trigger_paths
        repaired_audit.secret_tainted_trigger_paths;
  trace = map (λ t. merge_trace_with (trace_by_seq t.seq repaired_audit.trace) t) operational.trace;
}

pub record ReplayClaim : Type 0 where
  pub step_id : Text
  pub trace_seq : ℕ
  pub output_secret_tainted : Bool

-- A run's operational state.
pub record RunState : Type 0 where
  pub run : RunRecord
  pub secrets : List Text
  pub replays : List ReplayClaim

abbrev pub taint_claimed : List ReplayClaim → StepTrace → StepTrace
taint_claimed claims trace =
    if any (λ c. c.trace_seq == trace.seq && text_eq c.step_id trace.step_id) claims
    then record trace { secret_tainted = true; secret_tainted_paths = some (codes "*" ∷ []) }
    else trace

-- The run, and the secrets that the active state adds.
unfoldable pub merge_active_run_protection : Option RunState → RunRecord → RunRecord
merge_active_run_protection none run = run
merge_active_run_protection (some active) run =
    let protected_run = merge_operational_run_taint run active.run in
    record protected_run {
      trace =
          map (taint_claimed (filter (λ c. c.output_secret_tainted) active.replays))
            protected_run.trace;
    }

abbrev pub active_secrets : Option RunState → List Text
active_secrets none = []
active_secrets (some active) = active.secrets

unfoldable pub merge_persisted_run_taint : Option RunRecord → RunRecord → RunRecord
merge_persisted_run_taint none operational = operational
merge_persisted_run_taint (some persisted) operational =
    merge_operational_run_taint operational persisted
