-- ===== src/Intake.antt =====
-- packages/server/src/triggers/intake.ts, with the types of packages/server/src/triggers/types.ts and the
-- engine behind packages/server/src/engine/boundary.ts
--
-- The store is of any type: `Boundary` has the operations on it that the intake calls, whose `none` is a
-- throw, and the laws that a proof may ask of them. Ids and the time are arguments. `as_value` is the
-- trigger as an expression sees it; a run id is not empty.
pub mod Trail
pub mod Admission
mod Tests
use aart.Base.{
  ℕ, ◌≡◌, Bool, true, false, not, ◌&&◌, Option, none, some, List, [], ◌∷◌, ◌++◌, map, Text, text_eq,
  codes, any, filter, if◌then◌else◌, Result, ok, err, ◌>>=◌,
}
use aart.Resolver.{
  Value, undefined, null, function, boolean, number, string, array, object, Fields, end, field,
  ExprContext, ResolutionError, resolve_expression,
}
use aart.Poison.{is_poison_flagged, is_over_backpressure_ceiling}
use aart.Poison
use aart.Wait.{Signal}

pub data TriggerRejectionReason : Type 0 where
  bad_hmac input_mapping_failed concurrency_rejected backlog_ceiling poison_flagged :
      TriggerRejectionReason
  duplicate_delivery : TriggerRejectionReason

pub record RejectedTrigger : Type 0 where
  pub id : Text
  pub trigger_type : Text
  pub reason : TriggerRejectionReason
  pub raw_payload : Value
  pub received_at : ℕ

-- Of a trigger and of a run, the fields that are read; `guarded` is what the poison guard reads.
pub record IntakeTrigger : Type 0 where
  pub trigger_type : Text
  pub dedupe_key : Option Text
  pub payload : Value
  pub as_value : Value
  pub guarded : Poison.Trigger

pub record TriggeredRun : Type 0 where
  pub run_id : Text
  pub dedupe_key : Option Text
  pub guarded : Poison.RunRecord

pub record TriggerBinding : Type 0 where
  pub workflow_id : Text
  pub workflow_version : Option Text
  pub environment_id : Option Text
  pub trigger_mapping : Option (List (Text × Text))

pub record AdaptedTrigger : Type 0 where
  pub trigger : IntakeTrigger
  pub resume_signal : Option (Text × (Text × Value))

pub record StartRunParams : Type 0 where
  pub workflow_id : Text
  pub workflow_version : Option Text
  pub trigger : IntakeTrigger
  pub mapped_inputs : Fields
  pub environment : Option Text

pub data StartRunResult : Type 0 where
  run_started run_queued : Text → StartRunResult
  run_rejected : Text → StartRunResult

pub data ResumeResult : Type 0 where
  wait_resumed wait_duplicate : Text → ResumeResult
  wait_unmatched : ResumeResult
  wait_ambiguous : ℕ → ResumeResult

pub data IntakeOutcome : Type 0 where
  started queued resumed duplicate_resume : Text → IntakeOutcome
  no_match : IntakeOutcome
  ambiguous : ℕ → IntakeOutcome
  rejected : TriggerRejectionReason → IntakeOutcome

pub record Boundary (S : Type 0) : Type 0 where
  pub runs : S → List TriggeredRun
  pub rejected_triggers : S → List RejectedTrigger
  pub append_rejected : RejectedTrigger → S → S
  pub append_signal : Signal → S → S
  pub resume_with_signal : Signal → S → Option (S × ResumeResult)
  pub start_run : StartRunParams → S → Option (S × StartRunResult)

-- `dedupeKey` that is present and not empty.
abbrev pub same_key : Text → Option Text → Bool
same_key key none = false
same_key key (some k) = text_eq k key

abbrev pub was_delivered : Option Text → Text → List TriggeredRun → Bool
was_delivered none workflow_id runs = false
was_delivered (some []) workflow_id runs = false
was_delivered (some (c ∷ key)) workflow_id runs =
    any (λ r. text_eq r.guarded.workflow_id workflow_id && same_key (c ∷ key) r.dedupe_key) runs

abbrev pub outcome_of_resume : ResumeResult → IntakeOutcome
outcome_of_resume (wait_resumed run_id) = resumed run_id
outcome_of_resume (wait_duplicate run_id) = duplicate_resume run_id
outcome_of_resume wait_unmatched = no_match
outcome_of_resume (wait_ambiguous matches) = ambiguous matches

-- A payload that is an object, and no fields otherwise.
abbrev pub fields_of : Value → Fields
fields_of (object fs) = fs
fields_of (array items) = end
fields_of (string s) = end
fields_of (number s) = end
fields_of (boolean b) = end
fields_of undefined = end
fields_of null = end
fields_of function = end

abbrev pub guarded_of : TriggeredRun → Poison.RunRecord
guarded_of r = r.guarded

module _ (inherited : Text → Value) (json : Value → Text) where
  abbrev pub trigger_context : IntakeTrigger → ExprContext
  trigger_context trigger = record {
    inputs_value = undefined;
    steps_value = undefined;
    trigger_value = trigger.as_value;
    run_value = undefined;
  }

  unfoldable pub resolve_entries : ExprContext → List (Text × Text) → Result ResolutionError Fields
  resolve_entries context [] = ok end
  resolve_entries context ((input_name, expr) ∷ entries) = do
    value ← resolve_expression inherited json none context (string expr)
    rest ← resolve_entries context entries
    ok (field input_name value rest)

  unfoldable pub resolve_trigger_mapping :
      Option (List (Text × Text)) → IntakeTrigger → Result ResolutionError Fields
  resolve_trigger_mapping none trigger = ok (fields_of trigger.payload)
  resolve_trigger_mapping (some entries) trigger = resolve_entries (trigger_context trigger) entries

  module _ {S : Type 0} (boundary : Boundary S)
      (sort : (Poison.RunRecord → Poison.RunRecord → Bool)
        → List Poison.RunRecord
        → List Poison.RunRecord)
      (max_pending_runs : ℕ) (rejection_id signal_id : Text) (now : ℕ) where
    abbrev pub rejection : IntakeTrigger → TriggerRejectionReason → RejectedTrigger
    rejection trigger reason = record {
      id = rejection_id;
      trigger_type = trigger.trigger_type;
      reason = reason;
      raw_payload = trigger.payload;
      received_at = now;
    }

    -- `recordRejectedTrigger`, and the outcome that follows it.
    abbrev pub reject : IntakeTrigger → TriggerRejectionReason → S → S × IntakeOutcome
    reject trigger reason s =
        (boundary.append_rejected (rejection trigger reason) s, rejected reason)

    abbrev pub resume_outcome : Option (S × ResumeResult) → Option (S × IntakeOutcome)
    resume_outcome none = none
    resume_outcome (some (t, result)) = some (t, outcome_of_resume result)

    unfoldable pub intake_resume : Text × (Text × Value) → S → Option (S × IntakeOutcome)
    intake_resume (name, (correlation_id, payload)) s =
        let sent : Signal = record {
          id = signal_id;
          name = name;
          correlation_id = correlation_id;
          payload = payload;
        } in
        resume_outcome (boundary.resume_with_signal sent (boundary.append_signal sent s))

    abbrev pub start_outcome :
        IntakeTrigger → Option (S × StartRunResult) → Option (S × IntakeOutcome)
    start_outcome trigger none = none
    start_outcome trigger (some (t, run_started run_id)) = some (t, started run_id)
    start_outcome trigger (some (t, run_queued run_id)) = some (t, queued run_id)
    start_outcome trigger (some (t, run_rejected detail)) =
        some (reject trigger concurrency_rejected t)

    abbrev pub start_params : TriggerBinding → IntakeTrigger → Fields → StartRunParams
    start_params binding trigger mapped_inputs = record {
      workflow_id = binding.workflow_id;
      workflow_version = binding.workflow_version;
      trigger = trigger;
      mapped_inputs = mapped_inputs;
      environment = binding.environment_id;
    }

    -- The guards on a new run, and its start.
    unfoldable pub intake_start : TriggerBinding → IntakeTrigger → S → Option (S × IntakeOutcome)
    intake_start binding trigger s =
        let guarded = map guarded_of (boundary.runs s) in
        elim (is_poison_flagged sort guarded binding.workflow_id trigger.guarded) [
          | some flag ↦ some (reject trigger poison_flagged s)
          | none ↦
              if is_over_backpressure_ceiling max_pending_runs guarded
              then some (reject trigger backlog_ceiling s)
              else elim (resolve_trigger_mapping binding.trigger_mapping trigger) [
                | err thrown ↦ some (reject trigger input_mapping_failed s)
                | ok mapped_inputs ↦
                    start_outcome trigger
                      (boundary.start_run (start_params binding trigger mapped_inputs) s)
              ]
        ]

    unfoldable pub process_trigger_intake :
        TriggerBinding → AdaptedTrigger → S → Option (S × IntakeOutcome)
    process_trigger_intake binding adapted s =
        if was_delivered adapted.trigger.dedupe_key binding.workflow_id (boundary.runs s)
        then some (reject adapted.trigger duplicate_delivery s)
        else elim adapted.resume_signal [
          | some sent ↦ intake_resume sent s
          | none ↦ intake_start binding adapted.trigger s
        ]
