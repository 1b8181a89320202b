-- ===== src/Intake/Tests.antt =====
-- Runs of the trigger intake on a small store, and its theorems at concrete inputs.
use aart.Base.{Bool, ◌≡◌, refl, false, Option, none, some, List, [], ◌∷◌, ◌++◌, Text, codes, length}
use aart.Resolver.{Value, undefined, null, object, end}
use aart.Queue.Reclaim.{RunStatus}
use aart.Poison
use aart.Poison.{is_poison_flagged, correlation_key_for, is_over_backpressure_ceiling}
use aart.Wait.{Signal}
use aart.Intake.{
  duplicate_delivery, RejectedTrigger, TriggeredRun, TriggerBinding, AdaptedTrigger, StartRunParams,
  run_started, wait_unmatched, IntakeOutcome, started, rejected, Boundary, was_delivered,
  resolve_trigger_mapping, intake_resume, intake_start, process_trigger_intake,
}
use aart.Intake.Trail.{IsLawful, Trails, process_trigger_intake-trail}
use aart.Intake.Admission.{Admits, process_trigger_intake-Admits}

record Small : Type 0 where
  all_runs : List TriggeredRun
  trail : List RejectedTrigger
  signals : List Signal

abbrev run_of : StartRunParams → TriggeredRun
run_of params = record {
  run_id = codes "r1";
  dedupe_key = params.trigger.dedupe_key;
  guarded = record {
    workflow_id = params.workflow_id;
    trigger = params.trigger.guarded;
    status = RunStatus.pending;
    started_at = 0;
    flag = none;
  };
}

-- An engine that starts every run and finds no wait.
abbrev small : Boundary Small
small = record {
  runs = λ s. s.all_runs;
  rejected_triggers = λ s. s.trail;
  append_rejected = λ r s. record s { trail = s.trail ++ r ∷ [] };
  append_signal = λ sent s. record s { signals = sent ∷ s.signals };
  resume_with_signal = λ sent s. some (s, wait_unmatched);
  start_run = λ params s.
      some (record s { all_runs = run_of params ∷ s.all_runs }, run_started (codes "r1"));
}

small-IsLawful : IsLawful small
small-IsLawful = record {
  appended = λ r s. refl;
  signals_apart = λ sent s. refl;
  resumes_apart = λ sent s t o h. cc;
  starts_apart = λ params s t o h. cc;
}

abbrev nothing : Small
nothing = record { all_runs = []; trail = []; signals = [] }

abbrev inherited : Text → Value
inherited name = undefined

abbrev json : Value → Text
json v = []

abbrev binding : TriggerBinding
binding = record {
  workflow_id = codes "sync";
  workflow_version = none;
  environment_id = none;
  trigger_mapping = none;
}

abbrev delivery : AdaptedTrigger
delivery = record {
  trigger = record {
    trigger_type = codes "webhook";
    dedupe_key = some (codes "d1");
    payload = object end;
    as_value = null;
    guarded = record { id = codes "t1"; correlation_id = none };
  };
  resume_signal = none;
}

abbrev resume_delivery : AdaptedTrigger
resume_delivery = record delivery { resume_signal = some (codes "paid", (codes "42", null)) }

abbrev same :
    (Poison.RunRecord → Poison.RunRecord → Bool) → List Poison.RunRecord → List Poison.RunRecord
same after runs = runs

abbrev intake_small : AdaptedTrigger → Small → Option (Small × IntakeOutcome)
intake_small adapted s =
    process_trigger_intake inherited json small same 10 (codes "rej") (codes "sig") 5 binding
      adapted s

abbrev store_of : Option (Small × IntakeOutcome) → Small
store_of none = nothing
store_of (some (t, o)) = t

abbrev after_one : Small
after_one = record nothing {
  all_runs =
      record {
        run_id = codes "r1";
        dedupe_key = some (codes "d1");
        guarded = record {
          workflow_id = codes "sync";
          trigger = record { id = codes "t1"; correlation_id = none };
          status = RunStatus.pending;
          started_at = 0;
          flag = none;
        };
      }
      ∷ [];
}

starts : intake_small delivery nothing ≡ some (after_one, started (codes "r1"))
unfolding process_trigger_intake intake_start is_poison_flagged correlation_key_for
    is_over_backpressure_ceiling resolve_trigger_mapping
starts = refl

abbrev after_two : Small
after_two = record after_one {
  trail =
      record {
        id = codes "rej";
        trigger_type = codes "webhook";
        reason = duplicate_delivery;
        raw_payload = object end;
        received_at = 5;
      }
      ∷ [];
}

redelivered : intake_small delivery after_one ≡ some (after_two, rejected duplicate_delivery)
unfolding process_trigger_intake
redelivered = refl

-- A resume that is delivered again stores its signal again.
resume_redelivered :
    length
      (store_of
        (intake_small resume_delivery (store_of (intake_small resume_delivery nothing)))).signals
    ≡ 2
unfolding process_trigger_intake intake_resume
resume_redelivered = refl

process_trigger_intake-trail_example :
    Trails inherited json small same 10
      (codes "rej")
      (codes "sig")
      5
      delivery.trigger
      after_one
      after_two
      (rejected duplicate_delivery)
process_trigger_intake-trail_example =
    process_trigger_intake-trail inherited json small same 10 (codes "rej") (codes "sig") 5
      small-IsLawful binding delivery after_one after_two (rejected duplicate_delivery) redelivered

process_trigger_intake-Admits_example :
    (was_delivered delivery.trigger.dedupe_key binding.workflow_id (small.runs nothing) ≡ false)
    × ((delivery.resume_signal ≡ none)
        × Admits inherited json small same 10
            (codes "rej")
            (codes "sig")
            5
            binding
            delivery.trigger
            nothing)
process_trigger_intake-Admits_example =
    process_trigger_intake-Admits inherited json small same 10 (codes "rej") (codes "sig") 5 binding
      delivery nothing after_one (started (codes "r1")) starts refl
