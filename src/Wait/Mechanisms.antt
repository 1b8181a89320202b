-- ===== src/Wait/Mechanisms.antt =====
-- packages/engine/src/wait/wait-machine.ts: the resume mechanisms
use aart.Base.{ℕ, none, some, List, [], ◌∷◌, ◌++◌, Text, codes, ok, err}
use aart.Resolver.{Value, Fields, field, end}
use aart.Wait.{Signal, multiple_wait_matches}
use aart.Wait.Store.{StoredWait, Store, find_signal_matches}
use aart.Wait.Machine.{Prepare, Layer, normalize_payload_to_outputs}
use aart.Wait.Resume.{unmatched, Transition, claim_and_complete_wait}

module _ (layer : Layer) where
  -- `resumeBySignal`
  abbrev pub resume_match : Signal → List Text → Prepare → ℕ → List StoredWait → Store → Transition
  resume_match sent secrets prepare now [] s = ok (s, unmatched)
  resume_match sent secrets prepare now (row ∷ []) s =
      claim_and_complete_wait layer
        (record {
          run_id = row.run_id;
          step_id = row.step_id;
          dedupe_key_suffix = codes "signal:" ++ (sent.name ++ (codes ":" ++ sent.correlation_id));
          outputs = normalize_payload_to_outputs sent.payload;
          secrets = secrets;
          prepare_completed_run = prepare;
          signal_audit = some sent;
        })
        now s
  resume_match sent secrets prepare now (row ∷ other ∷ rows) s =
      err (multiple_wait_matches sent.name sent.correlation_id)

  unfoldable pub resume_by_signal : Signal → List Text → Prepare → ℕ → Store → Transition
  resume_by_signal sent secrets prepare now s =
      resume_match sent secrets prepare now (find_signal_matches sent.name sent.correlation_id s) s

  module _ (run_id step_id : Text) (secrets : List Text) (prepare : Prepare) (now : ℕ) where
    -- The claim of a wait that no signal resolves.
    abbrev pub direct : Text → Fields → Store → Transition
    direct suffix outputs s =
        claim_and_complete_wait layer
          (record {
            run_id = run_id;
            step_id = step_id;
            dedupe_key_suffix = suffix;
            outputs = outputs;
            secrets = secrets;
            prepare_completed_run = prepare;
            signal_audit = none;
          })
          now s

    unfoldable pub resume_manual : Value → Store → Transition
    resume_manual payload s = direct (codes "manual") (normalize_payload_to_outputs payload) s

    -- `status`, `decision` and `reviewer` are those of the task.
    unfoldable pub resume_approval : Text → Value → Value → Value → Store → Transition
    resume_approval task_id status decision reviewer s =
        direct (codes "approval:" ++ task_id)
          (field (codes "status") status
            (field (codes "decision") decision (field (codes "reviewer") reviewer end)))
          s

    -- `resumed_at` is the text of the time.
    unfoldable pub resume_timer_wait : Value → Store → Transition
    resume_timer_wait resumed_at s =
        direct (codes "timer") (field (codes "resumedAt") resumed_at end) s

    unfoldable pub resume_external_job_result : Value → Store → Transition
    resume_external_job_result result_payload s =
        direct (codes "external_job") (normalize_payload_to_outputs result_payload) s
