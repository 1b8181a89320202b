-- ===== src/Intake/Admission.antt =====
-- What packages/server/src/triggers/intake.ts asks of a delivery that starts a run
use aart.Base.{
  ℕ, ◌≡◌, refl, ap, sym, ◌∙◌, inl, inr, Bool, true, false, none, some, List, map, Text, Bool-cases,
  Option-cases, Result-cases, none-ne-some, some_inj, false≢true, ok,
}
use aart.Resolver.{Value, Fields}
use aart.Poison.{is_poison_flagged, is_over_backpressure_ceiling}
use aart.Poison
use aart.Wait.{Signal}
use aart.Intake.{
  TriggerRejectionReason, duplicate_delivery, poison_flagged, backlog_ceiling, input_mapping_failed,
  IntakeTrigger, TriggerBinding, AdaptedTrigger, ResumeResult, wait_resumed, wait_duplicate,
  wait_unmatched, wait_ambiguous, IntakeOutcome, started, queued, resumed, duplicate_resume,
  no_match, ambiguous, rejected, Boundary, was_delivered, guarded_of, outcome_of_resume,
  resolve_trigger_mapping, reject, resume_outcome, intake_resume, intake_start,
  process_trigger_intake,
}

-- A run was started, or queued to start.
abbrev pub is_admitted : IntakeOutcome → Bool
is_admitted (started run_id) = true
is_admitted (queued run_id) = true
is_admitted (resumed run_id) = false
is_admitted (duplicate_resume run_id) = false
is_admitted no_match = false
is_admitted (ambiguous matches) = false
is_admitted (rejected reason) = false

not_admitted : (o : ResumeResult) → is_admitted (outcome_of_resume o) ≡ false
not_admitted (wait_resumed run_id) = refl
not_admitted (wait_duplicate run_id) = refl
not_admitted wait_unmatched = refl
not_admitted (wait_ambiguous matches) = refl

module _ (inherited : Text → Value) (json : Value → Text) {S : Type 0} (boundary : Boundary S)
    (sort : (Poison.RunRecord → Poison.RunRecord → Bool)
      → List Poison.RunRecord
      → List Poison.RunRecord)
    (max_pending_runs : ℕ) (rejection_id signal_id : Text) (now : ℕ) where
  -- The guards that a delivery passes before it starts a run.
  abbrev pub Admits : TriggerBinding → IntakeTrigger → S → Type 0
  Admits binding trigger s =
      (is_poison_flagged sort (map guarded_of (boundary.runs s)) binding.workflow_id trigger.guarded
        ≡ none)
      × ((is_over_backpressure_ceiling max_pending_runs (map guarded_of (boundary.runs s)) ≡ false)
          × ((inputs : Fields) × (resolve_trigger_mapping inherited json binding.trigger_mapping
                  trigger
                ≡ ok inputs)))

  rejected_not :
      (trigger : IntakeTrigger) (reason : TriggerRejectionReason) (s t : S) (o : IntakeOutcome)
      → some (
          reject inherited json boundary sort max_pending_runs rejection_id signal_id now trigger
            reason s)
        ≡ some (t, o)
      → is_admitted o ≡ false
  rejected_not trigger reason s t o h = sym (ap (λ p. is_admitted p.1) (some_inj h))

  intake_start-Admits :
      (binding : TriggerBinding) (trigger : IntakeTrigger) (s t : S) (o : IntakeOutcome)
      → intake_start inherited json boundary sort max_pending_runs rejection_id signal_id now
          binding trigger s
        ≡ some (t, o)
      → is_admitted o ≡ true
      → Admits binding trigger s
  unfolding intake_start
  intake_start-Admits binding trigger s t o h a =
      let guarded = map guarded_of (boundary.runs s) in
      let refused =
        λ (reason : TriggerRejectionReason)
            (e : some (
                reject inherited json boundary sort max_pending_runs rejection_id signal_id now
                  trigger reason s)
              ≡ some (t, o)).
          false≢true (sym (rejected_not trigger reason s t o e) ∙ a) in
      elim (Option-cases (is_poison_flagged sort guarded binding.workflow_id trigger.guarded)) [
        | inr (flag, e) ↦ absurd (refused poison_flagged (rw (e, intake_start) at h))
        | inl e ↦ elim (Bool-cases (is_over_backpressure_ceiling max_pending_runs guarded)) [
          | inl f ↦ absurd (refused backlog_ceiling (rw (e, f, intake_start) at h))
          | inr f ↦
              elim (Result-cases
                (resolve_trigger_mapping inherited json binding.trigger_mapping trigger)) [
                  | inl (thrown, g) ↦
                      absurd (refused input_mapping_failed (rw (e, f, g, intake_start) at h))
                  | inr (inputs, g) ↦ (e, (f, (inputs, g)))
                ]
        ]
      ]

  resumed_not :
      (sent : Text × (Text × Value)) (s t : S) (o : IntakeOutcome)
      → intake_resume inherited json boundary sort max_pending_runs rejection_id signal_id now sent
          s
        ≡ some (t, o)
      → is_admitted o ≡ false
  unfolding intake_resume
  resumed_not (name, (correlation_id, payload)) s t o h =
      let signal : Signal = record {
        id = signal_id;
        name = name;
        correlation_id = correlation_id;
        payload = payload;
      } in
      elim (Option-cases (boundary.resume_with_signal signal (boundary.append_signal signal s))) [
        | inl e ↦ absurd (none-ne-some (rw (e, resume_outcome) at h))
        | inr ((u, result), e) ↦
            let found : some (u, outcome_of_resume result) ≡ some (t, o) =
              rw (e, resume_outcome) at h in
            sym (ap (λ p. is_admitted p.1) (some_inj found)) ∙ not_admitted result
      ]

  -- A delivery that starts a run, or queues one, is no resume and no redelivery that the workflow's runs
  -- show, its key is not flagged as poison, the backlog is below the ceiling, and its inputs are mapped.
  pub process_trigger_intake-Admits :
      (binding : TriggerBinding) (adapted : AdaptedTrigger) (s t : S) (o : IntakeOutcome)
      → process_trigger_intake inherited json boundary sort max_pending_runs rejection_id signal_id
          now binding adapted s
        ≡ some (t, o)
      → is_admitted o ≡ true
      → (was_delivered adapted.trigger.dedupe_key binding.workflow_id (boundary.runs s) ≡ false)
        × ((adapted.resume_signal ≡ none) × Admits binding adapted.trigger s)
  unfolding process_trigger_intake
  process_trigger_intake-Admits binding adapted s t o h a =
      elim (Bool-cases
        (was_delivered adapted.trigger.dedupe_key binding.workflow_id (boundary.runs s))) [
          | inl e ↦ absurd (
              false≢true (
                sym (
                  rejected_not adapted.trigger duplicate_delivery s t o
                    (rw (e, process_trigger_intake) at h))
                ∙ a))
          | inr e ↦ elim (Option-cases adapted.resume_signal) [
            | inr (sent, f) ↦ absurd (
                false≢true
                  (sym (resumed_not sent s t o (rw (e, f, process_trigger_intake) at h)) ∙ a))
            | inl f ↦ (
              e,
              (
                f,
                intake_start-Admits binding adapted.trigger s t o
                    (rw (e, f, process_trigger_intake) at h) a,
              ),
            )
          ]
        ]
