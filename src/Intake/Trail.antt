-- ===== src/Intake/Trail.antt =====
-- The trail of rejections that packages/server/src/triggers/intake.ts leaves, and what it admits.
use aart.Base.{
  Bool, ℕ, ◌≡◌, refl, ap, sym, ◌∙◌, subst, inl, inr, Option, some, List, [], ◌∷◌, ◌++◌, append-nil,
  map, Text, Bool-cases, Option-cases, Result-cases, none-ne-some, some_inj,
}
use aart.Resolver.{Value, Fields}
use aart.Poison.{is_poison_flagged, is_over_backpressure_ceiling}
use aart.Poison
use aart.Wait.{Signal}
use aart.Intake.{
  TriggerRejectionReason, duplicate_delivery, poison_flagged, backlog_ceiling, input_mapping_failed,
  concurrency_rejected, RejectedTrigger, IntakeTrigger, TriggerBinding, AdaptedTrigger,
  StartRunParams, StartRunResult, run_started, run_queued, run_rejected, ResumeResult, wait_resumed,
  wait_duplicate, wait_unmatched, wait_ambiguous, IntakeOutcome, started, queued, resumed,
  duplicate_resume, no_match, ambiguous, rejected, Boundary, was_delivered, guarded_of,
  outcome_of_resume, resolve_trigger_mapping, rejection, reject, resume_outcome, intake_resume,
  start_outcome, start_params, intake_start, process_trigger_intake,
}

-- The engine and the store of signals leave the rejected triggers alone, and a rejection is appended.
pub record IsLawful {S : Type 0} (boundary : Boundary S) : Type 0 where
  pub appended :
      (r : RejectedTrigger) (s : S)
      → boundary.rejected_triggers (boundary.append_rejected r s)
        ≡ boundary.rejected_triggers s ++ r ∷ []
  pub signals_apart :
      (sent : Signal) (s : S)
      → boundary.rejected_triggers (boundary.append_signal sent s) ≡ boundary.rejected_triggers s
  pub resumes_apart :
      (sent : Signal) (s t : S) (o : ResumeResult)
      → boundary.resume_with_signal sent s ≡ some (t, o)
      → boundary.rejected_triggers t ≡ boundary.rejected_triggers s
  pub starts_apart :
      (params : StartRunParams) (s t : S) (o : StartRunResult)
      → boundary.start_run params s ≡ some (t, o)
      → boundary.rejected_triggers t ≡ boundary.rejected_triggers s

-- What an outcome leaves in the trail.
abbrev pub trail_of :
    (TriggerRejectionReason → RejectedTrigger) → IntakeOutcome → List RejectedTrigger
trail_of entry (rejected reason) = entry reason ∷ []
trail_of entry (started run_id) = []
trail_of entry (queued run_id) = []
trail_of entry (resumed run_id) = []
trail_of entry (duplicate_resume run_id) = []
trail_of entry no_match = []
trail_of entry (ambiguous matches) = []

no_trail :
    (entry : TriggerRejectionReason → RejectedTrigger) (o : ResumeResult)
    → trail_of entry (outcome_of_resume o) ≡ []
no_trail entry (wait_resumed run_id) = refl
no_trail entry (wait_duplicate run_id) = refl
no_trail entry wait_unmatched = refl
no_trail entry (wait_ambiguous matches) = refl

module _ (inherited : Text → Value) (json : Value → Text) {S : Type 0} (boundary : Boundary S)
    (sort : (Poison.RunRecord → Poison.RunRecord → Bool)
      → List Poison.RunRecord
      → List Poison.RunRecord)
    (max_pending_runs : ℕ) (rejection_id signal_id : Text) (now : ℕ) where
  abbrev pub entry : IntakeTrigger → TriggerRejectionReason → RejectedTrigger
  entry = rejection inherited json boundary sort max_pending_runs rejection_id signal_id now

  abbrev pub intake : TriggerBinding → AdaptedTrigger → S → Option (S × IntakeOutcome)
  intake =
      process_trigger_intake inherited json boundary sort max_pending_runs rejection_id signal_id
        now

  -- The trail of a step from one store to another.
  abbrev pub Trails : IntakeTrigger → S → S → IntakeOutcome → Type 0
  Trails trigger s t o =
      boundary.rejected_triggers t ≡ boundary.rejected_triggers s ++ trail_of (entry trigger) o

  module _ (laws : IsLawful boundary) where
    reject-Trails :
        (trigger : IntakeTrigger) (reason : TriggerRejectionReason) (s u t : S) (o : IntakeOutcome)
        → boundary.rejected_triggers u ≡ boundary.rejected_triggers s
        → some (
            reject inherited json boundary sort max_pending_runs rejection_id signal_id now trigger
              reason u)
          ≡ some (t, o)
        → Trails trigger s t o
    reject-Trails trigger reason s u t o same h =
        let pair = some_inj h in
        subst (λ p. Trails trigger s p.0 p.1) pair
          (laws.appended (entry trigger reason) u ∙ ap (λ r. r ++ entry trigger reason ∷ []) same)

    keep-Trails :
        (trigger : IntakeTrigger) (s t : S) (o : IntakeOutcome)
        → boundary.rejected_triggers t ≡ boundary.rejected_triggers s
        → trail_of (entry trigger) o ≡ []
        → Trails trigger s t o
    keep-Trails trigger s t o same e =
        same
        ∙ sym (append-nil (boundary.rejected_triggers s))
        ∙ ap (λ r. boundary.rejected_triggers s ++ r) (sym e)

    intake_resume-Trails :
        (trigger : IntakeTrigger) (sent : Text × (Text × Value)) (s t : S) (o : IntakeOutcome)
        → intake_resume inherited json boundary sort max_pending_runs rejection_id signal_id now
            sent s
          ≡ some (t, o)
        → Trails trigger s t o
    unfolding intake_resume
    intake_resume-Trails trigger (name, (correlation_id, payload)) s t o h =
        let signal : Signal = record {
          id = signal_id;
          name = name;
          correlation_id = correlation_id;
          payload = payload;
        } in
        elim (Option-cases (boundary.resume_with_signal signal (boundary.append_signal signal s))) [
          | inl e ↦ absurd (none-ne-some (rw (e, resume_outcome) at h))
          | inr ((u, result), e) ↦
              let found : some (u, outcome_of_resume result) ≡ some (t, o) =
                rw (e, resume_outcome) at h in
              subst (λ p. Trails trigger s p.0 p.1) (some_inj found)
                (keep-Trails trigger s u (outcome_of_resume result)
                  (laws.resumes_apart signal (boundary.append_signal signal s) u result e
                    ∙ laws.signals_apart signal s)
                  (no_trail (entry trigger) result))
        ]

    start_outcome-Trails :
        (binding : TriggerBinding) (trigger : IntakeTrigger) (inputs : Fields) (s t : S)
        (o : IntakeOutcome)
        → start_outcome inherited json boundary sort max_pending_runs rejection_id signal_id now
            trigger
            (boundary.start_run
              (start_params inherited json boundary sort max_pending_runs rejection_id signal_id now
                binding trigger inputs)
              s)
          ≡ some (t, o)
        → Trails trigger s t o
    start_outcome-Trails binding trigger inputs s t o h =
        let params =
          start_params inherited json boundary sort max_pending_runs rejection_id signal_id now
            binding trigger inputs in
        elim (Option-cases (boundary.start_run params s)) [
          | inl e ↦ absurd (none-ne-some (rw (e, start_outcome) at h))
          | inr ((u, result), e) ↦ go u result (laws.starts_apart params s u result e) (
              subst
                (λ r.
                  start_outcome inherited json boundary sort max_pending_runs rejection_id signal_id
                    now trigger r
                  ≡ some (t, o))
                e h)
        ]
      where
        go :
            (u : S) (result : StartRunResult)
            → boundary.rejected_triggers u ≡ boundary.rejected_triggers s
            → start_outcome inherited json boundary sort max_pending_runs rejection_id signal_id now
                trigger
                (some (u, result))
              ≡ some (t, o)
            → Trails trigger s t o
        go u (run_started run_id) same h =
            subst (λ p. Trails trigger s p.0 p.1) (some_inj h)
              (keep-Trails trigger s u (started run_id) same refl)
        go u (run_queued run_id) same h =
            subst (λ p. Trails trigger s p.0 p.1) (some_inj h)
              (keep-Trails trigger s u (queued run_id) same refl)
        go u (run_rejected detail) same h =
            reject-Trails trigger concurrency_rejected s u t o same h

    intake_start-Trails :
        (binding : TriggerBinding) (trigger : IntakeTrigger) (s t : S) (o : IntakeOutcome)
        → intake_start inherited json boundary sort max_pending_runs rejection_id signal_id now
            binding trigger s
          ≡ some (t, o)
        → Trails trigger s t o
    unfolding intake_start
    intake_start-Trails binding trigger s t o h =
        let guarded = map guarded_of (boundary.runs s) in
        elim (Option-cases (is_poison_flagged sort guarded binding.workflow_id trigger.guarded)) [
          | inr (flag, e) ↦
              reject-Trails trigger poison_flagged s s t o refl (rw (e, intake_start) at h)
          | inl e ↦ elim (Bool-cases (is_over_backpressure_ceiling max_pending_runs guarded)) [
            | inl f ↦
                reject-Trails trigger backlog_ceiling s s t o refl (rw (e, f, intake_start) at h)
            | inr f ↦
                elim (Result-cases
                  (resolve_trigger_mapping inherited json binding.trigger_mapping trigger)) [
                    | inl (thrown, g) ↦
                        reject-Trails trigger input_mapping_failed s s t o refl
                          (rw (e, f, g, intake_start) at h)
                    | inr (inputs, g) ↦
                        start_outcome-Trails binding trigger inputs s t o
                          (rw (e, f, g, intake_start) at h)
                  ]
          ]
        ]

    -- The trail of rejected triggers behind a delivery is the one before it and, for a delivery that is
    -- rejected, one entry at its end with the trigger, its payload and the reason; no other outcome
    -- leaves an entry. Of the store and the engine it is asked that a rejection is appended to the trail,
    -- and that they leave it alone otherwise; a delivery that throws has no outcome.
    pub process_trigger_intake-trail :
        (binding : TriggerBinding) (adapted : AdaptedTrigger) (s t : S) (o : IntakeOutcome)
        → intake binding adapted s ≡ some (t, o)
        → Trails adapted.trigger s t o
    unfolding process_trigger_intake
    process_trigger_intake-trail binding adapted s t o h =
        elim (Bool-cases
          (was_delivered adapted.trigger.dedupe_key binding.workflow_id (boundary.runs s))) [
            | inl e ↦
                reject-Trails adapted.trigger duplicate_delivery s s t o refl
                  (rw (e, process_trigger_intake) at h)
            | inr e ↦ elim (Option-cases adapted.resume_signal) [
              | inr (sent, f) ↦
                  intake_resume-Trails adapted.trigger sent s t o
                    (rw (e, f, process_trigger_intake) at h)
              | inl f ↦
                  intake_start-Trails binding adapted.trigger s t o
                    (rw (e, f, process_trigger_intake) at h)
            ]
          ]
