-- ===== src/Wait/Claims.antt =====
-- A claim of an outstanding wait and its expiry remove the row of the wait and no other:
-- packages/engine/src/wait/wait-machine.ts
use aart.Base.{
  ℕ, any, ◌≡◌, refl, ap, sym, ◌∙◌, ◌⊎◌, inl, inr, Bool, true, false, not, ◌&&◌, List, Text, text_eq,
  filter, ok, >>=-eq-ok, ok_inj, err-ne-ok, Bool-cases, Option-cases,
}
use aart.Wait.{StepStatus, StepTrace, RunRecord, version_of}
use aart.Wait.Store.{
  find_unconsumed_match, StoredWait, Store, get_run, get_wait, delete_wait, record_dedupe_key,
  has_dedupe_key, is_row,
}
use aart.Wait.Machine.{Layer}
use aart.Wait.Resume.{
  is_completed, is_ended, ResumeOutcome, resumed, duplicate, unmatched, Transition, ClaimArgs,
  assert_schema_version, update_waiting, dedupe_key, claim_row, without_row,
  claim_and_complete_wait, fail_expired_wait,
}
use aart.Wait.Rows.{Calms, Keeps, complete-Keeps, expire-Keeps}

abbrev pub resumes : ResumeOutcome → Bool
resumes (resumed run) = true
resumes duplicate = false
resumes unmatched = false

-- What a transition does to the rows of waits: it leaves the store as it is and resumes nothing, or it
-- removes the row of the wait and no other.
abbrev pub Touches : Text → Text → Store → Store → ResumeOutcome → Type 0
Touches run_id step_id s t o =
    ((t ≡ s) × (resumes o ≡ false))
    ⊎ (t.waits ≡ filter (λ w. not (is_row run_id step_id w)) s.waits) × Calms s t

module _ (layer : Layer) where
  claim_row-Touches :
      (run_id step_id suffix : Text) (row : StoredWait) (run : RunRecord)
      (change : StepTrace → StepTrace) (finish : List StepTrace → RunRecord → Store → Transition)
      (s t : Store) (o : ResumeOutcome)
      → ((trace : List StepTrace) (u v : Store) (p : ResumeOutcome)
          → finish trace run u ≡ ok (v, p)
          → Keeps u v)
      → claim_row layer run_id step_id suffix row run change finish s ≡ ok (t, o)
      → Touches run_id step_id s t o
  unfolding claim_row delete_wait record_dedupe_key find_unconsumed_match
  claim_row-Touches run_id step_id suffix row run change finish s t o keeps h =
      let (a, b, h1) = >>=-eq-ok (assert_schema_version run.schema_version) _ h in
      let (c, d, h2) = >>=-eq-ok (assert_schema_version (version_of row.wait)) _ h1 in
      elim (Option-cases (update_waiting step_id change run.trace)) [
        | inl e ↦ absurd (err-ne-ok (rw e at h2))
        | inr ((entry, trace), e) ↦
            elim (Bool-cases
              (has_dedupe_key run_id (dedupe_key layer step_id entry.seq suffix) s)) [
                | inl k ↦
                    let same = ok_inj (rw (e, k) at h2) in
                    inl (sym (ap (λ p. p.0) same), sym (ap (λ p. resumes p.1) same))
                | inr k ↦ inr (
                    keeps trace
                      (delete_wait run_id step_id
                        (record_dedupe_key run_id (dedupe_key layer step_id entry.seq suffix) s))
                      t o (rw (e, k) at h2))
              ]
      ]

  pub without_row-resumes :
      (step_id : Text) (ended : StepStatus → Bool) (run : RunRecord)
      → resumes (without_row layer step_id ended run) ≡ false
  without_row-resumes step_id ended run =
      elim (Bool-cases (any (λ t. text_eq t.step_id step_id && ended t.status) run.trace)) [
        | inl e ↦ rw e refl
        | inr e ↦ rw e refl
      ]

  kept :
      (run_id step_id : Text) (s t : Store) (o p : ResumeOutcome)
      → ◌≡◌ {A = Transition} (ok (s, p)) (ok (t, o))
      → resumes p ≡ false
      → Touches run_id step_id s t o
  kept run_id step_id s t o p h r =
      let same = ok_inj h in inl (sym (ap (λ q. q.0) same), sym (ap (λ q. resumes q.1) same) ∙ r)

  pub claim_and_complete_wait-Touches :
      (args : ClaimArgs) (now : ℕ) (s t : Store) (o : ResumeOutcome)
      → claim_and_complete_wait layer args now s ≡ ok (t, o)
      → Touches args.run_id args.step_id s t o
  unfolding claim_and_complete_wait
  claim_and_complete_wait-Touches args now s t o h = elim (Option-cases (get_run args.run_id s)) [
    | inl e ↦ kept _ _ s t o _ (rw (e, claim_and_complete_wait) at h) refl
    | inr (public_run, e) ↦ elim (Option-cases (get_wait args.run_id args.step_id s)) [
      | inl f ↦
          kept _ _ s t o _ (rw (e, f, claim_and_complete_wait) at h)
            (without_row-resumes args.step_id is_completed public_run)
      | inr (row, f) ↦
          claim_row-Touches args.run_id args.step_id _ row _ _ _ s t o
            (λ trace. complete-Keeps layer args now _ trace _)
            (rw (e, f, claim_and_complete_wait) at h)
    ]
  ]

  pub fail_expired_wait-Touches :
      (error_message : Text → Text) (run_id step_id : Text) (secrets : List Text) (now : ℕ)
      (s t : Store) (o : ResumeOutcome)
      → fail_expired_wait layer error_message run_id step_id secrets now s ≡ ok (t, o)
      → Touches run_id step_id s t o
  unfolding fail_expired_wait
  fail_expired_wait-Touches error_message run_id step_id secrets now s t o h =
      elim (Option-cases (get_run run_id s)) [
        | inl e ↦ kept _ _ s t o _ (rw (e, fail_expired_wait) at h) refl
        | inr (public_run, e) ↦ elim (Option-cases (get_wait run_id step_id s)) [
          | inl f ↦
              kept _ _ s t o _ (rw (e, f, fail_expired_wait) at h)
                (without_row-resumes step_id (is_ended layer) public_run)
          | inr (row, f) ↦
              claim_row-Touches run_id step_id _ row _ _ _ s t o
                (λ trace. expire-Keeps layer run_id row.wait now _ trace _)
                (rw (e, f, fail_expired_wait) at h)
        ]
      ]
