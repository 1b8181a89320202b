-- ===== src/Wait/Delivery.antt =====
-- The delivery of a signal, which packages/server/src/triggers/intake.ts stores before the machine of
-- packages/engine/src/wait/wait-machine.ts resumes by it
use aart.Base.{
  ℕ, ◌≡◌, refl, subst, ap, sym, ◌∙◌, ◌⊎◌, inl, inr, true, false, not, some, List, [], ◌∷◌, Text,
  filter, ok, ok_inj, err-ne-ok, >>=-eq-ok, Bool-cases, Option-cases,
}
use aart.Wait.{Signal, StepTrace, RunRecord, version_of}
use aart.Wait.Taint.{insert_new}
use aart.Wait.Store.{
  StoredWait, Store, is_row, get_run, get_wait, delete_wait, record_dedupe_key, has_dedupe_key,
  find_signal_matches, append_signal, waits_for,
}
use aart.Wait.Machine.{Prepare, Layer, settle}
use aart.Wait.Resume.{
  ResumeOutcome, Transition, ClaimArgs, assert_schema_version, update_waiting, dedupe_key,
  claim_row, is_completed, complete, claim_and_complete_wait, take_signal_if,
}
use aart.Wait.Mechanisms.{resume_match, resume_by_signal}
use aart.Wait.Rows.{complete-Keeps}
use aart.Wait.Claims.{resumes, without_row-resumes}
use aart.Wait.Entry.{IsTaken, settle-IsTaken, take_signal-IsTaken}

module _ (layer : Layer) where
  -- What a claim does with the signal it is for: nothing at all, or it resumes the run, consumes the
  -- signal and removes the row of the wait and no other.
  abbrev pub Claimed : Signal → Text → Text → Store → Store → ResumeOutcome → Type 0
  Claimed sent run_id step_id s t o =
      ((t ≡ s) × (resumes o ≡ false))
      ⊎ ((resumes o ≡ true)
          × ((t.waits ≡ filter (λ w. not (is_row run_id step_id w)) s.waits) × IsTaken sent.id t))

  complete-IsTaken :
      (args : ClaimArgs) (sent : Signal) (now : ℕ) (secrets : List Text) (trace : List StepTrace)
      (run : RunRecord) (s t : Store) (o : ResumeOutcome)
      → args.signal_audit ≡ some sent
      → complete layer args now secrets trace run s ≡ ok (t, o)
      → (resumes o ≡ true) × ((t.waits ≡ s.waits) × IsTaken sent.id t)
  unfolding complete
  complete-IsTaken args sent now secrets trace run s t o audit h =
      let (prepared, a, h1) = >>=-eq-ok (args.prepare_completed_run _ args.step_id s) _ h in
      let known = insert_new secrets prepared.1 in
      let (settled, b, h2) = >>=-eq-ok (settle layer known [] prepared.0 _) _ h1 in
      let same = ok_inj h2 in
      let taken : IsTaken sent.id
          (take_signal_if layer known args.signal_audit args.run_id args.step_id s) =
        subst (λ x. IsTaken sent.id (take_signal_if layer known x args.run_id args.step_id s))
          (sym audit) (take_signal-IsTaken layer known sent args.run_id args.step_id s).0 in
      (
        sym (ap (λ p. resumes p.1) same),
        (
          (complete-Keeps layer args now secrets trace run s t o h).0,
          subst (IsTaken sent.id) (ap (λ p. p.0) same)
              (settle-IsTaken layer sent.id known [] prepared.0 _ settled.0 settled.1 b taken),
        ),
      )

  claim_row-Claimed :
      (args : ClaimArgs) (sent : Signal) (row : StoredWait) (run : RunRecord) (now : ℕ)
      (secrets : List Text) (change : StepTrace → StepTrace) (s t : Store) (o : ResumeOutcome)
      → args.signal_audit ≡ some sent
      → claim_row layer args.run_id args.step_id args.dedupe_key_suffix row run change
          (complete layer args now secrets)
          s
        ≡ ok (t, o)
      → Claimed sent args.run_id args.step_id s t o
  unfolding claim_row delete_wait record_dedupe_key
  claim_row-Claimed args sent row run now secrets change s t o audit h =
      let (a, b, h1) = >>=-eq-ok (assert_schema_version run.schema_version) _ h in
      let (c, d, h2) = >>=-eq-ok (assert_schema_version (version_of row.wait)) _ h1 in
      elim (Option-cases (update_waiting args.step_id change run.trace)) [
        | inl e ↦ absurd (err-ne-ok (rw e at h2))
        | inr ((entry, trace), e) ↦
            let key = dedupe_key layer args.step_id entry.seq args.dedupe_key_suffix in
            elim (Bool-cases (has_dedupe_key args.run_id key s)) [
              | inl k ↦
                  let same = ok_inj (rw (e, k) at h2) in
                  inl (sym (ap (λ p. p.0) same), sym (ap (λ p. resumes p.1) same))
              | inr k ↦ inr (
                  complete-IsTaken args sent now secrets trace run
                    (delete_wait args.run_id args.step_id (record_dedupe_key args.run_id key s)) t o
                    audit (rw (e, k) at h2))
            ]
      ]

  kept-Claimed :
      (sent : Signal) (run_id step_id : Text) (s t : Store) (o p : ResumeOutcome)
      → ◌≡◌ {A = Transition} (ok (s, p)) (ok (t, o))
      → resumes p ≡ false
      → Claimed sent run_id step_id s t o
  kept-Claimed sent run_id step_id s t o p h r =
      let same = ok_inj h in inl (sym (ap (λ q. q.0) same), sym (ap (λ q. resumes q.1) same) ∙ r)

  claim-Claimed :
      (args : ClaimArgs) (sent : Signal) (now : ℕ) (s t : Store) (o : ResumeOutcome)
      → args.signal_audit ≡ some sent
      → claim_and_complete_wait layer args now s ≡ ok (t, o)
      → Claimed sent args.run_id args.step_id s t o
  unfolding claim_and_complete_wait
  claim-Claimed args sent now s t o audit h = elim (Option-cases (get_run args.run_id s)) [
    | inl e ↦ kept-Claimed sent _ _ s t o _ (rw (e, claim_and_complete_wait) at h) refl
    | inr (public_run, e) ↦ elim (Option-cases (get_wait args.run_id args.step_id s)) [
      | inl f ↦
          kept-Claimed sent _ _ s t o _ (rw (e, f, claim_and_complete_wait) at h)
            (without_row-resumes layer args.step_id is_completed public_run)
      | inr (row, f) ↦
          claim_row-Claimed args sent row _ now _ _ s t o audit
            (rw (e, f, claim_and_complete_wait) at h)
    ]
  ]

  -- What a delivery does: it stores the signal and nothing else, or one wait alone is for the signal, and
  -- the claim of it resumes its run, consumes the signal and removes its row and no other.
  abbrev pub Delivered : Signal → Store → Store → ResumeOutcome → Type 0
  Delivered sent s t o =
      ((t ≡ append_signal sent s) × (resumes o ≡ false))
      ⊎ ((resumes o ≡ true)
          × ((w : StoredWait) × ((find_signal_matches sent.name sent.correlation_id s ≡ w ∷ [])
                × ((t.waits ≡ filter (λ v. not (is_row w.run_id w.step_id v)) s.waits)
                    × IsTaken sent.id t))))

  match-Delivered :
      (sent : Signal) (secrets : List Text) (prepare : Prepare) (now : ℕ) (ws : List StoredWait)
      (s t : Store) (o : ResumeOutcome)
      → find_signal_matches sent.name sent.correlation_id s ≡ ws
      → resume_match layer sent secrets prepare now ws (append_signal sent s) ≡ ok (t, o)
      → Delivered sent s t o
  unfolding append_signal
  match-Delivered sent secrets prepare now [] s t o f h =
      let same = ok_inj h in inl (sym (ap (λ q. q.0) same), sym (ap (λ q. resumes q.1) same))
  match-Delivered sent secrets prepare now (w ∷ v ∷ ws) s t o f h = absurd (err-ne-ok h)
  match-Delivered sent secrets prepare now (w ∷ []) s t o f h =
      elim (claim-Claimed _ sent now (append_signal sent s) t o refl h) [
        | inl nothing ↦ inl nothing
        | inr (resumed_now, (rows, taken)) ↦ inr (resumed_now, (w, (f, (rows, taken))))
      ]

-- A delivery that commits, of a signal just stored, does one of two things. It resumes no run and leaves
-- the store with the signal in it and otherwise as it was; or exactly one wait was for the signal, its
-- run is resumed, its row and no other is removed, and the signal is consumed. What a revocation writes
-- to other records is outside of this.
pub resume_by_signal-Delivered :
    (layer : Layer) (sent : Signal) (secrets : List Text) (prepare : Prepare) (now : ℕ)
    (s t : Store) (o : ResumeOutcome)
    → resume_by_signal layer sent secrets prepare now (append_signal sent s) ≡ ok (t, o)
    → Delivered layer sent s t o
unfolding resume_by_signal find_signal_matches append_signal
resume_by_signal-Delivered layer sent secrets prepare now s t o h =
    match-Delivered layer sent secrets prepare now
      (filter (waits_for sent.name sent.correlation_id) s.waits) s t o refl h
