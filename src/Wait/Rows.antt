-- ===== src/Wait/Rows.antt =====
-- What the transitions of packages/engine/src/wait/wait-machine.ts on an outstanding wait do to the rows
-- of waits.
use aart.Base.{
  ℕ, ◌≡◌, refl, subst, ap, sym, ◌∙◌, inl, inr, false, Option, none, some, List, [], ◌∷◌, Text, find,
  ok, >>=-eq-ok, ok_inj, Bool-cases, arith,
}
use aart.Wait.{
  approval, signal, webhook, external_job, queue, timer, manual, WaitCondition, StepTrace,
  RunRecord, Signal,
}
use aart.Wait.Audit.{redact_signal_audit}
use aart.Wait.Taint.{ReplayClaim, insert_new}
use aart.Wait.Store.{
  StoredSignal, is_unconsumed_match, find_unconsumed_match, change_signals, consume, audited,
  is_signal, ApprovalTask, Store, put_run, put_operational_state, get_approval, put_approval,
  mark_consumed, replace_audit,
}
use aart.Wait.Machine.{Layer, settle, take_signal}
use aart.Wait.Resume.{
  ResumeOutcome, ClaimArgs, complete, expire, expire_approval, expire_task, task_pending,
  take_signal_if,
}

-- No signal becomes one that a wait could have taken before.
abbrev pub Calms : Store → Store → Type 0
Calms s t =
    (name correlation_id : Text)
    → find_unconsumed_match name correlation_id s ≡ none
    → find_unconsumed_match name correlation_id t ≡ none

-- The rows of waits stay, and no signal comes.
abbrev pub Keeps : Store → Store → Type 0
Keeps s t = (t.waits ≡ s.waits) × Calms s t

pub Keeps-trans : (s t u : Store) → Keeps s t → Keeps t u → Keeps s u
Keeps-trans s t u (e, c) (f, d) = (f ∙ e, λ n k h. d n k (c n k h))

pub Keeps-same : (s t : Store) → t.waits ≡ s.waits → t.signals ≡ s.signals → Keeps s t
unfolding find_unconsumed_match
Keeps-same s t e f = (e, λ n k h. ap (find (is_unconsumed_match n k)) f ∙ h)

-- A change of signals that makes none match makes no search find one.
change_signals-calm :
    (id : Text) (f : StoredSignal → StoredSignal) (n k : Text)
    → ((r : StoredSignal)
        → is_unconsumed_match n k r ≡ false
        → is_unconsumed_match n k (f r) ≡ false)
    → (rows : List StoredSignal) → find (is_unconsumed_match n k) rows ≡ none
    → find (is_unconsumed_match n k) (change_signals id f rows) ≡ none
change_signals-calm id f n k quiet [] h = refl
change_signals-calm id f n k quiet (r ∷ rows) h = elim (Bool-cases (is_unconsumed_match n k r)) [
  | inl e ↦ absurd (ground arith)
  | inr e ↦
      let rest = change_signals-calm id f n k quiet rows (rw e at h) in
      elim (Bool-cases (is_signal id r)) [ inl g ↦ rw (g, quiet r e) rest | inr g ↦ rw (g, e) rest ]
]

consume-quiet :
    (run_id step_id n k : Text) (r : StoredSignal)
    → is_unconsumed_match n k r ≡ false
    → is_unconsumed_match n k (consume run_id step_id r) ≡ false
consume-quiet run_id step_id n k r h = refl

audited-quiet :
    (audit : Signal) (secrets : List Text) (n k : Text) (r : StoredSignal)
    → is_unconsumed_match n k r ≡ false
    → is_unconsumed_match n k (audited audit secrets r) ≡ false
audited-quiet audit secrets n k r h = h

module _ (layer : Layer) where
  pub settle-Keeps :
      (secrets : List Text) (replays : List ReplayClaim) (run : RunRecord) (s t : Store)
      (r : RunRecord)
      → settle layer secrets replays run s ≡ ok (t, r)
      → Keeps s t
  unfolding settle put_run put_operational_state
  settle-Keeps secrets replays run s t r h =
      let (repaired, done, last) = >>=-eq-ok (layer.revoke secrets run) _ h in
      Keeps-same s t (sym (ap (λ p. p.0.waits) (ok_inj last)))
        (sym (ap (λ p. p.0.signals) (ok_inj last)))

  pub take_signal_if-Keeps :
      (secrets : List Text) (sent : Option Signal) (run_id step_id : Text) (s : Store)
      → Keeps s (take_signal_if layer secrets sent run_id step_id s)
  unfolding take_signal mark_consumed replace_audit find_unconsumed_match
  take_signal_if-Keeps secrets none run_id step_id s = Keeps-same s s refl refl
  take_signal_if-Keeps secrets (some sent) run_id step_id s =
      let audit =
        redact_signal_audit (layer.redact_text secrets) (layer.redact_value secrets) sent in
      (
        refl,
        λ n k h.
            change_signals-calm sent.id (consume run_id step_id) n k
              (consume-quiet run_id step_id n k) _
              (change_signals-calm sent.id (audited audit secrets) n k
                (audited-quiet audit secrets n k) s.signals h),
      )

  pub complete-Keeps :
      (args : ClaimArgs) (now : ℕ) (secrets : List Text) (trace : List StepTrace) (run : RunRecord)
      (s t : Store) (o : ResumeOutcome)
      → complete layer args now secrets trace run s ≡ ok (t, o)
      → Keeps s t
  unfolding complete
  complete-Keeps args now secrets trace run s t o h =
      let (prepared, a, h1) = >>=-eq-ok (args.prepare_completed_run _ args.step_id s) _ h in
      let known = insert_new secrets prepared.1 in
      let (settled, b, h2) = >>=-eq-ok (settle layer known [] prepared.0 _) _ h1 in
      let last = settle-Keeps known [] prepared.0 _ settled.0 settled.1 b in
      subst (Keeps s) (ap (λ p. p.0) (ok_inj h2)) (
        Keeps-trans s _ settled.0
          (take_signal_if-Keeps known args.signal_audit args.run_id args.step_id s) last)

  expire_task-Keeps :
      (now : ℕ) (task : Option ApprovalTask) (s : Store) → Keeps s (expire_task layer now task s)
  unfolding put_approval
  expire_task-Keeps now none s = Keeps-same s s refl refl
  expire_task-Keeps now (some t) s = elim (Bool-cases (task_pending layer t)) [
    | inl e ↦ rw e (Keeps-same s _ refl refl)
    | inr e ↦ rw e (Keeps-same s _ refl refl)
  ]

  expire_approval-Keeps :
      (now : ℕ) (wait : WaitCondition) (s : Store) → Keeps s (expire_approval layer now wait s)
  expire_approval-Keeps now (approval task_id timeout version) s =
      expire_task-Keeps now (get_approval task_id s) s
  expire_approval-Keeps now (signal name correlation_id timeout version) s =
      Keeps-same s s refl refl
  expire_approval-Keeps now (webhook event correlation_id timeout version) s =
      Keeps-same s s refl refl
  expire_approval-Keeps now (external_job provider job_id timeout version) s =
      Keeps-same s s refl refl
  expire_approval-Keeps now (queue name correlation_id timeout version) s = Keeps-same s s refl refl
  expire_approval-Keeps now (timer resume_at version) s = Keeps-same s s refl refl
  expire_approval-Keeps now (manual timeout version) s = Keeps-same s s refl refl

  pub expire-Keeps :
      (run_id : Text) (wait : WaitCondition) (now : ℕ) (secrets : List Text)
      (trace : List StepTrace) (run : RunRecord) (s t : Store) (o : ResumeOutcome)
      → expire layer run_id wait now secrets trace run s ≡ ok (t, o)
      → Keeps s t
  unfolding expire
  expire-Keeps run_id wait now secrets trace run s t o h =
      let (settled, b, h1) =
        >>=-eq-ok (settle layer secrets [] _ (expire_approval layer now wait s)) _ h in
      let last = settle-Keeps secrets [] _ _ settled.0 settled.1 b in
      subst (Keeps s) (ap (λ p. p.0) (ok_inj h1))
        (Keeps-trans s _ settled.0 (expire_approval-Keeps now wait s) last)
