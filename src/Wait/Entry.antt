-- ===== src/Wait/Entry.antt =====
-- An entry into a wait looks for a signal that has come before: packages/engine/src/wait/wait-machine.ts
use aart.Base.{
  ℕ, ◌≡◌, refl, subst, ap, sym, ◌∙◌, ◌⊎◌, inl, inr, true, false, not, ◌||◌, Option, none, some,
  List, [], ◌∷◌, Text, text_eq_self, All, ok, ok_inj, >>=-eq-ok, Bool-cases, Option-cases,
}
use aart.Wait.{Signal, RunRecord}
use aart.Wait.Audit.{redact_wait_audit}
use aart.Wait.Taint.{
  ReplayClaim, RunState, merge_operational_run_taint, merge_active_run_protection,
  merge_persisted_run_taint,
}
use aart.Wait.Store.{
  get_operational_state, StoredWait, StoredSignal, Store, is_signal, get_run, get_wait, put_wait,
  put_run, delete_operational_state, put_operational_state, find_unconsumed_match, change_signals,
  consume, mark_consumed, replace_audit,
}
use aart.Wait.Machine.{Layer, settle, take_signal}
use aart.Wait.Enter.{
  EnterWaitOptions, EnterWaitResult, early_signal, enter_early, enter_suspended, enter_wait,
}

-- Every signal of the store with an id is consumed.
abbrev pub IsTaken : Text → Store → Type 0
IsTaken id s = All (λ q. (not (is_signal id q) || q.consumed) ≡ true) s.signals

change_signals-All :
    (id run_id step_id : Text) (rows : List StoredSignal)
    → All
        (λ q. (not (is_signal id q) || q.consumed) ≡ true)
        (change_signals id (consume run_id step_id) rows)
change_signals-All id run_id step_id [] = tt
change_signals-All id run_id step_id (r ∷ rows) = elim (Bool-cases (is_signal id r)) [
  | inl e ↦ rw e (rw e refl, change_signals-All id run_id step_id rows)
  | inr e ↦ rw e (rw e refl, change_signals-All id run_id step_id rows)
]

merge_active-id :
    (o : Option RunState) (r : RunRecord) → (merge_active_run_protection o r).run_id ≡ r.run_id
unfolding merge_active_run_protection merge_operational_run_taint
merge_active-id none r = refl
merge_active-id (some a) r = refl

merge_persisted-id :
    (o : Option RunRecord) (r : RunRecord) → (merge_persisted_run_taint o r).run_id ≡ r.run_id
unfolding merge_persisted_run_taint merge_operational_run_taint
merge_persisted-id none r = refl
merge_persisted-id (some a) r = refl

module _ (layer : Layer) where
  settle-signals :
      (secrets : List Text) (replays : List ReplayClaim) (run : RunRecord) (s t : Store)
      (r : RunRecord)
      → settle layer secrets replays run s ≡ ok (t, r)
      → (t.signals ≡ s.signals) × (t.waits ≡ s.waits)
  unfolding settle put_run put_operational_state
  settle-signals secrets replays run s t r h =
      let (repaired, done, last) = >>=-eq-ok (layer.revoke secrets run) _ h in
      (sym (ap (λ p. p.0.signals) (ok_inj last)), sym (ap (λ p. p.0.waits) (ok_inj last)))

  pub take_signal-IsTaken :
      (secrets : List Text) (sent : Signal) (run_id step_id : Text) (s : Store)
      → IsTaken sent.id (take_signal layer secrets sent run_id step_id s)
        × ((take_signal layer secrets sent run_id step_id s).waits ≡ s.waits)
  unfolding take_signal mark_consumed replace_audit
  take_signal-IsTaken secrets sent run_id step_id s =
      (change_signals-All sent.id run_id step_id _, refl)

  pub settle-IsTaken :
      (id : Text) (secrets : List Text) (replays : List ReplayClaim) (run : RunRecord) (s t : Store)
      (r : RunRecord)
      → settle layer secrets replays run s ≡ ok (t, r)
      → IsTaken id s
      → IsTaken id t
  settle-IsTaken id secrets replays run s t r h taken =
      subst (All (λ q. (not (is_signal id q) || q.consumed) ≡ true))
        (sym (settle-signals secrets replays run s t r h).0) taken

  -- What an entry into a wait does: it suspends the run, adds the row of the wait, and no signal for the
  -- wait lies unconsumed; or one does, and it is consumed and no row is added.
  abbrev pub Entered : EnterWaitOptions → Store → Store → EnterWaitResult → Type 0
  Entered options s t r =
      ((r.suspended ≡ true)
        × ((early_signal options.wait s ≡ none)
            × ((early_signal options.wait t ≡ none)
                × ((row : StoredWait) × ((get_wait options.run.run_id options.step_id t ≡ some row)
                      × (row.wait ≡ options.wait))))))
      ⊎ ((r.suspended ≡ false)
          × ((found : StoredSignal) × ((early_signal options.wait s ≡ some found)
                × (IsTaken found.signal.id t × (t.waits ≡ s.waits)))))

  enter_suspended-Entered :
      (options : EnterWaitOptions) (now : ℕ) (secrets : List Text) (run : RunRecord) (s t : Store)
      (r : EnterWaitResult)
      → run.run_id ≡ options.run.run_id
      → early_signal options.wait s ≡ none
      → enter_suspended layer options now secrets run s ≡ ok (t, r)
      → Entered options s t r
  unfolding enter_suspended put_wait put_run delete_operational_state find_unconsumed_match get_wait
  enter_suspended-Entered options now secrets run s t r id e h =
      let (repaired, a, h1) = >>=-eq-ok (layer.revoke secrets _) _ h in
      let same = ok_inj h1 in
      let row : StoredWait = record {
        run_id = run.run_id;
        step_id = options.step_id;
        wait = options.wait;
        audit = redact_wait_audit (layer.redact_text secrets) options.wait;
        state = some (record { run = repaired; secrets = secrets; replays = [] });
        created_at = now;
      } in
      let found : (row : StoredWait) × ((get_wait run.run_id options.step_id t ≡ some row)
            × (row.wait ≡ options.wait)) =
        subst
          (λ u.
            (row : StoredWait) × ((get_wait run.run_id options.step_id u ≡ some row)
              × (row.wait ≡ options.wait)))
          (ap (λ p. p.0) same)
          (row, (rw (text_eq_self run.run_id, text_eq_self options.step_id) refl, refl)) in
      inl (
        sym (ap (λ p. p.1.suspended) same),
        (
          e,
          (
            subst (λ u. early_signal options.wait u ≡ none) (ap (λ p. p.0) same) e,
            subst
                (λ x.
                  (row : StoredWait) × ((get_wait x options.step_id t ≡ some row)
                    × (row.wait ≡ options.wait)))
                id found,
          ),
        ),
      )

  enter_early-Entered :
      (options : EnterWaitOptions) (now : ℕ) (secrets : List Text) (replays : List ReplayClaim)
      (run : RunRecord) (found : StoredSignal) (s t : Store) (r : EnterWaitResult)
      → early_signal options.wait s ≡ some found
      → enter_early layer options now secrets replays run found.signal s ≡ ok (t, r)
      → Entered options s t r
  unfolding enter_early
  enter_early-Entered options now secrets replays run found s t r e h =
      let (prepared, a, h1) =
        >>=-eq-ok (options.prepare_early_arrival_run _ options.step_id s) _ h in
      let (settled, b, h2) = >>=-eq-ok (settle layer _ replays prepared.0 _) _ h1 in
      let same = ok_inj h2 in
      let (taken, rows) = take_signal-IsTaken _ found.signal _ options.step_id s in
      let ends =
        settle-IsTaken found.signal.id _ replays prepared.0 _ settled.0 settled.1 b taken in
      let kept = (settle-signals _ replays prepared.0 _ settled.0 settled.1 b).1 in
      inr (
        sym (ap (λ p. p.1.suspended) same),
        (
          found,
          (
            e,
            (
              subst (IsTaken found.signal.id) (ap (λ p. p.0) same) ends,
              sym (ap (λ p. p.0.waits) same) ∙ kept ∙ rows,
            ),
          ),
        ),
      )

  -- An entry into a wait that commits does one of two things. It suspends the run, the row of the wait is
  -- then stored, and no signal for the wait lies unconsumed; or there was such a signal, and the run goes
  -- on: the signal is consumed, and no row of a wait comes or goes.
  -- What a revocation writes to other records is outside of this.
  pub enter_wait-Entered :
      (options : EnterWaitOptions) (now : ℕ) (s t : Store) (r : EnterWaitResult)
      → enter_wait layer options now s ≡ ok (t, r)
      → Entered options s t r
  unfolding enter_wait merge_active_run_protection merge_persisted_run_taint
      merge_operational_run_taint
  enter_wait-Entered options now s t r h =
      let active = get_operational_state options.run.run_id s in
      let aware = merge_active_run_protection active options.run in
      elim (Option-cases (early_signal options.wait s)) [
        | inl e ↦
            enter_suspended-Entered options now _ _ s t r
              (merge_persisted-id (get_run aware.run_id s) aware
                ∙ merge_active-id active options.run)
              e (rw (e, enter_wait) at h)
        | inr (found, e) ↦
            enter_early-Entered options now _ _ _ found s t r e (rw (e, enter_wait) at h)
      ]
