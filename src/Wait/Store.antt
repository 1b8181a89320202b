-- ===== src/Wait/Store.antt =====
-- packages/store/src/adapters/fs/waits.ts, signals.ts and runs.ts
--
-- A collection is the list of its rows; the order of the rows carries no meaning. What is sealed on the
-- disk is held open here: `wait` and `signal` are the operational copies, `audit` the visible ones. A
-- fingerprint of a name and a correlation id is the pair itself.
use aart.Base.{
  ℕ, Bool, true, false, not, ◌&&◌, Option, none, some, List, [], ◌∷◌, ◌++◌, map, Text, text_eq,
  filter, find, any, if◌then◌else◌, map_option,
}
use aart.Wait.{
  WaitCondition, wait_signal_correlation, timer, RunRecord, Signal, approval, signal, webhook,
  external_job, queue, manual,
}
use aart.Wait.Taint.{RunState, insert_new}
use Prim.Native.Nat.{compare, Ordering}

pub record StoredWait : Type 0 where
  pub run_id : Text
  pub step_id : Text
  pub wait : WaitCondition
  pub audit : WaitCondition
  pub state : Option RunState
  pub created_at : ℕ

pub record StoredSignal : Type 0 where
  pub signal : Signal
  pub audit : Signal
  pub secrets : List Text
  pub consumed : Bool
  pub consumed_by : Option (Text × Text)

pub data TaskStatus : Type 0 where
  pending approved rejected needs_changes expired : TaskStatus

pub record ApprovalTask : Type 0 where
  pub id : Text
  pub status : TaskStatus
  pub decided_at : Option ℕ

pub record ActiveState : Type 0 where
  pub run_id : Text
  pub state : RunState

pub record Store : Type 0 where
  pub runs : List RunRecord
  pub dedupe_consumed : List (Text × Text)
  pub active : List ActiveState
  pub waits : List StoredWait
  pub signals : List StoredSignal
  pub approvals : List ApprovalTask

-- `FsRunStore`
abbrev pub is_run : Text → RunRecord → Bool
is_run run_id r = text_eq r.run_id run_id

unfoldable pub get_run : Text → Store → Option RunRecord
get_run run_id s = find (is_run run_id) s.runs

unfoldable pub put_run : RunRecord → Store → Store
put_run run s = record s { runs = run ∷ filter (λ r. not (is_run run.run_id r)) s.runs }

abbrev pub is_key : Text → Text → Text × Text → Bool
is_key run_id dedupe_key (r, k) = text_eq r run_id && text_eq k dedupe_key

unfoldable pub has_dedupe_key : Text → Text → Store → Bool
has_dedupe_key run_id dedupe_key s = any (is_key run_id dedupe_key) s.dedupe_consumed

unfoldable pub record_dedupe_key : Text → Text → Store → Store
record_dedupe_key run_id dedupe_key s = record s {
  dedupe_consumed =
      if any (is_key run_id dedupe_key) s.dedupe_consumed
      then s.dedupe_consumed
      else s.dedupe_consumed ++ (run_id, dedupe_key) ∷ [];
}

abbrev pub is_active : Text → ActiveState → Bool
is_active run_id a = text_eq a.run_id run_id

abbrev pub state_of_active : ActiveState → RunState
state_of_active a = a.state

unfoldable pub get_operational_state : Text → Store → Option RunState
get_operational_state run_id s = map_option state_of_active (find (is_active run_id) s.active)

unfoldable pub delete_operational_state : Text → Store → Store
delete_operational_state run_id s = record s {
  active = filter (λ a. not (is_active run_id a)) s.active;
}

unfoldable pub put_operational_state : Text → RunState → Store → Store
put_operational_state run_id state s = record s {
  active =
      record { run_id = run_id; state = state } ∷ filter (λ a. not (is_active run_id a)) s.active;
}

-- `FsWaitStore`
abbrev pub is_row : Text → Text → StoredWait → Bool
is_row run_id step_id w = text_eq w.run_id run_id && text_eq w.step_id step_id

unfoldable pub get_wait : Text → Text → Store → Option StoredWait
get_wait run_id step_id s = find (is_row run_id step_id) s.waits

unfoldable pub delete_wait : Text → Text → Store → Store
delete_wait run_id step_id s = record s {
  waits = filter (λ w. not (is_row run_id step_id w)) s.waits;
}

unfoldable pub put_wait : StoredWait → Store → Store
put_wait w s = record s { waits = w ∷ filter (λ v. not (is_row w.run_id w.step_id v)) s.waits }

abbrev pub same_correlation : Text → Text → Option (Text × Text) → Bool
same_correlation name correlation_id none = false
same_correlation name correlation_id (some (n, c)) = text_eq n name && text_eq c correlation_id

-- The test of `findSignalMatches`.
abbrev pub waits_for : Text → Text → StoredWait → Bool
waits_for name correlation_id w =
    same_correlation name correlation_id (wait_signal_correlation w.wait)

unfoldable pub find_signal_matches : Text → Text → Store → List StoredWait
find_signal_matches name correlation_id s = filter (waits_for name correlation_id) s.waits

-- `<=` of two texts, by their code units.
abbrev pub text_leb : Text → Text → Bool
text_leb [] t = true
text_leb (c ∷ s) [] = false
text_leb (c ∷ s) (d ∷ t) =
    let rest = text_leb s t in
    elim (compare c d) [ Ordering.lt ↦ true | Ordering.eq ↦ rest | Ordering.gt ↦ false ]

-- The test of `listDue`.
abbrev pub is_due : Text → WaitCondition → Bool
is_due now (timer resume_at version) = text_leb resume_at now
is_due now (approval task_id timeout version) = false
is_due now (signal name correlation_id timeout version) = false
is_due now (webhook event correlation_id timeout version) = false
is_due now (external_job provider job_id timeout version) = false
is_due now (queue name correlation_id timeout version) = false
is_due now (manual timeout version) = false

unfoldable pub list_due : Text → Store → List StoredWait
list_due now s = filter (λ w. is_due now w.wait) s.waits

-- `FsSignalStore`
unfoldable pub append_signal : Signal → Store → Store
append_signal sent s = record s {
  signals =
      record { signal = sent; audit = sent; secrets = []; consumed = false; consumed_by = none }
      ∷ s.signals;
}

-- The test of `findUnconsumedMatch`.
abbrev pub is_unconsumed_match : Text → Text → StoredSignal → Bool
is_unconsumed_match name correlation_id r =
    not r.consumed && (text_eq r.signal.name name && text_eq r.signal.correlation_id correlation_id)

unfoldable pub find_unconsumed_match : Text → Text → Store → Option StoredSignal
find_unconsumed_match name correlation_id s =
    find (is_unconsumed_match name correlation_id) s.signals

abbrev pub is_signal : Text → StoredSignal → Bool
is_signal id r = text_eq r.signal.id id

abbrev pub unconsumed_secrets : Option StoredSignal → List Text
unconsumed_secrets none = []
unconsumed_secrets (some r) = if r.consumed then [] else r.secrets

unfoldable pub get_operational_secret_values : Text → Store → List Text
get_operational_secret_values id s = unconsumed_secrets (find (is_signal id) s.signals)

abbrev pub change_signals :
    Text → (StoredSignal → StoredSignal) → List StoredSignal → List StoredSignal
change_signals id f rows = map (λ r. if is_signal id r then f r else r) rows

-- The row that `replaceAudit` leaves.
abbrev pub audited : Signal → List Text → StoredSignal → StoredSignal
audited audit secrets r = record r {
  audit = audit;
  secrets = if r.consumed then r.secrets else insert_new r.secrets secrets;
}

unfoldable pub replace_audit : Text → Signal → List Text → Store → Store
replace_audit id audit secrets s = record s {
  signals = change_signals id (audited audit secrets) s.signals;
}

-- The row that `markConsumed` leaves.
abbrev pub consume : Text → Text → StoredSignal → StoredSignal
consume run_id step_id r = record r { consumed = true; consumed_by = some (run_id, step_id) }

unfoldable pub mark_consumed : Text → Text → Text → Store → Store
mark_consumed id run_id step_id s = record s {
  signals = change_signals id (consume run_id step_id) s.signals;
}

-- The approvals of the store, by id.
abbrev pub is_task : Text → ApprovalTask → Bool
is_task id t = text_eq t.id id

unfoldable pub get_approval : Text → Store → Option ApprovalTask
get_approval id s = find (is_task id) s.approvals

unfoldable pub put_approval : ApprovalTask → Store → Store
put_approval task s = record s {
  approvals = task ∷ filter (λ t. not (is_task task.id t)) s.approvals;
}
