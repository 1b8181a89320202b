-- ===== src/Wait/Tests/Listings.antt =====
-- The listings of waits and the merging of taint, at concrete inputs.
use aart.Base.{
  Bool, if◌then◌else◌, ◌≡◌, refl, inl, true, false, none, some, List, [], ◌∷◌, Text, codes, ok, err,
  Member, ◌↔◌, map,
}
use aart.Resolver.{null}
use aart.Expr.{span, number_from}
use aart.Duration.{parse_duration_ms}
use aart.Wait.{StepTrace, StepStatus, manual, RunRecord, WaitError}
use aart.Wait.Taint.{merge_operational_run_taint}
use aart.Wait.Taint.Growth.{IsSameEntry, HasMarks, merge_operational_run_taint-marks}
use aart.Wait.Store.{StoredWait, Store}
use aart.Wait.Listing.{
  due_of, IsExpired, expired_rows, get_expired_waits, get_expired_waits-exact,
  get_expired_waits-malformed,
}
use aart.Wait.Tests.{new_run, empty_store}

-- A wait that has expired, and one whose timeout is no duration.
abbrev row_with : Text → StoredWait
row_with timeout = record {
  run_id = codes "r1";
  step_id = codes "pay";
  wait = manual (some timeout) 2;
  audit = manual (some timeout) 2;
  state = none;
  created_at = 1000;
}

abbrev store_with : Text → Store
store_with timeout = record empty_store { waits = row_with timeout ∷ [] }

listed : get_expired_waits 4000 (store_with (codes "3s")) ≡ ok (due_of (row_with (codes "3s")) ∷ [])
unfolding get_expired_waits expired_rows parse_duration_ms span number_from
listed = refl

get_expired_waits-exact_example :
    (rows : List StoredWait) × ((due_of (row_with (codes "3s")) ∷ [] ≡ map due_of rows)
      × ((w : StoredWait)
          → Member w rows ↔ (Member w (store_with (codes "3s")).waits × IsExpired 4000 w)))
get_expired_waits-exact_example =
    get_expired_waits-exact 4000 (store_with (codes "3s")) (due_of (row_with (codes "3s")) ∷ [])
      listed

malformed : parse_duration_ms (codes "2 weeks") ≡ none
unfolding parse_duration_ms span number_from
malformed = refl

get_expired_waits-malformed_example :
    (f : WaitError) × (get_expired_waits 4000 (store_with (codes "2 weeks")) ≡ err f)
get_expired_waits-malformed_example =
    get_expired_waits-malformed 4000 (store_with (codes "2 weeks")) (row_with (codes "2 weeks")) 50
      (codes " weeks") (inl refl) refl malformed

-- A run that goes on, and the audit of it, which marks its first entry.
abbrev entry_with : Bool → StepTrace
entry_with tainted = record {
  seq = 0;
  step_id = codes "pay";
  block = codes "wait.signal";
  status = StepStatus.waiting;
  inputs = null;
  outputs = none;
  error = none;
  started_at = 5;
  ended_at = none;
  duration_ms = none;
  secret_tainted = tainted;
  secret_tainted_paths = if tainted then some (codes "*" ∷ []) else none;
  control_secret_tainted = false;
  ledger_fingerprint = none;
}

abbrev run_with : Bool → RunRecord
run_with tainted = record new_run { trace = entry_with tainted ∷ [] }

merge_operational_run_taint-marks_example :
    (u : StepTrace) × (Member u (merge_operational_run_taint (run_with false) (run_with true)).trace
      × (IsSameEntry (entry_with false) u
          × (HasMarks u (entry_with false) × HasMarks u (entry_with true))))
merge_operational_run_taint-marks_example =
    merge_operational_run_taint-marks (run_with false) (run_with true) (entry_with false)
      (entry_with true) (inl refl) refl
