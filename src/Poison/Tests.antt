-- ===== src/Poison/Tests.antt =====
-- Runs of the poison guard, and its theorems at concrete inputs.
use aart.Base.{
  filter, any, ◌&&◌, ℕ, ◌-◌, ◌≤◌, ◌≡◌, refl, ◌↔◌, true, false, none, some, List, [], ◌∷◌, arith,
  codes, length, leb,
}
use aart.Queue.Reclaim.{RunStatus, completed, failed}
use aart.Poison.{
  RunRecord, Trigger, correlation_key_for, is_poison_flagged, should_flag_poison,
  is_over_backpressure_ceiling,
}
use aart.Poison.Streaks.{should_flag_poison_iff, counted_runs, is_late}
use aart.Poison.Insertion.{sort_runs, sort_runs-IsSort}
use aart.Poison.Sorting.{Untied, is_counted}
use aart.Poison.Latest.{is_latest, is_poisoned, is_some, is_poison_flagged-latest}

abbrev hook : Trigger
hook = record { id = codes "t1"; correlation_id = none }

abbrev other_hook : Trigger
other_hook = record { id = codes "t2"; correlation_id = some (codes "t1") }

abbrev run_at : RunStatus → ℕ → Trigger → RunRecord
run_at status started_at trigger = record {
  workflow_id = codes "sync";
  trigger = trigger;
  status = status;
  started_at = started_at;
  flag = none;
}

abbrev history : List RunRecord
history =
    run_at failed 10 hook
    ∷ run_at completed 20 hook
    ∷ run_at failed 30 other_hook
    ∷ run_at failed 40 hook
    ∷ []

two_failures : should_flag_poison sort_runs 2 100 100 history (codes "sync") hook ≡ true
unfolding should_flag_poison correlation_key_for sort_runs
two_failures = refl

not_three : should_flag_poison sort_runs 3 100 100 history (codes "sync") hook ≡ false
unfolding should_flag_poison correlation_key_for sort_runs
not_three = refl

no_flag : is_poison_flagged sort_runs history (codes "sync") hook ≡ none
unfolding is_poison_flagged correlation_key_for sort_runs
no_flag = refl

no_backlog : is_over_backpressure_ceiling 1 history ≡ false
unfolding is_over_backpressure_ceiling
no_backlog = refl

history-Untied :
    Untied (filter (λ r. is_counted (codes "sync") hook r && leb (100 - 100) r.started_at) history)
history-Untied = ((refl, (refl, (refl, tt))), ((refl, (refl, tt)), ((refl, tt), (tt, tt))))

should_flag_poison_iff_example :
    (should_flag_poison sort_runs 2 100 100 history (codes "sync") hook ≡ true) ↔ (
      2
      ≤ length (
          filter
            (is_late (counted_runs (100 - 100) history (codes "sync") hook))
            (counted_runs (100 - 100) history (codes "sync") hook)))
should_flag_poison_iff_example =
    should_flag_poison_iff sort_runs sort_runs-IsSort 2 100 100 history (codes "sync") hook
      (omega arith) history-Untied

key-Untied : Untied (filter (is_counted (codes "sync") hook) history)
key-Untied = ((refl, (refl, (refl, tt))), ((refl, (refl, tt)), ((refl, tt), (tt, tt))))

is_poison_flagged-latest_example :
    is_some (is_poison_flagged sort_runs history (codes "sync") hook)
    ≡ any
        (λ r. is_latest (filter (is_counted (codes "sync") hook) history) r && is_poisoned r)
        (filter (is_counted (codes "sync") hook) history)
is_poison_flagged-latest_example =
    is_poison_flagged-latest sort_runs sort_runs-IsSort history (codes "sync") hook key-Untied
