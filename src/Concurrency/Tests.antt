-- ===== src/Concurrency/Tests.antt =====
-- Runs of the decision at intake, and its theorem at a concrete input.
use aart.Base.{◌∷◌, ◌≡◌, refl, ◌↔◌, true, false, some, List, [], ◌++◌, Text, codes}
use aart.Queue.Reclaim.{completed, waiting}
use aart.Concurrency.{
  reject_new_policy, queue_policy, IntakeRun, allow, reject, queue, decide_concurrency,
}
use aart.Concurrency.Decision.{Blocks, decide_concurrency-reject_iff}

tagged : Text → Text
tagged key = codes "sha256:" ++ key

abbrev finished : IntakeRun
finished = record {
  run_id = 1;
  workflow_id = codes "sync";
  status = completed;
  concurrency_key = some (codes "k");
  concurrency_key_format = false;
}

abbrev waiting_run : IntakeRun
waiting_run = record {
  run_id = 2;
  workflow_id = codes "sync";
  status = waiting;
  concurrency_key = some (codes "sha256:k");
  concurrency_key_format = true;
}

abbrev known : List IntakeRun
known = finished ∷ waiting_run ∷ []

queued :
    decide_concurrency tagged known (codes "sync") (some queue_policy) (some (codes "k"))
    ≡ queue waiting_run
unfolding decide_concurrency tagged
queued = refl

free : decide_concurrency tagged known (codes "sync") (some queue_policy) (some (codes "j")) ≡ allow
unfolding decide_concurrency tagged
free = refl

decide_concurrency-reject_iff_example :
    (decide_concurrency tagged known (codes "sync") (some reject_new_policy) (some (codes "k"))
      ≡ reject)
    ↔ ((some reject_new_policy ≡ some reject_new_policy)
        × (r : IntakeRun) × Blocks tagged (codes "sync") (codes "k") known r)
decide_concurrency-reject_iff_example =
    decide_concurrency-reject_iff tagged known (codes "sync") (some reject_new_policy) (codes "k")
