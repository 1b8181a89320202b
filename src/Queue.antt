-- ===== src/Queue.antt =====
-- packages/store/src/adapters/sqlite/stores/simple-stores.ts (the job queue),
-- packages/server/src/worker/claim.ts and packages/server/src/worker/reclaim.ts
--
-- The table `job_queue` is the list of its rows, with the run's id as its primary key. An id is a
-- number, in the order of the ids' text, and a time is its number of milliseconds, which orders ISO
-- strings. `NULL` is `none`. A statement that throws is an `err`, and leaves the tables as they were.
pub mod Leases
pub mod Listing
pub mod Claims
pub mod Reclaim
mod Tests
use aart.Base.{
  ℕ, zero, suc, ◌+◌, Bool, true, false, not, ◌&&◌, ◌||◌, Option, none, some, List, [], ◌∷◌, ◌++◌,
  Text, ltb, leb, ◌==◌, if◌then◌else◌, filter, Result, ok, err, ◌>>=◌, ◌>>◌, lookup, change,
  discard,
}

pub record JobQueueEntry : Type 0 where
  pub run_id : ℕ
  pub claimed_by : Option ℕ
  pub claimed_at : Option ℕ
  pub priority : ℕ
  pub lease_expires_at : Option ℕ
  pub reclaim_count : ℕ

abbrev pub Queue : Type 0
Queue = List JobQueueEntry

pub data QueueError : Type 0 where
  no_entry : ℕ → QueueError

abbrev pub id_of : JobQueueEntry → ℕ
id_of e = e.run_id

-- `SELECT * FROM job_queue WHERE run_id = ?`
abbrev pub get : ℕ → Queue → Option JobQueueEntry
get run_id queue = lookup id_of run_id queue

-- `throw` unless the row is there.
abbrev pub require : ℕ → Queue → Result QueueError JobQueueEntry
require run_id queue = elim (get run_id queue) [ none ↦ err (no_entry run_id) | some e ↦ ok e ]

abbrev pub prioritize : ℕ → JobQueueEntry → JobQueueEntry
prioritize priority e = record e { priority = priority }

-- `INSERT … ON CONFLICT(run_id) DO UPDATE SET priority = excluded.priority`
unfoldable pub enqueue : ℕ → ℕ → Queue → Queue
enqueue run_id priority queue = elim (get run_id queue) [
  | none ↦
      queue
      ++ record {
        run_id = run_id;
        claimed_by = none;
        claimed_at = none;
        priority = priority;
        lease_expires_at = none;
        reclaim_count = 0;
      }
        ∷ []
  | some e ↦ change id_of run_id (prioritize priority) queue
]

-- `lease_expires_at <= ?`, which no row with `NULL` there passes.
abbrev pub is_expired : ℕ → Option ℕ → Bool
is_expired now none = false
is_expired now (some lease) = leb lease now

abbrev pub is_null : Option ℕ → Bool
is_null none = true
is_null (some w) = false

-- `claimed_by IS NULL OR lease_expires_at <= ?`
abbrev pub is_claimable : ℕ → JobQueueEntry → Bool
is_claimable now e = is_null e.claimed_by || is_expired now e.lease_expires_at

-- `ORDER BY priority DESC, run_id ASC`: whether a row goes before another.
abbrev pub goes_before : JobQueueEntry → JobQueueEntry → Bool
goes_before d e = ltb e.priority d.priority || (d.priority == e.priority && leb d.run_id e.run_id)

abbrev pub insert_ordered : JobQueueEntry → Queue → Queue
insert_ordered d [] = d ∷ []
insert_ordered d (e ∷ es) = if goes_before d e then d ∷ e ∷ es else e ∷ insert_ordered d es

abbrev pub order : Queue → Queue
order [] = []
order (e ∷ es) = insert_ordered e (order es)

unfoldable pub list_claimable : ℕ → Queue → Queue
list_claimable now queue = order (filter (is_claimable now) queue)

-- The row that `UPDATE … WHERE run_id = ? AND (claimed_by IS NULL OR lease_expires_at <= ?)` leaves.
abbrev pub claim_row : ℕ → ℕ → ℕ → JobQueueEntry → JobQueueEntry
claim_row claimed_by lease_expires_at now e =
    if is_claimable now e
    then record e {
      claimed_by = some claimed_by;
      claimed_at = some now;
      lease_expires_at = some lease_expires_at;
    }
    else e

-- `now` is `new Date()`.
unfoldable pub set_claim : ℕ → ℕ → ℕ → ℕ → Queue → Result QueueError Queue
set_claim run_id claimed_by lease_expires_at now queue = do
  existing ← require run_id queue
  ok (change id_of run_id (claim_row claimed_by lease_expires_at now) queue)

abbrev pub renew_row : ℕ → JobQueueEntry → JobQueueEntry
renew_row lease_expires_at e = record e { lease_expires_at = some lease_expires_at }

unfoldable pub renew_lease : ℕ → ℕ → Queue → Result QueueError Queue
renew_lease run_id lease_expires_at queue = do
  existing ← require run_id queue
  ok (change id_of run_id (renew_row lease_expires_at) queue)

abbrev pub release_row : JobQueueEntry → JobQueueEntry
release_row e = record e { claimed_by = none; claimed_at = none; lease_expires_at = none }

unfoldable pub release : ℕ → Queue → Queue
release run_id queue = change id_of run_id release_row queue

abbrev pub count_row : ℕ → JobQueueEntry → JobQueueEntry
count_row n e = record e { reclaim_count = n }

unfoldable pub increment_reclaim_count : ℕ → Queue → Result QueueError (ℕ × Queue)
increment_reclaim_count run_id queue = do
  existing ← require run_id queue
  let next = existing.reclaim_count + 1
  ok (next, change id_of run_id (count_row next) queue)

unfoldable pub remove : ℕ → Queue → Queue
remove run_id queue = discard id_of run_id queue

-- `confirmed?.claimedBy === workerId`
abbrev pub confirmed : ℕ → Option JobQueueEntry → Bool
confirmed worker_id none = false
confirmed worker_id (some e) = elim e.claimed_by [ none ↦ false | some w ↦ w == worker_id ]

-- The loop of `tryClaimNextRun` over the candidates: the queue after it, and the claimed entry.
-- `lease` is the end of a lease taken now, and `wall` is what `new Date()` reads in the store.
pub claim_first :
    ℕ → ℕ → ℕ → List JobQueueEntry → Queue → Result QueueError (Queue × Option JobQueueEntry)
claim_first worker_id lease wall [] queue = ok (queue, none)
claim_first worker_id lease wall (candidate ∷ candidates) queue = do
  claimed ← set_claim candidate.run_id worker_id lease wall queue
  let entry = get candidate.run_id claimed
  let rest = claim_first worker_id lease wall candidates claimed
  if confirmed worker_id entry then ok (claimed, entry) else rest

unfoldable pub try_claim_next_run :
    ℕ → ℕ → ℕ → ℕ → Queue → Result QueueError (Queue × Option JobQueueEntry)
unfolding claim_first
try_claim_next_run worker_id now lease_duration_ms wall queue =
    claim_first worker_id (now + lease_duration_ms) wall (list_claimable now queue) queue
