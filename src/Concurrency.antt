-- ===== src/Concurrency.antt =====
-- packages/engine/src/concurrency.ts: the decision at intake
--
-- `fingerprint` is the text that SHA-256 makes of a key. Of a run's record, the fields that are read;
-- `concurrency_key_format` tells whether the record is tagged with the format of the fingerprints.
pub mod Decision
mod Tests
use aart.Base.{
  ℕ, Bool, true, false, ◌&&◌, Option, none, some, List, Text, text_eq, filter, find, if◌then◌else◌,
}
use aart.Queue.Reclaim.{RunStatus, pending, running, waiting, completed, failed, cancelled}

pub data ConcurrencyPolicy : Type 0 where
  allow_policy queue_policy cancel_existing_policy reject_new_policy : ConcurrencyPolicy

pub record IntakeRun : Type 0 where
  pub run_id : ℕ
  pub workflow_id : Text
  pub status : RunStatus
  pub concurrency_key : Option Text
  pub concurrency_key_format : Bool

pub data ConcurrencyDecision : Type 0 where
  allow reject : ConcurrencyDecision
  queue cancel_existing : IntakeRun → ConcurrencyDecision

-- `NON_TERMINAL_STATUSES.has(status)`
abbrev pub is_non_terminal : RunStatus → Bool
is_non_terminal pending = true
is_non_terminal running = true
is_non_terminal waiting = true
is_non_terminal status = false

-- The switch on the policy.
abbrev pub apply_policy : ConcurrencyPolicy → IntakeRun → ConcurrencyDecision
apply_policy allow_policy existing = allow
apply_policy queue_policy existing = queue existing
apply_policy cancel_existing_policy existing = cancel_existing existing
apply_policy reject_new_policy existing = reject

abbrev pub same_key : Option Text → Option Text → Bool
same_key none none = true
same_key (some s) (some t) = text_eq s t
same_key none (some t) = false
same_key (some s) none = false

module _ (fingerprint : Text → Text) where
  -- `normalizePersistedKey`
  abbrev pub normalize_persisted_key : Option Text → Bool → Option Text
  normalize_persisted_key none format = none
  normalize_persisted_key (some key) format = some (if format then key else fingerprint key)

  abbrev pub persisted_concurrency_key : IntakeRun → Option Text
  persisted_concurrency_key run =
      normalize_persisted_key run.concurrency_key run.concurrency_key_format

  -- `concurrencyKeysEqual`
  abbrev pub concurrency_keys_equal : IntakeRun → Option Text → Bool → Bool
  concurrency_keys_equal run key format =
      same_key (persisted_concurrency_key run) (normalize_persisted_key key format)

  abbrev pub decide : ConcurrencyPolicy → Option IntakeRun → ConcurrencyDecision
  decide policy none = allow
  decide policy (some existing) = apply_policy policy existing

  -- `policy` is `workflow.concurrency`.
  unfoldable pub decide_concurrency :
      List IntakeRun → Text → Option ConcurrencyPolicy → Option Text → ConcurrencyDecision
  decide_concurrency runs workflow_id none raw_key = allow
  decide_concurrency runs workflow_id (some policy) none = allow
  decide_concurrency runs workflow_id (some policy) (some raw_key) = decide policy (
      find (λ r. is_non_terminal r.status && concurrency_keys_equal r (some raw_key) false)
        (filter (λ r. text_eq r.workflow_id workflow_id) runs))
