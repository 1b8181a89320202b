-- ===== src/Wait/Machine.antt =====
-- packages/engine/src/wait/wait-machine.ts and packages/engine/src/schema-version.ts
--
-- A transition is a function of the store in one transaction: an `err` leaves the store as it was. What
-- the machine calls of other parts of the engine is the record `Layer`: the redaction of a text, a
-- value and a run with the secrets known, the revocation of cached results, which may throw, and the
-- decimal text of a number. The revocation is a function of the run alone: what it writes to the other
-- runs, and to the rows of waits of theirs, is left out. So are the repair of other records that newly
-- known secrets bring, and the notification behind the transaction.
use aart.Base.{ℕ, List, Text, codes, Result, ok, ◌>>=◌}
use aart.Resolver.{Value, object, Fields, field, end}
use aart.Wait.{RunRecord, Signal, WaitError}
use aart.Wait.Audit.{redact_signal_audit}
use aart.Wait.Taint.{ReplayClaim}
use aart.Wait.Store.{Store, put_run, put_operational_state, replace_audit, mark_consumed}

-- A payload that is an object is the outputs; any other stands under `value`.
unfoldable pub normalize_payload_to_outputs : Value → Fields
normalize_payload_to_outputs (object fs) = fs
normalize_payload_to_outputs v = field (codes "value") v end

-- A callback that prepares a run reads the store of the transaction, and may resolve further secrets.
abbrev pub Prepare : Type 0
Prepare = RunRecord → Text → Store → Result WaitError (RunRecord × List Text)

pub record Layer : Type 0 where
  pub redact_text : List Text → Text → Text
  pub redact_value : List Text → Value → Value
  pub redact_run : List Text → RunRecord → RunRecord
  pub revoke : List Text → RunRecord → Result WaitError RunRecord
  pub decimal : ℕ → Text

module _ (layer : Layer) where
  -- The last writes of a transition that goes on: the redacted run, and its operational state.
  unfoldable pub settle :
      List Text → List ReplayClaim → RunRecord → Store → Result WaitError (Store × RunRecord)
  settle secrets replays prepared s = do
    repaired ← layer.revoke secrets prepared
    let redacted = layer.redact_run secrets repaired
    ok (
      put_operational_state repaired.run_id
          (record { run = repaired; secrets = secrets; replays = replays }) (put_run redacted s),
      redacted,
    )

  -- The audit of a signal that a step takes, and its consumption.
  unfoldable pub take_signal : List Text → Signal → Text → Text → Store → Store
  take_signal secrets sent run_id step_id s = mark_consumed sent.id run_id step_id (
      replace_audit sent.id
        (redact_signal_audit (layer.redact_text secrets) (layer.redact_value secrets) sent) secrets
        s)
