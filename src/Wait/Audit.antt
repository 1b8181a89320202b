-- ===== src/Wait/Audit.antt =====
-- packages/engine/src/redaction.ts: `redactWaitAudit` and `redactSignalAudit`
--
-- `redact_text` and `redact_value` are the redaction of a text and of a value with the secrets known.
use aart.Base.{Text, map_option}
use aart.Resolver.{Value}
use aart.Wait.{WaitCondition, approval, signal, webhook, external_job, queue, timer, manual, Signal}

module _ (redact_text : Text → Text) where
  unfoldable pub redact_wait_audit : WaitCondition → WaitCondition
  redact_wait_audit (approval task_id timeout version) =
      approval (redact_text task_id) (map_option redact_text timeout) version
  redact_wait_audit (signal name correlation_id timeout version) =
      signal (redact_text name) (redact_text correlation_id) (map_option redact_text timeout)
        version
  redact_wait_audit (webhook event correlation_id timeout version) =
      webhook (redact_text event) (redact_text correlation_id) (map_option redact_text timeout)
        version
  redact_wait_audit (external_job provider job_id timeout version) =
      external_job (redact_text provider) (redact_text job_id) (map_option redact_text timeout)
        version
  redact_wait_audit (queue name correlation_id timeout version) =
      queue (redact_text name) (redact_text correlation_id) (map_option redact_text timeout) version
  redact_wait_audit (timer resume_at version) = timer (redact_text resume_at) version
  redact_wait_audit (manual timeout version) = manual (map_option redact_text timeout) version

  unfoldable pub redact_signal_audit : (Value → Value) → Signal → Signal
  redact_signal_audit redact_value s = record s {
    name = redact_text s.name;
    correlation_id = redact_text s.correlation_id;
    payload = redact_value s.payload;
  }
