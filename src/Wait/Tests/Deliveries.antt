-- ===== src/Wait/Tests/Deliveries.antt =====
-- A signal and the wait that it is for, in either order.
use aart.Base.{◌≡◌, refl, none, [], Result, ok, err}
use aart.Wait.{WaitError}
use aart.Wait.Audit.{redact_wait_audit, redact_signal_audit}
use aart.Wait.Taint.{
  merge_string_sets, merge_operational_run_taint, merge_active_run_protection,
  merge_persisted_run_taint,
}
use aart.Wait.Store.{
  Store, get_run, put_run, has_dedupe_key, record_dedupe_key, get_operational_state,
  delete_operational_state, put_operational_state, get_wait, delete_wait, put_wait,
  find_signal_matches, find_unconsumed_match, get_operational_secret_values, replace_audit,
  mark_consumed, append_signal,
}
use aart.Wait.Machine.{settle, take_signal, normalize_payload_to_outputs}
use aart.Wait.Enter.{EnterWaitResult, enter_suspended, enter_wait}
use aart.Wait.Resume.{
  ResumeOutcome, unmatched, Transition, claim_row, complete, claim_and_complete_wait,
}
use aart.Wait.Mechanisms.{resume_by_signal}
use aart.Wait.Entry.{Entered, enter_wait-Entered}
use aart.Wait.Delivery.{Delivered, resume_by_signal-Delivered}
use aart.Wait.Tests.{
  plain, prepare_nothing, empty_store, paid, wait_for_payment, entered_result, waiting_store,
}

abbrev done_of : Transition → Store
done_of (ok (t, o)) = t
done_of (err e) = empty_store

abbrev outcome_of : Transition → ResumeOutcome
outcome_of (ok (t, o)) = o
outcome_of (err e) = unmatched

abbrev delivered : Transition
delivered =
    resume_by_signal plain paid [] prepare_nothing 7 (append_signal paid (waiting_store none))

entered_pay :
    enter_wait plain (wait_for_payment none) 5 empty_store
    ≡ ok (
      waiting_store none,
      entered_result (enter_wait plain (wait_for_payment none) 5 empty_store),
    )
unfolding enter_wait enter_suspended get_run get_operational_state find_unconsumed_match
    merge_active_run_protection merge_persisted_run_taint merge_operational_run_taint
    redact_wait_audit put_wait put_run delete_operational_state merge_string_sets
entered_pay = refl

enter_wait-Entered_example :
    Entered plain
      (wait_for_payment none)
      empty_store
      (waiting_store none)
      (entered_result (enter_wait plain (wait_for_payment none) 5 empty_store))
enter_wait-Entered_example =
    enter_wait-Entered plain (wait_for_payment none) 5 empty_store (waiting_store none)
      (entered_result (enter_wait plain (wait_for_payment none) 5 empty_store)) entered_pay

delivered_pay : delivered ≡ ok (done_of delivered, outcome_of delivered)
unfolding enter_wait enter_suspended get_run get_operational_state find_unconsumed_match
    merge_active_run_protection merge_persisted_run_taint merge_operational_run_taint
    redact_wait_audit put_wait put_run delete_operational_state merge_string_sets resume_by_signal
    find_signal_matches claim_and_complete_wait claim_row complete settle take_signal
    normalize_payload_to_outputs get_wait has_dedupe_key record_dedupe_key delete_wait
    put_operational_state get_operational_secret_values replace_audit mark_consumed
    redact_signal_audit append_signal
delivered_pay = refl

resume_by_signal-Delivered_example :
    Delivered plain paid (waiting_store none) (done_of delivered) (outcome_of delivered)
resume_by_signal-Delivered_example =
    resume_by_signal-Delivered plain paid [] prepare_nothing 7 (waiting_store none)
      (done_of delivered) (outcome_of delivered) delivered_pay

abbrev entered_late : Result WaitError (Store × EnterWaitResult)
entered_late = enter_wait plain (wait_for_payment none) 5 (append_signal paid empty_store)

abbrev store_of : Result WaitError (Store × EnterWaitResult) → Store
store_of (ok (t, r)) = t
store_of (err e) = empty_store
