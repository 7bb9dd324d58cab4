-- ===== src/Hedge/Store/Counters.antt =====
-- The effect of one settled pair on its task: `_apply_task_counters` of
-- backend/hedge_open_tasks/store.py.
pub mod Laws
pub mod Outcomes
pub mod Brake
use binance_funding_hedging.Prelude.{
  ℕ, ◌+◌, Bool, true, false, not, Option, none, some, if◌then◌else◌, leb, ◌&&◌, coalesce, is_some,
}
use binance_funding_hedging.Hedge.Vocabulary.{
  Status, running, done, stopped, AttemptCategory, success, single_leg_exposure, failed,
  execution_disabled, fatal_submission, PairOutcome, accepted_pair, confirmed_failed, single_leg,
  PauseReason, consecutive_submission_failure, StopReason, exchange_fatal, is_running, is_paused,
  is_done, is_stopped,
}
use binance_funding_hedging.Hedge.Attempt.{LegExposure, resolve_status_after_attempt}
use binance_funding_hedging.Hedge.Store.Rows.{Task, LogEntry, task_stopped, threshold_paused}

-- `if exposure: leg_exposure_json = exposure`
abbrev with_exposure : Option LegExposure → Task → Task
with_exposure exposure t = record t { leg_exposure = coalesce exposure t.leg_exposure }

-- The status that the task's new counters give.
abbrev next_status : AttemptCategory → Task → Status
next_status category t =
    resolve_status_after_attempt t.status category t.accepted_pair_count t.target_n
      t.consecutive_submission_failures t.failure_pause_threshold

abbrev with_pause : Task → Task
with_pause t =
    if is_paused t.status
    then record t { pause_reason = some consecutive_submission_failure }
    else t

-- One more failure, of either kind.
unfoldable pub count_failure : AttemptCategory → Task → Task
unfolding resolve_status_after_attempt
count_failure category t =
    let counted = record t {
      fail_count = t.fail_count + 1;
      consecutive_submission_failures = t.consecutive_submission_failures + 1;
    } in
    with_pause (record counted { status = next_status category counted })

unfoldable pub count_success : Task → Task
unfolding resolve_status_after_attempt
count_success t =
    let counted = record t {
      accepted_pair_count = t.accepted_pair_count + 1;
      success_count = t.success_count + 1;
      consecutive_submission_failures = 0;
    } in
    record counted { status = next_status success counted }

-- The branch of a pair whose counters are skipped.
unfoldable pub skip_verdict :
    AttemptCategory → Option LegExposure → Task → Task × Option PairOutcome
skip_verdict success exposure t = (t, some accepted_pair)
skip_verdict single_leg_exposure exposure t = (with_exposure exposure t, some single_leg)
skip_verdict failed exposure t = (t, some confirmed_failed)
skip_verdict execution_disabled exposure t = (t, none)
skip_verdict fatal_submission exposure t = (t, none)

unfoldable pub fatal_verdict : Option StopReason → Task → Task × Option PairOutcome
fatal_verdict stop_reason t = (
  record t { status = stopped; stop_reason = coalesce stop_reason (some exchange_fatal) },
  some confirmed_failed,
)

unfoldable pub counted_verdict :
    AttemptCategory → Option LegExposure → Task → Task × Option PairOutcome
counted_verdict success exposure t = (count_success t, some accepted_pair)
counted_verdict failed exposure t = (count_failure failed t, some confirmed_failed)
counted_verdict single_leg_exposure exposure t =
    (with_exposure exposure (count_failure single_leg_exposure t), some single_leg)
counted_verdict execution_disabled exposure t = (t, none)
counted_verdict fatal_submission exposure t = (t, none)

unfoldable pub verdict :
    AttemptCategory
    → Option LegExposure
    → Bool
    → Option StopReason
    → Bool
    → Task
    → Task × Option PairOutcome
verdict category exposure fatal stop_reason skip_counters t =
    if skip_counters
    then skip_verdict category exposure t
    else if fatal
    then fatal_verdict stop_reason t
    else counted_verdict category exposure t

-- The last rule on `done`: the last planned attempt completes a running task, and a suppressed
-- completion goes back to running.
unfoldable pub settle_done : Bool → Bool → Task → Option PairOutcome → Task
settle_done skip_counters suppress_done t outcome =
    if not skip_counters
      && not suppress_done
      && is_some outcome
      && is_running t.status
      && leb t.target_n t.scheduled_attempt_count
    then record t { status = done }
    else if suppress_done && is_some outcome && is_done t.status
    then record t { status = running }
    else t

abbrev is_consecutive : Option PauseReason → Bool
is_consecutive (some consecutive_submission_failure) = true
is_consecutive _ = false

-- The log entry of the task's transition, if there is one.
unfoldable pub transition_log : Bool → Task → Task → Option LogEntry
transition_log fatal before after =
    if fatal && not (is_stopped before.status)
    then some (task_stopped after.stop_reason)
    else if is_paused after.status
        && not (is_paused before.status)
        && is_consecutive after.pause_reason
    then some (threshold_paused after.consecutive_submission_failures)
    else none

unfoldable pub apply_task_counters :
    AttemptCategory
    → Option LegExposure
    → Bool
    → Option StopReason
    → Bool
    → Bool
    → ℕ
    → Task
    → Task × Option PairOutcome × Option LogEntry
apply_task_counters category exposure fatal stop_reason skip_counters suppress_done now_us t =
    let (judged, outcome) = verdict category exposure fatal stop_reason skip_counters t in
    let after = settle_done skip_counters suppress_done judged outcome in
    (record after { updated_at_us = now_us }, outcome, transition_log fatal t after)
