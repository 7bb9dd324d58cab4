-- ===== src/Hedge/Store/Counters/Brake.antt =====
-- The brake on failures in a row.
use binance_funding_hedging.Prelude.{
  ℕ, ◌+◌, ◌≡◌, ◌⊎◌, ◌↔◌, ◌≤◌, Bool, false, Option, none, some, arith, sym, ◌∙◌,
}
use binance_funding_hedging.Hedge.Vocabulary.{
  running, paused, AttemptCategory, single_leg_exposure, failed, consecutive_submission_failure,
  StopReason, PairOutcome,
}
use binance_funding_hedging.Hedge.Attempt.{LegExposure}
use binance_funding_hedging.Hedge.Store.Rows.{Task}
use binance_funding_hedging.Hedge.Store.Counters.{
  apply_task_counters, settle_done, verdict, counted_verdict, count_failure, transition_log,
}

-- The attempt failed: no leg was accepted, or one.
abbrev pub IsFailure : AttemptCategory → Type 0
IsFailure c = (c ≡ failed) ⊎ (c ≡ single_leg_exposure)

count_failure-running :
    (c : AttemptCategory) (t : Task)
    → IsFailure c
    → t.status ≡ running
    → let t' = count_failure c t in
      ((t'.status ≡ paused) ↔ (t.failure_pause_threshold ≤ t.consecutive_submission_failures + 1))
      × (t'.status ≡ paused → t'.pause_reason ≡ some consecutive_submission_failure)
      × (t'.fail_count ≡ t.fail_count + 1)
unfolding count_failure
count_failure-running c t f h = ((ground arith, ground arith), ground arith, ground arith)

settle_done-paused :
    (suppress : Bool) (o : Option PairOutcome) (t : Task)
    → let t' = settle_done false suppress t o in
      ((t'.status ≡ paused) ↔ (t.status ≡ paused))
      × (t'.pause_reason ≡ t.pause_reason)
      × (t'.fail_count ≡ t.fail_count)
unfolding settle_done
settle_done-paused suppress o t = ((ground arith, ground arith), ground arith, ground arith)

counted_verdict-failure :
    (c : AttemptCategory) (x : Option LegExposure) (t : Task)
    → IsFailure c
    → let v = (counted_verdict c x t).0 in
      (v.status ≡ (count_failure c t).status)
      × (v.pause_reason ≡ (count_failure c t).pause_reason)
      × (v.fail_count ≡ (count_failure c t).fail_count)
unfolding counted_verdict
counted_verdict-failure c x t f = (ground arith, ground arith, ground arith)

-- A failed attempt of a running task that is not fatal is counted, and pauses the task exactly when
-- it is the failure in a row that reaches the task's own threshold; the pause then says so.
pub apply_task_counters-brake :
    (c : AttemptCategory) (x : Option LegExposure) (r : Option StopReason) (suppress : Bool)
    → (now : ℕ) (t : Task) → IsFailure c
    → t.status ≡ running
    → let t' = (apply_task_counters c x false r false suppress now t).0 in
      ((t'.status ≡ paused) ↔ (t.failure_pause_threshold ≤ t.consecutive_submission_failures + 1))
      × (t'.status ≡ paused → t'.pause_reason ≡ some consecutive_submission_failure)
      × (t'.fail_count ≡ t.fail_count + 1)
unfolding apply_task_counters verdict
apply_task_counters-brake c x r suppress now t f h =
    let (v, o) = counted_verdict c x t in
    let (status, reason, fails) = counted_verdict-failure c x t f in
    let (pauses, says, more) = count_failure-running c t f h in
    let (same, kept, total) = settle_done-paused suppress o v in
    (
      (λ e. pauses.0 (sym status ∙ same.0 e), λ e. same.1 (status ∙ pauses.1 e)),
      λ e. kept ∙ reason ∙ says (sym status ∙ same.0 e),
      total ∙ fails ∙ more,
    )

count_failure-paused :
    (c : AttemptCategory) (t : Task)
    → IsFailure c
    → t.status ≡ paused
    → ((count_failure c t).status ≡ paused)
      × ((count_failure c t).pause_reason ≡ some consecutive_submission_failure)
unfolding count_failure
count_failure-paused c t f h = (ground arith, ground arith)

transition_log-paused :
    (before after : Task) → before.status ≡ paused → transition_log false before after ≡ none
unfolding transition_log
transition_log-paused before after h = ground arith

-- A failed attempt that settles while its task is paused, for whatever reason, replaces the reason
-- by the one of the threshold, also below the threshold, and writes no log entry.
pub apply_task_counters-pause_reason :
    (c : AttemptCategory) (x : Option LegExposure) (r : Option StopReason) (suppress : Bool)
    → (now : ℕ) (t : Task) → IsFailure c
    → t.status ≡ paused
    → let (t', _, entry) = apply_task_counters c x false r false suppress now t in
      (t'.status ≡ paused)
      × (t'.pause_reason ≡ some consecutive_submission_failure)
      × (entry ≡ none)
unfolding apply_task_counters verdict
apply_task_counters-pause_reason c x r suppress now t f h =
    let (v, o) = counted_verdict c x t in
    let (status, reason, fails) = counted_verdict-failure c x t f in
    let (still, says) = count_failure-paused c t f h in
    let (same, kept, total) = settle_done-paused suppress o v in
    (
      same.1 (status ∙ still),
      kept ∙ reason ∙ says,
      transition_log-paused t (settle_done false suppress v o) h,
    )
