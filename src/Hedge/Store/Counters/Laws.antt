-- ===== src/Hedge/Store/Counters/Laws.antt =====
-- What a settlement does to its task.
use binance_funding_hedging.Prelude.{ℕ, ◌+◌, ◌≡◌, ◌≤◌, Bool, true, false, Option, none, arith}
use binance_funding_hedging.Hedge.Vocabulary.{
  AttemptCategory, success, single_leg_exposure, failed, execution_disabled, fatal_submission,
  PairOutcome, StopReason,
}
use binance_funding_hedging.Hedge.Attempt.{LegExposure}
use binance_funding_hedging.Hedge.Store.Rows.{Task}
use binance_funding_hedging.Hedge.Store.Counters.{
  apply_task_counters, settle_done, verdict, counted_verdict, skip_verdict, fatal_verdict,
  count_failure, count_success, with_exposure,
}

-- How far the counters of a task have come: settled pairs among the scheduled ones, at most the
-- target, and no more failures in a row than in all.
pub record IsCounted (t : Task) (open_pairs : ℕ) : Type 0 where
  pub paired : t.accepted_pair_count ≡ t.success_count
  pub in_a_row : t.consecutive_submission_failures ≤ t.fail_count
  pub settled : t.accepted_pair_count + t.fail_count + open_pairs ≤ t.scheduled_attempt_count
  pub capped : t.scheduled_attempt_count ≤ t.target_n

pub weaken : (t : Task) (n : ℕ) → IsCounted t (n + 1) → IsCounted t n
weaken t n h = ground arith

settle_done-IsCounted :
    (skip suppress : Bool) (o : Option PairOutcome) (t : Task) (n : ℕ)
    → IsCounted t n
    → IsCounted (settle_done skip suppress t o) n
unfolding settle_done
settle_done-IsCounted skip suppress o t n h = ground arith

count_failure-IsCounted :
    (c : AttemptCategory) (t : Task) (n : ℕ) → IsCounted t (n + 1) → IsCounted (count_failure c t) n
unfolding count_failure
count_failure-IsCounted c t n h = ground arith

count_success-IsCounted : (t : Task) (n : ℕ) → IsCounted t (n + 1) → IsCounted (count_success t) n
unfolding count_success
count_success-IsCounted t n h = ground arith

with_exposure-IsCounted :
    (x : Option LegExposure) (t : Task) (n : ℕ) → IsCounted t n → IsCounted (with_exposure x t) n
with_exposure-IsCounted x t n h = ground arith

counted_verdict-IsCounted :
    (c : AttemptCategory) (x : Option LegExposure) (t : Task) (n : ℕ)
    → IsCounted t (n + 1)
    → let (t', o) = counted_verdict c x t in IsCounted t' n × (o ≡ none → IsCounted t' (n + 1))
unfolding counted_verdict
counted_verdict-IsCounted success x t n h = (count_success-IsCounted t n h, λ o. cc)
counted_verdict-IsCounted failed x t n h = (count_failure-IsCounted failed t n h, λ o. cc)
counted_verdict-IsCounted single_leg_exposure x t n h = (
  with_exposure-IsCounted x (count_failure single_leg_exposure t) n
      (count_failure-IsCounted single_leg_exposure t n h),
  λ o. cc,
)
counted_verdict-IsCounted execution_disabled x t n h = (weaken t n h, λ o. h)
counted_verdict-IsCounted fatal_submission x t n h = (weaken t n h, λ o. h)

skip_verdict-IsCounted :
    (c : AttemptCategory) (x : Option LegExposure) (t : Task) (n : ℕ)
    → IsCounted t (n + 1)
    → IsCounted (skip_verdict c x t).0 (n + 1)
unfolding skip_verdict
skip_verdict-IsCounted success x t n h = h
skip_verdict-IsCounted failed x t n h = h
skip_verdict-IsCounted single_leg_exposure x t n h = with_exposure-IsCounted x t (n + 1) h
skip_verdict-IsCounted execution_disabled x t n h = h
skip_verdict-IsCounted fatal_submission x t n h = h

fatal_verdict-IsCounted :
    (r : Option StopReason) (t : Task) (n : ℕ)
    → IsCounted t (n + 1)
    → IsCounted (fatal_verdict r t).0 (n + 1)
unfolding fatal_verdict
fatal_verdict-IsCounted r t n h = ground arith

touched-IsCounted :
    (t : Task) (n now : ℕ) → IsCounted t n → IsCounted (record t { updated_at_us = now }) n
touched-IsCounted t n now h = ground arith

verdict-IsCounted :
    (c : AttemptCategory) (x : Option LegExposure) (fatal : Bool) (r : Option StopReason)
    → (skip : Bool) (t : Task) (n : ℕ) → IsCounted t (n + 1)
    → let (t', o) = verdict c x fatal r skip t in IsCounted t' n × (o ≡ none → IsCounted t' (n + 1))
unfolding verdict
verdict-IsCounted c x fatal r true t n h =
    let kept = skip_verdict-IsCounted c x t n h in (weaken _ n kept, λ o. kept)
verdict-IsCounted c x true r false t n h =
    let kept = fatal_verdict-IsCounted r t n h in (weaken _ n kept, λ o. kept)
verdict-IsCounted c x false r false t n h = counted_verdict-IsCounted c x t n h

-- A settlement of any kind keeps the counters' invariant, with one open pair fewer, or with as many
-- as before when it gives no outcome.
pub apply_task_counters-IsCounted :
    (c : AttemptCategory) (x : Option LegExposure) (fatal : Bool) (r : Option StopReason)
    → (skip suppress : Bool) (now : ℕ) (t : Task) (n : ℕ) → IsCounted t (n + 1)
    → let (t', o, _) = apply_task_counters c x fatal r skip suppress now t in
      IsCounted t' n × (o ≡ none → IsCounted t' (n + 1))
unfolding apply_task_counters
apply_task_counters-IsCounted c x fatal r skip suppress now t n h =
    let (v, o) = verdict c x fatal r skip t in
    let (fewer, same) = verdict-IsCounted c x fatal r skip t n h in
    let after = settle_done skip suppress v o in
    (
      touched-IsCounted after n now (settle_done-IsCounted skip suppress o v n fewer),
      λ e.
          touched-IsCounted after (n + 1) now
            (settle_done-IsCounted skip suppress o v (n + 1) (same e)),
    )
