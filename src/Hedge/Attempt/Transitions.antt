-- ===== src/Hedge/Attempt/Transitions.antt =====
-- The transitions of a task's status when an attempt is resolved.
use binance_funding_hedging.Prelude.{ℕ, ◌≡◌, ◌≢◌, ◌⊎◌, ◌≤◌, ◌<◌, arith}
use binance_funding_hedging.Hedge.Vocabulary.{
  Status, paused, done, stopped, deleted, AttemptCategory, success, single_leg_exposure, failed,
  fatal_submission,
}
use binance_funding_hedging.Hedge.Attempt.{resolve_status_after_attempt}

-- Of a task that is not deleted, from whatever status: a fatal submission stops it, a success that
-- reaches the target makes it done, and a failure or a single leg at the threshold pauses it; a
-- success below the target and a failure or single leg below the threshold leave its status.
pub resolve_status_after_attempt-exact :
    (st : Status) (c : AttemptCategory) (accepted target failures threshold : ℕ)
    → st ≢ deleted
    → let st' = resolve_status_after_attempt st c accepted target failures threshold in
      (c ≡ fatal_submission → st' ≡ stopped)
      × (c ≡ success → target ≤ accepted → st' ≡ done)
      × ((c ≡ failed) ⊎ (c ≡ single_leg_exposure) → threshold ≤ failures → st' ≡ paused)
      × (c ≡ success → accepted < target → st' ≡ st)
      × ((c ≡ failed) ⊎ (c ≡ single_leg_exposure) → failures < threshold → st' ≡ st)
unfolding resolve_status_after_attempt
resolve_status_after_attempt-exact st c accepted target failures threshold h =
    (ground arith, ground arith, ground arith, ground arith, ground arith)
