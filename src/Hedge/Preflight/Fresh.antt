-- ===== src/Hedge/Preflight/Fresh.antt =====
-- The preflight that a worker makes right before it sends a pair: _resolve_fresh_preflight of
-- backend/hedge_open_tasks/service.py, with the snapshot that the provider gives as an argument.
use binance_funding_hedging.Prelude.{ℕ, Bool, not, Option, none, some, if◌then◌else◌}
use binance_funding_hedging.Prelude.Texts.{Text}
use binance_funding_hedging.Decimal.{Decimal}
use binance_funding_hedging.Hedge.Errors.{Result, ok, err}
use binance_funding_hedging.Hedge.Vocabulary.{
  Direction, forward, reverse, TaskType, is_close, PositionMode, Rejection, StopReason,
}
use binance_funding_hedging.Hedge.Preflight.Snapshot.{
  PreflightSnapshot, SnapshotRecord, PreflightResult,
}
use binance_funding_hedging.Hedge.Preflight.{compute_preflight}

-- None for an incomplete read; a fatal fact with the reason to stop; or what the pair sends.
pub data Fresh : Type 0 where
  fresh_incomplete : Fresh
  fresh_fatal : StopReason → Fresh
  fresh_ok : Option Decimal → Option PositionMode → SnapshotRecord → Fresh

-- REJECT_TO_STOP_REASON; an incomplete preflight is the one rejection that is not fatal.
unfoldable pub reject_to_stop_reason : Rejection → Option StopReason
reject_to_stop_reason Rejection.insufficient_balance = some StopReason.insufficient_balance
reject_to_stop_reason Rejection.below_min_qty = some StopReason.below_min_qty
reject_to_stop_reason Rejection.above_max_qty = some StopReason.above_max_qty
reject_to_stop_reason Rejection.below_min_notional = some StopReason.below_min_notional
reject_to_stop_reason Rejection.symbol_unavailable = some StopReason.symbol_unavailable
reject_to_stop_reason Rejection.position_mode_invalid = some StopReason.position_mode_invalid
reject_to_stop_reason Rejection.preflight_incomplete = none

abbrev pub is_short_of_balance : Option Bool → Bool
is_short_of_balance none = Bool.false
is_short_of_balance (some b) = not b

unfoldable pub fresh_of : PreflightResult → Fresh
unfolding reject_to_stop_reason
fresh_of r = elim r.rejection [
  | some rejection ↦ elim (reject_to_stop_reason rejection) [
    | none ↦ fresh_incomplete
    | some reason ↦ fresh_fatal reason
  ]
  | none ↦
      if is_short_of_balance r.balance_ok
      then fresh_incomplete
      else fresh_ok r.q_common r.position_side_mode r.snapshot_record
]

-- A close asks for what its orders do, which is the other direction.
abbrev pub preflight_direction : Direction → TaskType → Direction
preflight_direction d task_type =
    if is_close task_type then elim d [ forward ↦ reverse | reverse ↦ forward ] else d

unfoldable pub resolve_fresh_preflight :
    Option PreflightSnapshot → Text → Direction → TaskType → Decimal → ℕ → Result Fresh
unfolding compute_preflight fresh_of
resolve_fresh_preflight none coin d task_type single_amount target_n = ok fresh_incomplete
resolve_fresh_preflight (some s) coin d task_type single_amount target_n =
    elim (compute_preflight (some s) coin (preflight_direction d task_type) single_amount target_n
      (not (is_close task_type))) [ err e ↦ err e | ok r ↦ ok (fresh_of r) ]
