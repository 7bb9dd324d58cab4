-- ===== src/Hedge/Vocabulary.antt =====
-- The frozen vocabulary of backend/hedge_open_tasks/domain.py: each family of string constants is
-- a data type with one constructor for each constant.
use binance_funding_hedging.Prelude.{Bool, true, false}

-- STATUS_*
pub data Status : Type 0 where
  running paused done stopped deleted : Status

-- DIR_*
pub data Direction : Type 0 where
  forward reverse : Direction

-- TASK_TYPE_*
pub data TaskType : Type 0 where
  open_task close_task : TaskType

-- MODE_*
pub data Mode : Type 0 where
  immediate smooth : Mode

-- PASS_REASON_*
pub data PassReason : Type 0 where
  market timeout manual : PassReason

-- POS_MODE_*
pub data PositionMode : Type 0 where
  both_mode hedge_mode : PositionMode

-- ATTEMPT_*
pub data AttemptCategory : Type 0 where
  success single_leg_exposure failed execution_disabled fatal_submission : AttemptCategory

-- PAIR_*
pub data PairOutcome : Type 0 where
  accepted_pair confirmed_failed querying single_leg : PairOutcome

-- LEG_* of the dispatch state
pub data LegDispatchState : Type 0 where
  prepared dispatching accepted_or_querying unknown_querying terminal_recorded : LegDispatchState

-- ERROR_CATEGORY_*
pub data ErrorCategory : Type 0 where
  auth fatal insufficient_funds absent collateral_cap unclassified : ErrorCategory

-- PRODUCT_*
pub data Product : Type 0 where
  margin um spot_product : Product

-- SPOT_ROUTE_*
pub data SpotRoute : Type 0 where
  papi_margin regular_spot : SpotRoute

-- ROUTE_REASON_*
pub data RouteReason : Type 0 where
  papi_default tradifi_regular_spot collateral_cap_precheck : RouteReason
  close_sell_regular_spot spot_only_regular_spot : RouteReason

-- STOP_REASON_*, and the REJECT_* of the preflight that map to them
pub data Rejection : Type 0 where
  insufficient_balance below_min_qty above_max_qty below_min_notional : Rejection
  symbol_unavailable position_mode_invalid preflight_incomplete : Rejection

pub data StopReason : Type 0 where
  insufficient_balance below_min_qty above_max_qty below_min_notional : StopReason
  symbol_unavailable position_mode_invalid exchange_fatal : StopReason

-- PAUSE_REASON_*
pub data PauseReason : Type 0 where
  consecutive_submission_failure rate_limited insufficient_balance insufficient_margin : PauseReason
  insufficient_available_qty collateral_cap_full close_verify_failed : PauseReason
  close_spot_balance awaiting_manual_start close_um_position : PauseReason
  multiplier_close_unsupported leverage_set_failed spot_route_changed : PauseReason
  awaiting_manual_start_open_fillable order_state_unknown preflight_incomplete : PauseReason

abbrev pub is_running : Status → Bool
is_running running = true
is_running _ = false

abbrev pub is_paused : Status → Bool
is_paused paused = true
is_paused _ = false

abbrev pub is_done : Status → Bool
is_done done = true
is_done _ = false

abbrev pub is_stopped : Status → Bool
is_stopped stopped = true
is_stopped _ = false

abbrev pub is_deleted : Status → Bool
is_deleted deleted = true
is_deleted _ = false

abbrev pub is_forward : Direction → Bool
is_forward forward = true
is_forward reverse = false

abbrev pub is_close : TaskType → Bool
is_close close_task = true
is_close open_task = false

abbrev pub is_smooth : Mode → Bool
is_smooth smooth = true
is_smooth immediate = false
