-- ===== src/Hedge/Store/Rows.antt =====
-- The rows of the tables of backend/hedge_open_tasks/store.py. Ids of tasks, attempts and cycles are
-- only compared, so they are numbers; decimal texts are the decimals; JSON columns that the store writes and never reads are texts.
use binance_funding_hedging.Prelude.{ℕ, Bool, List, Option, String}
use binance_funding_hedging.Decimal.{Decimal}
use binance_funding_hedging.Hedge.Vocabulary.{
  Status, Direction, TaskType, Mode, PassReason, PairOutcome, LegDispatchState, ErrorCategory,
  PauseReason, StopReason,
}
use binance_funding_hedging.Hedge.Attempt.{LegName, LegExposure}

-- hedge_open_task; its texts that are only stored stay texts.
pub record Task : Type 0 where
  pub id : ℕ
  pub coin : String
  pub direction : Direction
  pub mode : Mode
  pub task_type : TaskType
  pub single_amount : String
  pub target_n : ℕ
  pub success_count : ℕ
  pub fail_count : ℕ
  pub status : Status
  pub q_common : Option String
  pub position_side_mode : Option String
  pub leg_exposure : Option LegExposure
  pub preflight_snapshot : Option String
  pub scheduled_attempt_count : ℕ
  pub accepted_pair_count : ℕ
  pub consecutive_submission_failures : ℕ
  pub failure_pause_threshold : ℕ
  pub pause_reason : Option PauseReason
  pub pause_reason_zh : Option String
  pub stop_reason : Option StopReason
  pub last_worker_exit_reason : Option String
  pub smooth_gate_seq : Option ℕ
  pub smooth_gate_started_at_us : Option ℕ
  pub smooth_gate_force_requested : Bool
  pub spot_symbol : Option String
  pub spot_base_asset : Option String
  pub symbol_match_type : Option String
  pub slippage_threshold_pct : Option String
  pub creation_seq : ℕ
  pub created_at_us : ℕ
  pub updated_at_us : ℕ

-- hedge_open_attempt, without the Chinese text of its error
pub record Attempt : Type 0 where
  pub id : ℕ
  pub task_id : ℕ
  pub attempt_uuid : String
  pub attempt_seq : ℕ
  pub direction : Direction
  pub q_common : String
  pub preflight_fingerprint : String
  pub position_side_mode : String
  pub pair_outcome : Option PairOutcome
  pub log_ref : Option ℕ
  pub created_at_us : ℕ
  pub cycle_id : ℕ
  pub smooth_pass_reason : Option PassReason
  pub error_category : Option ErrorCategory
  pub error_code : Option String
  pub rate_limited : Bool

-- hedge_open_leg, without the columns in which the fee fetcher records fees
pub record Leg : Type 0 where
  pub id : ℕ
  pub attempt_id : ℕ
  pub leg : LegName
  pub client_order_id : String
  pub endpoint : String
  pub request_shape : String
  pub dispatch_state : LegDispatchState
  pub order_id : Option String
  pub exchange_status : Option String
  pub cumulative_base_qty : Decimal
  pub cumulative_quote_amt : Option Decimal
  pub avg_price : Option Decimal
  pub fee_amount : Option String
  pub fee_asset : Option String
  pub error_code : Option String
  pub error_category : Option ErrorCategory
  pub dispatched_at_us : Option ℕ
  pub last_query_at_us : Option ℕ
  pub terminal : Bool

-- hedge_open_cycle
pub record Cycle : Type 0 where
  pub id : ℕ
  pub symbol : String
  pub direction : Direction
  pub opened_at_us : ℕ
  pub closed_at_us : Option ℕ
  pub close_reason : Option String
  pub first_task_id : ℕ
  pub last_task_id : ℕ

-- The two gates of the settings.
pub data Gate : Type 0 where
  open_side close_side : Gate

-- Whom a log row is about: a task, or the gate that a sentinel id stands for.
pub data Subject : Type 0 where
  of_task : ℕ → Subject
  of_gate : Gate → Subject

-- The kinds of log rows written here, with what their payload carries; a change of a gate carries
-- its value, the value before and the version that it makes.
pub data LogEntry : Type 0 where
  task_stopped : Option StopReason → LogEntry
  threshold_paused : ℕ → LogEntry
  record_transport : String → String → LogEntry
  settlement_failed : ℕ → LogEntry
  rate_limited_event : LogEntry
  task_event : String → PauseReason → LogEntry
  gate_changed : Bool → Bool → ℕ → LogEntry
  close_transfer : String → Decimal → LogEntry
  close_partial_done : LogEntry

-- hedge_open_log
pub record Log : Type 0 where
  pub id : ℕ
  pub task_id : Subject
  pub ts_us : ℕ
  pub entry : LogEntry

-- The one row of hedge_open_settings; a gate's 0 and 1 are the Booleans.
pub record Settings : Type 0 where
  pub start_gate : Bool
  pub close_gate : Bool
  pub executor_mode_snapshot : String
  pub interval_seconds : String
  pub interval_us : ℕ
  pub rate_limit_order : Option ℕ
  pub version : ℕ
  pub updated_at_us : ℕ

-- The database; the counters are the ids that AUTOINCREMENT gives next.
pub record Store : Type 0 where
  pub tasks : List Task
  pub attempts : List Attempt
  pub legs : List Leg
  pub cycles : List Cycle
  pub logs : List Log
  pub settings : Settings
  pub next_attempt_id : ℕ
  pub next_leg_id : ℕ
  pub next_log_id : ℕ
