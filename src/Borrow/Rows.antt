-- ===== src/Borrow/Rows.antt =====
-- The vocabulary of backend/borrow_tasks/domain.py and the tables of backend/borrow_tasks/store.py,
-- without the measured durations of an attempt and the columns that only the API reads.
use binance_funding_hedging.Prelude.{ℕ, Bool, true, false, List, Option, String}
use binance_funding_hedging.Decimal.{Decimal}

-- STATUS_*
pub data BorrowStatus : Type 0 where
  borrowing paused deleted completed : BorrowStatus

-- RESULT_*
pub data ResultCategory : Type 0 where
  success known_rejection rate_limited unknown execution_disabled : ResultCategory

-- OUTCOME_*
pub data Outcome : Type 0 where
  pending resolved : Outcome

-- borrow_task
pub record BorrowTask : Type 0 where
  pub id : ℕ
  pub asset : String
  pub amount_per_attempt : String
  pub success_target : ℕ
  pub success_count : ℕ
  pub status : BorrowStatus
  pub version : ℕ
  pub creation_seq : ℕ
  pub updated_at_us : ℕ
  pub live_authorized : Bool
  pub unresolved_attempt_id : Option ℕ
  pub latest_result_category : Option ResultCategory
  pub latest_result_business_code : Option String
  pub latest_result_reason : Option String
  pub latest_result_tran_id : Option String
  pub latest_result_finished_at_us : Option ℕ

-- borrow_attempt
pub record BorrowAttempt : Type 0 where
  pub id : ℕ
  pub task_id : ℕ
  pub asset : String
  pub sequence : ℕ
  pub outcome : Outcome
  pub result_category : Option ResultCategory
  pub business_code : Option String
  pub reason : Option String
  pub http_status : Option ℕ
  pub tran_id : Option String
  pub requested_amount : String
  pub scheduled_at_us : ℕ
  pub dispatched_at_us : Option ℕ
  pub finished_at_us : Option ℕ

-- borrow_settings, one row
pub record BorrowSettings : Type 0 where
  pub interval_seconds : String
  pub interval_us : ℕ
  pub round_robin_cursor : Option ℕ
  pub global_cooldown_until_us : Option ℕ
  pub execution_enabled : Bool
  pub requires_rearm : Bool
  pub version : ℕ
  pub updated_at_us : ℕ

-- The database; the counter is the id that AUTOINCREMENT gives next.
pub record BorrowStore : Type 0 where
  pub tasks : List BorrowTask
  pub attempts : List BorrowAttempt
  pub settings : BorrowSettings
  pub next_attempt_id : ℕ

-- ExecutorResult of backend/borrow_tasks/executor.py
pub record ExecutorResult : Type 0 where
  pub result_category : ResultCategory
  pub business_code : Option String
  pub reason : Option String
  pub http_status : Option ℕ
  pub tran_id : Option String
  pub retry_after_seconds : Option Decimal

abbrev pub is_borrowing : BorrowStatus → Bool
is_borrowing borrowing = true
is_borrowing _ = false

abbrev pub is_success : ResultCategory → Bool
is_success success = true
is_success _ = false

abbrev pub is_rate_limited : ResultCategory → Bool
is_rate_limited rate_limited = true
is_rate_limited _ = false

-- COALESCEABLE_FAILURE_CATEGORIES
abbrev pub is_coalesceable : ResultCategory → Bool
is_coalesceable known_rejection = true
is_coalesceable rate_limited = true
is_coalesceable execution_disabled = true
is_coalesceable _ = false
