-- ===== src/Hedge/Store/Creation.antt =====
-- The creation of a task, and the tasks that the scheduler may dispatch, in
-- backend/hedge_open_tasks/store.py.
pub mod Eligible
use binance_funding_hedging.Prelude.{
  ℕ, ◌+◌, Bool, false, not, Option, none, some, List, [], ◌∷◌, String, if◌then◌else◌, ltb, leb,
  ◌==◌, ◌&&◌, ◌||◌, select, max,
}
use binance_funding_hedging.Hedge.Vocabulary.{
  Status, Direction, TaskType, Mode, PauseReason, is_running,
}
use binance_funding_hedging.Hedge.Store.Rows.{Task, Store}
use binance_funding_hedging.Hedge.Store.Tasks.{in_flight}

-- COALESCE(MAX(creation_seq), 0)
unfoldable pub last_created : List Task → ℕ
last_created [] = 0
last_created (t ∷ rest) = max t.creation_seq (last_created rest)

-- The arguments of `create_task` beside the id and the time, all of them given.
pub record NewTask : Type 0 where
  pub coin : String
  pub direction : Direction
  pub mode : Mode
  pub single_amount : String
  pub target_n : ℕ
  pub q_common : Option String
  pub position_side_mode : Option String
  pub preflight_snapshot : Option String
  pub failure_pause_threshold : ℕ
  pub task_type : TaskType
  pub spot_symbol : Option String
  pub spot_base_asset : Option String
  pub symbol_match_type : Option String
  pub initial_status : Status
  pub initial_pause_reason : Option PauseReason
  pub initial_pause_reason_zh : Option String
  pub slippage_threshold_pct : Option String

abbrev pub created_task : ℕ → NewTask → ℕ → ℕ → Task
created_task task_id n creation_seq now_us = record {
  id = task_id;
  coin = n.coin;
  direction = n.direction;
  mode = n.mode;
  task_type = n.task_type;
  single_amount = n.single_amount;
  target_n = n.target_n;
  success_count = 0;
  fail_count = 0;
  status = n.initial_status;
  q_common = n.q_common;
  position_side_mode = n.position_side_mode;
  leg_exposure = none;
  preflight_snapshot = n.preflight_snapshot;
  scheduled_attempt_count = 0;
  accepted_pair_count = 0;
  consecutive_submission_failures = 0;
  failure_pause_threshold = n.failure_pause_threshold;
  pause_reason = n.initial_pause_reason;
  pause_reason_zh = n.initial_pause_reason_zh;
  stop_reason = none;
  last_worker_exit_reason = none;
  smooth_gate_seq = none;
  smooth_gate_started_at_us = none;
  smooth_gate_force_requested = false;
  spot_symbol = n.spot_symbol;
  spot_base_asset = n.spot_base_asset;
  symbol_match_type = n.symbol_match_type;
  slippage_threshold_pct = n.slippage_threshold_pct;
  creation_seq = creation_seq;
  created_at_us = now_us;
  updated_at_us = now_us;
}

-- The id is the one that uuid4 draws; the new row is put at the front of the table.
unfoldable pub create_task : ℕ → NewTask → ℕ → Store → Store
unfolding last_created
create_task task_id n now_us s = record s {
  tasks = created_task task_id n (last_created s.tasks + 1) now_us ∷ s.tasks;
}

-- The WHERE clause of `list_eligible_tasks`
abbrev pub is_eligible : Store → Task → Bool
is_eligible s t =
    is_running t.status && ltb t.scheduled_attempt_count t.target_n && not (in_flight s t.id)

-- ORDER BY creation_seq ASC, id ASC
abbrev pub older : Task → Task → Bool
older t u = ltb t.creation_seq u.creation_seq || t.creation_seq == u.creation_seq && leb t.id u.id

unfoldable pub insert_task : Task → List Task → List Task
insert_task t [] = t ∷ []
insert_task t (u ∷ us) = let rest = insert_task t us in if older t u then t ∷ u ∷ us else u ∷ rest

unfoldable pub sort_tasks : List Task → List Task
unfolding insert_task
sort_tasks [] = []
sort_tasks (t ∷ ts) = insert_task t (sort_tasks ts)

unfoldable pub list_eligible_tasks : Store → List Task
unfolding sort_tasks
list_eligible_tasks s = sort_tasks (select (is_eligible s) s.tasks)
