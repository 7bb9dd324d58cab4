-- ===== src/Tests/Database.antt =====
-- A small database, and runs of the operations on tasks and of the reservation of a pair.
use binance_funding_hedging.Prelude.{ℕ, ◌≡◌, ◌<◌, refl, true, false, none, some, [], ◌∷◌, arith}
use binance_funding_hedging.Hedge.Vocabulary.{running, done, forward, immediate, open_task}
use binance_funding_hedging.Hedge.Store.Rows.{Task, Store, Settings}
use binance_funding_hedging.Hedge.Store.Tasks.{get_task, in_flight}
use binance_funding_hedging.Hedge.Store.Prepare.{Plan, prepare_attempt}
use binance_funding_hedging.Hedge.Store.Invariant.{Inv}
use binance_funding_hedging.Hedge.Store.Invariant.Prepare.{prepare_attempt-exclusive}

abbrev pub task : Task
task = record {
  id = 1;
  coin = "BTCUSDT";
  direction = forward;
  mode = immediate;
  task_type = open_task;
  single_amount = "1";
  target_n = 2;
  success_count = 0;
  fail_count = 0;
  status = running;
  q_common = some "1";
  position_side_mode = some "BOTH";
  leg_exposure = none;
  preflight_snapshot = none;
  scheduled_attempt_count = 0;
  accepted_pair_count = 0;
  consecutive_submission_failures = 0;
  failure_pause_threshold = 2;
  pause_reason = none;
  pause_reason_zh = none;
  stop_reason = none;
  last_worker_exit_reason = none;
  smooth_gate_seq = none;
  smooth_gate_started_at_us = none;
  smooth_gate_force_requested = false;
  spot_symbol = none;
  spot_base_asset = none;
  symbol_match_type = none;
  slippage_threshold_pct = none;
  creation_seq = 1;
  created_at_us = 1;
  updated_at_us = 1;
}

abbrev pub settings : Settings
settings = record {
  start_gate = false;
  close_gate = true;
  executor_mode_snapshot = "live";
  interval_seconds = "1";
  interval_us = 1000000;
  rate_limit_order = none;
  version = 1;
  updated_at_us = 1;
}

abbrev pub database : Store
database = record {
  tasks = task ∷ [];
  attempts = [];
  legs = [];
  cycles = [];
  logs = [];
  settings = settings;
  next_attempt_id = 1;
  next_leg_id = 1;
  next_log_id = 1;
}

abbrev pub plan : Plan
plan = record {
  attempt_uuid = "a";
  direction = forward;
  q_common = "1";
  position_side_mode = "";
  preflight_fingerprint = "";
  spot_client_order_id = "s1";
  spot_request_shape = "";
  spot_endpoint = "/papi/v1/margin/order";
  perp_client_order_id = "p1";
  perp_request_shape = "";
  expected_gate_seq = none;
  smooth_pass_reason = none;
}

pub database-Inv : Inv database
database-Inv = record {
  sound = (
    record {
      counts = record {
        paired = refl;
        in_a_row = omega arith;
        settled = omega arith;
        capped = omega arith;
      };
      single = omega arith;
    },
    tt,
  );
  keyed = (tt, tt);
}

prepare_run : (prepare_attempt 1 plan 9 5 database).1 ≡ some 1
unfolding prepare_attempt
prepare_run = refl

prepare_attempt-exclusive_example :
    ((t : Task) × (get_task database 1 ≡ some t)
      × (t.status ≡ running)
      × (t.scheduled_attempt_count < t.target_n)
      × (in_flight database 1 ≡ false))
    × ((plan' : Plan) (cycle' now' : ℕ)
        → (prepare_attempt 1 plan' cycle' now' (prepare_attempt 1 plan 9 5 database).0).1 ≡ none)
prepare_attempt-exclusive_example = prepare_attempt-exclusive 1 plan 9 5 database 1 prepare_run

abbrev done_task : Task
done_task = record task { status = done }

abbrev done_database : Store
done_database = record database { tasks = done_task ∷ [] }

done-Inv : Inv done_database
done-Inv = record {
  sound = (
    record {
      counts = record {
        paired = refl;
        in_a_row = omega arith;
        settled = omega arith;
        capped = omega arith;
      };
      single = omega arith;
    },
    tt,
  );
  keyed = (tt, tt);
}
