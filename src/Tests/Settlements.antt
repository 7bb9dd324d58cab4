-- ===== src/Tests/Settlements.antt =====
-- Runs of the settlement of a pair.
use binance_funding_hedging.Prelude.{
  ◌≡◌, ◌↔◌, ◌⊎◌, ◌≤◌, refl, Bool, true, false, none, some, Option, [], ◌∷◌, arith, inl, String,
}
use binance_funding_hedging.Decimal.{of_int}
use binance_funding_hedging.Hedge.Errors.{ok}
use binance_funding_hedging.Hedge.Vocabulary.{
  paused, stopped, deleted, failed, success, forward, terminal_recorded,
  consecutive_submission_failure, close_spot_balance,
}
use binance_funding_hedging.Hedge.Attempt.{LegName, spot, perp}
use binance_funding_hedging.Hedge.Store.Rows.{Task, Attempt, Leg, Store}
use binance_funding_hedging.Hedge.Store.Counters.{apply_task_counters}
use binance_funding_hedging.Hedge.Store.Counters.Laws.{IsCounted}
use binance_funding_hedging.Hedge.Store.Counters.Outcomes.{apply_task_counters-deleted}
use binance_funding_hedging.Hedge.Store.Counters.Brake.{
  apply_task_counters-brake, apply_task_counters-pause_reason,
}
use binance_funding_hedging.Hedge.Store.Settle.{
  settle, from_legs, stamped, rollup, settle_from_legs, settleable, closed_legs, exposure_from_legs,
}
use binance_funding_hedging.Hedge.Store.Resolve.{
  AttemptOutcome, LegOutcome, absent, figure, resolve_attempt,
}
use binance_funding_hedging.Hedge.Store.Invariant.{Inv}
use binance_funding_hedging.Hedge.Store.Invariant.Outcomes.{
  resolve_attempt-Inv, settle_from_legs-Inv, settle_from_legs-once,
}
use binance_funding_hedging.Tests.Database.{task, settings}

-- The task with one pair reserved.
abbrev reserved_task : Task
reserved_task = record task { scheduled_attempt_count = 1 }

abbrev pub attempt : Attempt
attempt = record {
  id = 1;
  task_id = 1;
  attempt_uuid = "a";
  attempt_seq = 1;
  direction = forward;
  q_common = "1";
  preflight_fingerprint = "";
  position_side_mode = "BOTH";
  pair_outcome = none;
  log_ref = none;
  created_at_us = 5;
  cycle_id = 9;
  smooth_pass_reason = none;
  error_category = none;
  error_code = none;
  rate_limited = false;
}

abbrev closed_leg : LegName → Option String → Leg
closed_leg name order_id = record {
  id = 1;
  attempt_id = 1;
  leg = name;
  client_order_id = "c";
  endpoint = "e";
  request_shape = "";
  dispatch_state = terminal_recorded;
  order_id = order_id;
  exchange_status = some "FILLED";
  cumulative_base_qty = of_int 1;
  cumulative_quote_amt = none;
  avg_price = none;
  fee_amount = none;
  fee_asset = none;
  error_code = none;
  error_category = none;
  dispatched_at_us = some 6;
  last_query_at_us = some 6;
  terminal = true;
}

abbrev pub spot_row : Leg
spot_row = closed_leg spot (some "11")

abbrev perp_row : Leg
perp_row = closed_leg perp (some "12")

abbrev pub reserved_database : Store
reserved_database = record {
  tasks = reserved_task ∷ [];
  attempts = attempt ∷ [];
  legs = perp_row ∷ spot_row ∷ [];
  cycles = [];
  logs = [];
  settings = settings;
  next_attempt_id = 2;
  next_leg_id = 3;
  next_log_id = 1;
}

reserved-IsCounted : IsCounted reserved_task 1
reserved-IsCounted = record {
  paired = refl;
  in_a_row = omega arith;
  settled = omega arith;
  capped = omega arith;
}

pub reserved-Inv : Inv reserved_database
reserved-Inv = record {
  sound = (record { counts = reserved-IsCounted; single = omega arith }, tt);
  keyed = (tt, tt);
}

settle_from_legs-Inv_example :
    (s' : Store) × (flag : Bool) × (settle_from_legs false 1 7 reserved_database ≡ ok (s', flag))
    × Inv s'
settle_from_legs-Inv_example =
    settle_from_legs-Inv false 1 7 reserved_database (omega arith) reserved-Inv

abbrev settled_database : Store
settled_database =
    settle 1 attempt reserved_task (from_legs spot_row perp_row none false) 7
      (stamped (rollup spot_row perp_row)) reserved_database

settles_run : settle_from_legs false 1 7 reserved_database ≡ ok (settled_database, true)
unfolding settle_from_legs settleable closed_legs exposure_from_legs
settles_run = refl

settle_from_legs-once_example :
    settle_from_legs true 1 8 settled_database ≡ ok (settled_database, false)
settle_from_legs-once_example =
    settle_from_legs-once false 1 7 reserved_database settled_database (omega arith) settles_run
      true 8

abbrev filled : LegOutcome
filled = record {
  status = some "FILLED";
  order_id = some "11";
  filled_qty = figure (of_int 1);
  cumulative_quote = absent;
  fee_amount = none;
  fee_asset = none;
  avg_price = none;
  error_code = none;
  error_category = none;
}

abbrev outcome : AttemptOutcome
outcome = record {
  category = success;
  spot_leg = filled;
  perp_leg = filled;
  exposure = none;
  record_payload = "{}";
  error_category = none;
  error_code = none;
}

attempt-open :
    (a : Attempt)
    → (let found : Option Attempt = some attempt in found ≡ some a)
    → a.pair_outcome ≡ none
attempt-open a h = ground arith

resolve_attempt-Inv_example : Inv (resolve_attempt 1 outcome true true false 7 reserved_database).0
resolve_attempt-Inv_example =
    resolve_attempt-Inv 1 outcome true true false 7 reserved_database attempt-open tt reserved-Inv

abbrev paused_task : Task
paused_task = record reserved_task { status = paused; pause_reason = some close_spot_balance }

abbrev deleted_task : Task
deleted_task = record reserved_task { status = deleted }

apply_task_counters-deleted_example :
    let t' = (apply_task_counters failed none true none false false 7 deleted_task).0 in
    ((t'.status ≡ deleted) ↔ ((true ≡ false) ⊎ (false ≡ true)))
    × ((t'.status ≡ stopped) ↔ ((true ≡ true) × (false ≡ false)))
apply_task_counters-deleted_example =
    apply_task_counters-deleted failed none true none false false 7 deleted_task refl

apply_task_counters-brake_example :
    let t' = (apply_task_counters failed none false none false false 7 reserved_task).0 in
    ((t'.status ≡ paused) ↔ (2 ≤ 1))
    × (t'.status ≡ paused → t'.pause_reason ≡ some consecutive_submission_failure)
    × (t'.fail_count ≡ 1)
apply_task_counters-brake_example =
    apply_task_counters-brake failed none none false 7 reserved_task (inl refl) refl

apply_task_counters-pause_reason_example :
    let (t', _, entry) = apply_task_counters failed none false none false false 7 paused_task in
    (t'.status ≡ paused) × (t'.pause_reason ≡ some consecutive_submission_failure) × (entry ≡ none)
apply_task_counters-pause_reason_example =
    apply_task_counters-pause_reason failed none none false 7 paused_task (inl refl) refl
