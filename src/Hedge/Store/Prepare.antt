-- ===== src/Hedge/Store/Prepare.antt =====
-- The durable reservation of a pair before it is sent: `prepare_attempt` of
-- backend/hedge_open_tasks/store.py.
use binance_funding_hedging.Prelude.{
  ℕ, ◌+◌, Bool, false, not, Option, none, some, List, [], ◌∷◌, String, if◌then◌else◌, leb, ◌==◌,
  ◌&&◌, ◌||◌, update_where, is_some, max,
}
use binance_funding_hedging.Decimal.{of_int}
use binance_funding_hedging.Hedge.Vocabulary.{
  Direction, PassReason, prepared, is_running, is_smooth,
}
use binance_funding_hedging.Hedge.Attempt.{LegName, spot, perp}
use binance_funding_hedging.Hedge.Store.Rows.{Task, Attempt, Leg, Store}
use text.Mathlib.Text.{◌==◌ as str_eq}
use binance_funding_hedging.Hedge.Store.Tasks.{get_task, has_id, in_flight, is_value}
use binance_funding_hedging.Hedge.Store.Cycles.{get_active_cycle, new_cycle}

-- COALESCE(MAX(attempt_seq), 0) + 1 of a task
unfoldable pub last_seq : ℕ → List Attempt → ℕ
last_seq task_id [] = 0
last_seq task_id (a ∷ rest) =
    let highest = last_seq task_id rest in
    if a.task_id == task_id then max a.attempt_seq highest else highest

-- What the caller of `prepare_attempt` gives beside the task's id.
pub record Plan : Type 0 where
  pub attempt_uuid : String
  pub direction : Direction
  pub q_common : String
  pub position_side_mode : String
  pub preflight_fingerprint : String
  pub spot_client_order_id : String
  pub spot_request_shape : String
  pub spot_endpoint : String
  pub perp_client_order_id : String
  pub perp_request_shape : String
  pub expected_gate_seq : Option ℕ
  pub smooth_pass_reason : Option PassReason

-- The test of a smooth task's gate: an expected number that is the gate's, and a pass reason.
abbrev pub gate_passed : Task → Plan → Bool
gate_passed t plan = elim plan.expected_gate_seq [
  | none ↦ false
  | some n ↦ is_value n t.smooth_gate_seq && is_some plan.smooth_pass_reason
]

-- The checks of `prepare_attempt` on the task's row.
abbrev pub may_prepare : Task → Plan → Bool
may_prepare t plan =
    is_running t.status
    && not (leb t.target_n t.scheduled_attempt_count)
    && (not (is_smooth t.mode) || gate_passed t plan)

abbrev pub new_leg : ℕ → ℕ → LegName → String → String → String → Leg
new_leg leg_id attempt_id name client_order_id endpoint shape = record {
  id = leg_id;
  attempt_id = attempt_id;
  leg = name;
  client_order_id = client_order_id;
  endpoint = endpoint;
  request_shape = shape;
  dispatch_state = prepared;
  order_id = none;
  exchange_status = none;
  cumulative_base_qty = of_int 0;
  cumulative_quote_amt = none;
  avg_price = none;
  fee_amount = none;
  fee_asset = none;
  error_code = none;
  error_category = none;
  dispatched_at_us = none;
  last_query_at_us = none;
  terminal = false;
}

-- `position_side_mode or POS_MODE_BOTH`
abbrev or_both : String → String
or_both mode = if str_eq mode "" then "BOTH" else mode

abbrev pub new_attempt : ℕ → Task → Plan → ℕ → ℕ → ℕ → Attempt
new_attempt attempt_id t plan seq cycle_id now_us = record {
  id = attempt_id;
  task_id = t.id;
  attempt_uuid = plan.attempt_uuid;
  attempt_seq = seq;
  direction = plan.direction;
  q_common = plan.q_common;
  preflight_fingerprint = plan.preflight_fingerprint;
  position_side_mode = or_both plan.position_side_mode;
  pair_outcome = none;
  log_ref = none;
  created_at_us = now_us;
  cycle_id = cycle_id;
  smooth_pass_reason = if is_smooth t.mode then plan.smooth_pass_reason else none;
  error_category = none;
  error_code = none;
  rate_limited = false;
}

abbrev pub reserved : ℕ → Task → Task
reserved now_us t = record t {
  scheduled_attempt_count = t.scheduled_attempt_count + 1;
  smooth_gate_seq = none;
  smooth_gate_started_at_us = none;
  smooth_gate_force_requested = false;
  updated_at_us = now_us;
}

-- The inserts and the update of `prepare_attempt` once every check has passed. New rows are put at
-- the front of their tables.
unfoldable pub reserve_pair : Task → Plan → ℕ → ℕ → Store → Store
unfolding get_active_cycle last_seq
reserve_pair t plan fresh_cycle_id now_us s =
    let active = get_active_cycle t.coin t.direction s in
    let opened = new_cycle fresh_cycle_id t.coin t.direction now_us t.id in
    let cycle_id : ℕ = elim active [ none ↦ fresh_cycle_id | some c ↦ c.id ] in
    let seq = last_seq t.id s.attempts + 1 in
    let attempt = new_attempt s.next_attempt_id t plan seq cycle_id now_us in
    let spot_leg =
      new_leg s.next_leg_id s.next_attempt_id spot plan.spot_client_order_id plan.spot_endpoint
        plan.spot_request_shape in
    let perp_leg =
      new_leg (s.next_leg_id + 1) s.next_attempt_id perp plan.perp_client_order_id
        "/papi/v1/um/order" plan.perp_request_shape in
    record s {
      tasks = update_where (has_id t.id) (reserved now_us) s.tasks;
      attempts = attempt ∷ s.attempts;
      legs = perp_leg ∷ spot_leg ∷ s.legs;
      cycles = elim active [ none ↦ opened ∷ s.cycles | some c ↦ s.cycles ];
      next_attempt_id = s.next_attempt_id + 1;
      next_leg_id = s.next_leg_id + 2;
    }

-- The new database and the id of the attempt, if one was made.
unfoldable pub prepare_attempt : ℕ → Plan → ℕ → ℕ → Store → Store × Option ℕ
unfolding reserve_pair
prepare_attempt task_id plan fresh_cycle_id now_us s = elim (get_task s task_id) [
  | none ↦ (s, none)
  | some t ↦
      if may_prepare t plan && not (in_flight s t.id)
      then (reserve_pair t plan fresh_cycle_id now_us s, some s.next_attempt_id)
      else (s, none)
]
