-- ===== src/Hedge/Store/Resolve.antt =====
-- The settlement of a pair by the executor's outcome: `_leg_final_fields` and `resolve_attempt` of
-- backend/hedge_open_tasks/store.py.
use binance_funding_hedging.Prelude.{
  ℕ, ◌+◌, Bool, true, false, Option, none, some, ◌∷◌, String, if◌then◌else◌, update_where, is_some,
  coalesce,
}
use binance_funding_hedging.Decimal.{Decimal, of_int}
use binance_funding_hedging.Hedge.Vocabulary.{AttemptCategory, ErrorCategory}
use binance_funding_hedging.Hedge.Codes.{rollup_leg_error_category}
use binance_funding_hedging.Hedge.Attempt.{LegName, spot, perp, LegExposure, truthy}
use binance_funding_hedging.Hedge.Store.Rows.{Attempt, Leg, of_task, record_transport, Store}
use binance_funding_hedging.Hedge.Store.Tasks.{get_task}
use binance_funding_hedging.Hedge.Store.Legs.{is_leg_of, state_after}
use binance_funding_hedging.Hedge.Store.Settle.{get_attempt, settle, Settlement, is_fatal_category}

-- A figure of an executor's outcome: absent, the empty text, a text that is no decimal, or one.
pub data Figure : Type 0 where
  absent blank unparsable : Figure
  figure : Decimal → Figure

-- One leg of the executor's outcome.
pub record LegOutcome : Type 0 where
  pub status : Option String
  pub order_id : Option String
  pub filled_qty : Figure
  pub cumulative_quote : Figure
  pub fee_amount : Option String
  pub fee_asset : Option String
  pub avg_price : Option Decimal
  pub error_code : Option String
  pub error_category : Option ErrorCategory

pub record AttemptOutcome : Type 0 where
  pub category : AttemptCategory
  pub spot_leg : LegOutcome
  pub perp_leg : LegOutcome
  pub exposure : Option LegExposure
  pub record_payload : String
  pub error_category : Option ErrorCategory
  pub error_code : Option String

-- `_num`: a quantity that is not known is 0.
abbrev pub num : Figure → Decimal
num absent = of_int 0
num blank = of_int 0
num unparsable = of_int 0
num (figure d) = d

-- A money figure that is not known stays unknown.
abbrev pub num_or_none : Figure → Option Decimal
num_or_none absent = none
num_or_none blank = none
num_or_none unparsable = none
num_or_none (figure d) = some d

-- `leg_outcome.get("status") or LEG_UNKNOWN`
abbrev status_or_unknown : Option String → String
status_or_unknown o = if truthy o then elim o [ none ↦ "UNKNOWN" | some s ↦ s ] else "UNKNOWN"

-- The write of one leg: the fields of `_leg_final_fields` and the flags of `resolve_attempt`.
unfoldable pub leg_resolved : LegOutcome → Bool → ℕ → Leg → Leg
leg_resolved o terminal now_us l = record l {
  order_id = o.order_id;
  exchange_status = some (status_or_unknown o.status);
  cumulative_base_qty = num o.filled_qty;
  cumulative_quote_amt = num_or_none o.cumulative_quote;
  avg_price = o.avg_price;
  fee_amount = o.fee_amount;
  fee_asset = o.fee_asset;
  error_code = o.error_code;
  error_category = o.error_category;
  dispatch_state = state_after terminal;
  terminal = terminal;
  dispatched_at_us = coalesce l.dispatched_at_us (some now_us);
  last_query_at_us = coalesce l.last_query_at_us (some now_us);
}

unfoldable pub resolve_leg : ℕ → LegName → LegOutcome → Bool → ℕ → Store → Store
unfolding leg_resolved
resolve_leg attempt_id name o terminal now_us s = record s {
  legs = update_where (is_leg_of attempt_id name) (leg_resolved o terminal now_us) s.legs;
}

-- The attempt row's error: the legs' rollup, or the outcome's own where no leg has a category.
abbrev outcome_error : AttemptOutcome → Option ErrorCategory × Option String
outcome_error o =
    let rolled =
      rollup_leg_error_category o.spot_leg.error_category o.spot_leg.error_code
        o.perp_leg.error_category o.perp_leg.error_code in
    if is_some rolled.0 then rolled else (o.error_category, o.error_code)

abbrev outcome_is_fatal : AttemptOutcome → Bool
outcome_is_fatal o =
    is_fatal_category
      (rollup_leg_error_category o.spot_leg.error_category o.spot_leg.error_code
        o.perp_leg.error_category o.perp_leg.error_code).0

abbrev pub of_outcome : AttemptOutcome → Bool → Settlement
of_outcome o suppress_done = record {
  category = o.category;
  exposure = o.exposure;
  is_fatal = outcome_is_fatal o;
  skip_counters = false;
  suppress_done = suppress_done;
}

-- The log row of the transport, which the attempt then refers to.
abbrev pub transport_log : Attempt → AttemptOutcome → ℕ → Store → Store
transport_log a o now_us s = record s {
  logs =
      (record {
        id = s.next_log_id;
        task_id = of_task a.task_id;
        ts_us = now_us;
        entry = record_transport a.attempt_uuid o.record_payload;
      })
      ∷ s.logs;
  next_log_id = s.next_log_id + 1;
}

abbrev pub outcome_stamp : AttemptOutcome → ℕ → Attempt → Attempt
outcome_stamp o log_id b = record b {
  log_ref = some log_id;
  error_category = (outcome_error o).0;
  error_code = (outcome_error o).1;
}

-- The two flags are `leg_terminal` for the spot and the perpetual leg. `false` stands for the
-- UnknownTaskError of an attempt that is not there.
unfoldable pub resolve_attempt : ℕ → AttemptOutcome → Bool → Bool → Bool → ℕ → Store → Store × Bool
unfolding resolve_leg settle rollup_leg_error_category
resolve_attempt attempt_id o spot_terminal perp_terminal suppress_done now_us s =
    elim (get_attempt s attempt_id) [
      | none ↦ (s, false)
      | some a ↦ elim (get_task s a.task_id) [
        | none ↦ (s, false)
        | some t ↦ (
          settle attempt_id a t (of_outcome o suppress_done) now_us (outcome_stamp o s.next_log_id)
              (transport_log a o now_us (
                resolve_leg attempt_id perp o.perp_leg perp_terminal now_us
                  (resolve_leg attempt_id spot o.spot_leg spot_terminal now_us s))),
          true,
        )
      ]
    ]
