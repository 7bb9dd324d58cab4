-- ===== src/Hedge/Store/Legs.antt =====
-- The writes to single legs and attempts between the dispatch of a pair and its settlement, in
-- backend/hedge_open_tasks/store.py.
use binance_funding_hedging.Prelude.{
  ℕ, Bool, true, false, Option, none, some, String, if◌then◌else◌, ◌==◌, ◌&&◌, find?, update_where,
  coalesce,
}
use binance_funding_hedging.Decimal.{Decimal, div, is_positive}
use binance_funding_hedging.Hedge.Vocabulary.{
  LegDispatchState, accepted_or_querying, terminal_recorded, ErrorCategory,
}
use binance_funding_hedging.Hedge.Attempt.{LegName, spot, perp, LegDoc, truthy}
use binance_funding_hedging.Hedge.Store.Rows.{Leg, Store}

-- WHERE attempt_id = ? AND leg = ?
abbrev same_leg : LegName → LegName → Bool
same_leg spot spot = true
same_leg perp perp = true
same_leg _ _ = false

abbrev pub is_leg_of : ℕ → LegName → Leg → Bool
is_leg_of attempt_id name l = l.attempt_id == attempt_id && same_leg l.leg name

abbrev pub find_leg : Store → ℕ → LegName → Option Leg
find_leg s attempt_id name = find? (is_leg_of attempt_id name) s.legs

-- `LEG_NEW if order_id else None`
abbrev new_if_accepted : Option String → Option String
new_if_accepted order_id = if truthy order_id then some "NEW" else none

unfoldable pub mark_leg_querying :
    ℕ → LegName → LegDispatchState → Option String → ℕ → Store → Store
mark_leg_querying attempt_id name state order_id now_us s = record s {
  legs =
      update_where (is_leg_of attempt_id name)
        (λ l. record l {
          dispatch_state = state;
          order_id = coalesce order_id l.order_id;
          exchange_status = coalesce l.exchange_status (new_if_accepted order_id);
          dispatched_at_us = coalesce l.dispatched_at_us (some now_us);
          last_query_at_us = some now_us;
        })
        s.legs;
}

-- The result of one order query.
pub record QueryResult : Type 0 where
  pub exchange_status : String
  pub order_id : Option String
  pub base_qty : Decimal
  pub quote_amt : Option Decimal
  pub fee_amount : Option String
  pub fee_asset : Option String
  pub terminal : Bool
  pub error_code : Option String
  pub error_category : Option ErrorCategory
  pub avg_price : Option Decimal

abbrev pub state_after : Bool → LegDispatchState
state_after terminal = if terminal then terminal_recorded else accepted_or_querying

unfoldable pub query_written : QueryResult → ℕ → Leg → Leg
query_written r now_us l = record l {
  exchange_status = some r.exchange_status;
  order_id = coalesce r.order_id l.order_id;
  cumulative_base_qty = r.base_qty;
  cumulative_quote_amt = coalesce r.quote_amt l.cumulative_quote_amt;
  avg_price = coalesce r.avg_price l.avg_price;
  fee_amount = r.fee_amount;
  fee_asset = r.fee_asset;
  error_code = r.error_code;
  error_category = r.error_category;
  dispatch_state = state_after r.terminal;
  terminal = r.terminal;
  last_query_at_us = some now_us;
}

unfoldable pub resolve_leg_from_query : ℕ → QueryResult → ℕ → Store → Store
unfolding query_written
resolve_leg_from_query leg_id r now_us s = record s {
  legs = update_where (λ l. l.id == leg_id) (query_written r now_us) s.legs;
}

unfoldable pub mark_attempt_rate_limited : ℕ → Store → Store
mark_attempt_rate_limited attempt_id s = record s {
  attempts =
      update_where (λ a. a.id == attempt_id) (λ a. record a { rate_limited = true }) s.attempts;
}

-- `_leg_row_to_exposure_input`
unfoldable pub leg_row_to_exposure_input : Leg → LegDoc
unfolding div
leg_row_to_exposure_input l = record {
  order_id = l.order_id;
  filled_qty = some l.cumulative_base_qty;
  avg_price = elim l.cumulative_quote_amt [
    | none ↦ none
    | some quote ↦
        if is_positive l.cumulative_base_qty then some (div quote l.cumulative_base_qty) else none
  ];
}
