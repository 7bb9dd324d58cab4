-- ===== src/Hedge/Worker/Verdicts.antt =====
-- What the worker makes of one leg's answer: _query_verdict_terminal, _query_verdict_decisive,
-- _leg_terminal and _pause_signal_from_legs of backend/hedge_open_tasks/service.py.
use binance_funding_hedging.Prelude.{
  Bool, true, false, Option, none, some, List, [], ◌∷◌, String, if◌then◌else◌, ◌||◌,
}
use binance_funding_hedging.Prelude.Texts.{mem}
use binance_funding_hedging.Decimal.{Decimal}
use binance_funding_hedging.Hedge.Vocabulary.{
  LegDispatchState, accepted_or_querying, terminal_recorded, ErrorCategory, absent, collateral_cap,
  insufficient_funds,
}
use binance_funding_hedging.Hedge.Attempt.{LegName, spot, perp}
use text.Mathlib.Text.{◌==◌ as str_eq}

-- SIGNAL_*
pub data Signal : Type 0 where
  signal_rate_limited signal_insufficient_balance signal_insufficient_margin : Signal
  signal_insufficient_available_qty signal_collateral_cap signal_order_state_unknown : Signal

-- LegDispatch of backend/services/live_hedge_executor.py, without the raw responses
pub record LegDispatch : Type 0 where
  pub leg : LegName
  pub dispatch_state : LegDispatchState
  pub order_id : Option String
  pub exchange_status : Option String
  pub executed_qty : Decimal
  pub cumulative_quote : Option Decimal
  pub avg_price : Option Decimal
  pub rate_limited : Bool
  pub error_code : Option String
  pub error_category : Option ErrorCategory

-- FILLED, REJECTED, EXPIRED, CANCELED
abbrev pub final_statuses : List String
final_statuses = "FILLED" ∷ "REJECTED" ∷ "EXPIRED" ∷ "CANCELED" ∷ []

abbrev pub is_final : Option String → Bool
is_final none = false
is_final (some status) = mem status final_statuses

abbrev pub is_filled : Option String → Bool
is_filled none = false
is_filled (some status) = str_eq status "FILLED"

abbrev pub is_absent : Option ErrorCategory → Bool
is_absent (some absent) = true
is_absent _ = false

unfoldable pub query_verdict_terminal : LegDispatch → Bool
unfolding mem
query_verdict_terminal v = elim v.dispatch_state [
  | terminal_recorded ↦ true
  | accepted_or_querying ↦ is_final v.exchange_status
  | _ ↦ false
]

unfoldable pub query_verdict_decisive : LegDispatch → Bool
unfolding mem
query_verdict_decisive v =
    v.rate_limited || is_absent v.error_category || is_final v.exchange_status

abbrev is_spot : LegName → Bool
is_spot spot = true
is_spot perp = false

-- A filled perpetual leg waits for its quote.
unfoldable pub leg_terminal : LegDispatch → Bool
leg_terminal l = elim l.dispatch_state [
  | terminal_recorded ↦ true
  | accepted_or_querying ↦
      if is_filled l.exchange_status
      then if is_spot l.leg then true else elim l.cumulative_quote [ none ↦ false | some q ↦ true ]
      else false
  | _ ↦ false
]

abbrev is_margin_code : Option String → Bool
is_margin_code none = false
is_margin_code (some code) = str_eq code "-2019"

-- One pass of the loop over the legs.
abbrev pub pause_signal_of : LegDispatch → Option Signal
pause_signal_of l = elim l.error_category [
  | some collateral_cap ↦ some signal_collateral_cap
  | some insufficient_funds ↦
      if is_margin_code l.error_code
      then some signal_insufficient_margin
      else some signal_insufficient_balance
  | _ ↦ none
]

unfoldable pub pause_signal_from_legs : LegDispatch → LegDispatch → Option Signal
pause_signal_from_legs s p = elim (pause_signal_of s) [
  | some signal ↦ some signal
  | none ↦ pause_signal_of p
]
