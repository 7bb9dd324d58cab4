-- ===== src/Tests/Preflight.antt =====
-- Runs of the preflight.
use binance_funding_hedging.Prelude.{◌≡◌, ◌⊎◌, ◌↔◌, refl, true, none, some, Option, [], ◌∷◌}
use binance_funding_hedging.Prelude.Texts.{Text, codes}
use binance_funding_hedging.Decimal.{Decimal, of_int}
use binance_funding_hedging.Hedge.Errors.{ok}
use binance_funding_hedging.Hedge.Vocabulary.{
  forward, both_mode, papi_margin, papi_default, Rejection,
}
use binance_funding_hedging.Hedge.Grid.{decimal_lcm, floor_to_grid}
use binance_funding_hedging.Hedge.Filters.{
  Filters, missing, number, unset, effective_market_step, check_common_quantity, qty_bounds,
}
use binance_funding_hedging.Hedge.Preflight.{
  PreflightSnapshot, PreflightResult, SnapshotRecord, fingerprint, base_asset, required_funds,
  available_funds, balance_gate, quantity_gates, price_gate, step_gates, read_gates,
  compute_preflight, incomplete_price,
}
use binance_funding_hedging.Hedge.Preflight.Gates.{Accepted, compute_preflight_sound}
use binance_funding_hedging.Hedge.Preflight.Incomplete.{Unread, compute_preflight-incomplete}

abbrev step : Decimal
step = record { units = 1; places = 3 }

abbrev filters : Filters
filters = record {
  market_lot_size = record { step_size = number step; min_qty = missing; max_qty = missing };
  lot_size = record { step_size = missing; min_qty = number step; max_qty = number (of_int 100) };
  notional = record {
    apply_min_to_market = unset;
    min_notional = number (of_int 5);
    notional = missing;
  };
}

abbrev snapshot : Option Decimal → PreflightSnapshot
snapshot price = record {
  spot_filters = filters;
  perp_filters = filters;
  balances = (codes "USDT", of_int 1000) ∷ [];
  position_mode = both_mode;
  est_price = price;
  rate_limit_order = none;
  symbol_tradable = true;
  spot_symbol = none;
  spot_route = papi_margin;
  spot_route_reason = papi_default;
  spot_route_endpoint = "/papi/v1/margin/order";
  spot_account_usdt = none;
  spot_rate_limit_order = none;
  spot_account_base_free = none;
}

abbrev coin : Text
coin = codes "BTCUSDT"

-- 1.2345 of the coin, twice, at a price of 10.
abbrev amount : Decimal
amount = record { units = 12345; places = 4 }

abbrev q : Decimal
q = record { units = 1234; places = 3 }

abbrev accepted : PreflightResult
accepted = record {
  q_common = some q;
  position_side_mode = some both_mode;
  balance_ok = some true;
  required = some (record { units = 24680; places = 3 });
  available = some (of_int 1000);
  rejection = none;
  snapshot_record =
      SnapshotRecord.available (fingerprint (snapshot (some (of_int 10))) step step step);
}

preflight_run :
    compute_preflight (some (snapshot (some (of_int 10)))) coin forward amount 2 true ≡ ok accepted
unfolding compute_preflight read_gates step_gates price_gate quantity_gates balance_gate
    effective_market_step decimal_lcm floor_to_grid check_common_quantity base_asset required_funds
    available_funds qty_bounds
preflight_run = refl

compute_preflight_sound_example :
    ((some (snapshot (some (of_int 10))) ≡ none) × (accepted.q_common ≡ none))
    ⊎ ((s : PreflightSnapshot) × (some (snapshot (some (of_int 10))) ≡ some s)
        × Accepted s coin forward 2 amount true accepted)
compute_preflight_sound_example =
    compute_preflight_sound (some (snapshot (some (of_int 10)))) coin forward 2 true amount accepted
      preflight_run refl

abbrev unpriced : PreflightResult
unpriced = incomplete_price (snapshot none) q (fingerprint (snapshot none) step step step)

unpriced_run : compute_preflight (some (snapshot none)) coin forward amount 2 true ≡ ok unpriced
unfolding compute_preflight read_gates step_gates price_gate effective_market_step decimal_lcm
    floor_to_grid
unpriced_run = refl

compute_preflight-incomplete_example :
    (unpriced.rejection ≡ some Rejection.preflight_incomplete)
    ↔ Unread (snapshot none) coin forward 2 true
compute_preflight-incomplete_example =
    compute_preflight-incomplete (snapshot none) coin forward 2 true amount unpriced refl refl
      unpriced_run
