-- ===== src/Hedge/Preflight.antt =====
-- The pure preflight: PreflightSnapshot, PreflightResult, base_asset and compute_preflight of
-- backend/hedge_open_tasks/domain.py.
pub mod Snapshot
pub mod Fresh
pub mod Gates
pub mod Incomplete
unfoldable pub use Snapshot.*
use binance_funding_hedging.Prelude.{
  ℕ, Bool, true, false, Option, none, some, List, [], ◌∷◌, String, if◌then◌else◌,
}
use binance_funding_hedging.Prelude.Texts.{Text, codes, same_text, strip_suffix}
use binance_funding_hedging.Decimal.{Decimal, is_positive, le_decimal, mul, of_int}
use binance_funding_hedging.Hedge.Errors.{Result, ok, err, invalid_field, ◌>>=◌}
use binance_funding_hedging.Hedge.Vocabulary.{
  Direction, forward, reverse, PositionMode, both_mode, hedge_mode, SpotRoute, papi_margin,
  regular_spot, RouteReason, Rejection,
}
use binance_funding_hedging.Hedge.Filters.{
  Filters, effective_market_step, qty_bounds, check_common_quantity,
}
use binance_funding_hedging.Hedge.Grid.{decimal_lcm, floor_to_grid}

-- From the price on, with the grid and the common quantity known.
unfoldable pub quantity_gates :
    PreflightSnapshot
    → Text
    → Direction
    → ℕ
    → Bool
    → Decimal
    → Decimal
    → Fingerprint
    → Result PreflightResult
quantity_gates s coin direction target_n check_balance q price rec =
    elim (check_common_quantity q s.spot_filters s.perp_filters (some price)) [
      | some reject ↦ ok (
          unsized (some q) (some s.position_mode) none (some reject) (SnapshotRecord.available rec))
      | none ↦
          if check_balance
          then (base_asset coin >>= λ base. ok (balance_gate s direction target_n q price rec base))
          else ok (
              unsized (some q) (some s.position_mode) (some true) none
                (SnapshotRecord.available (record rec { external_balance_gate = true })))
    ]

abbrev pub fingerprint : PreflightSnapshot → Decimal → Decimal → Decimal → Fingerprint
fingerprint s spot_step perp_step grid = record {
  spot_step = spot_step;
  perp_step = perp_step;
  spot_bounds = qty_bounds s.spot_filters;
  perp_bounds = qty_bounds s.perp_filters;
  grid = grid;
  est_price = s.est_price;
  position_mode = s.position_mode;
  spot_route = s.spot_route;
  spot_route_reason = s.spot_route_reason;
  spot_endpoint = s.spot_route_endpoint;
  external_balance_gate = false;
}

abbrev pub incomplete_price : PreflightSnapshot → Decimal → Fingerprint → PreflightResult
incomplete_price s q rec =
    unsized (some q) (some s.position_mode) none (some Rejection.preflight_incomplete)
      (SnapshotRecord.available rec)

-- The gate on the price.
unfoldable pub price_gate :
    PreflightSnapshot → Text → Direction → ℕ → Bool → Decimal → Fingerprint → Result PreflightResult
price_gate s coin direction target_n check_balance q rec = elim s.est_price [
  | none ↦ ok (incomplete_price s q rec)
  | some price ↦
      if is_positive price
      then quantity_gates s coin direction target_n check_balance q price rec
      else ok (incomplete_price s q rec)
]

-- From the two market steps on.
unfoldable pub step_gates :
    PreflightSnapshot
    → Text
    → Direction
    → Decimal
    → ℕ
    → Bool
    → Decimal
    → Decimal
    → Result PreflightResult
step_gates s coin direction single_amount target_n check_balance spot_step perp_step = do
  grid ← decimal_lcm spot_step perp_step
  q ← floor_to_grid single_amount grid
  price_gate s coin direction target_n check_balance q (fingerprint s spot_step perp_step grid)

abbrev pub unreadable_step : PreflightSnapshot → PreflightResult
unreadable_step s =
    unsized none (some s.position_mode) none (some Rejection.preflight_incomplete)
      SnapshotRecord.step_unreadable

unfoldable pub read_gates :
    PreflightSnapshot → Text → Direction → Decimal → ℕ → Bool → Result PreflightResult
read_gates s coin direction single_amount target_n check_balance =
    elim (effective_market_step s.spot_filters) [
      | none ↦ ok (unreadable_step s)
      | some spot_step ↦ elim (effective_market_step s.perp_filters) [
        | none ↦ ok (unreadable_step s)
        | some perp_step ↦
            step_gates s coin direction single_amount target_n check_balance spot_step perp_step
      ]
    ]

abbrev is_one_way : PositionMode → Bool
is_one_way both_mode = true
is_one_way hedge_mode = false

unfoldable pub compute_preflight :
    Option PreflightSnapshot → Text → Direction → Decimal → ℕ → Bool → Result PreflightResult
compute_preflight none coin direction single_amount target_n check_balance =
    ok (unsized none none none none SnapshotRecord.no_preflight_snapshot)
compute_preflight (some s) coin direction single_amount target_n check_balance =
    if s.symbol_tradable
    then if is_one_way s.position_mode
      then read_gates s coin direction single_amount target_n check_balance
      else ok (
          unsized none (some s.position_mode) none (some Rejection.position_mode_invalid)
            SnapshotRecord.position_mode_not_one_way)
    else ok (
        unsized none (some s.position_mode) none (some Rejection.symbol_unavailable)
          SnapshotRecord.symbol_not_trading)
