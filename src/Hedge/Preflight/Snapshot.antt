-- ===== src/Hedge/Preflight/Snapshot.antt =====
-- The facts that the preflight reads, its result, and its gate on the funds, of
-- backend/hedge_open_tasks/domain.py.
use binance_funding_hedging.Prelude.{
  ℕ, Bool, true, false, Option, none, some, List, [], ◌∷◌, String, if◌then◌else◌,
}
use binance_funding_hedging.Prelude.Texts.{Text, codes, same_text, strip_suffix}
use binance_funding_hedging.Decimal.{Decimal, le_decimal, mul, of_int}
use binance_funding_hedging.Hedge.Errors.{Result, ok, err, invalid_field}
use binance_funding_hedging.Hedge.Vocabulary.{
  Direction, forward, reverse, PositionMode, SpotRoute, papi_margin, regular_spot, RouteReason,
  Rejection,
}
use binance_funding_hedging.Hedge.Filters.{Filters}

abbrev pub Balances : Type 0
Balances = List (Text × Decimal)

-- A price of 0 stands for every price that is not positive.
pub record PreflightSnapshot : Type 0 where
  pub spot_filters : Filters
  pub perp_filters : Filters
  pub balances : Balances
  pub position_mode : PositionMode
  pub est_price : Option Decimal
  pub rate_limit_order : Option ℕ
  pub symbol_tradable : Bool
  pub spot_symbol : Option String
  pub spot_route : SpotRoute
  pub spot_route_reason : RouteReason
  pub spot_route_endpoint : String
  pub spot_account_usdt : Option Decimal
  pub spot_rate_limit_order : Option ℕ
  pub spot_account_base_free : Option Decimal

-- The fields of `snapshot_record` once the grid is known; `external_balance_gate` is whether it
-- carries "balance_gate".
pub record Fingerprint : Type 0 where
  pub spot_step : Decimal
  pub perp_step : Decimal
  pub spot_bounds : Option Decimal × Option Decimal
  pub perp_bounds : Option Decimal × Option Decimal
  pub grid : Decimal
  pub est_price : Option Decimal
  pub position_mode : PositionMode
  pub spot_route : SpotRoute
  pub spot_route_reason : RouteReason
  pub spot_endpoint : String
  pub external_balance_gate : Bool

-- `snapshot_record`, by its "reason" where it has one.
pub data SnapshotRecord : Type 0 where
  no_preflight_snapshot symbol_not_trading position_mode_not_one_way : SnapshotRecord
  step_unreadable : SnapshotRecord
  available : Fingerprint → SnapshotRecord

pub record PreflightResult : Type 0 where
  pub q_common : Option Decimal
  pub position_side_mode : Option PositionMode
  pub balance_ok : Option Bool
  pub required : Option Decimal
  pub available : Option Decimal
  pub rejection : Option Rejection
  pub snapshot_record : SnapshotRecord

abbrev pub quote_asset : Text
quote_asset = codes "USDT"

unfoldable pub base_asset : Text → Result Text
unfolding strip_suffix
base_asset coin = elim (strip_suffix quote_asset coin) [
  | none ↦ err (invalid_field "coin")
  | some base ↦ ok base
]

abbrev pub zero_decimal : Decimal
zero_decimal = of_int 0

-- balances.get(asset, Decimal(0))
unfoldable pub balance_of : Text → Balances → Decimal
balance_of asset [] = zero_decimal
balance_of asset ((a, d) ∷ rest) = if same_text a asset then d else balance_of asset rest

abbrev pub or_zero : Option Decimal → Decimal
or_zero none = zero_decimal
or_zero (some d) = d

-- A result with no balance figures.
abbrev pub unsized :
    Option Decimal
    → Option PositionMode
    → Option Bool
    → Option Rejection
    → SnapshotRecord
    → PreflightResult
unsized q mode balance rejection rec = record {
  q_common = q;
  position_side_mode = mode;
  balance_ok = balance;
  required = none;
  available = none;
  rejection = rejection;
  snapshot_record = rec;
}

-- What the task needs, over all its attempts.
unfoldable pub required_funds : Direction → Decimal → ℕ → Decimal → Decimal
unfolding mul
required_funds forward q target_n price = mul (mul q (of_int target_n)) price
required_funds reverse q target_n price = mul q (of_int target_n)

unfoldable pub available_funds : PreflightSnapshot → Direction → Text → Decimal
unfolding balance_of
available_funds s forward base = balance_of quote_asset s.balances
available_funds s reverse base = elim s.spot_route [
  | regular_spot ↦ or_zero s.spot_account_base_free
  | papi_margin ↦ balance_of base s.balances
]

-- A forward task on the standard spot account is let through: its funds are transferred when the
-- task is made.
abbrev pub is_prefunded : Direction → SpotRoute → Bool
is_prefunded forward regular_spot = true
is_prefunded _ _ = false

unfoldable pub balance_gate :
    PreflightSnapshot → Direction → ℕ → Decimal → Decimal → Fingerprint → Text → PreflightResult
balance_gate s direction target_n q price rec base =
    let required = required_funds direction q target_n price in
    let free = available_funds s direction base in
    let enough : Bool =
      if is_prefunded direction s.spot_route then true else le_decimal required free in
    record {
      q_common = some q;
      position_side_mode = some s.position_mode;
      balance_ok = some enough;
      required = some required;
      available = some free;
      rejection = if enough then none else some Rejection.insufficient_balance;
      snapshot_record = SnapshotRecord.available rec;
    }
