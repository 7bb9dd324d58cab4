-- ===== src/Tests/Orders.antt =====
-- Runs of the grid, the filters and the verdict on an attempt.
use binance_funding_hedging.Prelude.{ℕ, ◌+◌, ◌≡◌, refl, true, none, some, arith}
use Prim.Native.Nat.{◌∣◌}
use binance_funding_hedging.Decimal.{Decimal, of_int, le_decimal, lt_decimal, gcd}
use binance_funding_hedging.Decimal.Lcm.{lcm}
use binance_funding_hedging.Hedge.Errors.{ok}
use binance_funding_hedging.Hedge.Grid.{decimal_lcm, floor_to_grid}
use binance_funding_hedging.Hedge.Grid.Common.{FitsGrid, decimal_lcm-least}
use binance_funding_hedging.Hedge.Grid.Floor.{floor_to_grid-greatest}
use binance_funding_hedging.Hedge.Filters.{Filters, missing, number, unset, check_common_quantity}
use binance_funding_hedging.Hedge.Attempt.{LegDoc}

-- 0.001 and 0.02: the common grid is 0.020.
abbrev fine_step : Decimal
fine_step = record { units = 1; places = 3 }

abbrev coarse_step : Decimal
coarse_step = record { units = 2; places = 2 }

abbrev amount : Decimal
amount = record { units = 12345; places = 4 }

grid_run : decimal_lcm fine_step coarse_step ≡ ok (record { units = 20; places = 3 })
unfolding decimal_lcm
grid_run = refl

floor_run : floor_to_grid amount coarse_step ≡ ok (record { units = 122; places = 2 })
unfolding floor_to_grid
floor_run = refl

fits_grid : FitsGrid fine_step coarse_step
unfolding lcm gcd
fits_grid = record { left_fits = omega arith; right_fits = omega arith; grid_fits = omega arith }

decimal_lcm-least_example :
    (g : Decimal) × (decimal_lcm fine_step coarse_step ≡ ok g)
    × (g.places ≡ 3)
    × (1 ∣ g.units)
    × (20 ∣ g.units)
    × ((c : ℕ) → 1 ∣ c → 20 ∣ c → g.units ∣ c)
decimal_lcm-least_example =
    decimal_lcm-least fine_step coarse_step (omega arith) (omega arith) fits_grid

floor_to_grid-greatest_example :
    (r : Decimal) × (floor_to_grid amount coarse_step ≡ ok r)
    × (r.places ≡ 2)
    × (2 ∣ r.units)
    × (le_decimal r amount ≡ true)
    × (lt_decimal amount (record { units = r.units + 2; places = 2 }) ≡ true)
floor_to_grid-greatest_example =
    floor_to_grid-greatest amount coarse_step (omega arith)
      (record { amount_fits = omega arith; grid_fits = omega arith })

-- A spot pair with a lot step of 0.001, from 0.001 to 100, and a least notional of 5.
abbrev filters : Filters
filters = record {
  market_lot_size = record {
    step_size = number (record { units = 0; places = 8 });
    min_qty = missing;
    max_qty = missing;
  };
  lot_size = record {
    step_size = number fine_step;
    min_qty = number fine_step;
    max_qty = number (of_int 100);
  };
  notional = record {
    apply_min_to_market = unset;
    min_notional = number (of_int 5);
    notional = missing;
  };
}

quantity_run : check_common_quantity amount filters filters (some (of_int 10)) ≡ none
unfolding check_common_quantity
quantity_run = refl

abbrev accepted_leg : LegDoc
accepted_leg = record { order_id = some "7"; filled_qty = some amount; avg_price = none }
