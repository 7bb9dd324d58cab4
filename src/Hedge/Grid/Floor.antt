-- ===== src/Hedge/Grid/Floor.antt =====
-- Flooring an amount to the grid.
use binance_funding_hedging.Prelude.{ℕ, ◌+◌, ◌*◌, ◌/◌, ◌^◌, ◌≤◌, ◌<◌, ◌≡◌, refl, arith, true}
use Prim.Native.Nat.{◌∣◌}
use binance_funding_hedging.Decimal.{Decimal, mul, left_units, right_units, lt_decimal, le_decimal}
use binance_funding_hedging.Decimal.Rounding.{round_context-exact, floor_quotient-exact}
use binance_funding_hedging.Hedge.Errors.{ok}
use binance_funding_hedging.Hedge.Grid.{floor_to_grid}
use native.Mathlib.Nat.{
  div-mul-le_self, lt-div-mul-add, one-le-pow, le-mul_of_pos_right, dvd-mul_left, mul-le-mul_left,
}

-- The amount and the grid have fewer than 28 digits over their common scale.
pub record FitsFloor (amount grid : Decimal) : Type 0 where
  pub amount_fits : left_units amount grid < 10 ^ 27
  pub grid_fits : right_units amount grid < 10 ^ 27

module _ (amount grid : Decimal) (pos : 0 < grid.units) (fits : FitsFloor amount grid) where
  abbrev steps : ℕ
  steps = left_units amount grid / right_units amount grid

  right-pos : 0 < right_units amount grid
  right-pos =
      omega (arith, le-mul_of_pos_right grid.units (one-le-pow amount.places 10 (omega arith)))

  steps-mul-le : steps * right_units amount grid ≤ left_units amount grid
  steps-mul-le = div-mul-le_self (left_units amount grid) (right_units amount grid)

  grid-le-right : grid.units ≤ right_units amount grid
  grid-le-right = le-mul_of_pos_right grid.units (one-le-pow amount.places 10 (omega arith))

  product-le : steps * grid.units ≤ left_units amount grid
  product-le = omega (arith, steps-mul-le, mul-le-mul_left steps grid-le-right)

  abbrev floored : Decimal
  floored = record { units = steps * grid.units; places = grid.places }

  floor_to_grid-exact : floor_to_grid amount grid ≡ ok floored
  unfolding floor_to_grid mul
  floor_to_grid-exact = ground (
    arith,
    floor_quotient-exact (left_units amount grid) (right_units amount grid) fits.amount_fits
        fits.grid_fits right-pos,
    round_context-exact (steps * grid.units) (omega (arith, product-le, fits.amount_fits)),
  )

-- Flooring a quantity to a positive grid succeeds, when their digits fit the context, with a
-- multiple of the grid that is at most the amount, and the next multiple is above the amount.
pub floor_to_grid-greatest :
    (amount grid : Decimal)
    → 0 < grid.units
    → FitsFloor amount grid
    → (r : Decimal) × (floor_to_grid amount grid ≡ ok r)
      × (r.places ≡ grid.places)
      × (grid.units ∣ r.units)
      × (le_decimal r amount ≡ true)
      × (lt_decimal amount (record { units = r.units + grid.units; places = grid.places }) ≡ true)
floor_to_grid-greatest amount grid pos fits = (
  floored amount grid pos fits,
  floor_to_grid-exact amount grid pos fits,
  refl,
  dvd-mul_left grid.units (steps amount grid pos fits),
  ground (arith, steps-mul-le amount grid pos fits),
  ground (arith, lt-div-mul-add {a = left_units amount grid} (right-pos amount grid pos fits)),
)
