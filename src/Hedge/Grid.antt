-- ===== src/Hedge/Grid.antt =====
-- The common grid of the two legs: _decimal_units, decimal_lcm, floor_to_grid and truncate_usdt of
-- backend/hedge_open_tasks/domain.py, and resolve_send_qty.

use binance_funding_hedging.Prelude.{
  ℕ, ◌-◌, ◌*◌, ◌/◌, ◌^◌, Bool, true, false, Option, none, some, if◌then◌else◌, leb, ◌==◌, ◌||◌, not,
}
pub mod Common
pub mod Floor
use Prim.Native.Nat.{max}
use binance_funding_hedging.Decimal.{
  Decimal, digit_count, round_context, floor_quotient, gcd, mul, of_int, left_units, right_units,
}
use binance_funding_hedging.Hedge.Errors.{Result, ok, err, invalid_field, ◌>>=◌}

-- The integer count of a step in its own finest unit, and that unit as a number of places. The
-- product with the unit gives the step back unless the division rounded it.
unfoldable pub decimal_units : Decimal → Result (ℕ × ℕ)
unfolding round_context
decimal_units step =
    if round_context step.units == step.units
    then ok (step.units, step.places)
    else err (invalid_field "step")

-- int((step / unit).to_integral_value()) for a unit of `places` places.
unfoldable pub units_at : Decimal → ℕ → ℕ
unfolding round_context
units_at step places = round_context (step.units * 10 ^ (places - step.places))

unfoldable pub common_grid : ℕ → ℕ → ℕ → Result Decimal
unfolding round_context gcd
common_grid a_units b_units places =
    if (a_units == 0) || (b_units == 0)
    then err (invalid_field "step")
    else ok (record {
      units = round_context (a_units * b_units / gcd a_units b_units);
      places = places;
    })

-- The alignment to the finer of the two units.
unfoldable pub aligned_grid : Decimal → Decimal → ℕ × ℕ → ℕ × ℕ → Result Decimal
unfolding units_at common_grid
aligned_grid step_a step_b (units_a, unit_a) (units_b, unit_b) =
    if unit_a == unit_b
    then common_grid units_a units_b unit_a
    else let unit = max unit_a unit_b in
      common_grid (units_at step_a unit) (units_at step_b unit) unit

unfoldable pub decimal_lcm : Decimal → Decimal → Result Decimal
unfolding decimal_units aligned_grid
decimal_lcm step_a step_b = do
  a ← decimal_units step_a
  b ← decimal_units step_b
  aligned_grid step_a step_b a b

unfoldable pub floor_to_grid : Decimal → Decimal → Result Decimal
unfolding floor_quotient mul
floor_to_grid amount grid =
    if grid.units == 0
    then err (invalid_field "step")
    else ok (mul (of_int (floor_quotient (left_units amount grid) (right_units amount grid))) grid)

-- quantize(Decimal("0.01"), ROUND_FLOOR) of a non-negative amount; `none` is the InvalidOperation
-- that a result of more than 28 digits raises.
unfoldable pub truncate_usdt : Decimal → Option Decimal
unfolding digit_count
truncate_usdt amount =
    let cents = amount.units * 100 / 10 ^ amount.places in
    if leb (digit_count cents) 28 then some (record { units = cents; places = 2 }) else none

-- The quantity that both legs send: the preflight's, or the task's own amount.
unfoldable pub resolve_send_qty : Option Decimal → Decimal → Decimal
resolve_send_qty (some q_common) single_amount = q_common
resolve_send_qty none single_amount = single_amount
