-- ===== src/Hedge/Filters.antt =====
-- Exchange filters: effective_market_step, _qty_bounds, min_notional and _check_common_quantity of
-- backend/hedge_open_tasks/domain.py.
pub mod Bounds
use binance_funding_hedging.Prelude.{
  Bool, true, false, Option, none, some, if◌then◌else◌, coalesce, ◌||◌, ◌&&◌,
}
use binance_funding_hedging.Decimal.{Decimal, is_positive, lt_decimal, mul}
use binance_funding_hedging.Hedge.Vocabulary.{Rejection}

-- A value of a filter's JSON object, by what `Decimal(str(raw))` makes of it: absent or null, the
-- number 0 or the text "0", a text that is no decimal, a negative number, or a number from 0 on,
-- zeros written with places such as "0.00000000" among them. (NaN and Infinity are left out.)
pub data Raw : Type 0 where
  missing zero_literal unparsable negative : Raw
  number : Decimal → Raw

-- An absent filter is one with every field absent.
pub record LotSize : Type 0 where
  pub step_size : Raw
  pub min_qty : Raw
  pub max_qty : Raw

-- `apply_min_to_market`: absent, one of the false values that the code lists, or another value.
pub data ApplyFlag : Type 0 where
  unset off on : ApplyFlag

pub record Notional : Type 0 where
  pub apply_min_to_market : ApplyFlag
  pub min_notional : Raw
  pub notional : Raw

pub record Filters : Type 0 where
  pub market_lot_size : LotSize
  pub lot_size : LotSize
  pub notional : Notional

abbrev positive : Decimal → Option Decimal
positive d = if is_positive d then some d else none

abbrev pub usable : Raw → Option Decimal
usable missing = none
usable zero_literal = none
usable unparsable = none
usable negative = none
usable (number d) = positive d

unfoldable pub effective_market_step : Filters → Option Decimal
effective_market_step f =
    coalesce (usable f.market_lot_size.step_size) (usable f.lot_size.step_size)

-- One round of the loop in `_val`: `none` continues with the next filter, `some` returns.
abbrev pub bound_of : Raw → Option (Option Decimal)
bound_of missing = none
bound_of zero_literal = none
bound_of unparsable = none
bound_of negative = some none
bound_of (number d) = some (positive d)

unfoldable pub qty_bound : Raw → Raw → Option Decimal
qty_bound market lot = elim (bound_of market) [
  | some result ↦ result
  | none ↦ elim (bound_of lot) [ some result ↦ result | none ↦ none ]
]

-- (min_qty, max_qty)
unfoldable pub qty_bounds : Filters → Option Decimal × Option Decimal
unfolding qty_bound
qty_bounds f = (
  qty_bound f.market_lot_size.min_qty f.lot_size.min_qty,
  qty_bound f.market_lot_size.max_qty f.lot_size.max_qty,
)

abbrev is_missing : Raw → Bool
is_missing missing = true
is_missing _ = false

abbrev is_off : ApplyFlag → Bool
is_off off = true
is_off _ = false

unfoldable pub min_notional : Filters → Option Decimal
min_notional f =
    if is_off f.notional.apply_min_to_market
    then none
    else usable (
        if is_missing f.notional.min_notional then f.notional.notional else f.notional.min_notional)

-- A bound that is set and lies above, or below, the quantity.
abbrev pub below_bound : Decimal → Option Decimal → Bool
below_bound q none = false
below_bound q (some bound) = lt_decimal q bound

abbrev pub above_bound : Decimal → Option Decimal → Bool
above_bound q none = false
above_bound q (some bound) = lt_decimal bound q

-- The first loop of `_check_common_quantity`, for one leg.
unfoldable pub check_bounds : Decimal → Filters → Option Rejection
unfolding qty_bounds
check_bounds q f =
    if below_bound q (qty_bounds f).0
    then some Rejection.below_min_qty
    else if above_bound q (qty_bounds f).1
    then some Rejection.above_max_qty
    else none

-- The second loop, over both legs, at a positive price.
unfoldable pub check_notional : Decimal → Filters → Filters → Option Decimal → Option Rejection
unfolding min_notional mul
check_notional q spot perp none = none
check_notional q spot perp (some price) =
    if is_positive price
      && (below_bound (mul q price) (min_notional spot)
          || below_bound (mul q price) (min_notional perp))
    then some Rejection.below_min_notional
    else none

unfoldable pub check_common_quantity :
    Decimal → Filters → Filters → Option Decimal → Option Rejection
unfolding check_bounds check_notional
check_common_quantity q spot perp est_price =
    if is_positive q
    then coalesce (check_bounds q spot)
        (coalesce (check_bounds q perp) (check_notional q spot perp est_price))
    else some Rejection.below_min_qty
