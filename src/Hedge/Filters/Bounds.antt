-- ===== src/Hedge/Filters/Bounds.antt =====
-- What a quantity that passes the filters satisfies, and which bounds a filter sets.
use binance_funding_hedging.Prelude.{◌≡◌, ◌↔◌, ◌⊎◌, true, false, Option, none, some, arith}
use binance_funding_hedging.Decimal.{Decimal, is_positive, le_decimal, mul}
use binance_funding_hedging.Hedge.Filters.{
  Filters, Raw, negative, number, usable, qty_bound, qty_bounds, min_notional, below_bound,
  above_bound, check_bounds, check_notional, check_common_quantity, effective_market_step,
}

-- A set lower bound is at most the quantity, and a set upper bound at least.
abbrev pub AtLeast : Decimal → Option Decimal → Type 0
AtLeast q none = Unit
AtLeast q (some bound) = le_decimal bound q ≡ true

abbrev pub AtMost : Decimal → Option Decimal → Type 0
AtMost q none = Unit
AtMost q (some bound) = le_decimal q bound ≡ true

-- What one leg's filters ask of an order of a quantity at a price.
pub record Admits (f : Filters) (q price : Decimal) : Type 0 where
  pub min_met : AtLeast q (qty_bounds f).0
  pub max_met : AtMost q (qty_bounds f).1
  pub notional_met : AtLeast (mul q price) (min_notional f)

at_least : (q : Decimal) (b : Option Decimal) → below_bound q b ≡ false → AtLeast q b
at_least q none h = tt
at_least q (some b) h = ground arith

AtLeast-back : (q : Decimal) (b : Option Decimal) → AtLeast q b → below_bound q b ≡ false
AtLeast-back q none h = ground arith
AtLeast-back q (some b) h = ground arith

at_most : (q : Decimal) (b : Option Decimal) → above_bound q b ≡ false → AtMost q b
at_most q none h = tt
at_most q (some b) h = ground arith

AtMost-back : (q : Decimal) (b : Option Decimal) → AtMost q b → above_bound q b ≡ false
AtMost-back q none h = ground arith
AtMost-back q (some b) h = ground arith

check_bounds-none :
    (q : Decimal) (f : Filters)
    → (check_bounds q f ≡ none)
      ↔ ((below_bound q (qty_bounds f).0 ≡ false) × (above_bound q (qty_bounds f).1 ≡ false))
unfolding check_bounds
check_bounds-none q f = (ground arith, ground arith)

check_notional-none :
    (q price : Decimal) (s p : Filters)
    → is_positive price ≡ true
    → (check_notional q s p (some price) ≡ none) ↔ (
        (below_bound (mul q price) (min_notional s) ≡ false)
        × (below_bound (mul q price) (min_notional p) ≡ false))
unfolding check_notional
check_notional-none q price s p h = (ground arith, ground arith)

check_common_quantity-parts :
    (q price : Decimal) (s p : Filters)
    → (check_common_quantity q s p (some price) ≡ none) ↔ (
        (is_positive q ≡ true)
        × (check_bounds q s ≡ none)
        × (check_bounds q p ≡ none)
        × (check_notional q s p (some price) ≡ none))
unfolding check_common_quantity
check_common_quantity-parts q price s p = (ground arith, ground arith)

-- At a positive price the common quantity is accepted exactly when it is positive and both legs'
-- filters admit it: the bounds that are set and the least notional at that price.
pub check_common_quantity-none :
    (q price : Decimal) (s p : Filters)
    → is_positive price ≡ true
    → (check_common_quantity q s p (some price) ≡ none)
      ↔ ((is_positive q ≡ true) × Admits s q price × Admits p q price)
check_common_quantity-none q price s p pos = (there, back)
  where
    there :
        check_common_quantity q s p (some price) ≡ none
        → (is_positive q ≡ true) × Admits s q price × Admits p q price
    there h =
        let (positive, sb, pb, n) = (check_common_quantity-parts q price s p).0 h in
        let (s_min, s_max) = (check_bounds-none q s).0 sb in
        let (p_min, p_max) = (check_bounds-none q p).0 pb in
        let (s_value, p_value) = (check_notional-none q price s p pos).0 n in
        (
          positive,
          record {
            min_met = at_least q (qty_bounds s).0 s_min;
            max_met = at_most q (qty_bounds s).1 s_max;
            notional_met = at_least (mul q price) (min_notional s) s_value;
          },
          record {
            min_met = at_least q (qty_bounds p).0 p_min;
            max_met = at_most q (qty_bounds p).1 p_max;
            notional_met = at_least (mul q price) (min_notional p) p_value;
          },
        )

    back :
        (is_positive q ≡ true) × Admits s q price × Admits p q price
        → check_common_quantity q s p (some price) ≡ none
    back h =
        let sa : Admits s q price = h.1 in
        let pa : Admits p q price = h.2 in
        (check_common_quantity-parts q price s p).1 (
          h.0,
          (check_bounds-none q s).1 (AtLeast-back q _ sa.min_met, AtMost-back q _ sa.max_met),
          (check_bounds-none q p).1 (AtLeast-back q _ pa.min_met, AtMost-back q _ pa.max_met),
          (check_notional-none q price s p pos).1 (
            AtLeast-back (mul q price) _ sa.notional_met,
            AtLeast-back (mul q price) _ pa.notional_met,
          ),
        )

-- The market step falls back to the lot step whenever the market filter's step is unusable, and is
-- unreadable exactly when both are.
pub effective_market_step-fallback :
    (f : Filters)
    → (usable f.market_lot_size.step_size ≡ none
        → effective_market_step f ≡ usable f.lot_size.step_size)
      × ((effective_market_step f ≡ none)
          ↔ ((usable f.market_lot_size.step_size ≡ none) × (usable f.lot_size.step_size ≡ none)))
unfolding effective_market_step
effective_market_step-fallback f = (ground arith, (ground arith, ground arith))

-- A quantity bound does not fall back likewise: a market bound that is written as a zero with
-- places, such as "0.00000000", or is negative, disables the bound whatever the lot filter says.
pub qty_bound-zero_disables :
    (d : Decimal) (market lot : Raw)
    → (market ≡ negative) ⊎ ((market ≡ number d) × (is_positive d ≡ false))
    → qty_bound market lot ≡ none
unfolding qty_bound
qty_bound-zero_disables d market lot h = ground arith
