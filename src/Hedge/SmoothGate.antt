-- ===== src/Hedge/SmoothGate.antt =====
-- The market condition of a smooth task: evaluate_smooth_gate of backend/hedge_open_tasks/domain.py with
-- compute_opening_spread_pct of backend/domain/snapshot.py. Quantities and prices are not negative, as
-- the order books give them; a spread and a threshold have a sign.
use binance_funding_hedging.Prelude.{
  ◌+◌, ◌*◌, ◌/◌, ◌^◌, Bool, true, false, not, Option, none, some, [], ◌∷◌, if◌then◌else◌, ◌==◌,
  ◌&&◌, ◌||◌,
}
use binance_funding_hedging.Prelude.Texts.{Text}
use binance_funding_hedging.Decimal.{
  Decimal, sub, div, mul, of_int, lt_decimal, le_decimal, is_positive,
}
use binance_funding_hedging.Decimal.Plain.{plain_decimal}
use binance_funding_hedging.Hedge.Vocabulary.{Direction, is_forward}

-- A decimal with a sign.
pub record Signed : Type 0 where
  pub negative : Bool
  pub magnitude : Decimal

-- a < b
unfoldable pub lt_signed : Signed → Signed → Bool
lt_signed a b =
    if a.negative
    then if b.negative
      then lt_decimal b.magnitude a.magnitude
      else is_positive a.magnitude || is_positive b.magnitude
    else if b.negative
    then false
    else lt_decimal a.magnitude b.magnitude

-- Decimal(text) of a threshold: digits with a point or without, behind an optional minus.
unfoldable pub signed_decimal : Text → Option Signed
unfolding plain_decimal
signed_decimal [] = none
signed_decimal (c ∷ text) =
    if c == 45
    then elim (plain_decimal text) [
      | none ↦ none
      | some d ↦ some (record { negative = true; magnitude = d })
    ]
    else elim (plain_decimal (c ∷ text)) [
      | none ↦ none
      | some d ↦ some (record { negative = false; magnitude = d })
    ]

pub record L1Quote : Type 0 where
  pub bid : Decimal
  pub bid_qty : Decimal
  pub ask : Decimal
  pub ask_qty : Decimal

-- `_valid_l1`
abbrev pub valid_l1 : Option L1Quote → Bool
valid_l1 none = false
valid_l1 (some q) =
    is_positive q.bid && is_positive q.bid_qty && is_positive q.ask && is_positive q.ask_qty

-- quantize to 0.01, half up; a number of more digits than the context has is left out.
unfoldable pub quantize : Decimal → Decimal
quantize d = record {
  units = (2 * (d.units * 100) + 10 ^ d.places) / (2 * 10 ^ d.places);
  places = 2;
}

-- (bid - ask) / ask * 100; a zero has no sign.
unfoldable pub compute_opening_spread_pct : Decimal → Decimal → Option Signed
unfolding quantize sub div mul
compute_opening_spread_pct bid ask =
    let below = lt_decimal bid ask in
    let gap = if below then sub ask bid else sub bid ask in
    let pct = quantize (mul (div gap ask) (of_int 100)) in
    if is_positive bid && is_positive ask
    then some (record { negative = below && is_positive pct; magnitude = pct })
    else none

pub data WaitReason : Type 0 where
  invalid_quantity no_quotes no_spot_quote no_perp_quote : WaitReason
  passed spread_too_low coverage_too_low : WaitReason

pub record SmoothGateEval : Type 0 where
  pub spread_pct : Option Signed
  pub spread_pass : Bool
  pub spot_coverage : Option Decimal
  pub perp_coverage : Option Decimal
  pub coverage_pass : Bool
  pub market_pass : Bool
  pub wait_reason : WaitReason

abbrev pub no_eval : WaitReason → SmoothGateEval
no_eval reason = record {
  spread_pct = none;
  spread_pass = false;
  spot_coverage = none;
  perp_coverage = none;
  coverage_pass = false;
  market_pass = false;
  wait_reason = reason;
}

-- SMOOTH_COVERAGE_MIN
abbrev pub smooth_coverage_min : Decimal
smooth_coverage_min = record { units = 80; places = 2 }

abbrev above : Signed → Option Signed → Bool
above threshold none = false
above threshold (some spread) = lt_signed threshold spread

-- The two sides of the books that the orders take, by their prices and quantities.
abbrev pub eval_sides : Signed → Decimal → Option Signed → Decimal → Decimal → SmoothGateEval
eval_sides threshold q spread spot_qty perp_qty =
    let spread_pass = above threshold spread in
    let spot_coverage = div spot_qty q in
    let perp_coverage = div perp_qty q in
    let coverage_pass =
      le_decimal smooth_coverage_min spot_coverage
      && le_decimal smooth_coverage_min perp_coverage in
    record {
      spread_pct = spread;
      spread_pass = spread_pass;
      spot_coverage = some spot_coverage;
      perp_coverage = some perp_coverage;
      coverage_pass = coverage_pass;
      market_pass = spread_pass && coverage_pass;
      wait_reason =
          if spread_pass && coverage_pass
          then passed
          else if not spread_pass
          then spread_too_low
          else coverage_too_low;
    }

abbrev pub eval_quotes : Direction → Signed → Decimal → L1Quote → L1Quote → SmoothGateEval
eval_quotes direction threshold q spot perp =
    if is_forward direction
    then eval_sides threshold q (compute_opening_spread_pct perp.bid spot.ask) spot.ask_qty
        perp.bid_qty
    else eval_sides threshold q (compute_opening_spread_pct spot.bid perp.ask) spot.bid_qty
        perp.ask_qty

abbrev missing_quote : Bool → Bool → WaitReason
missing_quote spot_ok perp_ok =
    if spot_ok then no_perp_quote else if perp_ok then no_spot_quote else no_quotes

unfoldable pub evaluate_smooth_gate :
    Direction → Signed → Decimal → Option L1Quote → Option L1Quote → SmoothGateEval
unfolding compute_opening_spread_pct lt_signed div
evaluate_smooth_gate direction threshold q spot perp =
    let spot_ok = valid_l1 spot in
    let perp_ok = valid_l1 perp in
    if not (is_positive q)
    then no_eval invalid_quantity
    else if spot_ok && perp_ok
    then elim spot [
      | none ↦ no_eval no_spot_quote
      | some s ↦ elim perp [
        | none ↦ no_eval no_perp_quote
        | some p ↦ eval_quotes direction threshold q s p
      ]
    ]
    else no_eval (missing_quote spot_ok perp_ok)
