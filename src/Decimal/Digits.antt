-- ===== src/Decimal/Digits.antt =====
-- Bounds of the digit count.
use binance_funding_hedging.Prelude.{ℕ, zero, suc, ◌*◌, ◌/◌, ◌^◌, ◌≤◌, ◌<◌, ◌≡◌, arith}
use binance_funding_hedging.Decimal.{digit_count_fuel, digit_count}
use native.Mathlib.Nat.{pow-suc}

digit_count_fuel-le : (k f n : ℕ) → n < 10 ^ k → digit_count_fuel f n ≤ k
unfolding digit_count_fuel
digit_count_fuel-le k zero n h = omega arith
digit_count_fuel-le zero (suc f) n h = ground arith
digit_count_fuel-le (suc k) (suc f) n h =
    ground (arith, digit_count_fuel-le k f (n / 10), pow-suc 10 k)

-- A number below 10 ^ k has at most k digits.
pub digit_count-le : (k n : ℕ) → n < 10 ^ k → digit_count n ≤ k
unfolding digit_count
digit_count-le k n h = digit_count_fuel-le k (suc n) n h

digit_count_fuel-zero : (f : ℕ) → digit_count_fuel f 0 ≡ 0
unfolding digit_count_fuel
digit_count_fuel-zero zero = omega arith
digit_count_fuel-zero (suc f) = omega arith

digit_count_fuel-lower : (f n : ℕ) → 0 < n → 10 ^ digit_count_fuel f n ≤ 10 * n
unfolding digit_count_fuel
digit_count_fuel-lower zero n h = omega arith
digit_count_fuel-lower (suc f) n h = ground (
  arith,
  digit_count_fuel-lower f (n / 10),
  pow-suc 10 (digit_count_fuel f (n / 10)),
  digit_count_fuel-zero f,
)

-- A positive number of d digits is at least 10 ^ (d - 1).
pub digit_count-lower : (n : ℕ) → 0 < n → 10 ^ digit_count n ≤ 10 * n
unfolding digit_count
digit_count-lower n h = digit_count_fuel-lower (suc n) n h

pub digit_count-zero : digit_count 0 ≡ 0
unfolding digit_count
digit_count-zero = digit_count_fuel-zero 1
