-- ===== src/Decimal.antt =====
-- The non-negative part of Python's `decimal` that the quantity paths use, at the default context:
-- every product and quotient is rounded to 28 significant digits, half to even, while
-- construction, comparison and rounding to an integer are exact.
pub mod Digits
pub mod Rounding
pub mod Lcm
pub mod Plain
pub mod Format
use binance_funding_hedging.Prelude.{
  ℕ, zero, suc, ◌+◌, ◌-◌, ◌*◌, ◌/◌, ◌%◌, ◌^◌, Bool, true, false, if◌then◌else◌, ltb, leb, ◌==◌,
  ◌&&◌,
}
use Prim.Native.Nat.{max}

-- The value is `units / 10 ^ places`. A decimal with a positive exponent is one with 0 places.
pub record Decimal : Type 0 where
  pub units : ℕ
  pub places : ℕ

-- How many decimal digits a number has; 0 has none.
pub digit_count_fuel : ℕ → ℕ → ℕ
digit_count_fuel zero n = 0
digit_count_fuel (suc fuel) n =
    let rest = digit_count_fuel fuel (n / 10) in if n == 0 then 0 else suc rest

unfoldable pub digit_count : ℕ → ℕ
unfolding digit_count_fuel
digit_count n = digit_count_fuel (suc n) n

-- n / m as an integer, half to even.
unfoldable pub round_half_even : ℕ → ℕ → ℕ
round_half_even n m =
    let q = n / m in
    let twice = 2 * (n % m) in
    if ltb m twice then q + 1 else if (twice == m) && (q % 2 == 1) then q + 1 else q

-- An integer coefficient, rounded to 28 significant digits.
unfoldable pub round_context : ℕ → ℕ
unfolding digit_count round_half_even
round_context n = let excess = digit_count n - 28 in round_half_even n (10 ^ excess) * 10 ^ excess

-- a * b
unfoldable pub mul : Decimal → Decimal → Decimal
unfolding round_context
mul a b = record { units = round_context (a.units * b.units); places = a.places + b.places }

-- a - b for b <= a
unfoldable pub sub : Decimal → Decimal → Decimal
unfolding round_context
sub a b =
    let places = max a.places b.places in
    record {
      units =
          round_context (a.units * 10 ^ (places - a.places) - b.units * 10 ^ (places - b.places));
      places = places;
    }

-- An int factor is exact.
abbrev pub of_int : ℕ → Decimal
of_int n = record { units = n; places = 0 }

-- The two sides of a comparison or a division, as integers over one scale.
abbrev pub left_units : Decimal → Decimal → ℕ
left_units a b = a.units * 10 ^ b.places

abbrev pub right_units : Decimal → Decimal → ℕ
right_units a b = b.units * 10 ^ a.places

-- a < b and a <= b
abbrev pub lt_decimal : Decimal → Decimal → Bool
lt_decimal a b = ltb (left_units a b) (right_units a b)

abbrev pub le_decimal : Decimal → Decimal → Bool
le_decimal a b = leb (left_units a b) (right_units a b)

-- a > 0
abbrev pub is_positive : Decimal → Bool
is_positive a = ltb 0 a.units

-- (n / m).to_integral_value(rounding=ROUND_FLOOR), the quotient rounded to 28 significant digits
-- first. A quotient below 1 is rounded at 28 places: below 0.1 the source keeps more of them, and
-- the floor is 0 either way.
unfoldable pub floor_quotient : ℕ → ℕ → ℕ
unfolding digit_count round_half_even
floor_quotient n m =
    let digits = digit_count (n / m) in
    let fine = 10 ^ (28 - digits) in
    let coarse = 10 ^ (digits - 28) in round_half_even (n * fine) (m * coarse) * coarse / fine

-- The places that 28 significant digits of n / m take: behind a quotient's own digits, or behind
-- the zeros that a quotient below 1 begins with.
quotient_places : ℕ → ℕ → ℕ
unfolding digit_count
quotient_places n m = if n / m == 0 then 27 + digit_count (m / n) else 28 - digit_count (n / m)

-- a / b for b > 0, rounded to 28 significant digits.
unfoldable pub div : Decimal → Decimal → Decimal
unfolding quotient_places round_half_even digit_count
div a b =
    let n = left_units a b in
    let m = right_units a b in
    let places = quotient_places n m in
    let coarse = 10 ^ (digit_count (n / m) - 28) in
    record { units = round_half_even (n * 10 ^ places) (m * coarse) * coarse; places = places }

-- math.gcd by Euclid's steps; one more than the second number is fuel enough.
pub gcd_fuel : ℕ → ℕ → ℕ → ℕ
gcd_fuel zero a b = a
gcd_fuel (suc fuel) a b = let rest = gcd_fuel fuel b (a % b) in if b == 0 then a else rest

unfoldable pub gcd : ℕ → ℕ → ℕ
unfolding gcd_fuel
gcd a b = gcd_fuel (suc b) a b
