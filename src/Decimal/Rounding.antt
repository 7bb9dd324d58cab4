-- ===== src/Decimal/Rounding.antt =====
-- Within 27 digits the context's rounding changes no floor of a quotient and no product.
use binance_funding_hedging.Prelude.{
  ℕ, zero, suc, ◌+◌, ◌-◌, ◌*◌, ◌/◌, ◌^◌, ◌≤◌, ◌<◌, ◌≡◌, arith, ap, sym, ◌∙◌,
}
use binance_funding_hedging.Decimal.{digit_count, round_half_even, round_context, floor_quotient}
use binance_funding_hedging.Decimal.Digits.{digit_count-le, digit_count-lower, digit_count-zero}
use native.Mathlib.Decide.{dec_lt}
use native.Mathlib.Nat.{
  div-add-mod, div-eq_of_lt-le, le_trans, le-div_iff_mul-le, div-mul-le_self, lt-div-mul-add,
  mul-le-mul_right, mul-le-mul_left, lt_of_mul-lt-mul_left, lt_of_mul-lt-mul_right, div-le_self,
  pow-zero, pow-suc, mul-one, add-zero, add-suc,
}

round_half_even-one : (n : ℕ) → round_half_even n 1 ≡ n
unfolding round_half_even
round_half_even-one n = ground arith

pub round_context-exact : (n : ℕ) → n < 10 ^ 28 → round_context n ≡ n
unfolding round_context
round_context-exact n h =
    let none_excess : digit_count n - 28 ≡ 0 = omega (arith, digit_count-le 28 n h) in
    rw (none_excess, round_half_even-one n) (omega arith)

-- The rounded quotient is within half a unit of the exact one.
round_half_even-upper : (n m : ℕ) → 0 < m → 2 * (m * round_half_even n m) ≤ 2 * n + m
unfolding round_half_even
round_half_even-upper n m h = grind (arith, div-add-mod n m)

round_half_even-lower : (n m : ℕ) → n / m ≤ round_half_even n m
unfolding round_half_even
round_half_even-lower n m = ground arith

-- At a scale no smaller than the divisor, rounding at the scale and dropping it is the floor.
scaled_floor : (n m scale : ℕ) → 0 < m → m ≤ scale → round_half_even (n * scale) m / scale ≡ n / m
scaled_floor n m scale pos fits = div-eq_of_lt-le scale lower upper
  where
    lower : n / m * scale ≤ round_half_even (n * scale) m
    lower =
        le_trans
          ((le-div_iff_mul-le pos).1 (omega (arith, mul-le-mul_right scale (div-mul-le_self n m))))
          (round_half_even-lower (n * scale) m)

    below : n < (n / m + 1) * m
    below = grind (arith, lt-div-mul-add {a = n} pos)

    doubled : (2 * m) * round_half_even (n * scale) m < (2 * m) * ((n / m + 1) * scale)
    doubled =
        omega (arith, round_half_even-upper (n * scale) m pos, mul-le-mul_right (2 * scale) below)

    upper : round_half_even (n * scale) m < (n / m + 1) * scale
    upper = lt_of_mul-lt-mul_left (2 * m) doubled

pub pow-add : (a b : ℕ) → 10 ^ (a + b) ≡ 10 ^ a * 10 ^ b
pow-add a zero = simp (add-zero, pow-zero, mul-one)
pow-add a (suc b) = rw (add-suc, pow-suc, pow-suc, pow-add a b) (omega arith)

-- The quotient's digits and the divisor's fit the context together.
divisor-fits : (n m : ℕ) → n < 10 ^ 27 → m < 10 ^ 27 → 0 < m → m ≤ 10 ^ (28 - digit_count (n / m))
divisor-fits n m hn hm pos = elim (dec_lt 0 (n / m)) [
  | no h ↦ let none : n / m ≡ 0 = omega arith in rw (none, digit_count-zero) (omega arith)
  | yes h ↦
      let d = digit_count (n / m) in
      let within : d ≤ 28 = digit_count-le 28 (n / m) (omega (arith, div-le_self n m)) in
      let same : 28 - d + d ≡ 28 = omega arith in
      let whole : 10 ^ (28 - d) * 10 ^ d ≡ 10 ^ 28 =
        sym (pow-add (28 - d) d) ∙ ap (λ (t : ℕ). 10 ^ t) same in
      let strict : m < 10 ^ (28 - d) = lt_of_mul-lt-mul_right (10 ^ d) (
        omega
          (arith, whole, mul-le-mul_left m (digit_count-lower (n / m) h), div-mul-le_self n m)) in
      omega arith
]

-- With dividend and divisor below 10 ^ 27 the rounded quotient has the floor of the exact one.
pub floor_quotient-exact :
    (n m : ℕ) → n < 10 ^ 27 → m < 10 ^ 27 → 0 < m → floor_quotient n m ≡ n / m
unfolding floor_quotient
floor_quotient-exact n m hn hm pos =
    let within : digit_count (n / m) - 28 ≡ 0 =
      omega (arith, digit_count-le 28 (n / m) (omega (arith, div-le_self n m))) in
    rw (within, pow-zero 10, mul-one, mul-one)
      (scaled_floor n m (10 ^ (28 - digit_count (n / m))) pos (divisor-fits n m hn hm pos))
