-- ===== src/Decimal/Lcm.antt =====
-- Greatest common divisors and least common multiples of integers.
use binance_funding_hedging.Prelude.{
  ℕ, zero, suc, ◌+◌, ◌*◌, ◌/◌, ◌%◌, ◌<◌, ◌≡◌, inl, inr, arith, ◌==◌, Bool-cases, ap, sym, ◌∙◌,
}
use binance_funding_hedging.Decimal.{gcd, gcd_fuel}
use Prim.Native.Nat.{◌∣◌}
use mathlib.Core.Path.{subst}
use native.Mathlib.Nat.{
  dvd_refl, dvd-zero, dvd-mod_iff, dvd-add_iff_right, dvd-mul_right_of_dvd, div-add-mod, mul_comm,
  pos_of_dvd_of_pos, mul-div_cancel', dvd_of_mul-dvd-mul_left, mul-dvd-mul_left,
}

gcd_fuel-dvd : (f a b : ℕ) → b < f → (gcd_fuel f a b ∣ a) × (gcd_fuel f a b ∣ b)
unfolding gcd_fuel
gcd_fuel-dvd zero a b h = elim h [ ]
gcd_fuel-dvd (suc f) a b h = elim (Bool-cases (b == 0)) [
  | inl e ↦ let b0 : b ≡ 0 = ground arith in rw e (dvd_refl a, rw b0 (dvd-zero a))
  | inr e ↦
      let (divisor, remainder) = gcd_fuel-dvd f b (a % b) (ground arith) in
      rw e ((dvd-mod_iff _ divisor).0 remainder, divisor)
]

pub gcd-dvd : (a b : ℕ) → (gcd a b ∣ a) × (gcd a b ∣ b)
unfolding gcd
gcd-dvd a b = gcd_fuel-dvd (suc b) a b (omega arith)

mod-mul-dvd : (k a b c : ℕ) → k ∣ a * c → k ∣ b * c → k ∣ a % b * c
mod-mul-dvd k a b c ha hb =
    (dvd-add_iff_right k (dvd-mul_right_of_dvd k hb (a / b))).1 (subst (λ t. k ∣ t) split ha)
  where
    split : a * c ≡ b * c * (a / b) + a % b * c
    split = ap (λ (t : ℕ). t * c) (sym (div-add-mod a b)) ∙ grind arith

gcd_fuel-universal : (f k c a b : ℕ) → b < f → k ∣ a * c → k ∣ b * c → k ∣ gcd_fuel f a b * c
unfolding gcd_fuel
gcd_fuel-universal zero k c a b h ha hb = elim h [ ]
gcd_fuel-universal (suc f) k c a b h ha hb = elim (Bool-cases (b == 0)) [
  | inl e ↦ rw e ha
  | inr e ↦ rw e (gcd_fuel-universal f k c b (a % b) (ground arith) hb (mod-mul-dvd k a b c ha hb))
]

gcd-universal : (k c a b : ℕ) → k ∣ a * c → k ∣ b * c → k ∣ gcd a b * c
unfolding gcd
gcd-universal k c a b = gcd_fuel-universal (suc b) k c a b (omega arith)

unfoldable pub lcm : ℕ → ℕ → ℕ
lcm a b = a * b / gcd a b

gcd-pos : (a b : ℕ) → 0 < a → 0 < gcd a b
gcd-pos a b h = pos_of_dvd_of_pos (gcd-dvd a b).0 h

-- gcd * lcm is the product.
gcd-mul-lcm : (a b : ℕ) → gcd a b * lcm a b ≡ a * b
unfolding lcm
gcd-mul-lcm a b = mul-div_cancel' (gcd a b) (dvd-mul_right_of_dvd _ (gcd-dvd a b).0 b)

-- The result is a common multiple.
pub dvd-lcm_left : (a b : ℕ) → 0 < a → a ∣ lcm a b
dvd-lcm_left a b h =
    dvd_of_mul-dvd-mul_left a (gcd-pos a b h)
      (rw (gcd-mul-lcm a b, mul_comm (gcd a b) a) (mul-dvd-mul_left _ a (gcd-dvd a b).1))

pub dvd-lcm_right : (a b : ℕ) → 0 < a → b ∣ lcm a b
dvd-lcm_right a b h = dvd_of_mul-dvd-mul_left b (gcd-pos a b h) (
    rw (gcd-mul-lcm a b, mul_comm (gcd a b) b, mul_comm a b) (mul-dvd-mul_left _ b (gcd-dvd a b).0))

-- It divides every common multiple.
pub lcm-dvd : (a b c : ℕ) → 0 < a → a ∣ c → b ∣ c → lcm a b ∣ c
lcm-dvd a b c h ha hb = dvd_of_mul-dvd-mul_left (lcm a b) (gcd-pos a b h) (
    rw (gcd-mul-lcm a b) (
      gcd-universal (a * b) c a b (mul-dvd-mul_left b a hb)
        (rw (mul_comm a b) (mul-dvd-mul_left a b ha))))
