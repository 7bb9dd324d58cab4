-- ===== src/Hedge/Grid/Common.antt =====
-- The common grid and the least common multiple of the two steps.
use binance_funding_hedging.Prelude.{
  ℕ, ◌-◌, ◌*◌, ◌/◌, ◌^◌, ◌≤◌, ◌<◌, ◌≡◌, refl, arith, Bool-cases, inl, inr, ◌==◌,
}
use Prim.Native.Nat.{max, ◌∣◌}
use binance_funding_hedging.Decimal.{Decimal, gcd}
use binance_funding_hedging.Decimal.Rounding.{round_context-exact}
use binance_funding_hedging.Decimal.Lcm.{lcm, dvd-lcm_left, dvd-lcm_right, lcm-dvd}
use binance_funding_hedging.Hedge.Errors.{ok}
use binance_funding_hedging.Hedge.Grid.{
  decimal_units, units_at, common_grid, aligned_grid, decimal_lcm,
}
use native.Mathlib.Nat.{pow-zero, le-mul_of_pos_right, one-le-pow}

-- A decimal as an integer count of units of a given number of places.
abbrev pub scaled : Decimal → ℕ → ℕ
scaled a p = a.units * 10 ^ (p - a.places)

-- The finer of the places of two decimals.
abbrev pub finer : Decimal → Decimal → ℕ
finer a b = max a.places b.places

-- The arithmetic stays within the context's 28 digits.
pub record FitsGrid (a b : Decimal) : Type 0 where
  pub left_fits : scaled a (finer a b) < 10 ^ 28
  pub right_fits : scaled b (finer a b) < 10 ^ 28
  pub grid_fits : lcm (scaled a (finer a b)) (scaled b (finer a b)) < 10 ^ 28

scaled_coarse : (a : Decimal) (p : ℕ) → p ≡ a.places → scaled a p ≡ a.units
scaled_coarse a p e =
    rw e (let none : a.places - a.places ≡ 0 = omega arith in rw (none, pow-zero 10) (omega arith))

units-le-scaled : (a : Decimal) (p : ℕ) → a.units ≤ scaled a p
units-le-scaled a p = le-mul_of_pos_right a.units (one-le-pow (p - a.places) 10 (omega arith))

scaled-pos : (a : Decimal) (p : ℕ) → 0 < a.units → 0 < scaled a p
scaled-pos a p h = omega (arith, units-le-scaled a p)

decimal_units-exact :
    (a : Decimal) (p : ℕ) → scaled a p < 10 ^ 28 → decimal_units a ≡ ok (a.units, a.places)
unfolding decimal_units
decimal_units-exact a p h =
    ground (arith, round_context-exact a.units (omega (arith, units-le-scaled a p)))

units_at-exact : (a : Decimal) (p : ℕ) → scaled a p < 10 ^ 28 → units_at a p ≡ scaled a p
unfolding units_at
units_at-exact a p h = round_context-exact (scaled a p) h

common_grid-exact :
    (m n p : ℕ)
    → 0 < m
    → 0 < n
    → lcm m n < 10 ^ 28
    → common_grid m n p ≡ ok (record { units = lcm m n; places = p })
unfolding common_grid lcm
common_grid-exact m n p hm hn fits = ground (arith, round_context-exact (m * n / gcd m n) fits)

module _ (a b : Decimal) (pa : 0 < a.units) (pb : 0 < b.units) (fits : FitsGrid a b) where
  abbrev p : ℕ
  p = finer a b

  abbrev grid : Decimal
  grid = record { units = lcm (scaled a p) (scaled b p); places = p }

  aligned_grid-exact : aligned_grid a b (a.units, a.places) (b.units, b.places) ≡ ok grid
  unfolding aligned_grid
  aligned_grid-exact = elim (Bool-cases (a.places == b.places)) [
    | inl e ↦
        let same_a : p ≡ a.places = ground arith in
        let same_b : p ≡ b.places = ground arith in
        rw e (
          cc (
            same_a,
            scaled_coarse a p same_a,
            scaled_coarse b p same_b,
            common_grid-exact (scaled a p) (scaled b p) p (scaled-pos a p pa) (scaled-pos b p pb)
                fits.grid_fits,
          ))
    | inr e ↦
        rw (e, units_at-exact a p fits.left_fits, units_at-exact b p fits.right_fits)
          (common_grid-exact (scaled a p) (scaled b p) p (scaled-pos a p pa) (scaled-pos b p pb)
            fits.grid_fits)
  ]

  decimal_lcm-exact : decimal_lcm a b ≡ ok grid
  unfolding decimal_lcm
  decimal_lcm-exact =
      rw (decimal_units-exact a p fits.left_fits, decimal_units-exact b p fits.right_fits)
        aligned_grid-exact

-- For two positive steps whose arithmetic fits the context, decimal_lcm returns a grid in the finer
-- of their units that is a multiple of both steps and divides every common multiple of them.
pub decimal_lcm-least :
    (a b : Decimal)
    → 0 < a.units
    → 0 < b.units
    → FitsGrid a b
    → (g : Decimal) × (decimal_lcm a b ≡ ok g)
      × (g.places ≡ finer a b)
      × (scaled a (finer a b) ∣ g.units)
      × (scaled b (finer a b) ∣ g.units)
      × ((c : ℕ) → scaled a (finer a b) ∣ c → scaled b (finer a b) ∣ c → g.units ∣ c)
decimal_lcm-least a b pa pb fits =
    let p = finer a b in
    let pos = scaled-pos a p pa in
    (
      grid a b pa pb fits,
      decimal_lcm-exact a b pa pb fits,
      refl,
      dvd-lcm_left (scaled a p) (scaled b p) pos,
      dvd-lcm_right (scaled a p) (scaled b p) pos,
      λ c ha hb. lcm-dvd (scaled a p) (scaled b p) c pos ha hb,
    )
