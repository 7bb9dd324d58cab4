-- ===== src/Hedge/Threshold/Normal.antt =====
-- A validated threshold is in its normal form, and the smooth gate reads it.
use binance_funding_hedging.Prelude.{
  ℕ, ◌<◌, ◌≡◌, Bool, true, false, some, [], ◌∷◌, ◌++◌, ◌==◌, refl, arith, Bool-cases, Option-cases,
  inl, inr, sym,
}
use mathlib.Core.Path.{subst}
use binance_funding_hedging.Prelude.Texts.{Text}
use binance_funding_hedging.Decimal.Plain.{is_digit, plain_decimal}
use binance_funding_hedging.Decimal.Format.Digits.{AreDigits, value, size}
use binance_funding_hedging.Decimal.Format.Parsed.{parse_joined}
use binance_funding_hedging.Hedge.Errors.{ok}
use binance_funding_hedging.Hedge.SmoothGate.{Signed, signed_decimal}
use binance_funding_hedging.Hedge.Threshold.{
  take_digits, with_fraction, with_sign, threshold_parts, without_zeros, ljust_two, is_nothing,
  written, parsed_threshold, validate_slippage_threshold_pct,
}
use binance_funding_hedging.Hedge.Threshold.Groups.{
  take_digits-AreDigits, take_digits-append, without_zeros-AreDigits, without_zeros-twice,
  size-without_zeros, parts-AreDigits,
}

-- What a normal form gives: it is validated as it is, and the gate reads it with two places.
abbrev pub IsNormal : Text → Type 0
IsNormal s =
    (validate_slippage_threshold_pct (some s) ≡ ok s)
    × ((d : Signed) × (signed_decimal s ≡ some d) × (d.magnitude.places ≡ 2))

-- The digits of a normal form.
record AreNormal (whole : Text) (x y : ℕ) : Type 0 where
  digits : AreDigits whole
  long : 0 < size whole
  fixed : without_zeros whole ≡ whole
  digit_x : is_digit x ≡ true
  digit_y : is_digit y ≡ true

parts-plain :
    (whole : Text) (x y : ℕ)
    → AreNormal whole x y
    → threshold_parts (whole ++ 46 ∷ x ∷ y ∷ []) ≡ some (false, whole, x ∷ y ∷ [])
unfolding threshold_parts
parts-plain [] x y n = absurd (let long = n.long in omega (arith, long))
parts-plain (c ∷ whole) x y n =
    let taken = take_digits-append (c ∷ whole) (x ∷ y ∷ []) n.digits in
    let digit : is_digit c ≡ true = n.digits.0 in
    let no_sign : (c == 45) ≡ false = ground arith in rw (no_sign, taken, n.digit_x, n.digit_y) refl

parts-signed :
    (whole : Text) (x y : ℕ)
    → AreNormal whole x y
    → threshold_parts (45 ∷ (whole ++ 46 ∷ x ∷ y ∷ [])) ≡ some (true, whole, x ∷ y ∷ [])
unfolding threshold_parts
parts-signed [] x y n = absurd (let long = n.long in omega (arith, long))
parts-signed (c ∷ whole) x y n =
    let taken = take_digits-append (c ∷ whole) (x ∷ y ∷ []) n.digits in
    rw (taken, n.digit_x, n.digit_y) refl

read-normal :
    (whole : Text) (x y : ℕ)
    → AreNormal whole x y
    → plain_decimal (whole ++ 46 ∷ x ∷ y ∷ [])
      ≡ some (record { units = value (value 0 whole) (x ∷ y ∷ []); places = 2 })
read-normal whole x y n =
    parse_joined whole (x ∷ y ∷ []) n.digits (n.digit_x, (n.digit_y, tt)) n.long

abbrev read_as : Bool → Text → ℕ → ℕ → Signed
read_as negative whole x y = record {
  negative = negative;
  magnitude = record { units = value (value 0 whole) (x ∷ y ∷ []); places = 2 };
}

plain-IsNormal :
    (whole : Text) (x y : ℕ) → AreNormal whole x y → IsNormal (whole ++ 46 ∷ x ∷ y ∷ [])
unfolding validate_slippage_threshold_pct signed_decimal
plain-IsNormal [] x y n = absurd (let long = n.long in omega (arith, long))
plain-IsNormal (c ∷ whole) x y n =
    let digit : is_digit c ≡ true = n.digits.0 in
    let no_sign : (c == 45) ≡ false = ground arith in
    (
      rw (validate_slippage_threshold_pct, parts-plain (c ∷ whole) x y n, n.fixed) refl,
      (
        read_as false (c ∷ whole) x y,
        rw (signed_decimal, no_sign, read-normal (c ∷ whole) x y n) refl,
        refl,
      ),
    )

signed-IsNormal :
    (whole : Text) (x y : ℕ)
    → AreNormal whole x y
    → is_nothing whole (x ∷ y ∷ []) ≡ false
    → IsNormal (45 ∷ (whole ++ 46 ∷ x ∷ y ∷ []))
unfolding validate_slippage_threshold_pct signed_decimal
signed-IsNormal whole x y n some_value = (
  rw (validate_slippage_threshold_pct, parts-signed whole x y n, n.fixed, some_value) refl,
  (read_as true whole x y, rw (signed_decimal, read-normal whole x y n) refl, refl),
)

written-IsNormal :
    (negative : Bool) (whole : Text) (x y : ℕ)
    → AreNormal whole x y
    → IsNormal (written negative whole (x ∷ y ∷ []))
written-IsNormal false whole x y n = plain-IsNormal whole x y n
written-IsNormal true whole x y n = elim (Bool-cases (is_nothing whole (x ∷ y ∷ []))) [
  | inl e ↦ subst IsNormal (rw e refl) (plain-IsNormal whole x y n)
  | inr e ↦ subst IsNormal (rw e refl) (signed-IsNormal whole x y n e)
]

parsed-IsNormal :
    (negative : Bool) (whole rest integer fraction : Text)
    → AreDigits whole
    → with_fraction (whole, rest) ≡ some (integer, fraction)
    → IsNormal (written negative (without_zeros integer) (ljust_two fraction))
parsed-IsNormal negative whole rest integer fraction h e =
    let (digits, two) = parts-AreDigits whole rest integer fraction h e in
    subst (λ l. IsNormal (written negative (without_zeros integer) l)) (sym two.same)
      (written-IsNormal negative (without_zeros integer) two.x two.y (record {
        digits = without_zeros-AreDigits integer digits;
        long = size-without_zeros integer;
        fixed = without_zeros-twice integer;
        digit_x = two.digit_x;
        digit_y = two.digit_y;
      }))

-- What a text with the sign, or without one, is parsed to.
signed_parts-IsNormal :
    (negative : Bool) (text normal : Text)
    → parsed_threshold (with_sign negative (with_fraction (take_digits text))) ≡ ok normal
    → IsNormal normal
signed_parts-IsNormal negative text normal h =
    elim (Option-cases (with_fraction (take_digits text))) [
      | inl e ↦ ground arith
      | inr ((integer, fraction), e) ↦
          let same : written negative (without_zeros integer) (ljust_two fraction) ≡ normal =
            ground arith in
          subst IsNormal same (
            parsed-IsNormal negative (take_digits text).0 (take_digits text).1 integer fraction
              (take_digits-AreDigits text) e)
    ]

-- A validated threshold is in a normal form: it is validated again as it stands, and the smooth gate
-- reads it as a decimal with two places.
pub validate_slippage_threshold_pct-IsNormal :
    (text normal : Text) → validate_slippage_threshold_pct (some text) ≡ ok normal → IsNormal normal
unfolding validate_slippage_threshold_pct threshold_parts
validate_slippage_threshold_pct-IsNormal [] normal h = absurd (cc h)
validate_slippage_threshold_pct-IsNormal (c ∷ text) normal h = elim (Bool-cases (c == 45)) [
  | inl e ↦ signed_parts-IsNormal true text normal (ground arith)
  | inr e ↦ signed_parts-IsNormal false (c ∷ text) normal (ground arith)
]
