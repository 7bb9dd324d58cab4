-- ===== src/Decimal/Format/Parsed.antt =====
-- A formatted decimal is read back as the same value.
use binance_funding_hedging.Prelude.{
  ℕ, ◌+◌, ◌-◌, ◌*◌, ◌/◌, ◌%◌, ◌^◌, ◌<◌, ◌≡◌, ◌≢◌, ◌⊎◌, false, [], ◌∷◌, ◌++◌, some, ◌==◌, arith,
  refl, Bool-cases, inl, inr, ap, ◌∙◌, sym,
}
use binance_funding_hedging.Prelude.Texts.{Text}
use binance_funding_hedging.Decimal.{Decimal, left_units, right_units}
use binance_funding_hedging.Decimal.Plain.{fraction_part, whole_part, plain_decimal}
use binance_funding_hedging.Decimal.Format.{padded, digits, rstrip, fixed_point, fmt_decimal}
use binance_funding_hedging.Decimal.Format.Digits.{
  AreDigits, value, size, value-append, size-append, padded-AreDigits, size-padded, value-padded,
  digits-AreDigits, value-digits, size-digits, whole_part-append, fraction_part-digits,
}
use native.Mathlib.Nat.{mod-lt, one-le-pow, div-add-mod'}
use binance_funding_hedging.Decimal.Rounding.{pow-add}
use mathlib.Core.List.{append-nil}
use binance_funding_hedging.Decimal.Format.Strip.{
  zeros, LastIsNot, rstrip-LastIsNot, rstrip-AreDigits, rstrip-zeros, value-zeros, size-zeros,
  joined, strip_both,
}

-- What the parser makes of the joined digits.
pub parse_joined :
    (whole fraction : Text)
    → AreDigits whole
    → AreDigits fraction
    → 0 < size whole
    → plain_decimal (joined whole fraction)
      ≡ some (record { units = value (value 0 whole) fraction; places = size fraction })
unfolding plain_decimal whole_part
parse_joined whole [] h k pos =
    ap plain_decimal (sym (append-nil whole)) ∙ whole_part-append 0 false whole [] h pos
parse_joined whole (y ∷ fraction) h k pos =
    whole_part-append 0 false whole (46 ∷ y ∷ fraction) h pos
    ∙ fraction_part-digits (value 0 whole) 0 (y ∷ fraction) k
    ∙ last_step
  where
    last_step :
        fraction_part (value (value 0 whole) (y ∷ fraction)) (0 + size (y ∷ fraction)) []
        ≡ some
            (record { units = value (value 0 whole) (y ∷ fraction); places = size (y ∷ fraction) })
    last_step = ground arith

last-digit :
    (n : ℕ) (text : Text)
    → AreDigits text
    → LastIsNot 48 text
    → 0 < size text
    → value n text % 10 ≢ 0
last-digit n [] h ne pos = absurd (omega arith)
last-digit n (x ∷ []) h ne pos = ground arith
last-digit n (x ∷ y ∷ text) h ne pos =
    last-digit (n * 10 + (x - 48)) (y ∷ text) h.1 ne (omega arith)

-- One value in two forms.
abbrev pub IsSame : Decimal → Decimal → Type 0
IsSame d e = left_units d e ≡ right_units d e

-- No zero stands last behind the point.
abbrev pub IsShortest : Decimal → Type 0
IsShortest d = (d.places ≡ 0) ⊎ (d.units % 10 ≢ 0)

scaled_fraction :
    (m p : ℕ) (text : Text)
    → (k : ℕ) → text ≡ rstrip 48 text ++ zeros k
    → size text ≡ p
    → value m (rstrip 48 text) * 10 ^ p ≡ value m text * 10 ^ size (rstrip 48 text)
scaled_fraction m p text k split sized =
    let r = rstrip 48 text in
    let read : value m text ≡ value m r * 10 ^ k =
      ap (value m) split ∙ value-append m r (zeros k) ∙ value-zeros (value m r) k in
    let long : p ≡ k + size r =
      let parts = ap size split ∙ size-append r (zeros k) in omega (arith, parts, size-zeros k) in
    let power = ap (λ t. 10 ^ t) long ∙ pow-add k (size r) in
    ap (λ t. value m r * t) power
    ∙ regrouped (value m r) (10 ^ k) (10 ^ size r)
    ∙ ap (λ t. t * 10 ^ size r) (sym read)
  where
    regrouped : (a b c : ℕ) → a * (b * c) ≡ (a * b) * c
    regrouped a b c = grind arith

shortest :
    (n : ℕ) (text : Text)
    → AreDigits text
    → LastIsNot 48 text
    → IsShortest (record { units = value n text; places = size text })
shortest n [] h ne = inl refl
shortest n (x ∷ text) h ne = inr (last-digit n (x ∷ text) h ne (omega arith))

-- A decimal written by fmt_decimal is read back as the same value, and in its shortest form: without
-- a point, or with a last digit behind the point that is not 0.
pub plain_decimal-fmt_decimal :
    (d : Decimal)
    → (e : Decimal) × (plain_decimal (fmt_decimal d) ≡ some e) × IsSame e d × IsShortest e
unfolding fmt_decimal fixed_point
plain_decimal-fmt_decimal d = elim (Bool-cases (d.places == 0)) [
  | inl e ↦
      let none_behind : d.places ≡ 0 = ground arith in
      (
        record { units = value 0 (digits d.units); places = 0 },
        rw (fmt_decimal, e)
            (parse_joined (digits d.units) [] (digits-AreDigits d.units) tt (size-digits d.units)),
        rw (value-digits d.units, none_behind) refl,
        inl refl,
      )
  | inr e ↦
      let scale = 10 ^ d.places in
      let whole = digits (d.units / scale) in
      let fraction = padded d.places (d.units % scale) in
      let are_whole = digits-AreDigits (d.units / scale) in
      let are_fraction = padded-AreDigits d.places (d.units % scale) in
      let (k, split) = rstrip-zeros fraction in
      let are_left = rstrip-AreDigits 48 fraction are_fraction in
      let all_units : value (value 0 whole) fraction ≡ d.units =
        value-padded d.places (value 0 whole) (d.units % scale)
          (mod-lt d.units (one-le-pow d.places 10 (omega arith)))
        ∙ ap (λ n. n * scale + d.units % scale) (value-digits (d.units / scale))
        ∙ div-add-mod' d.units scale in
      (
        record {
          units = value (value 0 whole) (rstrip 48 fraction);
          places = size (rstrip 48 fraction);
        },
        rw (fmt_decimal, e)
            (ap plain_decimal (strip_both whole fraction are_whole are_fraction)
              ∙ parse_joined whole (rstrip 48 fraction) are_whole are_left
                  (size-digits (d.units / scale))),
        scaled_fraction (value 0 whole) d.places fraction k split
              (size-padded d.places (d.units % scale))
            ∙ ap (λ n. n * 10 ^ size (rstrip 48 fraction)) all_units,
        shortest (value 0 whole) (rstrip 48 fraction) are_left (rstrip-LastIsNot 48 fraction),
      )
]
