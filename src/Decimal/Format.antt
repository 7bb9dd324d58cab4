-- ===== src/Decimal/Format.antt =====
-- Decimals as texts: fmt_decimal of backend/hedge_open_tasks/domain.py, which is `format(value, "f")`
-- without the zeros that stand last behind the point.
pub mod Digits
pub mod Parsed
pub mod Strip
use binance_funding_hedging.Prelude.{
  ℕ, zero, suc, ◌+◌, ◌/◌, ◌%◌, ◌^◌, List, [], ◌∷◌, ◌++◌, String, if◌then◌else◌, ◌==◌,
}
use binance_funding_hedging.Prelude.Texts.{Text}
use binance_funding_hedging.Decimal.{Decimal}
use Prim.Native.Char.{Char}

-- The last `k` digits of a number, zeros in front.
unfoldable pub padded : ℕ → ℕ → Text
padded zero n = []
padded (suc k) n = padded k (n / 10) ++ (48 + n % 10) ∷ []

-- The digits of a number, the first of them not a zero; 0 has one digit.
pub digits_fuel : ℕ → ℕ → Text
digits_fuel zero n = []
digits_fuel (suc fuel) n =
    let rest = digits_fuel fuel (n / 10) in
    if n / 10 == 0 then (48 + n % 10) ∷ [] else rest ++ (48 + n % 10) ∷ []

unfoldable pub digits : ℕ → Text
unfolding digits_fuel
digits n = digits_fuel (suc n) n

abbrev pub drop_if_last : ℕ → ℕ → Text → Text
drop_if_last c x [] = if x == c then [] else x ∷ []
drop_if_last c x (y ∷ text) = x ∷ y ∷ text

-- text.rstrip(c)
unfoldable pub rstrip : ℕ → Text → Text
rstrip c [] = []
rstrip c (x ∷ text) = drop_if_last c x (rstrip c text)

-- format(d, "f")
unfoldable pub fixed_point : Decimal → Text
unfolding digits padded
fixed_point d =
    if d.places == 0
    then digits d.units
    else digits (d.units / 10 ^ d.places) ++ 46 ∷ padded d.places (d.units % 10 ^ d.places)

-- The text of a value that is not None; it is never empty.
unfoldable pub fmt_decimal : Decimal → Text
unfolding fixed_point rstrip
fmt_decimal d = if d.places == 0 then fixed_point d else rstrip 46 (rstrip 48 (fixed_point d))

-- The character of a digit or of the point.
abbrev character : ℕ → Char
character c =
    if c == 48
    then "0"
    else if c == 49
    then "1"
    else if c == 50
    then "2"
    else if c == 51
    then "3"
    else if c == 52
    then "4"
    else if c == 53
    then "5"
    else if c == 54
    then "6"
    else if c == 55
    then "7"
    else if c == 56
    then "8"
    else if c == 57
    then "9"
    else "."

-- A text of digits and points as a string.
unfoldable pub string_of : Text → String
string_of [] = String.[]
string_of (c ∷ text) = String.◌∷◌ (character c) (string_of text)
