-- ===== src/Hedge/Threshold.antt =====
-- The threshold of a smooth task as a request gives it: validate_slippage_threshold_pct of
-- backend/hedge_open_tasks/domain.py.
pub mod Groups
pub mod Normal
use binance_funding_hedging.Prelude.{
  ℕ, Bool, true, false, not, Option, none, some, List, [], ◌∷◌, ◌++◌, if◌then◌else◌, ◌==◌, ◌&&◌,
  ◌||◌,
}
use binance_funding_hedging.Prelude.Texts.{Text, same_text}
use binance_funding_hedging.Decimal.Plain.{is_digit}
use binance_funding_hedging.Hedge.Errors.{Result, ok, err, invalid_field}

-- The digits that a text begins with, and what stands behind them.
unfoldable pub take_digits : Text → Text × Text
take_digits [] = ([], [])
take_digits (c ∷ text) =
    let (digits, rest) = take_digits text in
    if is_digit c then (c ∷ digits, rest) else ([], c ∷ text)

-- One digit or two.
abbrev pub is_fraction : Text → Bool
is_fraction (x ∷ []) = is_digit x
is_fraction (x ∷ y ∷ []) = is_digit x && is_digit y
is_fraction _ = false

-- Behind the digits there is nothing, if there are digits, or a point and a fraction.
abbrev pub with_fraction : Text × Text → Option (Text × Text)
with_fraction ([], []) = none
with_fraction (c ∷ integer, []) = some (c ∷ integer, [])
with_fraction (integer, c ∷ fraction) =
    if c == 46 && is_fraction fraction then some (integer, fraction) else none

abbrev pub with_sign : Bool → Option (Text × Text) → Option (Bool × Text × Text)
with_sign negative none = none
with_sign negative (some (integer, fraction)) = some (negative, integer, fraction)

-- _SLIPPAGE_THRESHOLD_RE.fullmatch: the sign and the two groups; a group that is absent is empty.
unfoldable pub threshold_parts : Text → Option (Bool × Text × Text)
unfolding take_digits
threshold_parts [] = none
threshold_parts (c ∷ text) =
    if c == 45
    then with_sign true (with_fraction (take_digits text))
    else with_sign false (with_fraction (take_digits (c ∷ text)))

-- text.lstrip("0") or "0"
unfoldable pub without_zeros : Text → Text
without_zeros [] = 48 ∷ []
without_zeros (c ∷ text) = let rest = without_zeros text in if c == 48 then rest else c ∷ text

-- text.ljust(2, "0")
abbrev pub ljust_two : Text → Text
ljust_two [] = 48 ∷ 48 ∷ []
ljust_two (x ∷ []) = x ∷ 48 ∷ []
ljust_two (x ∷ y ∷ text) = x ∷ y ∷ text

abbrev pub is_nothing : Text → Text → Bool
is_nothing integer fraction = same_text integer (48 ∷ []) && same_text fraction (48 ∷ 48 ∷ [])

abbrev pub written : Bool → Text → Text → Text
written negative integer fraction =
    if negative && not (is_nothing integer fraction)
    then 45 ∷ (integer ++ 46 ∷ fraction)
    else integer ++ 46 ∷ fraction

abbrev pub parsed_threshold : Option (Bool × Text × Text) → Result Text
parsed_threshold none = err (invalid_field "slippage_threshold_pct")
parsed_threshold (some (negative, integer, fraction)) =
    ok (written negative (without_zeros integer) (ljust_two fraction))

-- A value that is not a text is none.
unfoldable pub validate_slippage_threshold_pct : Option Text → Result Text
unfolding threshold_parts without_zeros
validate_slippage_threshold_pct none = err (invalid_field "slippage_threshold_pct")
validate_slippage_threshold_pct (some value) = parsed_threshold (threshold_parts value)
