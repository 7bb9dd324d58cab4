-- ===== src/Decimal/Plain.antt =====
-- Plain decimal texts: the pattern `^[0-9]+(\.[0-9]+)?$` by re.match, and the Decimal of such a text. A
-- `$` matches before one line feed at the end as well, and Decimal strips it.
use binance_funding_hedging.Prelude.{
  ℕ, ◌+◌, ◌-◌, ◌*◌, Bool, true, false, Option, none, some, [], ◌∷◌, if◌then◌else◌, leb, ltb, ◌==◌,
  ◌&&◌,
}
use binance_funding_hedging.Prelude.Texts.{Text}
use binance_funding_hedging.Decimal.{Decimal}

abbrev pub is_digit : ℕ → Bool
is_digit c = leb 48 c && leb c 57

-- One line feed, and nothing behind it.
abbrev pub is_last_feed : ℕ → Text → Bool
is_last_feed c [] = c == 10
is_last_feed c (d ∷ text) = false

-- The digits behind the point, of which there were `places` so far.
unfoldable pub fraction_part : ℕ → ℕ → Text → Option Decimal
fraction_part units places [] =
    if ltb 0 places then some (record { units = units; places = places }) else none
fraction_part units places (c ∷ text) =
    let rest = fraction_part (units * 10 + (c - 48)) (places + 1) text in
    if is_digit c
    then rest
    else if is_last_feed c text && ltb 0 places
    then some (record { units = units; places = places })
    else none

-- The digits before the point; the flag is whether there was one so far.
unfoldable pub whole_part : ℕ → Bool → Text → Option Decimal
unfolding fraction_part
whole_part units seen [] = if seen then some (record { units = units; places = 0 }) else none
whole_part units seen (c ∷ text) =
    let rest = whole_part (units * 10 + (c - 48)) true text in
    if is_digit c
    then rest
    else if c == 46 && seen
    then fraction_part units 0 text
    else if is_last_feed c text && seen
    then some (record { units = units; places = 0 })
    else none

unfoldable pub plain_decimal : Text → Option Decimal
unfolding whole_part
plain_decimal text = whole_part 0 false text
