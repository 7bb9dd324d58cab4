-- ===== src/Hedge/Codes.antt =====
-- The classification of exchange codes: is_insufficient_funds_code, classify_exchange_code and
-- rollup_leg_error_category of backend/hedge_open_tasks/domain.py.
pub mod Message
pub mod Classified
pub mod Rollup
use binance_funding_hedging.Prelude.{
  ℕ, Bool, true, false, Option, none, some, List, [], ◌∷◌, String, if◌then◌else◌, ◌&&◌, ltb,
}
use binance_funding_hedging.Prelude.Texts.{mem}
use binance_funding_hedging.Hedge.Vocabulary.{
  ErrorCategory, auth, fatal, insufficient_funds, absent, collateral_cap, unclassified, Product,
  margin, um, spot_product,
}
use binance_funding_hedging.Hedge.Codes.Message.{confirms_insufficient_balance}
use text.Mathlib.Text.{◌==◌ as str_eq}

-- FATAL_EXCHANGE_CODES
abbrev pub fatal_exchange_codes : List String
fatal_exchange_codes =
    "-2010" ∷ "-2019" ∷ "-3041" ∷ "-1013" ∷ "-1100" ∷ "-1101" ∷ "-1102" ∷ "-1103" ∷ "-1104"
    ∷ "-1105" ∷ "-1106" ∷ "-1107" ∷ "-1108" ∷ "-1109" ∷ "-1110" ∷ "-1111" ∷ "-1112" ∷ "-1113"
    ∷ "-1114" ∷ "-1115" ∷ "-1128" ∷ "-1130" ∷ "-1136" ∷ "-1140" ∷ "-1170" ∷ "-1180" ∷ "-1190"
    ∷ "-1210" ∷ "-1212" ∷ "-1270" ∷ []

-- AUTH_AMBIGUOUS_EXCHANGE_CODES
abbrev pub auth_ambiguous_exchange_codes : List String
auth_ambiguous_exchange_codes =
    "-1000" ∷ "-1021" ∷ "-1022" ∷ "-1099" ∷ "-2011" ∷ "-2014" ∷ "-2015" ∷ "-2017" ∷ "-2018" ∷ []

-- INSUFFICIENT_FUNDS_CODES
abbrev pub insufficient_funds_codes : List String
insufficient_funds_codes = "-2019" ∷ "-3041" ∷ []

-- INSUFFICIENT_BALANCE_CODE
abbrev pub insufficient_balance_code : String
insufficient_balance_code = "-2010"

-- The keys of MARGIN_BUSINESS_CODES, all of which map to `collateral_cap`; the tables of the other
-- two products are empty.
abbrev pub margin_business_codes : List String
margin_business_codes = "51169" ∷ []

-- The message is its code points; `none` and "" are both falsy.
unfoldable pub is_insufficient_funds_code : Option String → Option (List ℕ) → Bool
is_insufficient_funds_code none msg = false
is_insufficient_funds_code (some code) msg =
    if mem code insufficient_funds_codes
    then true
    else if str_eq code insufficient_balance_code
    then elim msg [ none ↦ false | some text ↦ confirms_insufficient_balance text ]
    else false

-- `MARGIN_BUSINESS_CODES`, `UM_BUSINESS_CODES` and `SPOT_BUSINESS_CODES`
unfoldable pub business_category : Product → String → Option ErrorCategory
business_category margin code = if mem code margin_business_codes then some collateral_cap else none
business_category um code = none
business_category spot_product code = none

unfoldable pub classify_exchange_code :
    Product → Option String → Option (List ℕ) → Option ErrorCategory
unfolding business_category
classify_exchange_code product none msg = none
classify_exchange_code product (some code) msg =
    if mem code auth_ambiguous_exchange_codes
    then some auth
    else if is_insufficient_funds_code (some code) msg
    then some insufficient_funds
    else if mem code fatal_exchange_codes
    then some fatal
    else elim (business_category product code) [ some c ↦ some c | none ↦ some unclassified ]

-- ERROR_CATEGORY_ROLLUP_PRIORITY.get(category, 0) if category else 0
abbrev pub rollup_priority : Option ErrorCategory → ℕ
rollup_priority none = 0
rollup_priority (some fatal) = 6
rollup_priority (some auth) = 5
rollup_priority (some collateral_cap) = 4
rollup_priority (some insufficient_funds) = 3
rollup_priority (some unclassified) = 2
rollup_priority (some absent) = 1

unfoldable pub rollup_leg_error_category :
    Option ErrorCategory
    → Option String
    → Option ErrorCategory
    → Option String
    → Option ErrorCategory × Option String
rollup_leg_error_category spot_category spot_code perp_category perp_code =
    let spot_rank : ℕ = rollup_priority spot_category in
    let perp_rank : ℕ = rollup_priority perp_category in
    if ltb spot_rank perp_rank
    then (perp_category, perp_code)
    else if ltb 0 spot_rank
    then (spot_category, spot_code)
    else if ltb 0 perp_rank
    then (perp_category, perp_code)
    else (none, none)
