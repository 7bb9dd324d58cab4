-- ===== src/Borrow/Validate.antt =====
-- The validation of request bodies: validate_asset, validate_amount, validate_success_target,
-- validate_limit, parse_interval_seconds and reject_unknown_keys of backend/borrow_tasks/domain.py.
use binance_funding_hedging.Prelude.{
  ℕ, ◌*◌, ◌^◌, Bool, true, false, not, none, some, List, [], ◌∷◌, String, if◌then◌else◌, leb, ltb,
  ◌==◌, ◌&&◌, ◌||◌,
}
use binance_funding_hedging.Prelude.Texts.{Text, codes, mem}
use binance_funding_hedging.Decimal.{Decimal, mul, of_int, round_half_even, is_positive, lt_decimal}
use binance_funding_hedging.Decimal.Plain.{is_digit, is_last_feed, plain_decimal}

-- BorrowError, by its code; the detail is a text for the reader.
pub data BorrowError : Type 0 where
  invalid_field : String → BorrowError
  invalid_json unknown_task invalid_transition version_conflict : BorrowError
  invalid_limit invalid_interval : BorrowError

-- What a handler gives: it raises, or answers.
pub data Reply {ℓ} (A : Type ℓ) : Type ℓ where
  refused : BorrowError → Reply A
  answered : A → Reply A

-- A value of a JSON body, as far as the validators tell them apart; an absent key is null.
pub data Field : Type 0 where
  null boolean negative other : Field
  text : String → Field
  whole : ℕ → Field

abbrev is_asset_char : ℕ → Bool
is_asset_char c = (leb 65 c && leb c 90) || is_digit c

-- `^[A-Z0-9]+$` by re.match; the flag is whether there was a character so far.
unfoldable pub matches_asset : Bool → Text → Bool
matches_asset seen [] = seen
matches_asset seen (c ∷ rest) =
    let further = matches_asset true rest in
    if is_asset_char c then further else is_last_feed c rest && seen

unfoldable pub validate_asset : Field → Reply String
unfolding matches_asset
validate_asset (text s) =
    if matches_asset false (codes s) then answered s else refused (invalid_field "asset")
validate_asset _ = refused (invalid_field "asset")

-- The text is echoed verbatim.
unfoldable pub validate_amount : Field → Reply String
unfolding plain_decimal
validate_amount (text s) = elim (plain_decimal (codes s)) [
  | none ↦ refused (invalid_field "amount_per_attempt")
  | some d ↦ if is_positive d then answered s else refused (invalid_field "amount_per_attempt")
]
validate_amount _ = refused (invalid_field "amount_per_attempt")

unfoldable pub validate_success_target : Field → Reply ℕ
validate_success_target (whole n) =
    if ltb n 1 then refused (invalid_field "success_target") else answered n
validate_success_target _ = refused (invalid_field "success_target")

unfoldable pub validate_limit : Field → Reply ℕ
validate_limit null = answered 50
validate_limit (whole n) = if ltb n 1 || ltb 200 n then refused invalid_limit else answered n
validate_limit _ = refused invalid_limit

-- A request body: the keys of a JSON object and its values.
pub data Body : Type 0 where
  not_an_object : Body
  members : List String → (String → Field) → Body

-- The first unexpected key, in the order of the texts, names the error; here it is only told that
-- there is one.
unfoldable pub has_unknown_key : List String → List String → Bool
unfolding mem
has_unknown_key [] allowed = false
has_unknown_key (k ∷ keys) allowed = if mem k allowed then has_unknown_key keys allowed else true

-- MIN_INTERVAL_SECONDS
abbrev pub min_interval_seconds : Decimal
min_interval_seconds = record { units = 1; places = 1 }

-- An interval as microseconds: the scaled number must be whole, as far as 28 digits show.
unfoldable pub interval_us : Decimal → Reply ℕ
unfolding mul round_half_even
interval_us seconds =
    let scaled = mul seconds (of_int 1000000) in
    let truncated = round_half_even scaled.units (10 ^ scaled.places) in
    if not (is_positive seconds)
    then refused invalid_interval
    else if not (scaled.units == truncated * 10 ^ scaled.places) || ltb truncated 1
    then refused invalid_interval
    else if lt_decimal seconds min_interval_seconds
    then refused invalid_interval
    else answered truncated

unfoldable pub parse_interval_seconds : Field → Reply (String × ℕ)
unfolding plain_decimal interval_us
parse_interval_seconds (text s) = elim (plain_decimal (codes s)) [
  | none ↦ refused invalid_interval
  | some d ↦ elim (interval_us d) [ refused e ↦ refused e | answered us ↦ answered (s, us) ]
]
parse_interval_seconds _ = refused invalid_interval
