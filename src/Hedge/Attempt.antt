-- ===== src/Hedge/Attempt.antt =====
-- The verdict on an attempt: leg_is_accepted, classify_attempt, build_leg_exposure and
-- resolve_status_after_attempt of backend/hedge_open_tasks/domain.py.
pub mod Verdict
pub mod Transitions
use binance_funding_hedging.Prelude.{
  ℕ, Bool, true, false, not, Option, none, some, String, if◌then◌else◌, leb, ◌==◌, ◌&&◌, ◌||◌,
}
use binance_funding_hedging.Decimal.{Decimal, of_int}
use binance_funding_hedging.Hedge.Errors.{Result, ok, err, invalid_field}
use binance_funding_hedging.Hedge.Vocabulary.{
  Status, running, paused, done, stopped, deleted, AttemptCategory, success, single_leg_exposure,
  failed, execution_disabled, fatal_submission,
}
use text.Mathlib.Text.{◌==◌ as str_eq}

-- The entries of a leg's dict that the verdict reads; an absent entry is `none`. Quantities and
-- prices, which the source keeps as decimal texts, are the decimals.
pub record LegDoc : Type 0 where
  pub order_id : Option String
  pub filled_qty : Option Decimal
  pub avg_price : Option Decimal

-- bool(order_id): a text is true unless it is empty.
abbrev pub truthy : Option String → Bool
truthy none = false
truthy (some s) = not (str_eq s "")

unfoldable pub leg_is_accepted : Option LegDoc → Bool
leg_is_accepted none = false
leg_is_accepted (some leg) = truthy leg.order_id

abbrev pub categorize : Bool → Bool → AttemptCategory
categorize true true = success
categorize true false = single_leg_exposure
categorize false true = single_leg_exposure
categorize false false = failed

unfoldable pub classify_attempt : Option LegDoc → Option LegDoc → AttemptCategory
unfolding leg_is_accepted
classify_attempt spot perp = categorize (leg_is_accepted spot) (leg_is_accepted perp)

pub data LegName : Type 0 where
  spot perp : LegName

-- `ts` is the time in microseconds, which the document gives as an ISO text.
pub record LegExposure : Type 0 where
  pub leg : LegName
  pub qty : Decimal
  pub price : Option Decimal
  pub ts : ℕ

abbrev pub or_zero : Option Decimal → Decimal
or_zero none = of_int 0
or_zero (some d) = d

abbrev exposure_doc : LegName → Option LegDoc → ℕ → LegExposure
exposure_doc name none ts = record { leg = name; qty = of_int 0; price = none; ts = ts }
exposure_doc name (some leg) ts = record {
  leg = name;
  qty = or_zero leg.filled_qty;
  price = leg.avg_price;
  ts = ts;
}

-- The source raises for a time of 0 or less.
unfoldable pub build_leg_exposure : Option LegDoc → Option LegDoc → ℕ → Result (Option LegExposure)
unfolding leg_is_accepted
build_leg_exposure spot_leg perp_leg ts_us =
    let s = leg_is_accepted spot_leg in
    let p = leg_is_accepted perp_leg in
    if ts_us == 0
    then err (invalid_field "ts_us")
    else if not (s || p)
    then ok none
    else if s && p
    then ok none
    else ok
        (some (if s then exposure_doc spot spot_leg ts_us else exposure_doc perp perp_leg ts_us))

abbrev pub is_success : AttemptCategory → Bool
is_success success = true
is_success _ = false

abbrev pub is_fatal : AttemptCategory → Bool
is_fatal fatal_submission = true
is_fatal _ = false

-- category in (ATTEMPT_FAILED, ATTEMPT_SINGLE_LEG_EXPOSURE)
abbrev pub counts_as_failure : AttemptCategory → Bool
counts_as_failure failed = true
counts_as_failure single_leg_exposure = true
counts_as_failure _ = false

unfoldable pub resolve_status_after_attempt : Status → AttemptCategory → ℕ → ℕ → ℕ → ℕ → Status
resolve_status_after_attempt deleted category accepted target failures threshold = deleted
resolve_status_after_attempt current category accepted target failures threshold =
    if is_fatal category
    then stopped
    else if is_success category && leb target accepted
    then done
    else if counts_as_failure category && leb threshold failures
    then paused
    else current
