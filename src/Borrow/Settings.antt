-- ===== src/Borrow/Settings.antt =====
-- The durable switch and the cooldown: set_execution_enabled and _apply_rate_limit of
-- backend/borrow_tasks/store.py, and clamp_retry_after of backend/borrow_tasks/domain.py.
use binance_funding_hedging.Prelude.{
  ℕ, ◌+◌, ◌^◌, Bool, true, false, Option, none, some, String, if◌then◌else◌, ltb, ◌==◌, min, max,
}
use binance_funding_hedging.Decimal.{Decimal, mul, of_int, round_half_even}
use binance_funding_hedging.Borrow.Rows.{BorrowSettings, BorrowStore, ExecutorResult}

-- A Retry-After header by what int() makes of it: absent, not a number or below 1, or a number.
pub data RetryAfter : Type 0 where
  absent not_a_number below_one : RetryAfter
  seconds : ℕ → RetryAfter

-- The result is a whole number of seconds.
unfoldable pub clamp_retry_after : RetryAfter → ℕ
clamp_retry_after absent = 60
clamp_retry_after not_a_number = 60
clamp_retry_after below_one = 60
clamp_retry_after (seconds n) = if ltb n 1 then 60 else min (max n 60) 300

-- cooldown is not None and cooldown > now
abbrev pub is_cooling : Option ℕ → ℕ → Bool
is_cooling none now_us = false
is_cooling (some until_us) now_us = ltb now_us until_us

abbrev enabled_settings : BorrowSettings → ℕ → BorrowSettings
enabled_settings t now_us =
    if is_cooling t.global_cooldown_until_us now_us
    then record t { execution_enabled = true; version = t.version + 1; updated_at_us = now_us }
    else record t {
      execution_enabled = true;
      requires_rearm = false;
      global_cooldown_until_us = none;
      version = t.version + 1;
      updated_at_us = now_us;
    }

unfoldable pub set_execution_enabled : Bool → ℕ → BorrowStore → BorrowStore
set_execution_enabled true now_us s = record s { settings = enabled_settings s.settings now_us }
set_execution_enabled false now_us s = record s {
  settings = record s.settings {
    execution_enabled = false;
    version = s.settings.version + 1;
    updated_at_us = now_us;
  };
}

unfoldable pub update_settings : String → ℕ → ℕ → BorrowStore → BorrowStore
update_settings interval_seconds interval now_us s = record s {
  settings = record s.settings {
    interval_seconds = interval_seconds;
    interval_us = interval;
    version = s.settings.version + 1;
    updated_at_us = now_us;
  };
}

-- int((retry * 1_000_000).to_integral_value())
unfoldable pub retry_us : Decimal → ℕ
unfolding mul round_half_even
retry_us retry =
    let product = mul retry (of_int 1000000) in round_half_even product.units (10 ^ product.places)

abbrev pub is_ban : Option ℕ → Bool
is_ban none = false
is_ban (some http_status) = http_status == 418

abbrev cooled : ExecutorResult → ℕ → BorrowSettings → BorrowSettings
cooled r finished_at_us t = elim r.retry_after_seconds [
  | none ↦ t
  | some retry ↦ record t {
    global_cooldown_until_us = some (finished_at_us + retry_us retry);
    version = t.version + 1;
    updated_at_us = finished_at_us;
  }
]

-- `_apply_rate_limit`
unfoldable pub apply_rate_limit : ExecutorResult → ℕ → BorrowSettings → BorrowSettings
unfolding retry_us
apply_rate_limit r finished_at_us t =
    let after = cooled r finished_at_us t in
    if is_ban r.http_status
    then record after {
      requires_rearm = true;
      version = after.version + 1;
      updated_at_us = finished_at_us;
    }
    else after
