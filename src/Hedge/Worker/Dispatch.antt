-- ===== src/Hedge/Worker/Dispatch.antt =====
-- What the worker makes of the two legs' POST: _dispatch_live, _dispatch_to_outcome and
-- _mark_legs_querying of backend/hedge_open_tasks/service.py. The executor's answer is given; the
-- copies of raw responses, the fees and the audit of the smooth gate are left out.
use binance_funding_hedging.Prelude.{
  ℕ, Bool, true, false, Option, none, some, String, if◌then◌else◌, ◌||◌,
}
use binance_funding_hedging.Decimal.{Decimal}
use binance_funding_hedging.Hedge.Errors.{Result, ok, err}
use binance_funding_hedging.Hedge.Vocabulary.{
  accepted_or_querying, unknown_querying, terminal_recorded, TaskType, is_close, PauseReason,
  insufficient_balance, insufficient_margin, insufficient_available_qty, collateral_cap_full, fatal,
}
use binance_funding_hedging.Hedge.Attempt.{
  LegDoc, LegExposure, classify_attempt, build_leg_exposure,
}
use binance_funding_hedging.Hedge.Store.Rows.{Store, rate_limited_event, task_event}
use binance_funding_hedging.Hedge.Store.Tasks.{pause_task}
use binance_funding_hedging.Hedge.Store.Legs.{mark_leg_querying, mark_attempt_rate_limited}
use binance_funding_hedging.Hedge.Store.Settle.{is_fatal_category, is_single, append_log}
use binance_funding_hedging.Hedge.Store.Resolve.{
  Figure, absent, figure, LegOutcome, AttemptOutcome, resolve_attempt,
}
use binance_funding_hedging.Hedge.Worker.Verdicts.{
  Signal, signal_rate_limited, signal_insufficient_margin, signal_insufficient_available_qty,
  signal_collateral_cap, LegDispatch, leg_terminal, pause_signal_from_legs,
}
use text.Mathlib.Text.{◌==◌ as str_eq}

-- LiveAttemptDispatch of backend/services/live_hedge_executor.py
pub record LiveAttemptDispatch : Type 0 where
  pub spot_leg : LegDispatch
  pub perp_leg : LegDispatch
  pub record_payload : String
  pub rate_limited : Bool

abbrev pub is_querying : LegDispatch → Bool
is_querying l = elim l.dispatch_state [ unknown_querying ↦ true | _ ↦ false ]

abbrev pub has_querying : LiveAttemptDispatch → Bool
has_querying d = is_querying d.spot_leg || is_querying d.perp_leg

-- exchange_status or LEG_NEW
abbrev status_or_new : Option String → String
status_or_new none = "NEW"
status_or_new (some status) = if str_eq status "" then "NEW" else status

abbrev figure_of : Option Decimal → Figure
figure_of none = absent
figure_of (some d) = figure d

abbrev leg_outcome : LegDispatch → LegOutcome
leg_outcome l = record {
  status = some (elim l.dispatch_state [
    | terminal_recorded ↦ "REJECTED"
    | _ ↦ status_or_new l.exchange_status
  ]);
  order_id = l.order_id;
  filled_qty = figure l.executed_qty;
  cumulative_quote = figure_of l.cumulative_quote;
  fee_amount = none;
  fee_asset = none;
  avg_price = l.avg_price;
  error_code = l.error_code;
  error_category = l.error_category;
}

abbrev pub leg_doc : LegDispatch → Option LegDoc
leg_doc l =
    some
      (record { order_id = l.order_id; filled_qty = some l.executed_qty; avg_price = l.avg_price })

abbrev pub outcome_with : LegDispatch → LegDispatch → String → Option LegExposure → AttemptOutcome
outcome_with s p payload exposure =
    let is_fatal = is_fatal_category s.error_category || is_fatal_category p.error_category in
    record {
      category = classify_attempt (leg_doc s) (leg_doc p);
      spot_leg = leg_outcome s;
      perp_leg = leg_outcome p;
      exposure = exposure;
      record_payload = payload;
      error_category = if is_fatal then some fatal else none;
      error_code =
          if is_fatal
          then if is_fatal_category s.error_category then s.error_code else p.error_code
          else none;
    }

-- Raises only for an exposure at the time 0.
unfoldable pub dispatch_to_outcome : LegDispatch → LegDispatch → String → ℕ → Result AttemptOutcome
unfolding classify_attempt build_leg_exposure
dispatch_to_outcome s p payload ts_us =
    if is_single (classify_attempt (leg_doc s) (leg_doc p))
    then elim (build_leg_exposure (leg_doc s) (leg_doc p) ts_us) [
      | err e ↦ err e
      | ok exposure ↦ ok (outcome_with s p payload exposure)
    ]
    else ok (outcome_with s p payload none)

-- A leg that was refused is left as it is.
abbrev pub mark_querying : ℕ → LegDispatch → ℕ → Store → Store
mark_querying attempt_id l now_us s = elim l.dispatch_state [
  | terminal_recorded ↦ s
  | unknown_querying ↦ mark_leg_querying attempt_id l.leg unknown_querying l.order_id now_us s
  | _ ↦ mark_leg_querying attempt_id l.leg accepted_or_querying l.order_id now_us s
]

unfoldable pub mark_legs_querying : ℕ → LiveAttemptDispatch → ℕ → Store → Store
unfolding mark_leg_querying
mark_legs_querying attempt_id d now_us s =
    mark_querying attempt_id d.perp_leg now_us (mark_querying attempt_id d.spot_leg now_us s)

-- The branch of a rate limit.
abbrev pub rate_limited_store : ℕ → ℕ → LiveAttemptDispatch → ℕ → Store → Store
rate_limited_store task_id attempt_id d now_us s = mark_attempt_rate_limited attempt_id (
    append_log task_id now_us (some rate_limited_event)
      (if has_querying d then mark_legs_querying attempt_id d now_us s else s))

-- The settlement by the outcome of the two legs.
unfoldable pub settle_dispatched :
    ℕ → LiveAttemptDispatch → Bool → Bool → Bool → ℕ → Store → Result Store
unfolding dispatch_to_outcome resolve_attempt
settle_dispatched attempt_id d spot_closed perp_closed suppress_done now_us s =
    elim (dispatch_to_outcome d.spot_leg d.perp_leg d.record_payload now_us) [
      | err e ↦ err e
      | ok o ↦ ok (resolve_attempt attempt_id o spot_closed perp_closed suppress_done now_us s).0
    ]

abbrev pub with_signal : Option Signal → Result Store → Result (Store × Option Signal)
with_signal signal (err e) = err e
with_signal signal (ok s) = ok (s, signal)

-- A pause-class fact closes both legs where none is unknown.
abbrev pub paused_dispatch :
    ℕ → LiveAttemptDispatch → Signal → ℕ → Store → Result (Store × Option Signal)
paused_dispatch attempt_id d signal now_us s =
    if has_querying d
    then ok (mark_legs_querying attempt_id d now_us s, some signal)
    else with_signal (some signal) (settle_dispatched attempt_id d true true true now_us s)

abbrev pub plain_dispatch :
    ℕ → TaskType → LiveAttemptDispatch → ℕ → Store → Result (Store × Option Signal)
plain_dispatch attempt_id task_type d now_us s =
    if has_querying d
    then ok (mark_legs_querying attempt_id d now_us s, none)
    else with_signal none (
        settle_dispatched attempt_id d (leg_terminal d.spot_leg) (leg_terminal d.perp_leg)
          (is_close task_type) now_us s)

-- The branches without a rate limit.
unfoldable pub unlimited_dispatch :
    ℕ → TaskType → LiveAttemptDispatch → ℕ → Store → Result (Store × Option Signal)
unfolding mark_legs_querying pause_signal_from_legs settle_dispatched leg_terminal
unlimited_dispatch attempt_id task_type d now_us s =
    elim (pause_signal_from_legs d.spot_leg d.perp_leg) [
      | some signal ↦ paused_dispatch attempt_id d signal now_us s
      | none ↦ plain_dispatch attempt_id task_type d now_us s
    ]

-- The database after the dispatch and what it tells the worker.
unfoldable pub dispatch_live :
    ℕ → ℕ → TaskType → LiveAttemptDispatch → ℕ → Store → Result (Store × Option Signal)
unfolding mark_attempt_rate_limited mark_legs_querying unlimited_dispatch
dispatch_live task_id attempt_id task_type d now_us s =
    if d.rate_limited
    then ok (rate_limited_store task_id attempt_id d now_us s, some signal_rate_limited)
    else unlimited_dispatch attempt_id task_type d now_us s

-- `_pause_task_local`; the text is the reason that the operator reads.
unfoldable pub pause_task_local : ℕ → PauseReason → String → String → ℕ → Store → Store
unfolding pause_task
pause_task_local task_id reason reason_zh kind now_us s =
    append_log task_id now_us (some (task_event kind reason))
      (pause_task task_id reason reason_zh now_us s).0

-- `_pause_reason_for_signal`, and the collateral cap of `_pause_from_signal`
unfoldable pub pause_reason_for_signal : Signal → PauseReason
pause_reason_for_signal signal_collateral_cap = collateral_cap_full
pause_reason_for_signal signal_insufficient_margin = insufficient_margin
pause_reason_for_signal signal_insufficient_available_qty = insufficient_available_qty
pause_reason_for_signal _ = insufficient_balance

unfoldable pub pause_from_signal : ℕ → Signal → String → ℕ → Store → Store
unfolding pause_task_local pause_reason_for_signal
pause_from_signal task_id signal reason_zh now_us s =
    pause_task_local task_id (pause_reason_for_signal signal) reason_zh "task_paused" now_us s
