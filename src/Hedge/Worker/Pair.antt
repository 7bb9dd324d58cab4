-- ===== src/Hedge/Worker/Pair.antt =====
-- One pair of a live service, from its checks to its dispatch: _dispatch_one_for_task of
-- backend/hedge_open_tasks/service.py. The audit of the smooth gate and the texts of the two requests are
-- left out.
pub mod Gated
pub mod Sound
use binance_funding_hedging.Prelude.{
  ℕ, Bool, true, false, not, Option, none, some, String, if◌then◌else◌, ◌==◌, ◌&&◌, ◌||◌,
}
use binance_funding_hedging.Prelude.Texts.{codes}
use binance_funding_hedging.Decimal.{Decimal, of_int}
use binance_funding_hedging.Decimal.Plain.{plain_decimal}
use binance_funding_hedging.Decimal.Format.{fmt_decimal, string_of}
use binance_funding_hedging.Hedge.Errors.{Result, ok, err}
use binance_funding_hedging.Hedge.Vocabulary.{
  PositionMode, both_mode, hedge_mode, SpotRoute, papi_margin, regular_spot, PassReason,
  PauseReason, multiplier_close_unsupported, spot_route_changed, leverage_set_failed, failed,
  is_smooth, is_close,
}
use binance_funding_hedging.Hedge.Attempt.{truthy}
use binance_funding_hedging.Hedge.Direction.{spot_route_endpoint}
use binance_funding_hedging.Hedge.Preflight.Snapshot.{PreflightSnapshot, SnapshotRecord, available}
use binance_funding_hedging.Hedge.Preflight.Fresh.{
  Fresh, fresh_incomplete, fresh_fatal, fresh_ok, resolve_fresh_preflight,
}
use binance_funding_hedging.Hedge.Store.Rows.{Task, Store}
use binance_funding_hedging.Hedge.Store.Prepare.{Plan, prepare_attempt}
use binance_funding_hedging.Hedge.Store.Resolve.{
  figure, absent, LegOutcome, AttemptOutcome, resolve_attempt,
}
use binance_funding_hedging.Hedge.Worker.Verdicts.{Signal}
use binance_funding_hedging.Hedge.Worker.Dispatch.{
  LiveAttemptDispatch, dispatch_live, pause_task_local,
}
use binance_funding_hedging.Hedge.Worker.Close.{
  Funds, GuardSignal, signal_preflight_incomplete, signal_preflight_fatal,
  signal_leverage_set_failed, signal_spot_route_changed, signal_close_guard_failed, Prepared,
  signalled, used_up, prepared_with, record_preflight_incomplete, stop_task_fatal_preflight,
  run_close_preparation, close_reverse_usdt_error,
}
use text.Mathlib.Text.{◌==◌ as str_eq}
use binance_funding_hedging.Hedge.Worker.Checks.{
  Stored, Words, Reads, Release, PairSignal, PairResult, Quantities, Checked, ◌>>=◌, refuses,
  mode_text, mode_of, stored_of, is_regular, is_multiplier_match, loaded, fresh_quantities,
  stored_quantities, read_stored, open_quantities, of_prepared, task_fresh, fresh_pair,
  quantities_of, route_changed, leverage_missing, send_qty, buy_price, pause_with, check_money,
  check_pair, of_leg, of_guard, raised, returned, returns, admits,
}

abbrev pub plan_of : Reads → Release → Task → Quantities → Plan
plan_of r release t n = record {
  attempt_uuid = r.attempt_uuid;
  direction = t.direction;
  q_common = elim n.q_common [ none ↦ t.single_amount | some q ↦ string_of (fmt_decimal q) ];
  position_side_mode = elim n.position_side_mode [ none ↦ "" | some mode ↦ mode ];
  preflight_fingerprint = n.record_text;
  spot_client_order_id = r.spot_client_order_id;
  spot_request_shape = r.spot_request_shape;
  spot_endpoint =
      spot_route_endpoint (elim n.stored.route [ none ↦ papi_margin | some route ↦ route ]);
  perp_client_order_id = r.perp_client_order_id;
  perp_request_shape = r.perp_request_shape;
  expected_gate_seq = release.gate_seq;
  smooth_pass_reason = release.reason;
}

abbrev empty_leg : LegOutcome
empty_leg = record {
  status = some "UNKNOWN";
  order_id = none;
  filled_qty = figure (of_int 0);
  cumulative_quote = absent;
  fee_amount = none;
  fee_asset = none;
  avg_price = none;
  error_code = none;
  error_category = none;
}

-- `_failed_outcome`
abbrev pub failed_outcome : AttemptOutcome
failed_outcome = record {
  category = failed;
  spot_leg = empty_leg;
  perp_leg = empty_leg;
  exposure = none;
  record_payload = "failed";
  error_category = none;
  error_code = none;
}

-- `_dispatch_simulated`: the live executor has no `execute`, so that the call of it is an exception.
unfoldable pub dispatch_simulated : ℕ → Task → ℕ → Store → Store
unfolding resolve_attempt
dispatch_simulated attempt_id t now_us s =
    (resolve_attempt attempt_id failed_outcome true true (is_close t.task_type) now_us s).0

abbrev pub result_of : Store → Result (Store × Option Signal) → Store × PairResult
result_of s (err e) = (s, raised)
result_of s (ok (s', none)) = (s', returned none)
result_of s (ok (s', some signal)) = (s', returned (some (of_leg signal)))

-- The reservation, and the dispatch of what was reserved.
unfoldable pub send_pair :
    Reads → Release → Bool → Task → Quantities → ℕ → Store → Store × PairResult
unfolding prepare_attempt dispatch_live dispatch_simulated
send_pair r release live t n now_us s =
    let reserved =
      prepare_attempt t.id (plan_of r release t n) r.fresh_cycle_id now_us (r.during s) in
    elim reserved.1 [
      | none ↦ (reserved.0, returned none)
      | some attempt_id ↦
          if live
          then result_of reserved.0
              (dispatch_live t.id attempt_id t.task_type r.dispatched now_us reserved.0)
          else (dispatch_simulated attempt_id t now_us reserved.0, returned none)
    ]

-- A close of a contract of 1000 units is not sent.
abbrev pub is_unsupported : Reads → Task → Bool
is_unsupported r t = is_multiplier_match t.symbol_match_type || r.is_multiplier

abbrev pub pair_from : Words → Reads → Release → Bool → Task → ℕ → Store → Store × PairResult
pair_from w r release live t now_us s = quantities_of w r live t now_us s >>= λ s' n.
    check_pair w r release live t n now_us s' >>= λ s'' m. send_pair r release live t m now_us s''

-- The pair of a service that is live or not.
abbrev pub pair_if_live : Words → Reads → Release → Bool → Task → ℕ → Store → Store × PairResult
pair_if_live w r release live t now_us s =
    let paused_row = pause_with w t multiplier_close_unsupported "task_paused" now_us s in
    if live && is_close t.task_type && not s.settings.close_gate
    then (s, returned none)
    else if live && is_close t.task_type && is_unsupported r t
    then (paused_row, returned (some (of_guard signal_close_guard_failed)))
    else pair_from w r release live t now_us s

-- The live executor serves while the start gate is on.
unfoldable pub dispatch_one_for_task :
    Words → Reads → Release → Task → ℕ → Store → Store × PairResult
unfolding fresh_pair check_pair send_pair pause_task_local
dispatch_one_for_task w r release t now_us s =
    pair_if_live w r release s.settings.start_gate t now_us s
