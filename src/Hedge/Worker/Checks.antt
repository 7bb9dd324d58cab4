-- ===== src/Hedge/Worker/Checks.antt =====
-- The checks before a live service sends one pair, in _dispatch_one_for_task of
-- backend/hedge_open_tasks/service.py. The warning about a changed spot identity is left out.
pub mod Kept
use binance_funding_hedging.Prelude.{
  ℕ, Bool, true, false, not, Option, none, some, String, if◌then◌else◌, ◌==◌, ◌&&◌, ◌||◌,
}
use binance_funding_hedging.Prelude.Texts.{codes}
use binance_funding_hedging.Decimal.{Decimal, of_int}
use binance_funding_hedging.Decimal.Plain.{plain_decimal}
use binance_funding_hedging.Decimal.Format.{fmt_decimal, string_of}
use binance_funding_hedging.Hedge.Errors.{Result, ok, err}
use binance_funding_hedging.Hedge.Vocabulary.{
  PositionMode, both_mode, hedge_mode, SpotRoute, papi_margin, regular_spot, PassReason,
  PauseReason, multiplier_close_unsupported, spot_route_changed, leverage_set_failed, failed,
  is_smooth, is_close,
}
use binance_funding_hedging.Hedge.Attempt.{truthy}
use binance_funding_hedging.Hedge.Direction.{spot_route_endpoint}
use binance_funding_hedging.Hedge.Preflight.Snapshot.{PreflightSnapshot, SnapshotRecord, available}
use binance_funding_hedging.Hedge.Preflight.Fresh.{
  Fresh, fresh_incomplete, fresh_fatal, fresh_ok, resolve_fresh_preflight,
}
use binance_funding_hedging.Hedge.Store.Rows.{Task, Store}
use binance_funding_hedging.Hedge.Store.Prepare.{Plan, prepare_attempt}
use binance_funding_hedging.Hedge.Store.Resolve.{
  figure, absent, LegOutcome, AttemptOutcome, resolve_attempt,
}
use binance_funding_hedging.Hedge.Worker.Verdicts.{Signal}
use binance_funding_hedging.Hedge.Worker.Dispatch.{
  LiveAttemptDispatch, dispatch_live, pause_task_local,
}
use binance_funding_hedging.Hedge.Worker.Close.{
  Funds, GuardSignal, signal_preflight_incomplete, signal_preflight_fatal,
  signal_leverage_set_failed, signal_spot_route_changed, signal_close_guard_failed, Prepared,
  signalled, used_up, prepared_with, record_preflight_incomplete, stop_task_fatal_preflight,
  run_close_preparation, close_reverse_usdt_error,
}
use text.Mathlib.Text.{◌==◌ as str_eq}

-- The fields that are read of a stored snapshot record.
pub record Stored : Type 0 where
  pub route : Option SpotRoute
  pub est_price : Option Decimal

-- How json reads and writes a snapshot record, and the texts for the operator.
pub record Words : Type 0 where
  pub loads : String → Stored
  pub dumps : SnapshotRecord → String
  pub reason_zh : PauseReason → String

-- What one pair is given: the answers of the exchange, the ids that are drawn, the requests, and what
-- other requests write while the checks are made.
pub record Reads : Type 0 where
  pub snapshot : Option PreflightSnapshot
  pub funds : Funds
  pub is_multiplier : Bool
  pub leverage_set : Bool
  pub during : Store → Store
  pub fresh_cycle_id : ℕ
  pub attempt_uuid : String
  pub spot_client_order_id : String
  pub perp_client_order_id : String
  pub spot_request_shape : String
  pub perp_request_shape : String
  pub dispatched : LiveAttemptDispatch

-- The pass of a smooth gate that the pair uses up.
pub record Release : Type 0 where
  pub gate_seq : Option ℕ
  pub reason : Option PassReason
  pub spot_ask : Option Decimal

pub data PairSignal : Type 0 where
  of_leg : Signal → PairSignal
  of_guard : GuardSignal → PairSignal

-- What a call gives: it raises, or returns a signal or none.
pub data PairResult : Type 0 where
  raised : PairResult
  returned : Option PairSignal → PairResult

pub record Quantities : Type 0 where
  pub q_common : Option Decimal
  pub position_side_mode : Option String
  pub record_text : String
  pub stored : Stored

-- A check returns from the call, or hands on what the next one needs.
pub data Checked {ℓ} (A : Type ℓ) : Type ℓ where
  returns : PairResult → Checked A
  admits : A → Checked A

infixl 5 ◌>>=◌
abbrev pub ◌>>=◌ {ℓ} :
    {A : Type ℓ} → Store × Checked A → (Store → A → Store × PairResult) → Store × PairResult
(s, returns r) >>= next = (s, r)
(s, admits a) >>= next = next s a

abbrev pub refuses {ℓ} : {A : Type ℓ} → GuardSignal → Checked A
refuses signal = returns (returned (some (of_guard signal)))

abbrev pub mode_text : PositionMode → String
mode_text both_mode = "BOTH"
mode_text hedge_mode = "hedge"

abbrev pub mode_of : Option PositionMode → Option String
mode_of none = none
mode_of (some m) = some (mode_text m)

abbrev pub stored_of : SnapshotRecord → Stored
stored_of (available f) = record { route = some f.spot_route; est_price = f.est_price }
stored_of _ = record { route = none; est_price = none }

abbrev pub is_regular : Option SpotRoute → Bool
is_regular (some regular_spot) = true
is_regular _ = false

abbrev pub is_multiplier_match : Option String → Bool
is_multiplier_match none = false
is_multiplier_match (some kind) = str_eq kind "multiplier_strip_alias"

abbrev pub loaded : Words → Option String → Stored
loaded w none = record { route = none; est_price = none }
loaded w (some text) = w.loads text

abbrev pub fresh_quantities :
    Words → Option Decimal → Option PositionMode → SnapshotRecord → Quantities
fresh_quantities w q mode rec = record {
  q_common = q;
  position_side_mode = mode_of mode;
  record_text = w.dumps rec;
  stored = stored_of rec;
}

abbrev pub stored_quantities : Words → Task → Option Decimal → Quantities
stored_quantities w t q = record {
  q_common = q;
  position_side_mode = t.position_side_mode;
  record_text = elim t.preflight_snapshot [ none ↦ "{}" | some text ↦ text ];
  stored = loaded w t.preflight_snapshot;
}

-- The quantities that the row keeps; Decimal raises at a text that is none.
abbrev pub read_stored : Words → Task → Checked Quantities
read_stored w t = elim t.q_common [
  | none ↦ admits (stored_quantities w t none)
  | some text ↦
      if str_eq text ""
      then admits (stored_quantities w t none)
      else elim (plain_decimal (codes text)) [
        | none ↦ returns raised
        | some q ↦ admits (stored_quantities w t (some q))
      ]
]

abbrev pub open_quantities : Words → Fresh → Task → ℕ → Store → Store × Checked Quantities
open_quantities w fresh_incomplete t now_us s =
    (record_preflight_incomplete t.id now_us s, refuses signal_preflight_incomplete)
open_quantities w (fresh_fatal reason) t now_us s =
    (stop_task_fatal_preflight t.id reason now_us s, refuses signal_preflight_fatal)
open_quantities w (fresh_ok q mode rec) t now_us s = (s, admits (fresh_quantities w q mode rec))

abbrev pub of_prepared : Words → Prepared → Checked Quantities
of_prepared w (signalled signal) = refuses signal
of_prepared w used_up = returns (returned none)
of_prepared w (prepared_with q mode rec) = admits (fresh_quantities w (some q) mode rec)

-- `_resolve_fresh_preflight` for the row, or none where it raises.
abbrev pub task_fresh : Reads → Task → Option Fresh
task_fresh r t = elim r.snapshot [
  | none ↦ some fresh_incomplete
  | some snapshot ↦ elim (plain_decimal (codes t.single_amount)) [
    | none ↦ none
    | some amount ↦
        elim (resolve_fresh_preflight (some snapshot) (codes t.coin) t.direction t.task_type amount
          t.target_n) [ err e ↦ none | ok fresh ↦ some fresh ]
  ]
]

-- What a fresh preflight lets a task that is not smooth send.
unfoldable pub fresh_pair : Words → Reads → Task → ℕ → Store → Store × Checked Quantities
unfolding resolve_fresh_preflight run_close_preparation plain_decimal
fresh_pair w r t now_us s = elim (task_fresh r t) [
  | none ↦ (s, returns raised)
  | some fresh ↦
      let closing = run_close_preparation w.reason_zh r.funds fresh t now_us s in
      if is_close t.task_type
      then (closing.0, of_prepared w closing.1)
      else open_quantities w fresh t now_us s
]

abbrev pub quantities_of : Words → Reads → Bool → Task → ℕ → Store → Store × Checked Quantities
quantities_of w r live t now_us s =
    if live && not (is_smooth t.mode) then fresh_pair w r t now_us s else (s, read_stored w t)

abbrev pub route_changed : Words → Task → Quantities → Bool
route_changed w t n =
    not (is_close t.task_type)
    && is_regular n.stored.route
    && not (is_regular (loaded w t.preflight_snapshot).route)

abbrev pub leverage_missing : Reads → Task → Bool
leverage_missing r t =
    not (is_close t.task_type)
    && not (is_smooth t.mode)
    && t.scheduled_attempt_count == 0
    && not r.leverage_set

-- `resolve_send_qty`
abbrev pub send_qty : Task → Quantities → Option Decimal
send_qty t n = elim n.q_common [ none ↦ plain_decimal (codes t.single_amount) | some q ↦ some q ]

abbrev pub buy_price : Release → Quantities → Option Decimal
buy_price release n = elim release.spot_ask [ none ↦ n.stored.est_price | some ask ↦ some ask ]

abbrev pub pause_with : Words → Task → PauseReason → String → ℕ → Store → Store
pause_with w t reason kind now_us s =
    pause_task_local t.id reason (w.reason_zh reason) kind now_us s

-- The money for a reverse close, of a live service.
abbrev pub check_money :
    Words → Reads → Release → Bool → Task → Quantities → ℕ → Store → Store × Checked Quantities
check_money w r release live t n now_us s = elim (send_qty t n) [
  | none ↦ (s, returns raised)
  | some qty ↦
      if live
      then elim (close_reverse_usdt_error r.funds t qty (buy_price release n)) [
        | none ↦ (s, admits n)
        | some reason ↦
            (pause_with w t reason "task_paused" now_us s, refuses signal_close_guard_failed)
      ]
      else (s, admits n)
]

-- The checks of a pair behind its quantities: the route, the leverage and the money for a reverse close.
-- The first that fails pauses the task.
unfoldable pub check_pair :
    Words → Reads → Release → Bool → Task → Quantities → ℕ → Store → Store × Checked Quantities
unfolding close_reverse_usdt_error pause_task_local plain_decimal
check_pair w r release live t n now_us s =
    if live && route_changed w t n
    then (
      pause_with w t spot_route_changed "spot_route_changed" now_us s,
      refuses signal_spot_route_changed,
    )
    else if live && leverage_missing r t
    then (
      pause_with w t leverage_set_failed "leverage_set_failed" now_us s,
      refuses signal_leverage_set_failed,
    )
    else check_money w r release live t n now_us s
