-- ===== src/Hedge/Worker/Close.antt =====
-- The checks before a close sends a pair, of backend/hedge_open_tasks/service.py: the contract position,
-- the spot balance with its transfer, the money for a reverse close, and whether a close is flat. What
-- the exchange and the caches answer is given; an answer that is missing, unreadable or an exception is
-- none. The texts for the operator are left out.
use binance_funding_hedging.Prelude.{
  ℕ, ◌-◌, Bool, true, false, not, Option, none, some, String, if◌then◌else◌, ltb, ◌&&◌,
}
use binance_funding_hedging.Decimal.{Decimal, mul, sub, of_int, lt_decimal, le_decimal, is_positive}
use binance_funding_hedging.Hedge.Vocabulary.{
  Direction, forward, reverse, StopReason, is_forward, done, PositionMode, PauseReason,
  close_um_position, close_spot_balance, insufficient_balance, preflight_incomplete, is_close,
}
use binance_funding_hedging.Hedge.Preflight.Snapshot.{SnapshotRecord}
use binance_funding_hedging.Hedge.Preflight.Fresh.{Fresh, fresh_incomplete, fresh_fatal, fresh_ok}
use binance_funding_hedging.Hedge.Store.Rows.{Task, Store, task_event, task_stopped, close_transfer}
use binance_funding_hedging.Hedge.Store.Tasks.{stop_task_fatal, set_task_status}
use binance_funding_hedging.Hedge.Store.Cycles.{get_active_cycle, close_cycle}
use binance_funding_hedging.Hedge.Store.Settle.{append_log}
use binance_funding_hedging.Hedge.Worker.Dispatch.{pause_task_local}

-- A contract position that the exchange or the cache gives, by its sign; the sizes are positive.
pub data Position : Type 0 where
  flat : Position
  long short : Decimal → Position

-- What the caches and the exchange say to the checks of one round.
pub record Funds : Type 0 where
  pub um_cached : Option Position
  pub um_asked : Option Position
  pub spot_cached : Option Decimal
  pub spot_asked : Option Decimal
  pub unified_cached : Option Decimal
  pub unified_asked : Option Decimal
  pub transferred : Bool
  pub pm_total_available : Option Decimal

-- The signals of a pair that no leg gives.
pub data GuardSignal : Type 0 where
  signal_preflight_incomplete signal_preflight_fatal : GuardSignal
  signal_leverage_set_failed signal_spot_route_changed signal_close_guard_failed : GuardSignal

abbrev pub or_asked {ℓ} : {A : Type ℓ} → Option A → Option A → Option A
or_asked none asked = asked
or_asked (some cached) asked = some cached

abbrev pub cannot_close : Direction → Position → Decimal → Bool
cannot_close forward (short size) required = lt_decimal size required
cannot_close reverse (long size) required = lt_decimal size required
cannot_close _ _ required = true

-- `_close_um_position_error`: whether it gives an error.
unfoldable pub close_um_position_error : Funds → Direction → Decimal → Bool
close_um_position_error f direction required = elim (or_asked f.um_cached f.um_asked) [
  | none ↦ true
  | some position ↦ cannot_close direction position required
]

abbrev pub has_at_least : Decimal → Option Decimal → Bool
has_at_least amount none = false
has_at_least amount (some free) = le_decimal amount free

abbrev pub log_close_transfer : ℕ → String → Decimal → ℕ → Store → Store
log_close_transfer task_id action amount now_us s =
    append_log task_id now_us (some (close_transfer action amount)) s

-- The transfer of what is missing, once the unified account is known to have it.
abbrev pub transfer_missing : Funds → ℕ → Decimal → ℕ → Store → Store × Bool
transfer_missing f task_id missing now_us s =
    let started = log_close_transfer task_id "start" missing now_us s in
    if f.transferred
    then (log_close_transfer task_id "ok" missing now_us started, false)
    else (log_close_transfer task_id "failed" missing now_us started, true)

-- `_ensure_close_spot_balance` of a forward close: whether it gives an error.
unfoldable pub ensure_close_spot_balance : Funds → ℕ → Decimal → ℕ → Store → Store × Bool
unfolding sub
ensure_close_spot_balance f task_id required now_us s =
    if has_at_least required f.spot_cached then (s, false) else elim f.spot_asked [
      | none ↦ (s, true)
      | some free ↦
          if le_decimal required free
          then (s, false)
          else if has_at_least (sub required free) (or_asked f.unified_cached f.unified_asked)
          then transfer_missing f task_id (sub required free) now_us s
          else (s, true)
    ]

-- What a preparation gives: a signal, nothing to send, or a quantity, a mode and the record.
pub data Prepared : Type 0 where
  signalled : GuardSignal → Prepared
  used_up : Prepared
  prepared_with : Decimal → Option PositionMode → SnapshotRecord → Prepared

abbrev pub record_preflight_incomplete : ℕ → ℕ → Store → Store
record_preflight_incomplete task_id now_us s =
    append_log task_id now_us (some (task_event "preflight_incomplete" preflight_incomplete)) s

-- `_stop_task_fatal_preflight`
abbrev pub stop_task_fatal_preflight : ℕ → StopReason → ℕ → Store → Store
stop_task_fatal_preflight task_id reason now_us s =
    append_log task_id now_us (some (task_stopped (some reason)))
      (stop_task_fatal task_id reason now_us s).0

-- The texts for the operator, by the reason of the pause.
module _ (words : PauseReason → String) where
  abbrev pub pause_for : ℕ → PauseReason → ℕ → Store → Store
  pause_for task_id reason now_us s =
      pause_task_local task_id reason (words reason) "task_paused" now_us s

  -- The two checks on the funds, for the quantity over all attempts that remain.
  unfoldable pub check_close_funds :
      Funds → Task → Decimal → Option PositionMode → SnapshotRecord → ℕ → Store → Store × Prepared
  unfolding close_um_position_error ensure_close_spot_balance mul pause_task_local
  check_close_funds f t q mode rec now_us s =
      let required = mul q (of_int (t.target_n - t.scheduled_attempt_count)) in
      let ensured = ensure_close_spot_balance f t.id required now_us s in
      if close_um_position_error f t.direction required
      then (pause_for t.id close_um_position now_us s, signalled signal_close_guard_failed)
      else if is_forward t.direction
      then if ensured.1
        then (
          pause_for t.id close_spot_balance now_us ensured.0,
          signalled signal_close_guard_failed,
        )
        else (ensured.0, prepared_with q mode rec)
      else (s, prepared_with q mode rec)

  unfoldable pub run_close_preparation : Funds → Fresh → Task → ℕ → Store → Store × Prepared
  unfolding check_close_funds stop_task_fatal
  run_close_preparation f fresh_incomplete t now_us s =
      (record_preflight_incomplete t.id now_us s, signalled signal_preflight_incomplete)
  run_close_preparation f (fresh_fatal reason) t now_us s =
      (stop_task_fatal_preflight t.id reason now_us s, signalled signal_preflight_fatal)
  run_close_preparation f (fresh_ok none mode rec) t now_us s =
      (record_preflight_incomplete t.id now_us s, signalled signal_preflight_incomplete)
  run_close_preparation f (fresh_ok (some q) mode rec) t now_us s =
      if ltb t.scheduled_attempt_count t.target_n
      then check_close_funds f t q mode rec now_us s
      else (s, used_up)

-- `_close_reverse_usdt_error`: the reason of the error, if any. The price is the ask of the gate's
-- audit, or that of the record.
unfoldable pub close_reverse_usdt_error :
    Funds → Task → Decimal → Option Decimal → Option PauseReason
unfolding mul
close_reverse_usdt_error f t send_qty price =
    if is_close t.task_type && not (is_forward t.direction)
    then elim price [
      | none ↦ some preflight_incomplete
      | some p ↦
          if is_positive p
          then elim f.pm_total_available [
            | none ↦ some preflight_incomplete
            | some available ↦
                if lt_decimal available (mul send_qty p) then some insufficient_balance else none
          ]
          else some preflight_incomplete
    ]
    else none

-- `_verify_close_flat`, of a live executor.
pub data Flatness : Type 0 where
  is_flat still_open verify_failed : Flatness

unfoldable pub verify_close_flat : Option Position → Flatness
verify_close_flat none = verify_failed
verify_close_flat (some flat) = is_flat
verify_close_flat (some _) = still_open

-- `_finalize_close_task`, without the row of figures and the transfer of the proceeds.
unfoldable pub finalize_close_task : Task → ℕ → Store → Store
unfolding get_active_cycle set_task_status close_cycle
finalize_close_task t now_us s =
    let ended = (set_task_status t.id done now_us s).0 in
    elim (get_active_cycle t.coin t.direction s) [
      | none ↦ ended
      | some c ↦ close_cycle c.id now_us "auto_close" ended
    ]
