-- ===== src/Hedge/Worker/Round.antt =====
-- The rounds of a task's worker: _worker_round, and the loop of _run_task_worker, of
-- backend/hedge_open_tasks/service.py, for a live service. The pacing between the rounds is left out.
pub mod Gated
pub mod Signals
pub mod Sound
use binance_funding_hedging.Prelude.{
  any, ℕ, Bool, true, false, not, Option, none, some, List, [], ◌∷◌, String, if◌then◌else◌, ltb,
  leb, ◌==◌, ◌&&◌, ◌||◌,
}
use binance_funding_hedging.Hedge.Vocabulary.{
  Status, running, paused, done, PauseReason, order_state_unknown, rate_limited,
  close_verify_failed, preflight_incomplete, leverage_set_failed, is_running, is_smooth, is_close,
}
use binance_funding_hedging.Hedge.Attempt.{truthy}
use binance_funding_hedging.Hedge.Store.Rows.{
  Attempt, Task, Leg, Store, task_event, close_partial_done,
}
use binance_funding_hedging.Hedge.Store.Tasks.{
  get_task, set_task_status, clear_smooth_gate, set_worker_exit_reason, is_live,
}
use binance_funding_hedging.Hedge.Store.Settle.{append_log}
use binance_funding_hedging.Hedge.Worker.Verdicts.{
  Signal, signal_rate_limited, signal_order_state_unknown, LegDispatch,
}
use binance_funding_hedging.Hedge.Worker.Drain.{
  Drain, reconcile_own_legs, list_non_terminal_legs_for_task,
}
use binance_funding_hedging.Hedge.Worker.Dispatch.{
  pause_task_local, pause_reason_for_signal, pause_from_signal,
}
use binance_funding_hedging.Hedge.Worker.Close.{
  Position, Flatness, is_flat, still_open, verify_failed, verify_close_flat, finalize_close_task,
  GuardSignal, signal_preflight_incomplete, signal_preflight_fatal,
}
use binance_funding_hedging.Hedge.Worker.Wait.{
  Look, Pass, Waited, waiting, left, passes, wait_for_smooth_gate,
}
use binance_funding_hedging.Hedge.Worker.Checks.{
  Words, Reads, Release, PairSignal, of_leg, of_guard, PairResult, raised, returned,
}
use binance_funding_hedging.Hedge.Worker.Pair.{dispatch_one_for_task}

-- What one round is given beside what its pair is.
pub record Inputs : Type 0 where
  pub now_us : ℕ
  pub stop_event : Bool
  -- the stop event as it is read again behind a wait that gave nothing
  pub stopped_in_wait : Bool
  pub query : Leg → Option LegDispatch
  pub position : Option Position
  pub subscribed : Bool
  pub looks : List Look
  pub pair : Reads

-- The round tells its loop to exit or to go on; it may also raise, or still be in its wait.
pub data RoundEnd : Type 0 where
  exits goes_on raises waits : RoundEnd

-- `_worker_exit`
abbrev pub worker_exit : ℕ → String → ℕ → Store → Store × RoundEnd
worker_exit task_id reason now_us s = (set_worker_exit_reason task_id (some reason) now_us s, exits)

abbrev pub pause_round :
    Words → Task → PauseReason → String → ℕ → RoundEnd → Store → Store × RoundEnd
pause_round w t reason kind now_us outcome s =
    (pause_task_local t.id reason (w.reason_zh reason) kind now_us s, outcome)

-- `_signal_order_state_unknown_recovery`
abbrev pub order_state_unknown_recovery : Words → Task → ℕ → Store → Store
order_state_unknown_recovery w t now_us s =
    if is_live t.status
    then pause_task_local t.id order_state_unknown (w.reason_zh order_state_unknown) "task_paused"
        now_us s
    else append_log t.id now_us (some (task_event "order_state_unknown_final" order_state_unknown))
        s

-- What a signal of the drain or of a leg makes of the round.
abbrev pub signalled_round : Words → Task → Signal → RoundEnd → ℕ → Store → Store × RoundEnd
signalled_round w t signal_rate_limited outcome now_us s =
    pause_round w t rate_limited "rate_limited" now_us outcome s
signalled_round w t signal_order_state_unknown outcome now_us s =
    (order_state_unknown_recovery w t now_us s, exits)
signalled_round w t signal outcome now_us s =
    (pause_from_signal t.id signal (w.reason_zh (pause_reason_for_signal signal)) now_us s, goes_on)

-- A close whose attempts are used up: the contract position decides.
unfoldable pub close_round : Words → Inputs → Task → ℕ → Store → Store × RoundEnd
unfolding verify_close_flat finalize_close_task pause_task_local set_task_status
close_round w i t now_us s = elim (verify_close_flat i.position) [
  | is_flat ↦ (finalize_close_task t now_us s, exits)
  | verify_failed ↦ pause_round w t close_verify_failed "close_verify_failed" now_us exits s
  | still_open ↦ (
    (set_task_status t.id done now_us (append_log t.id now_us (some close_partial_done) s)).0,
    exits,
  )
]

-- The signal of a leg that was just sent; no pair gives an unknown order.
abbrev pub sent_round : Words → Task → Signal → ℕ → Store → Store × RoundEnd
sent_round w t signal_order_state_unknown now_us s = (s, goes_on)
sent_round w t signal now_us s = signalled_round w t signal goes_on now_us s

-- What the pair's signal makes of the round.
abbrev pub after_pair : Words → Task → ℕ → Store × PairResult → Store × RoundEnd
after_pair w t now_us (s, raised) = (s, raises)
after_pair w t now_us (s, returned none) = (s, goes_on)
after_pair w t now_us (s, returned (some (of_leg signal))) = sent_round w t signal now_us s
after_pair w t now_us (s, returned (some (of_guard signal_preflight_incomplete))) =
    pause_round w t preflight_incomplete "preflight_incomplete" now_us goes_on s
after_pair w t now_us (s, returned (some (of_guard signal_preflight_fatal))) =
    worker_exit t.id "preflight_fatal" now_us s
after_pair w t now_us (s, returned (some (of_guard _))) = (s, goes_on)

abbrev pub no_release : Release
no_release = record { gate_seq = none; reason = none; spot_ask = none }

abbrev pub release_of : Pass → Release
release_of p = record { gate_seq = some p.gate_seq; reason = some p.reason; spot_ask = p.spot_ask }

abbrev pub pair_round : Words → Inputs → Release → Task → ℕ → Store → Store × RoundEnd
pair_round w i release t now_us s =
    after_pair w t now_us (dispatch_one_for_task w i.pair release t now_us s)

-- A wait that gave nothing: a task that runs again is taken up anew.
abbrev pub left_round : Inputs → ℕ → ℕ → Store → Store × RoundEnd
left_round i task_id now_us s =
    if i.stopped_in_wait
    then worker_exit task_id "stopped_event" now_us s
    else elim (get_task s task_id) [
      | none ↦ worker_exit task_id "task_not_running" now_us s
      | some t ↦
          if is_running t.status && s.settings.start_gate
          then (s, goes_on)
          else worker_exit task_id "task_not_running" now_us s
    ]

abbrev pub after_wait : Words → Inputs → Task → ℕ → Store × Waited → Store × RoundEnd
after_wait w i t now_us (s, waiting) = (s, waits)
after_wait w i t now_us (s, left) = left_round i t.id now_us s
after_wait w i t now_us (s, passes p) = pair_round w i (release_of p) p.task p.passed_at_us s

-- The next pair of a smooth task: a quantity, the leverage of a first open, and the gate.
unfoldable pub smooth_round : Words → Inputs → Task → ℕ → Store → Store × RoundEnd
unfolding wait_for_smooth_gate dispatch_one_for_task pause_task_local
smooth_round w i t now_us s =
    if not (truthy t.q_common)
    then pause_round w t preflight_incomplete "preflight_incomplete" now_us goes_on s
    else if not (is_close t.task_type) && t.scheduled_attempt_count == 0 && not i.pair.leverage_set
    then pause_round w t leverage_set_failed "leverage_set_failed" now_us goes_on s
    else after_wait w i t now_us (wait_for_smooth_gate w.reason_zh i.subscribed i.looks t now_us s)

-- A smooth task loses its gate when a gate of the settings is off.
abbrev pub gate_off_round : Task → String → ℕ → Store → Store × RoundEnd
gate_off_round t reason now_us s =
    worker_exit t.id reason now_us (if is_smooth t.mode then clear_smooth_gate t.id now_us s else s)

-- The round behind its drain, with no leg in flight; the row is the one that was read before the drain.
unfoldable pub next_round : Words → Inputs → Task → ℕ → Store → Store × RoundEnd
unfolding close_round smooth_round dispatch_one_for_task clear_smooth_gate
next_round w i t now_us s =
    if not (is_running t.status)
    then worker_exit t.id "task_not_running" now_us s
    else if not s.settings.start_gate
    then gate_off_round t "start_gate_off" now_us s
    else if is_close t.task_type && not s.settings.close_gate
    then gate_off_round t "close_gate_off" now_us s
    else if leb t.target_n t.scheduled_attempt_count
    then if is_close t.task_type
      then close_round w i t now_us s
      else worker_exit t.id "target_reached" now_us s
    else if is_smooth t.mode
    then smooth_round w i t now_us s
    else pair_round w i no_release t now_us s

abbrev pub has_legs : ℕ → Store → Bool
has_legs task_id s = elim (list_non_terminal_legs_for_task task_id s) [ [] ↦ false | _ ↦ true ]

abbrev pub drained_round : Words → Inputs → Task → Drain → Store × RoundEnd
drained_round w i t d = elim d.signal [
  | some signal ↦ signalled_round w t signal exits i.now_us d.store
  | none ↦ if has_legs t.id d.store then (d.store, goes_on) else next_round w i t i.now_us d.store
]

abbrev pub in_store : Drain → Store × RoundEnd → Drain × RoundEnd
in_store d (s, outcome) = (record d { store = s }, outcome)

-- The worker's memory is the retries and the pending stamps beside the database.
unfoldable pub worker_round : Words → Inputs → ℕ → Drain → Drain × RoundEnd
unfolding reconcile_own_legs next_round list_non_terminal_legs_for_task set_worker_exit_reason
    pause_from_signal
worker_round w i task_id d =
    if i.stop_event
    then in_store d (worker_exit task_id "stopped_event" i.now_us d.store)
    else elim (get_task d.store task_id) [
      | none ↦ in_store d (worker_exit task_id "task_missing" i.now_us d.store)
      | some t ↦
          let drained = reconcile_own_legs i.query task_id i.now_us d in
          in_store drained (drained_round w i t drained)
    ]

-- What other requests write between two rounds, and the next round's inputs.
pub record Turn : Type 0 where
  pub others : Store → Store
  pub inputs : Inputs

abbrev pub is_leg_of : Store → ℕ → ℕ → Bool
is_leg_of s task_id leg_id =
    any
      (λ (l : Leg).
        l.id == leg_id
        && any (λ (a : Attempt). a.task_id == task_id && a.id == l.attempt_id) s.attempts)
      s.legs

-- `_clear_task_leg_retries`, when the worker exits.
abbrev pub clear_task_leg_retries : ℕ → Drain → Drain
clear_task_leg_retries task_id d = record d {
  retries = λ k. if is_leg_of d.store task_id k then 0 else d.retries k;
}

-- What is left of the loop once a round is over. A round that raises ends it with a reason.
abbrev pub after_turn : ℕ → ℕ → RoundEnd → Drain → Drain → Drain
after_turn task_id now_us exits after rest = clear_task_leg_retries task_id after
after_turn task_id now_us goes_on after rest = rest
after_turn task_id now_us raises after rest = clear_task_leg_retries task_id (record after {
  store = set_worker_exit_reason task_id (some "worker_error") now_us after.store;
})
after_turn task_id now_us waits after rest = after

-- The loop of the worker over the turns that it is given.
unfoldable pub run_task_worker : Words → ℕ → List Turn → Drain → Drain
unfolding worker_round
run_task_worker w task_id [] d = d
run_task_worker w task_id (turn ∷ turns) d =
    let (after, outcome) =
      worker_round w turn.inputs task_id (record d { store = turn.others d.store }) in
    let rest = run_task_worker w task_id turns after in
    after_turn task_id turn.inputs.now_us outcome after rest
