-- ===== src/Hedge/Worker/Wait.antt =====
-- The wait of a smooth task for its market, its deadline or its release by hand: _wait_for_smooth_gate
-- of backend/hedge_open_tasks/service.py. Each turn of its loop is one look: what other requests have
-- written since the last one, the clock, the stop event and the order books.
pub mod Ended
pub mod Passed
pub mod Sound
use binance_funding_hedging.Prelude.{
  ℕ, ◌+◌, ◌*◌, Bool, true, false, not, Option, none, some, List, [], ◌∷◌, String, if◌then◌else◌,
  leb, ◌&&◌, ◌||◌,
}
use binance_funding_hedging.Prelude.Texts.{Text, codes}
use binance_funding_hedging.Decimal.{Decimal, of_int}
use binance_funding_hedging.Decimal.Plain.{plain_decimal}
use binance_funding_hedging.Hedge.Vocabulary.{
  PassReason, market, timeout, manual, PauseReason, preflight_incomplete, is_running, is_close,
}
use binance_funding_hedging.Hedge.Attempt.{truthy}
use binance_funding_hedging.Hedge.Direction.{evaluation_direction}
use binance_funding_hedging.Hedge.SmoothGate.{Signed, signed_decimal, L1Quote, evaluate_smooth_gate}
use binance_funding_hedging.Hedge.Store.Rows.{Task, Store}
use binance_funding_hedging.Hedge.Store.Tasks.{
  get_task, is_value, open_smooth_gate, clear_smooth_gate,
}
use binance_funding_hedging.Hedge.Worker.Dispatch.{pause_task_local}

-- SMOOTH_GATE_WINDOW_US
abbrev pub smooth_gate_window_us : ℕ
smooth_gate_window_us = 5 * 60 * 1000000

pub record Look : Type 0 where
  pub others : Store → Store
  pub stop_event : Bool
  pub now_us : ℕ
  pub spot : Option L1Quote
  pub perp : Option L1Quote

-- A pass, with the row, the reason, its time and the ask that the audit keeps.
pub record Pass : Type 0 where
  pub task : Task
  pub gate_seq : ℕ
  pub reason : PassReason
  pub passed_at_us : ℕ
  pub spot_ask : Option Decimal

-- The loop goes on, or it returns None, or a pass.
pub data Waited : Type 0 where
  waiting left : Waited
  passes : Pass → Waited

abbrev pub text_of : Option String → Text
text_of o = if truthy o then elim o [ none ↦ codes "0" | some s ↦ codes s ] else codes "0"

-- The threshold and the quantity of the row; both are 0 where one cannot be read.
abbrev pub gate_figures : Task → Signed × Decimal
gate_figures t = elim (signed_decimal (text_of t.slippage_threshold_pct)) [
  | none ↦ (record { negative = false; magnitude = of_int 0 }, of_int 0)
  | some threshold ↦ elim (plain_decimal (text_of t.q_common)) [
    | none ↦ (record { negative = false; magnitude = of_int 0 }, of_int 0)
    | some q ↦ (threshold, q)
  ]
]

-- `_eval_smooth_from_sides`, its market_pass
unfoldable pub market_passes : Task → Look → Bool
unfolding evaluate_smooth_gate evaluation_direction signed_decimal plain_decimal
market_passes t look =
    (evaluate_smooth_gate (evaluation_direction (some t.task_type) t.direction) (gate_figures t).0
      (gate_figures t).1 look.spot look.perp).market_pass

-- The reason to pass, in the order of the code.
abbrev pub pass_reason : Task → Look → ℕ → Option PassReason
pass_reason t look started_at_us =
    if t.smooth_gate_force_requested
    then some manual
    else if market_passes t look
    then some market
    else if leb (started_at_us + smooth_gate_window_us) look.now_us
    then some timeout
    else none

abbrev ask_of : Option L1Quote → Option Decimal
ask_of none = none
ask_of (some q) = some q.ask

-- The time is set whenever the number is.
abbrev pub judge : Task → ℕ → Look → Waited
judge t gate_seq look = elim t.smooth_gate_started_at_us [
  | none ↦ left
  | some started ↦ elim (pass_reason t look started) [
    | none ↦ waiting
    | some reason ↦ passes (record {
      task = t;
      gate_seq = gate_seq;
      reason = reason;
      passed_at_us = look.now_us;
      spot_ask = ask_of look.spot;
    })
  ]
]

-- A gate of the settings that is off for the task.
abbrev pub is_gate_off : Task → Store → Bool
is_gate_off t s = not s.settings.start_gate || is_close t.task_type && not s.settings.close_gate

-- One turn, in the database as the look finds it.
abbrev pub look_at : Task → ℕ → Look → Store → Store × Waited
look_at t gate_seq look s =
    if not (is_running t.status)
    then (s, left)
    else if is_gate_off t s
    then (clear_smooth_gate t.id look.now_us s, left)
    else if is_value gate_seq t.smooth_gate_seq
    then (s, judge t gate_seq look)
    else (s, left)

unfoldable pub look_once : ℕ → ℕ → Look → Store → Store × Waited
unfolding clear_smooth_gate market_passes
look_once task_id gate_seq look s =
    let found = look.others s in
    if look.stop_event then (found, left) else elim (get_task found task_id) [
      | none ↦ (found, left)
      | some t ↦ look_at t gate_seq look found
    ]

unfoldable pub wait_loop : ℕ → ℕ → List Look → Store → Store × Waited
unfolding look_once
wait_loop task_id gate_seq [] s = (s, waiting)
wait_loop task_id gate_seq (look ∷ looks) s =
    let turn = look_once task_id gate_seq look s in
    let rest = wait_loop task_id gate_seq looks turn.0 in
    elim turn.1 [ waiting ↦ rest | left ↦ turn | passes p ↦ turn ]

-- The flag is whether the public order books could be subscribed to.
unfoldable pub wait_for_smooth_gate :
    (PauseReason → String) → Bool → List Look → Task → ℕ → Store → Store × Waited
unfolding open_smooth_gate wait_loop pause_task_local
wait_for_smooth_gate words subscribed looks t now_us s =
    let gate_seq = t.scheduled_attempt_count + 1 in
    let opened = open_smooth_gate t.id gate_seq now_us s in
    let waited = wait_loop t.id gate_seq looks opened.0 in
    if not opened.1 then (opened.0, left) else if subscribed then waited else (
      pause_task_local t.id preflight_incomplete (words preflight_incomplete) "task_paused" now_us
          opened.0,
      left,
    )
