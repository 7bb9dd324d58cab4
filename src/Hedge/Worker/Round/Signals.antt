-- ===== src/Hedge/Worker/Round/Signals.antt =====
-- The invariant of the database over what a signal, or the end of a close, makes of a round.
use binance_funding_hedging.Prelude.{
  ℕ, ◌≡◌, Option, some, String, refl, Bool-cases, Option-cases, inl, inr, ◌⊎◌,
}
use binance_funding_hedging.Hedge.Vocabulary.{PauseReason, order_state_unknown, done}
use binance_funding_hedging.Hedge.Store.Rows.{Task, Store, task_event, close_partial_done}
use binance_funding_hedging.Hedge.Store.Tasks.{set_task_status, is_live, set_worker_exit_reason}
use binance_funding_hedging.Hedge.Store.Settle.{append_log}
use binance_funding_hedging.Hedge.Store.Cycles.{close_cycle, get_active_cycle}
use binance_funding_hedging.Hedge.Store.Invariant.{Inv, write_task-Inv, set_task_status-Inv}
use binance_funding_hedging.Hedge.Store.Invariant.Settle.{append_log-Inv}
use binance_funding_hedging.Hedge.Worker.Verdicts.{
  Signal, signal_rate_limited, signal_order_state_unknown, signal_insufficient_balance,
  signal_insufficient_margin, signal_insufficient_available_qty, signal_collateral_cap,
}
use binance_funding_hedging.Hedge.Worker.Dispatch.{pause_from_signal, pause_task_local}
use binance_funding_hedging.Hedge.Worker.Close.{
  is_flat, still_open, verify_failed, finalize_close_task, verify_close_flat, Flatness,
}
use binance_funding_hedging.Hedge.Worker.Checks.{Words}
use binance_funding_hedging.Hedge.Worker.Checks.Kept.{pause_task_local-IsKept}
use binance_funding_hedging.Hedge.Worker.Pair.Sound.{Inv-IsKept}
use binance_funding_hedging.Hedge.Worker.Round.{Inputs, RoundEnd, signalled_round, close_round}

abbrev pub Keeps : (Store → Store) → Type 0
Keeps f = (s : Store) → Inv s → Inv (f s)

pub pause_task_local-Inv :
    (k : ℕ) (r : PauseReason) (zh kind : String) (now : ℕ)
    → Keeps (pause_task_local k r zh kind now)
pause_task_local-Inv = pause_task_local-IsKept Inv Inv-IsKept

pub set_worker_exit_reason-Inv :
    (k : ℕ) (reason : Option String) (now : ℕ) → Keeps (set_worker_exit_reason k reason now)
unfolding set_worker_exit_reason
set_worker_exit_reason-Inv k reason now s h =
    write_task-Inv k _ _ s (record { kept = λ t. (refl, refl, refl, refl, refl, refl, refl) }) h

pause_from_signal-Inv :
    (k : ℕ) (signal : Signal) (zh : String) (now : ℕ) → Keeps (pause_from_signal k signal zh now)
unfolding pause_from_signal
pause_from_signal-Inv k signal zh now s h = pause_task_local-Inv k _ zh _ now s h

pub signalled_round-Inv :
    (w : Words) (t : Task) (signal : Signal) (outcome : RoundEnd) (now : ℕ) (s : Store)
    → Inv s
    → Inv (signalled_round w t signal outcome now s).0
signalled_round-Inv w t signal_rate_limited outcome now s h =
    pause_task_local-Inv t.id _ _ _ now s h
signalled_round-Inv w t signal_order_state_unknown outcome now s h =
    elim (Bool-cases (is_live t.status)) [
      | inl e ↦ rw e (pause_task_local-Inv t.id _ _ _ now s h)
      | inr e ↦ rw e (
          append_log-Inv t.id now
            (some (task_event "order_state_unknown_final" order_state_unknown)) s h)
    ]
signalled_round-Inv w t signal_insufficient_balance outcome now s h =
    pause_from_signal-Inv t.id _ _ now s h
signalled_round-Inv w t signal_insufficient_margin outcome now s h =
    pause_from_signal-Inv t.id _ _ now s h
signalled_round-Inv w t signal_insufficient_available_qty outcome now s h =
    pause_from_signal-Inv t.id _ _ now s h
signalled_round-Inv w t signal_collateral_cap outcome now s h =
    pause_from_signal-Inv t.id _ _ now s h

set_done-Inv : (k now : ℕ) (s : Store) → Inv s → Inv (set_task_status k done now s).0
set_done-Inv k now s h = (set_task_status-Inv s k now h).0 done

finalize_close_task-Inv : (t : Task) (now : ℕ) → Keeps (finalize_close_task t now)
unfolding finalize_close_task close_cycle
finalize_close_task-Inv t now s h =
    let ended = set_done-Inv t.id now s h in
    elim (Option-cases (get_active_cycle t.coin t.direction s)) [
      | inl e ↦ rw (finalize_close_task, e) ended
      | inr (c, e) ↦ rw (finalize_close_task, e) record { sound = ended.sound; keyed = ended.keyed }
    ]

pub Flatness-cases : (f : Flatness) → (f ≡ is_flat) ⊎ ((f ≡ still_open) ⊎ (f ≡ verify_failed))
Flatness-cases is_flat = inl refl
Flatness-cases still_open = inr (inl refl)
Flatness-cases verify_failed = inr (inr refl)

pub close_round-Inv :
    (w : Words) (i : Inputs) (t : Task) (now : ℕ) (s : Store)
    → Inv s
    → Inv (close_round w i t now s).0
unfolding close_round
close_round-Inv w i t now s h = elim (Flatness-cases (verify_close_flat i.position)) [
  | inl e ↦ rw (close_round, e) (finalize_close_task-Inv t now s h)
  | inr (inl e) ↦
      rw (close_round, e)
        (set_done-Inv t.id now (append_log t.id now (some close_partial_done) s)
          (append_log-Inv t.id now (some close_partial_done) s h))
  | inr (inr e) ↦ rw (close_round, e) (pause_task_local-Inv t.id _ _ _ now s h)
]
