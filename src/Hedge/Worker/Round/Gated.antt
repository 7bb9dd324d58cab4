-- ===== src/Hedge/Worker/Round/Gated.antt =====
-- When the round behind its drain touches the pairs at all.
use binance_funding_hedging.Prelude.{
  ℕ, ◌≡◌, ◌≢◌, ◌<◌, true, not, String, refl, arith, Bool-cases, Option-cases, inl, inr, ◌&&◌, leb,
  ◌⊎◌,
}
use binance_funding_hedging.Hedge.Vocabulary.{running, close_task, is_running, is_smooth, is_close}
use binance_funding_hedging.Hedge.Store.Rows.{Task, Store}
use binance_funding_hedging.Hedge.Store.Tasks.{
  set_task_status, set_worker_exit_reason, clear_smooth_gate, pause_task,
}
use binance_funding_hedging.Hedge.Store.Cycles.{close_cycle, get_active_cycle}
use binance_funding_hedging.Hedge.Worker.Dispatch.{pause_task_local}
use binance_funding_hedging.Hedge.Worker.Close.{finalize_close_task, verify_close_flat}
use binance_funding_hedging.Hedge.Worker.Wait.Passed.{gate_on}
use binance_funding_hedging.Hedge.Worker.Checks.{Words}
use binance_funding_hedging.Hedge.Worker.Round.{
  Inputs, worker_exit, close_round, gate_off_round, next_round,
}
use binance_funding_hedging.Hedge.Worker.Round.Signals.{Flatness-cases}

-- The database with the same pairs.
abbrev IsSame : Store → Store → Type 0
IsSame s d = d.attempts ≡ s.attempts

worker_exit-IsSame :
    (k : ℕ) (reason : String) (now : ℕ) (s : Store) → IsSame s (worker_exit k reason now s).0
unfolding set_worker_exit_reason
worker_exit-IsSame k reason now s = refl

gate_off_round-IsSame :
    (t : Task) (reason : String) (now : ℕ) (s : Store) → IsSame s (gate_off_round t reason now s).0
unfolding set_worker_exit_reason clear_smooth_gate
gate_off_round-IsSame t reason now s = elim (Bool-cases (is_smooth t.mode)) [
  | inl e ↦ rw e refl
  | inr e ↦ rw e refl
]

finalize_close_task-IsSame :
    (t : Task) (now : ℕ) (s : Store) → IsSame s (finalize_close_task t now s)
unfolding finalize_close_task close_cycle set_task_status
finalize_close_task-IsSame t now s = elim (Option-cases (get_active_cycle t.coin t.direction s)) [
  | inl e ↦ rw (finalize_close_task, e) refl
  | inr (c, e) ↦ rw (finalize_close_task, e) refl
]

close_round-IsSame :
    (w : Words) (i : Inputs) (t : Task) (now : ℕ) (s : Store) → IsSame s (close_round w i t now s).0
unfolding close_round pause_task_local set_task_status pause_task
close_round-IsSame w i t now s = elim (Flatness-cases (verify_close_flat i.position)) [
  | inl e ↦ rw (close_round, e) (finalize_close_task-IsSame t now s)
  | inr (inl e) ↦ rw (close_round, e) refl
  | inr (inr e) ↦ rw (close_round, e) refl
]

-- The round behind its drain changes the pairs only for a row that runs and has pairs left to send, with
-- the start gate on, and for a close the close gate too.
pub next_round-gated :
    (w : Words) (i : Inputs) (t : Task) (now : ℕ) (s : Store)
    → (next_round w i t now s).0.attempts ≢ s.attempts
    → (t.status ≡ running)
      × (s.settings.start_gate ≡ true)
      × ((t.task_type ≢ close_task) ⊎ (s.settings.close_gate ≡ true))
      × (t.scheduled_attempt_count < t.target_n)
unfolding next_round
next_round-gated w i t now s h = elim (Bool-cases (is_running t.status)) [
  | inr e ↦ absurd (h (rw (next_round, e) (worker_exit-IsSame t.id "task_not_running" now s)))
  | inl e ↦ elim (Bool-cases s.settings.start_gate) [
    | inr f ↦ absurd (h (simp (next_round, e, f, gate_off_round-IsSame t "start_gate_off" now s)))
    | inl f ↦ elim (Bool-cases (is_close t.task_type && not s.settings.close_gate)) [
      | inl g ↦
          absurd (h (simp (next_round, e, f, g, gate_off_round-IsSame t "close_gate_off" now s)))
      | inr g ↦ elim (Bool-cases (leb t.target_n t.scheduled_attempt_count)) [
        | inl l ↦ elim (Bool-cases (is_close t.task_type)) [
          | inl c ↦
              let gate : s.settings.close_gate ≡ true = ground arith in
              absurd (h (simp (next_round, e, f, gate, l, c, close_round-IsSame w i t now s)))
          | inr c ↦
              absurd (
                h (
                  simp (next_round, e, f, g, l, c, worker_exit-IsSame t.id "target_reached" now s)))
        ]
        | inr l ↦
            let (start, close) = gate_on t s (rw (f, g) refl) in
            (ground arith, start, close, ground arith)
      ]
    ]
  ]
]
