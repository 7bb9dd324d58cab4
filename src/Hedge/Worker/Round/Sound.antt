-- ===== src/Hedge/Worker/Round/Sound.antt =====
-- The invariant of the database over the rounds of a worker.
use binance_funding_hedging.Prelude.{
  ℕ, ◌≡◌, ◌<◌, Bool, true, false, not, none, some, List, [], ◌∷◌, String, refl, Bool-cases,
  Option-cases, inl, inr, ◌==◌, if◌then◌else◌, ◌&&◌, All, leb,
}
use binance_funding_hedging.Hedge.Vocabulary.{is_running, is_smooth, is_close}
use binance_funding_hedging.Hedge.Attempt.{truthy}
use binance_funding_hedging.Hedge.Store.Rows.{Task, Store}
use binance_funding_hedging.Hedge.Store.Tasks.{get_task, clear_smooth_gate}
use binance_funding_hedging.Hedge.Store.Invariant.{Inv}
use binance_funding_hedging.Hedge.Worker.Verdicts.{
  Signal, signal_rate_limited, signal_order_state_unknown, signal_insufficient_balance,
  signal_insufficient_margin, signal_insufficient_available_qty, signal_collateral_cap,
}
use binance_funding_hedging.Hedge.Worker.Drain.{Drain, reconcile_own_legs}
use binance_funding_hedging.Hedge.Worker.Sound.{reconcile_own_legs-Inv}
use binance_funding_hedging.Hedge.Worker.Close.{
  signal_preflight_incomplete, signal_preflight_fatal, signal_leverage_set_failed,
  signal_spot_route_changed, signal_close_guard_failed,
}
use binance_funding_hedging.Hedge.Worker.Wait.{Waited, waiting, left, passes, wait_for_smooth_gate}
use binance_funding_hedging.Hedge.Worker.Wait.Sound.{
  IsSafe, clear_smooth_gate-Inv, wait_for_smooth_gate-Inv,
}
use binance_funding_hedging.Hedge.Worker.Checks.{
  Words, Release, PairResult, raised, returned, of_leg, of_guard,
}
use binance_funding_hedging.Hedge.Worker.Pair.{dispatch_one_for_task}
use binance_funding_hedging.Hedge.Worker.Pair.Sound.{dispatch_one_for_task-Inv}
use binance_funding_hedging.Hedge.Worker.Round.{
  Inputs, RoundEnd, exits, goes_on, raises, waits, worker_exit, sent_round, after_pair, pair_round,
  left_round, after_wait, smooth_round, gate_off_round, next_round, has_legs, drained_round,
  worker_round, Turn, after_turn, run_task_worker, release_of, no_release,
}
use binance_funding_hedging.Hedge.Worker.Round.Signals.{
  Keeps, pause_task_local-Inv, set_worker_exit_reason-Inv, signalled_round-Inv, close_round-Inv,
}

-- What a round is given: a positive time, looks that are safe, and a pair meanwhile which the other
-- requests keep the invariant.
pub record AreSafe (i : Inputs) : Type 0 where
  pub timed : 0 < i.now_us
  pub looks : All IsSafe i.looks
  pub during : Keeps i.pair.during

pub record IsSafeTurn (turn : Turn) : Type 0 where
  pub others : Keeps turn.others
  pub inputs : AreSafe turn.inputs

branch-Inv : (b : Bool) (d e : Store × RoundEnd) → Inv d.0 → Inv e.0 → Inv (if b then d else e).0
branch-Inv true d e h k = h
branch-Inv false d e h k = k

worker_exit-Inv :
    (k : ℕ) (reason : String) (now : ℕ) (s : Store) → Inv s → Inv (worker_exit k reason now s).0
worker_exit-Inv k reason now s h = set_worker_exit_reason-Inv k (some reason) now s h

sent_round-Inv :
    (w : Words) (t : Task) (signal : Signal) (now : ℕ) (s : Store)
    → Inv s
    → Inv (sent_round w t signal now s).0
sent_round-Inv w t signal_order_state_unknown now s h = h
sent_round-Inv w t signal_rate_limited now s h =
    signalled_round-Inv w t signal_rate_limited goes_on now s h
sent_round-Inv w t signal_insufficient_balance now s h =
    signalled_round-Inv w t signal_insufficient_balance goes_on now s h
sent_round-Inv w t signal_insufficient_margin now s h =
    signalled_round-Inv w t signal_insufficient_margin goes_on now s h
sent_round-Inv w t signal_insufficient_available_qty now s h =
    signalled_round-Inv w t signal_insufficient_available_qty goes_on now s h
sent_round-Inv w t signal_collateral_cap now s h =
    signalled_round-Inv w t signal_collateral_cap goes_on now s h

after_pair-Inv :
    (w : Words) (t : Task) (now : ℕ) (d : Store × PairResult)
    → Inv d.0
    → Inv (after_pair w t now d).0
after_pair-Inv w t now (s, raised) h = h
after_pair-Inv w t now (s, returned none) h = h
after_pair-Inv w t now (s, returned (some (of_leg signal))) h = sent_round-Inv w t signal now s h
after_pair-Inv w t now (s, returned (some (of_guard signal_preflight_incomplete))) h =
    pause_task_local-Inv t.id _ _ _ now s h
after_pair-Inv w t now (s, returned (some (of_guard signal_preflight_fatal))) h =
    worker_exit-Inv t.id "preflight_fatal" now s h
after_pair-Inv w t now (s, returned (some (of_guard signal_leverage_set_failed))) h = h
after_pair-Inv w t now (s, returned (some (of_guard signal_spot_route_changed))) h = h
after_pair-Inv w t now (s, returned (some (of_guard signal_close_guard_failed))) h = h

module _ (w : Words) (i : Inputs) (safe : AreSafe i) where
  pair_round-Inv :
      (release : Release) (t : Task) (now : ℕ) (s : Store)
      → 0 < now
      → Inv s
      → Inv (pair_round w i release t now s).0
  pair_round-Inv release t now s pos h =
      after_pair-Inv w t now (dispatch_one_for_task w i.pair release t now s)
        (dispatch_one_for_task-Inv w i.pair release t now s pos safe.during h)

  left_round-Inv : (k now : ℕ) (s : Store) → Inv s → Inv (left_round i k now s).0
  left_round-Inv k now s h = elim (Bool-cases i.stopped_in_wait) [
    | inl e ↦ rw e (worker_exit-Inv k "stopped_event" now s h)
    | inr e ↦ elim (Option-cases (get_task s k)) [
      | inl f ↦ rw (e, f) (worker_exit-Inv k "task_not_running" now s h)
      | inr (t, f) ↦ elim (Bool-cases (is_running t.status && s.settings.start_gate)) [
        | inl g ↦ rw (e, f, g) h
        | inr g ↦ rw (e, f, g) (worker_exit-Inv k "task_not_running" now s h)
      ]
    ]
  ]

  after_wait-Inv :
      (t : Task) (now : ℕ) (d : Store × Waited)
      → Inv d.0 × ((p : _) → d.1 ≡ passes p → 0 < p.passed_at_us)
      → Inv (after_wait w i t now d).0
  after_wait-Inv t now (s, waiting) h = h.0
  after_wait-Inv t now (s, left) h = left_round-Inv t.id now s h.0
  after_wait-Inv t now (s, passes p) h =
      pair_round-Inv (release_of p) p.task p.passed_at_us s (h.1 p refl) h.0

  smooth_round-Inv : (t : Task) (now : ℕ) → Keeps (λ s. (smooth_round w i t now s).0)
  unfolding smooth_round
  smooth_round-Inv t now s h = elim (Bool-cases (truthy t.q_common)) [
    | inr e ↦ rw (smooth_round, e) (pause_task_local-Inv t.id _ _ _ now s h)
    | inl e ↦
        elim (Bool-cases (
          not (is_close t.task_type)
          && t.scheduled_attempt_count == 0
          && not i.pair.leverage_set)) [
            | inl g ↦ rw (smooth_round, e, g) (pause_task_local-Inv t.id _ _ _ now s h)
            | inr g ↦
                rw (smooth_round, e, g)
                  (after_wait-Inv t now
                    (wait_for_smooth_gate w.reason_zh i.subscribed i.looks t now s)
                    (wait_for_smooth_gate-Inv w.reason_zh i.subscribed i.looks t now s safe.looks
                      h))
          ]
  ]

  gate_off_round-Inv :
      (t : Task) (reason : String) (now : ℕ) → Keeps (λ s. (gate_off_round t reason now s).0)
  gate_off_round-Inv t reason now s h = elim (Bool-cases (is_smooth t.mode)) [
    | inl e ↦ rw e (
        worker_exit-Inv t.id reason now (clear_smooth_gate t.id now s)
          (clear_smooth_gate-Inv t.id now s h))
    | inr e ↦ rw e (worker_exit-Inv t.id reason now s h)
  ]

  next_round-Inv : (t : Task) (now : ℕ) → 0 < now → Keeps (λ s. (next_round w i t now s).0)
  unfolding next_round
  next_round-Inv t now pos s h =
      branch-Inv (not (is_running t.status)) _ _ (worker_exit-Inv t.id "task_not_running" now s h) (
        branch-Inv (not s.settings.start_gate) _ _ (gate_off_round-Inv t "start_gate_off" now s h) (
          branch-Inv (is_close t.task_type && not s.settings.close_gate) _ _
            (gate_off_round-Inv t "close_gate_off" now s h)
            (branch-Inv (leb t.target_n t.scheduled_attempt_count) _ _
              (branch-Inv (is_close t.task_type) _ _ (close_round-Inv w i t now s h)
                (worker_exit-Inv t.id "target_reached" now s h))
              (branch-Inv (is_smooth t.mode) _ _ (smooth_round-Inv t now s h)
                (pair_round-Inv no_release t now s pos h)))))

  drained_round-Inv : (t : Task) (d : Drain) → Inv d.store → Inv (drained_round w i t d).0
  drained_round-Inv t d h = elim (Option-cases d.signal) [
    | inr (signal, e) ↦ rw e (signalled_round-Inv w t signal exits i.now_us d.store h)
    | inl e ↦ elim (Bool-cases (has_legs t.id d.store)) [
      | inl f ↦ rw (e, f) h
      | inr f ↦ rw (e, f) (next_round-Inv t i.now_us safe.timed d.store h)
    ]
  ]

  -- A round of a worker, whatever it reads and whatever the exchange answers, keeps the invariant of the
  -- database: counters that agree with the pairs, and at most one open pair for each task.
  pub worker_round-Inv : (k : ℕ) (d : Drain) → Inv d.store → Inv (worker_round w i k d).0.store
  unfolding worker_round
  worker_round-Inv k d h = elim (Bool-cases i.stop_event) [
    | inl e ↦ rw (worker_round, e) (worker_exit-Inv k "stopped_event" i.now_us d.store h)
    | inr e ↦ elim (Option-cases (get_task d.store k)) [
      | inl f ↦ rw (worker_round, e, f) (worker_exit-Inv k "task_missing" i.now_us d.store h)
      | inr (t, f) ↦
          rw (worker_round, e, f)
            (drained_round-Inv t (reconcile_own_legs i.query k i.now_us d)
              (reconcile_own_legs-Inv i.query k i.now_us d safe.timed h))
    ]
  ]

after_turn-Inv :
    (k now : ℕ) (outcome : RoundEnd) (after rest : Drain)
    → Inv after.store
    → Inv rest.store
    → Inv (after_turn k now outcome after rest).store
after_turn-Inv k now exits after rest h _ = h
after_turn-Inv k now goes_on after rest h g = g
after_turn-Inv k now raises after rest h _ = worker_exit-Inv k "worker_error" now after.store h
after_turn-Inv k now waits after rest h _ = h

-- The loop of a worker keeps the invariant over all its rounds, if what other requests write between and
-- in them does, and every round has a positive time.
pub run_task_worker-Inv :
    (w : Words) (k : ℕ) (turns : List Turn) (d : Drain)
    → All IsSafeTurn turns
    → Inv d.store
    → Inv (run_task_worker w k turns d).store
unfolding run_task_worker
run_task_worker-Inv w k [] d safe h = h
run_task_worker-Inv w k (turn ∷ turns) d (safe, rest) h =
    let found = record d { store = turn.others d.store } in
    let here = worker_round-Inv w turn.inputs safe.inputs k found (safe.others d.store h) in
    let (after, outcome) = worker_round w turn.inputs k found in
    after_turn-Inv k turn.inputs.now_us outcome after (run_task_worker w k turns after) here
      (run_task_worker-Inv w k turns after rest here)
