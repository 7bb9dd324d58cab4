-- ===== src/Hedge/Worker/Wait/Sound.antt =====
-- The invariant of the database over the wait of a smooth task, and the time of its pass.
use binance_funding_hedging.Prelude.{
  ℕ, ◌≡◌, ◌<◌, ◌+◌, Bool, List, [], ◌∷◌, String, refl, arith, Bool-cases, Option-cases, inl, inr,
  All, is_none,
}
use binance_funding_hedging.Hedge.Vocabulary.{PauseReason, preflight_incomplete, is_running}
use binance_funding_hedging.Hedge.Store.Rows.{Task, Store}
use binance_funding_hedging.Hedge.Store.Tasks.{
  get_task, is_value, open_smooth_gate, clear_smooth_gate, in_flight, may_open, gate_opened,
}
use binance_funding_hedging.Hedge.Store.Invariant.{Inv, write_task-Inv, KeepsCounters}
use binance_funding_hedging.Hedge.Worker.Checks.Kept.{pause_task_local-IsKept}
use binance_funding_hedging.Hedge.Worker.Pair.Sound.{Inv-IsKept}
use binance_funding_hedging.Hedge.Worker.Wait.{
  Look, Pass, passes, is_gate_off, look_at, look_once, wait_loop, wait_for_smooth_gate,
}
use binance_funding_hedging.Hedge.Worker.Wait.Passed.{IsAmong, Waited-cases, wait_loop-IsPass}

-- A look at a positive time, between which and the one before it the other requests keep the invariant.
pub record IsSafe (look : Look) : Type 0 where
  pub timed : 0 < look.now_us
  pub others : (s : Store) → Inv s → Inv (look.others s)

pub clear_smooth_gate-Inv : (k now : ℕ) (s : Store) → Inv s → Inv (clear_smooth_gate k now s)
unfolding clear_smooth_gate
clear_smooth_gate-Inv k now s h =
    write_task-Inv k _ _ s (record { kept = λ t. (refl, refl, refl, refl, refl, refl, refl) }) h

gate_opened-KeepsCounters : (gate_seq now : ℕ) → KeepsCounters (gate_opened gate_seq now)
gate_opened-KeepsCounters gate_seq now = record {
  kept = λ t. elim (Bool-cases (is_none t.smooth_gate_seq)) [
    | inl e ↦ rw e (refl, refl, refl, refl, refl, refl, refl)
    | inr e ↦ rw e (refl, refl, refl, refl, refl, refl, refl)
  ];
}

open_smooth_gate-Inv :
    (k gate_seq now : ℕ) (s : Store) → Inv s → Inv (open_smooth_gate k gate_seq now s).0
unfolding open_smooth_gate
open_smooth_gate-Inv k gate_seq now s h = elim (Bool-cases (in_flight s k)) [
  | inl e ↦ rw (open_smooth_gate, e) h
  | inr e ↦
      rw (open_smooth_gate, e)
        (write_task-Inv k (may_open gate_seq) (gate_opened gate_seq now) s
          (gate_opened-KeepsCounters gate_seq now) h)
]

look_at-Inv :
    (t : Task) (gate_seq : ℕ) (look : Look) (s : Store) → Inv s → Inv (look_at t gate_seq look s).0
look_at-Inv t gate_seq look s h = elim (Bool-cases (is_running t.status)) [
  | inr e ↦ rw e h
  | inl e ↦ elim (Bool-cases (is_gate_off t s)) [
    | inl g ↦ rw (e, g) (clear_smooth_gate-Inv t.id look.now_us s h)
    | inr g ↦ elim (Bool-cases (is_value gate_seq t.smooth_gate_seq)) [
      | inl o ↦ rw (e, g, o) h
      | inr o ↦ rw (e, g, o) h
    ]
  ]
]

look_once-Inv :
    (k gate_seq : ℕ) (look : Look) (s : Store)
    → IsSafe look
    → Inv s
    → Inv (look_once k gate_seq look s).0
unfolding look_once
look_once-Inv k gate_seq look s safe h = elim (Bool-cases look.stop_event) [
  | inl e ↦ rw (look_once, e) (safe.others s h)
  | inr e ↦ elim (Option-cases (get_task (look.others s) k)) [
    | inl f ↦ rw (look_once, e, f) (safe.others s h)
    | inr (t, f) ↦
        rw (look_once, e, f) (look_at-Inv t gate_seq look (look.others s) (safe.others s h))
  ]
]

wait_loop-Inv :
    (k gate_seq : ℕ) (looks : List Look) (s : Store)
    → All IsSafe looks
    → Inv s
    → Inv (wait_loop k gate_seq looks s).0
unfolding wait_loop
wait_loop-Inv k gate_seq [] s safe h = h
wait_loop-Inv k gate_seq (look ∷ looks) s safe h =
    let turn = look_once k gate_seq look s in
    let here = look_once-Inv k gate_seq look s safe.0 h in
    elim (Waited-cases turn.1) [
      | inl e ↦ rw (wait_loop, e) (wait_loop-Inv k gate_seq looks turn.0 safe.1 here)
      | inr (inl e) ↦ rw (wait_loop, e) here
      | inr (inr (p, e)) ↦ rw (wait_loop, e) here
    ]

IsAmong-timed :
    (look : Look) (looks : List Look) → All IsSafe looks → IsAmong look looks → 0 < look.now_us
IsAmong-timed look [] safe among = absurd among
IsAmong-timed look (l ∷ looks) safe (inl same) = let first = safe.0.timed in ground arith
IsAmong-timed look (l ∷ looks) safe (inr later) = IsAmong-timed look looks safe.1 later

-- A pass has the time of its look.
pub wait_loop-timed :
    (k gate_seq : ℕ) (looks : List Look) (s : Store) (p : Pass)
    → All IsSafe looks
    → (wait_loop k gate_seq looks s).1 ≡ passes p
    → 0 < p.passed_at_us
wait_loop-timed k gate_seq looks s p safe h =
    let (look, among, pass) = wait_loop-IsPass k gate_seq looks s p h in
    rw pass.at (IsAmong-timed look looks safe among)

-- The wait of a smooth task keeps the invariant, and a pass of it has a positive time.
pub wait_for_smooth_gate-Inv :
    (words : PauseReason → String) (subscribed : Bool) (looks : List Look) (t : Task) (now : ℕ)
    (s : Store)
    → All IsSafe looks
    → Inv s
    → Inv (wait_for_smooth_gate words subscribed looks t now s).0
      × ((p : Pass)
          → (wait_for_smooth_gate words subscribed looks t now s).1 ≡ passes p
          → 0 < p.passed_at_us)
unfolding wait_for_smooth_gate
wait_for_smooth_gate-Inv words subscribed looks t now s safe h =
    let gate_seq = t.scheduled_attempt_count + 1 in
    let opened = open_smooth_gate t.id gate_seq now s in
    let begun = open_smooth_gate-Inv t.id gate_seq now s h in
    elim (Bool-cases opened.1) [
      | inr e ↦ (rw (wait_for_smooth_gate, e) begun, λ p q. ground arith)
      | inl e ↦ elim (Bool-cases subscribed) [
        | inr u ↦ (
          rw (wait_for_smooth_gate, e, u)
              (pause_task_local-IsKept Inv Inv-IsKept t.id preflight_incomplete _ _ now opened.0
                begun),
          λ p q. ground arith,
        )
        | inl u ↦ (
          rw (wait_for_smooth_gate, e, u) (wait_loop-Inv t.id gate_seq looks opened.0 safe begun),
          λ p q. wait_loop-timed t.id gate_seq looks opened.0 p safe (ground arith),
        )
      ]
    ]
