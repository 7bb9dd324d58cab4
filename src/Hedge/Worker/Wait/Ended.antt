-- ===== src/Hedge/Worker/Wait/Ended.antt =====
-- The wait of a smooth task ends.
use binance_funding_hedging.Prelude.{
  ℕ, ◌+◌, ◌≡◌, ◌≤◌, true, some, List, [], ◌∷◌, arith, refl, All, Bool-cases, Option-cases, inl, inr,
  ◌≢◌, sym,
}
use mathlib.Core.Path.{subst}
use binance_funding_hedging.Hedge.Vocabulary.{is_running}
use binance_funding_hedging.Hedge.Store.Rows.{Task, Store}
use binance_funding_hedging.Hedge.Store.Tasks.{get_task, is_value}
use binance_funding_hedging.Hedge.Worker.Wait.{
  smooth_gate_window_us, Look, waiting, judge, is_gate_off, look_at, look_once, wait_loop,
}
use binance_funding_hedging.Hedge.Worker.Wait.Passed.{IsAmong, Waited-cases}

-- If the row of the task has the gate of the number, that gate was started at the time.
abbrev pub IsStarted : ℕ → ℕ → ℕ → Store → Type 0
IsStarted k gate_seq started s =
    (t : Task)
    → get_task s k ≡ some t
    → is_value gate_seq t.smooth_gate_seq ≡ true
    → t.smooth_gate_started_at_us ≡ some started

-- What other requests write before a look does not move the start of the gate.
abbrev pub Keeps : ℕ → ℕ → ℕ → Look → Type 0
Keeps k gate_seq started look =
    (s : Store) → IsStarted k gate_seq started s → IsStarted k gate_seq started (look.others s)

judge-ends :
    (t : Task) (gate_seq started : ℕ) (look : Look)
    → t.smooth_gate_started_at_us ≡ some started
    → started + smooth_gate_window_us ≤ look.now_us
    → judge t gate_seq look ≢ waiting
judge-ends t gate_seq started look e late = ground arith

look_once-ends :
    (k gate_seq started : ℕ) (look : Look) (s : Store)
    → IsStarted k gate_seq started (look.others s)
    → started + smooth_gate_window_us ≤ look.now_us
    → (look_once k gate_seq look s).1 ≢ waiting
unfolding look_once
look_once-ends k gate_seq started look s begun late h =
    elim (Option-cases (get_task (look.others s) k)) [
      | inl e ↦ ground arith
      | inr (t, found) ↦ elim (Bool-cases (is_value gate_seq t.smooth_gate_seq)) [
        | inl own ↦ ground (arith, judge-ends t gate_seq started look (begun t found own) late)
        | inr other ↦ ground arith
      ]
    ]

look_at-waits :
    (t : Task) (gate_seq : ℕ) (look : Look) (s : Store)
    → (look_at t gate_seq look s).1 ≡ waiting
    → (look_at t gate_seq look s).0 ≡ s
look_at-waits t gate_seq look s h = elim (Bool-cases (is_running t.status)) [
  | inr e ↦ ground arith
  | inl e ↦ elim (Bool-cases (is_gate_off t s)) [
    | inl g ↦ ground arith
    | inr g ↦ elim (Bool-cases (is_value gate_seq t.smooth_gate_seq)) [
      | inl o ↦ rw (e, g, o) refl
      | inr o ↦ ground arith
    ]
  ]
]

-- A look after which the loop goes on writes nothing of its own.
look_once-waits :
    (k gate_seq : ℕ) (look : Look) (s : Store)
    → (look_once k gate_seq look s).1 ≡ waiting
    → (look_once k gate_seq look s).0 ≡ look.others s
unfolding look_once
look_once-waits k gate_seq look s h = elim (Bool-cases look.stop_event) [
  | inl e ↦ ground arith
  | inr e ↦ elim (Option-cases (get_task (look.others s) k)) [
    | inl f ↦ ground arith
    | inr (t, f) ↦
        let waits = look_at-waits t gate_seq look (look.others s) (ground arith) in
        rw (look_once, e, f) waits
  ]
]

-- The wait ends: once one of its looks comes five minutes after the start of the gate, the loop has
-- left or passed, whatever the order books show, if no other request moves the start of the gate.
pub wait_loop-ends :
    (k gate_seq started : ℕ) (look : Look) (looks : List Look) (s : Store)
    → IsStarted k gate_seq started s
    → All (Keeps k gate_seq started) looks
    → IsAmong look looks
    → started + smooth_gate_window_us ≤ look.now_us
    → (wait_loop k gate_seq looks s).1 ≢ waiting
unfolding wait_loop
wait_loop-ends k gate_seq started look [] s begun keeps among late = absurd among
wait_loop-ends k gate_seq started look (l ∷ looks) s begun keeps (inl same) late =
    let own : started + smooth_gate_window_us ≤ l.now_us = rw same late in
    let ended = look_once-ends k gate_seq started l s (keeps.0 s begun) own in
    elim (Waited-cases (look_once k gate_seq l s).1) [
      | inl e ↦ absurd (ended e)
      | inr (inl e) ↦ ground arith
      | inr (inr (q, e)) ↦ ground arith
    ]
wait_loop-ends k gate_seq started look (l ∷ looks) s begun keeps (inr later) late =
    elim (Waited-cases (look_once k gate_seq l s).1) [
      | inl e ↦
          let kept : IsStarted k gate_seq started (look_once k gate_seq l s).0 =
            subst (IsStarted k gate_seq started) (sym (look_once-waits k gate_seq l s e))
              (keeps.0 s begun) in
          rw (wait_loop, e)
            (wait_loop-ends k gate_seq started look looks (look_once k gate_seq l s).0 kept keeps.1
              later late)
      | inr (inl e) ↦ ground arith
      | inr (inr (q, e)) ↦ ground arith
    ]
