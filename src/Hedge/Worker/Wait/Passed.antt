-- ===== src/Hedge/Worker/Wait/Passed.antt =====
-- When the wait of a smooth task passes, and that it ends.
use binance_funding_hedging.Prelude.{
  ℕ, ◌+◌, ◌≡◌, ◌≤◌, true, false, some, List, [], ◌∷◌, arith, refl, Bool-cases, Option-cases, inl,
  inr, ◌⊎◌, ◌≢◌, sym,
}
use mathlib.Core.Path.{subst}
use binance_funding_hedging.Hedge.Vocabulary.{
  PassReason, market, timeout, manual, running, close_task, is_running,
}
use binance_funding_hedging.Hedge.Store.Rows.{Task, Store}
use binance_funding_hedging.Hedge.Store.Tasks.{get_task, is_value}
use binance_funding_hedging.Hedge.Worker.Wait.{
  smooth_gate_window_us, Look, Pass, Waited, waiting, left, passes, market_passes, pass_reason,
  judge, is_gate_off, look_at, look_once, wait_loop,
}

-- What holds of a pass for the look that gave it, by its reason.
abbrev pub IsReason : Task → Look → PassReason → Type 0
IsReason t look manual = t.smooth_gate_force_requested ≡ true
IsReason t look market = market_passes t look ≡ true
IsReason t look timeout =
    (started : ℕ) × (t.smooth_gate_started_at_us ≡ some started)
    × (started + smooth_gate_window_us ≤ look.now_us)

-- A pass by a look at the database `s`.
pub record IsPass (task_id gate_seq : ℕ) (look : Look) (s : Store) (p : Pass) : Type 0 where
  pub row : get_task s task_id ≡ some p.task
  pub runs : p.task.status ≡ running
  pub start_on : s.settings.start_gate ≡ true
  pub close_on : (p.task.task_type ≢ close_task) ⊎ (s.settings.close_gate ≡ true)
  pub own_gate : p.task.smooth_gate_seq ≡ some gate_seq
  pub gate : p.gate_seq ≡ gate_seq
  pub at : p.passed_at_us ≡ look.now_us
  pub reason : IsReason p.task look p.reason

pass_reason-IsReason :
    (t : Task) (look : Look) (started : ℕ) (r : PassReason)
    → t.smooth_gate_started_at_us ≡ some started
    → pass_reason t look started ≡ some r
    → IsReason t look r
pass_reason-IsReason t look started manual e h = ground arith
pass_reason-IsReason t look started market e h = ground arith
pass_reason-IsReason t look started timeout e h = (started, e, ground arith)

judge-IsReason :
    (t : Task) (gate_seq : ℕ) (look : Look) (p : Pass)
    → judge t gate_seq look ≡ passes p
    → (p.task ≡ t)
      × (p.gate_seq ≡ gate_seq)
      × (p.passed_at_us ≡ look.now_us)
      × IsReason t look p.reason
judge-IsReason t gate_seq look p h = elim (Option-cases t.smooth_gate_started_at_us) [
  | inl e ↦ ground arith
  | inr (started, e) ↦ elim (Option-cases (pass_reason t look started)) [
    | inl f ↦ ground arith
    | inr (r, f) ↦
        let same : r ≡ p.reason = ground arith in
        let held = pass_reason-IsReason t look started r e f in
        (ground arith, ground arith, ground arith, subst (IsReason t look) same held)
  ]
]

pub gate_on :
    (t : Task) (s : Store)
    → is_gate_off t s ≡ false
    → (s.settings.start_gate ≡ true) × ((t.task_type ≢ close_task) ⊎ (s.settings.close_gate ≡ true))
gate_on t s h = elim (Bool-cases s.settings.close_gate) [
  | inl e ↦ (ground arith, inr e)
  | inr e ↦ (ground arith, inl (λ c. ground arith))
]

look_at-IsPass :
    (k gate_seq : ℕ) (look : Look) (s : Store) (t : Task) (p : Pass)
    → get_task s k ≡ some t
    → (look_at t gate_seq look s).1 ≡ passes p
    → ((look_at t gate_seq look s).0 ≡ s) × IsPass k gate_seq look s p
look_at-IsPass k gate_seq look s t p found h = elim (Bool-cases (is_running t.status)) [
  | inr e ↦ ground arith
  | inl runs ↦ elim (Bool-cases (is_gate_off t s)) [
    | inl e ↦ ground arith
    | inr on ↦ elim (Bool-cases (is_value gate_seq t.smooth_gate_seq)) [
      | inr e ↦ ground arith
      | inl own ↦
          let judged : judge t gate_seq look ≡ passes p = ground arith in
          let (same, gate, at, reason) = judge-IsReason t gate_seq look p judged in
          let (start, close) = gate_on t s on in
          (
            rw (runs, on, own) refl,
            rw same record {
              row = found;
              runs = ground arith;
              start_on = start;
              close_on = close;
              own_gate = ground arith;
              gate = gate;
              at = at;
              reason = reason;
            },
          )
    ]
  ]
]

look_once-IsPass :
    (k gate_seq : ℕ) (look : Look) (s : Store) (p : Pass)
    → (look_once k gate_seq look s).1 ≡ passes p
    → IsPass k gate_seq look (look_once k gate_seq look s).0 p
unfolding look_once
look_once-IsPass k gate_seq look s p h = elim (Bool-cases look.stop_event) [
  | inl e ↦ ground arith
  | inr quiet ↦ elim (Option-cases (get_task (look.others s) k)) [
    | inl e ↦ ground arith
    | inr (t, found) ↦
        let judged : (look_at t gate_seq look (look.others s)).1 ≡ passes p = ground arith in
        let (kept, pass) = look_at-IsPass k gate_seq look (look.others s) t p found judged in
        let same : (look_once k gate_seq look s).0 ≡ look.others s =
          rw (look_once, quiet, found, kept) refl in
        subst (λ d. IsPass k gate_seq look d p) (sym same) pass
  ]
]

-- The look is one of the looks.
abbrev pub IsAmong : Look → List Look → Type 0
IsAmong look [] = ⊥
IsAmong look (l ∷ looks) = (l ≡ look) ⊎ IsAmong look looks

pub Waited-cases : (w : Waited) → (w ≡ waiting) ⊎ ((w ≡ left) ⊎ ((p : Pass) × (w ≡ passes p)))
Waited-cases waiting = inl refl
Waited-cases left = inr (inl refl)
Waited-cases (passes p) = inr (inr (p, refl))

-- A wait that passes does so by one of its looks, at a running task whose own gate is open, with the
-- start gate on and for a close the close gate too, in the database that it leaves; by hand only if the
-- task was released by hand, by the market only if the look's books pass, and by time only if the window
-- is over.
pub wait_loop-IsPass :
    (k gate_seq : ℕ) (looks : List Look) (s : Store) (p : Pass)
    → (wait_loop k gate_seq looks s).1 ≡ passes p
    → (look : Look) × IsAmong look looks × IsPass k gate_seq look (wait_loop k gate_seq looks s).0 p
unfolding wait_loop
wait_loop-IsPass k gate_seq [] s p h = cc h
wait_loop-IsPass k gate_seq (look ∷ looks) s p h =
    elim (Waited-cases (look_once k gate_seq look s).1) [
      | inl e ↦
          let (l, among, pass) =
            wait_loop-IsPass k gate_seq looks (look_once k gate_seq look s).0 p (ground arith) in
          (l, inr among, rw (wait_loop, e) pass)
      | inr (inl e) ↦ ground arith
      | inr (inr (q, e)) ↦
          let same : (look_once k gate_seq look s).1 ≡ passes p = ground arith in
          (look, inl refl, rw (wait_loop, same) (look_once-IsPass k gate_seq look s p same))
    ]
