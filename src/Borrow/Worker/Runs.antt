-- ===== src/Borrow/Worker/Runs.antt =====
-- A whole dispatch of the worker as a run of transactions, and the times it is due at.
use binance_funding_hedging.Prelude.{
  ℕ, ◌+◌, ◌≡◌, ◌≤◌, ◌⊎◌, inl, inr, refl, true, false, none, some, List, [], ◌∷◌, Option,
  Option-cases, Bool-cases, arith, All, All-map, ltb, if◌then◌else◌,
}
use binance_funding_hedging.Borrow.Rows.{BorrowTask, BorrowStore, ExecutorResult}
use binance_funding_hedging.Borrow.Attempts.{insert_pending_attempt, resolve_attempt}
use binance_funding_hedging.Borrow.Choice.{list_eligible_tasks, select_next_task}
use binance_funding_hedging.Borrow.Worker.{
  Deployment, may_dispatch, borrow_once, dispatch_one, due, Running, sent, answer_written, Reach,
  here, next,
}

borrow_once-cases :
    (d : Deployment) (execute : BorrowTask → ℕ → ExecutorResult) (at dispatched finished : ℕ)
    → (chosen : BorrowTask) (s : BorrowStore)
    → let made =
        insert_pending_attempt chosen.id chosen.asset chosen.amount_per_attempt at dispatched
          chosen.id d.live_mode s in
      (borrow_once d execute at dispatched finished chosen s ≡ (s, false))
      ⊎ ((m : ℕ) × (made.1 ≡ some m)
          × (borrow_once d execute at dispatched finished chosen s
              ≡ ((resolve_attempt m (execute chosen m) finished made.0).0, true)))
unfolding borrow_once
borrow_once-cases d execute at dispatched finished chosen s =
    let made =
      insert_pending_attempt chosen.id chosen.asset chosen.amount_per_attempt at dispatched
        chosen.id d.live_mode s in
    elim (Option-cases made.1) [
      | inl e ↦ inl (rw (borrow_once, e) refl)
      | inr (m, e) ↦ inr (m, e, rw (borrow_once, e) refl)
    ]

dispatch_one-cases :
    (d : Deployment) (execute : BorrowTask → ℕ → ExecutorResult) (at dispatched finished : ℕ)
    → (s : BorrowStore)
    → (dispatch_one d execute at dispatched finished s ≡ (s, false))
      ⊎ ((chosen : BorrowTask) × (may_dispatch d s.settings.global_cooldown_until_us at ≡ true)
          × (select_next_task (list_eligible_tasks s.tasks) s.settings.round_robin_cursor
              ≡ some chosen)
          × (dispatch_one d execute at dispatched finished s
              ≡ borrow_once d execute at dispatched finished chosen s))
unfolding dispatch_one
dispatch_one-cases d execute at dispatched finished s =
    elim (Bool-cases (may_dispatch d s.settings.global_cooldown_until_us at)) [
      | inr e ↦ inl (rw (dispatch_one, e) refl)
      | inl e ↦
          elim (Option-cases
            (select_next_task (list_eligible_tasks s.tasks) s.settings.round_robin_cursor)) [
              | inl f ↦ inl (rw (dispatch_one, e, f) refl)
              | inr (t, f) ↦ inr (t, e, f, rw (dispatch_one, e, f) refl)
            ]
    ]

abbrev pub idle : BorrowStore → Running
idle s = record { store = s; in_flight = none }

-- A run of _dispatch_one, whatever the executor answers, is a run of the transactions, from a worker
-- that waits for no answer to one that waits for none.
pub dispatch_one-Reach :
    (d : Deployment) (execute : BorrowTask → ℕ → ExecutorResult) (at dispatched finished : ℕ)
    → (s : BorrowStore) → Reach (idle s) (idle (dispatch_one d execute at dispatched finished s).0)
dispatch_one-Reach d execute at dispatched finished s =
    elim (dispatch_one-cases d execute at dispatched finished s) [
      | inl e ↦ rw e here
      | inr (t, _, _, e) ↦ elim (borrow_once-cases d execute at dispatched finished t s) [
        | inl f ↦ rw (e, f) here
        | inr (m, made, f) ↦
            let row =
              insert_pending_attempt t.id t.asset t.amount_per_attempt at dispatched t.id
                d.live_mode s in
            rw (e, f)
              (next
                (next here (
                  sent (idle s) t.id t.asset t.amount_per_attempt at dispatched t.id d.live_mode
                    refl))
                (answer_written (record { store = row.0; in_flight = row.1 }) m (execute t m)
                  finished made))
      ]
    ]

-- The times at which an attempt is due, over the readings of the clock at each tick.
abbrev pub due_times : ℕ → Option ℕ → List ℕ → List ℕ
due_times interval last [] = []
due_times interval last (now ∷ rest) =
    let p = due now interval last in
    let later = due_times interval p.0 rest in if p.1 then now ∷ later else later

-- Each time is at least an interval after every earlier one.
abbrev pub AreSpaced : ℕ → List ℕ → Type 0
AreSpaced interval [] = Unit
AreSpaced interval (t ∷ ts) = All (λ u. t + interval ≤ u) ts × AreSpaced interval ts

after_last :
    (interval l : ℕ) (clock : List ℕ)
    → All (λ u. l + interval ≤ u) (due_times interval (some l) clock)
      × AreSpaced interval (due_times interval (some l) clock)
unfolding due
after_last interval l [] = (tt, tt)
after_last interval l (now ∷ rest) =
    let (behind, spaced) = after_last interval now rest in
    let (behind', spaced') = after_last interval l rest in
    elim (Bool-cases (ltb now (l + interval))) [
      | inl e ↦ rw e (behind', spaced')
      | inr e ↦ rw e (
        (
          ground arith,
          All-map (λ u. now + interval ≤ u) (λ u. l + interval ≤ u) _ (λ u q. ground arith) behind,
        ),
        (behind, spaced),
      )
    ]

-- However often and late the ticks come, also with a clock that jumps back, each attempt is due at
-- least an interval after every earlier one.
pub due-AreSpaced :
    (interval : ℕ) (last : Option ℕ) (clock : List ℕ)
    → AreSpaced interval (due_times interval last clock)
unfolding due
due-AreSpaced interval none [] = tt
due-AreSpaced interval none (now ∷ rest) = after_last interval now rest
due-AreSpaced interval (some l) clock = (after_last interval l clock).1
