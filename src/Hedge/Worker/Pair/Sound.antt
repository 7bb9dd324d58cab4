-- ===== src/Hedge/Worker/Pair/Sound.antt =====
-- The invariant of the database over one pair.
use binance_funding_hedging.Prelude.{
  ℕ, ◌≡◌, ◌<◌, Bool, true, not, Option, none, some, arith, Bool-cases, Option-cases, inl, inr, ◌&&◌,
}
use mathlib.Core.Path.{subst}
use binance_funding_hedging.Hedge.Errors.{Result, ok}
use binance_funding_hedging.Hedge.Vocabulary.{is_close}
use binance_funding_hedging.Hedge.Store.Rows.{Task, Store}
use binance_funding_hedging.Hedge.Store.Prepare.{Plan, prepare_attempt, reserve_pair}
use binance_funding_hedging.Hedge.Store.Invariant.{Inv, set_task_status-Inv}
use binance_funding_hedging.Hedge.Store.Invariant.Prepare.{
  prepare_attempt-Inv, prepare_attempt-cases,
}
use binance_funding_hedging.Hedge.Store.Invariant.Settle.{append_log-Inv}
use binance_funding_hedging.Hedge.Store.Invariant.Outcomes.{resolve_attempt-Inv}
use binance_funding_hedging.Hedge.Worker.Verdicts.{Signal}
use binance_funding_hedging.Hedge.Worker.Dispatch.{dispatch_live}
use binance_funding_hedging.Hedge.Worker.Settled.{IsUnsettled, dispatch_live-Inv}
use binance_funding_hedging.Hedge.Worker.Checks.{
  Words, Reads, Release, PairResult, Quantities, Checked, returns, admits, ◌>>=◌, quantities_of,
  check_pair,
}
use binance_funding_hedging.Hedge.Worker.Pair.{
  plan_of, failed_outcome, dispatch_simulated, result_of, send_pair, is_unsupported,
  dispatch_one_for_task,
}
use binance_funding_hedging.Hedge.Worker.Checks.Kept.{
  IsKept, pause_task_local-IsKept, quantities_of-IsKept, check_pair-IsKept,
}

pub Inv-IsKept : IsKept Inv
Inv-IsKept = record {
  log = λ k now e s. append_log-Inv k now e s;
  pause = λ k r zh now s h. (set_task_status-Inv s k now h).2 r zh;
  stop = λ k r now s h. (set_task_status-Inv s k now h).1 r;
}

reserve_pair-IsUnsettled :
    (t : Task) (plan : Plan) (cycle now : ℕ) (s : Store)
    → IsUnsettled (reserve_pair t plan cycle now s) s.next_attempt_id
unfolding reserve_pair
reserve_pair-IsUnsettled t plan cycle now s a found = ground arith

-- The pair that a reservation makes is not settled.
pub prepare_attempt-IsUnsettled :
    (k : ℕ) (plan : Plan) (cycle now : ℕ) (s : Store) (attempt_id : ℕ)
    → (prepare_attempt k plan cycle now s).1 ≡ some attempt_id
    → IsUnsettled (prepare_attempt k plan cycle now s).0 attempt_id
prepare_attempt-IsUnsettled k plan cycle now s attempt_id h =
    elim (prepare_attempt-cases k plan cycle now s) [
      | inl e ↦ absurd (cc (h, e))
      | inr (t, _, _, _, e) ↦
          let own : s.next_attempt_id ≡ attempt_id = cc (h, e) in
          let store : reserve_pair t plan cycle now s ≡ (prepare_attempt k plan cycle now s).0 =
            cc e in
          subst (λ d. IsUnsettled d attempt_id) store
            (subst (IsUnsettled (reserve_pair t plan cycle now s)) own
              (reserve_pair-IsUnsettled t plan cycle now s))
    ]

result_of-Inv :
    (s s' : Store) (signal : Option Signal) (call : Result (Store × Option Signal))
    → call ≡ ok (s', signal)
    → Inv s'
    → Inv (result_of s call).0
result_of-Inv s s' none call e h = rw e h
result_of-Inv s s' (some signal) call e h = rw e h

send_pair-Inv :
    (r : Reads) (release : Release) (live : Bool) (t : Task) (n : Quantities) (now : ℕ) (s : Store)
    → 0 < now
    → ((d : Store) → Inv d → Inv (r.during d))
    → Inv s
    → Inv (send_pair r release live t n now s).0
unfolding send_pair dispatch_simulated
send_pair-Inv r release live t n now s pos during h =
    let plan = plan_of r release t n in
    let reserved = prepare_attempt t.id plan r.fresh_cycle_id now (r.during s) in
    let reserved_Inv =
      prepare_attempt-Inv t.id plan r.fresh_cycle_id now (r.during s) (during s h) in
    elim (Option-cases reserved.1) [
      | inl e ↦ rw (send_pair, e) reserved_Inv
      | inr (attempt_id, e) ↦
          let open_pair =
            prepare_attempt-IsUnsettled t.id plan r.fresh_cycle_id now (r.during s) attempt_id e in
          elim (Bool-cases live) [
            | inl l ↦
                let (s', signal, call, sound) =
                  dispatch_live-Inv t.id attempt_id t.task_type r.dispatched now reserved.0 pos
                    open_pair reserved_Inv in
                rw (send_pair, e, l)
                  (result_of-Inv reserved.0 s' signal
                    (dispatch_live t.id attempt_id t.task_type r.dispatched now reserved.0) call
                    sound)
            | inr l ↦
                rw (send_pair, e, l)
                  (resolve_attempt-Inv attempt_id failed_outcome true true (is_close t.task_type)
                    now reserved.0 open_pair tt reserved_Inv)
          ]
    ]

-- A check whose database is sound, and a continuation that keeps it so.
>>=-Inv :
    {A : Type 0} (d : Store × Checked A) (next : Store → A → Store × PairResult)
    → Inv d.0
    → ((a : A) → Inv (next d.0 a).0)
    → Inv (d >>= next).0
>>=-Inv (s, returns r) next h go = h
>>=-Inv (s, admits a) next h go = go a

-- One pair, from its checks to its dispatch, at a positive time and whatever the exchange answers, keeps
-- the invariant of the database, if what other requests write meanwhile does.
pub dispatch_one_for_task-Inv :
    (w : Words) (r : Reads) (release : Release) (t : Task) (now : ℕ) (s : Store)
    → 0 < now
    → ((d : Store) → Inv d → Inv (r.during d))
    → Inv s
    → Inv (dispatch_one_for_task w r release t now s).0
unfolding dispatch_one_for_task
dispatch_one_for_task-Inv w r release t now s pos during h =
    let live = s.settings.start_gate in
    let first = quantities_of w r live t now s in
    elim (Bool-cases (live && is_close t.task_type && not s.settings.close_gate)) [
      | inl e ↦ rw (dispatch_one_for_task, e) h
      | inr e ↦ elim (Bool-cases (live && is_close t.task_type && is_unsupported r t)) [
        | inl g ↦
            rw (dispatch_one_for_task, e, g)
              (pause_task_local-IsKept Inv Inv-IsKept t.id _ _ _ now s h)
        | inr g ↦
            rw (dispatch_one_for_task, e, g)
              (>>=-Inv first _ (quantities_of-IsKept Inv Inv-IsKept w r live t now s h) (λ n.
                >>=-Inv (check_pair w r release live t n now first.0) _
                  (check_pair-IsKept Inv Inv-IsKept w r release live t n now first.0
                    (quantities_of-IsKept Inv Inv-IsKept w r live t now s h))
                  (λ m. send_pair-Inv r release live t m now _ pos during (
                    check_pair-IsKept Inv Inv-IsKept w r release live t n now first.0
                      (quantities_of-IsKept Inv Inv-IsKept w r live t now s h)))))
      ]
    ]
