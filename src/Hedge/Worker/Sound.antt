-- ===== src/Hedge/Worker/Sound.antt =====
-- The drain of a task's orders keeps the invariant of the database.
use binance_funding_hedging.Prelude.{
  ℕ, ◌<◌, Bool, true, false, Option, none, List, [], ◌∷◌, arith, refl, Option-cases, Bool-cases,
  inl, inr, any, ◌==◌, All-map, update_where, count_where-kept,
}
use binance_funding_hedging.Hedge.Store.Rows.{Attempt, Leg, Store}
use binance_funding_hedging.Hedge.Store.Tasks.{is_open_pair}
use binance_funding_hedging.Hedge.Store.Legs.{
  resolve_leg_from_query, mark_attempt_rate_limited, QueryResult,
}
use binance_funding_hedging.Hedge.Store.Settle.{get_attempt, settle_from_legs}
use binance_funding_hedging.Hedge.Store.Invariant.{Inv, IsSound}
use binance_funding_hedging.Hedge.Store.Invariant.Settle.{IsSound-fewer}
use binance_funding_hedging.Hedge.Store.Invariant.Outcomes.{settle_from_legs-Inv}
use binance_funding_hedging.Hedge.Worker.Verdicts.{LegDispatch}
use binance_funding_hedging.Hedge.Worker.Drain.{
  Drain, drain_leg, drain_legs, rate_limited_for_settlement, settled_store, settle_drained,
  settle_one, settle_finalized, settle_gaps, recover_crash_gaps, reconcile_own_legs,
  list_non_terminal_legs_for_task, list_unsettled_terminal_attempts_for_task,
}

resolve_leg_from_query-Inv :
    (leg_id : ℕ) (r : QueryResult) (now : ℕ) (s : Store)
    → Inv s
    → Inv (resolve_leg_from_query leg_id r now s)
unfolding resolve_leg_from_query
resolve_leg_from_query-Inv leg_id r now s h = record { sound = h.sound; keyed = h.keyed }

pub mark_attempt_rate_limited-Inv :
    (k : ℕ) (s : Store) → Inv s → Inv (mark_attempt_rate_limited k s)
unfolding mark_attempt_rate_limited
mark_attempt_rate_limited-Inv k s h =
    let hit : Attempt → Bool = λ a. a.id == k in
    let mark : Attempt → Attempt = λ a. record a { rate_limited = true } in
    let after = update_where hit mark s.attempts in
    record {
      sound =
          All-map (IsSound s.attempts) (IsSound after) s.tasks
            (λ t g.
              let same = count_where-kept (is_open_pair t.id) hit mark s.attempts (λ a. refl) in
              IsSound-fewer s.attempts after t (omega (arith, same)) g)
            h.sound;
      keyed = h.keyed;
    }

drain_leg-Inv :
    (query : Leg → Option LegDispatch) (now : ℕ) (leg : Leg) (d : Drain)
    → Inv d.store
    → Inv (drain_leg query now leg d).store
unfolding drain_leg
drain_leg-Inv query now leg d h = elim (Option-cases (query leg)) [
  | inl e ↦ rw (drain_leg, e) h
  | inr (v, e) ↦ elim (Bool-cases v.rate_limited) [
    | inl limited ↦ rw (drain_leg, e, limited) h
    | inr free ↦ rw (drain_leg, e, free) (resolve_leg_from_query-Inv leg.id _ now d.store h)
  ]
]

drain_legs-Inv :
    (query : Leg → Option LegDispatch) (now : ℕ) (legs : List Leg) (d : Drain)
    → Inv d.store
    → Inv (drain_legs query now legs d).store
unfolding drain_legs
drain_legs-Inv query now [] d h = h
drain_legs-Inv query now (leg ∷ legs) d h =
    drain_legs-Inv query now legs (drain_leg query now leg d) (drain_leg-Inv query now leg d h)

rate_limited_for_settlement-Inv :
    (a : Attempt) (d : Drain) → Inv d.store → Inv (rate_limited_for_settlement a d).0.store
unfolding rate_limited_for_settlement
rate_limited_for_settlement-Inv a d h = elim (Bool-cases (any (λ k. k == a.id) d.stamp_pending)) [
  | inl e ↦ rw (rate_limited_for_settlement, e) (mark_attempt_rate_limited-Inv a.id d.store h)
  | inr e ↦ rw (rate_limited_for_settlement, e) h
]

settled_store-Inv :
    (task_id k now : ℕ) (limited : Bool) (s : Store)
    → 0 < now
    → Inv s
    → Inv (settled_store task_id k now s (settle_from_legs limited k now s))
settled_store-Inv task_id k now limited s pos h =
    let (s', flag, e, after) = settle_from_legs-Inv limited k now s pos h in rw e after

settle_drained-Inv :
    (task_id now : ℕ) (a : Attempt) (d : Drain)
    → 0 < now
    → Inv d.store
    → Inv (settle_drained task_id now a d).store
unfolding settle_drained
settle_drained-Inv task_id now a d pos h =
    let stamped = rate_limited_for_settlement a d in
    settled_store-Inv task_id a.id now stamped.1 stamped.0.store pos
      (rate_limited_for_settlement-Inv a d h)

settle_one-Inv :
    (task_id now k : ℕ) (d : Drain) → 0 < now → Inv d.store → Inv (settle_one task_id now k d).store
unfolding settle_one
settle_one-Inv task_id now k d pos h = elim (Option-cases (get_attempt d.store k)) [
  | inl e ↦ rw (settle_one, e) (settled_store-Inv task_id k now false d.store pos h)
  | inr (a, e) ↦ rw (settle_one, e) (settle_drained-Inv task_id now a d pos h)
]

settle_finalized-Inv :
    (task_id now : ℕ) (ks : List ℕ) (d : Drain)
    → 0 < now
    → Inv d.store
    → Inv (settle_finalized task_id now ks d).store
unfolding settle_finalized
settle_finalized-Inv task_id now [] d pos h = h
settle_finalized-Inv task_id now (k ∷ ks) d pos h =
    settle_finalized-Inv task_id now ks (settle_one task_id now k d) pos
      (settle_one-Inv task_id now k d pos h)

settle_gaps-Inv :
    (task_id now : ℕ) (gaps : List Attempt) (d : Drain)
    → 0 < now
    → Inv d.store
    → Inv (settle_gaps task_id now gaps d).store
unfolding settle_gaps
settle_gaps-Inv task_id now [] d pos h = h
settle_gaps-Inv task_id now (a ∷ gaps) d pos h =
    settle_gaps-Inv task_id now gaps (settle_drained task_id now a d) pos
      (settle_drained-Inv task_id now a d pos h)

recover_crash_gaps-Inv :
    (task_id now : ℕ) (d : Drain)
    → 0 < now
    → Inv d.store
    → Inv (recover_crash_gaps task_id now d).store
unfolding recover_crash_gaps
recover_crash_gaps-Inv task_id now d pos h =
    settle_gaps-Inv task_id now (list_unsettled_terminal_attempts_for_task task_id d.store) d pos h

-- A drain at a positive time, with whatever answers the exchange gives and however often it was asked
-- before, keeps the invariant of the database: counters that agree with the pairs, and at most one
-- open pair for each task.
pub reconcile_own_legs-Inv :
    (query : Leg → Option LegDispatch) (task_id now : ℕ) (d : Drain)
    → 0 < now
    → Inv d.store
    → Inv (reconcile_own_legs query task_id now d).store
unfolding reconcile_own_legs
reconcile_own_legs-Inv query task_id now d pos h =
    let fresh = record d { finalized = []; signal = none } in
    let drained = drain_legs query now (list_non_terminal_legs_for_task task_id d.store) fresh in
    recover_crash_gaps-Inv task_id now (settle_finalized task_id now drained.finalized drained) pos
      (settle_finalized-Inv task_id now drained.finalized drained pos
        (drain_legs-Inv query now (list_non_terminal_legs_for_task task_id d.store) fresh h))
