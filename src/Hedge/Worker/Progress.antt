-- ===== src/Hedge/Worker/Progress.antt =====
-- The drain clears the way for the next pair.
use binance_funding_hedging.Prelude.{
  ℕ, ◌+◌, ◌≡◌, ◌<◌, ◌≤◌, Bool, true, false, some, arith, refl, Bool-cases, inl, inr, any, ◌==◌,
  update_where, count_where-update_find?, is_none, any-count_where, count_where-kept, select-single,
  find?-All, find?-update_first, sym, ap, ◌∙◌,
}
use mathlib.Core.Path.{subst}
use binance_funding_hedging.Hedge.Store.Invariant.Prepare.{get_task-id}
use binance_funding_hedging.Hedge.Store.Rows.{Task, Attempt, Leg, Store}
use binance_funding_hedging.Hedge.Store.Tasks.{is_open_pair, in_flight, get_task, has_id}
use binance_funding_hedging.Hedge.Store.Legs.{mark_attempt_rate_limited}
use binance_funding_hedging.Hedge.Store.Settle.{
  get_attempt, settle, Settlement, settleable, settle_from_legs, closed_legs, from_legs, stamped,
  counted, rollup,
}
use binance_funding_hedging.Hedge.Store.Invariant.{Inv, IsSound, open_pairs}
use binance_funding_hedging.Hedge.Store.Invariant.Settle.{IsVerdict, closed_pair, counted-outcome}
use binance_funding_hedging.Hedge.Store.Invariant.Outcomes.{
  append_log-attempts, settle_from_legs-settles, exposure_from_legs-total,
  category_of_legs-IsVerdict,
}
use binance_funding_hedging.Hedge.Worker.Drain.{
  Drain, is_gap, settled_store, rate_limited_for_settlement, settle_drained, settle_gaps,
  recover_crash_gaps, list_unsettled_terminal_attempts_for_task,
}

-- A settlement closes one pair of its task.
settle-open_pairs :
    (k attempt_id : ℕ) (a : Attempt) (t : Task) (st : Settlement) (now : ℕ)
    → (stamp : Attempt → Attempt) (s : Store)
    → ((b : Attempt) → (stamp b).pair_outcome ≡ b.pair_outcome)
    → get_attempt s attempt_id ≡ some a
    → is_open_pair k a ≡ true
    → IsVerdict st.category
    → open_pairs k (settle attempt_id a t st now stamp s).attempts + 1 ≤ open_pairs k s.attempts
unfolding settle
settle-open_pairs k attempt_id a t st now stamp s keeps found unsettled v =
    let o = (counted st now t).1 in
    let hit : Attempt → Bool = λ b. b.id == attempt_id in
    let f : Attempt → Attempt = λ b. stamp (record b { pair_outcome = o }) in
    let written = record s {
      tasks = update_where (has_id a.task_id) (λ row. (counted st now row).0) s.tasks;
      attempts = update_where hit f s.attempts;
    } in
    let gone : (b : Attempt) → is_open_pair k (f b) ≡ false = λ b.
      let e = keeps (record b { pair_outcome = o }) in
      let some_o = counted-outcome st now t v in closed_pair k (f b) (λ z. some_o (sym e ∙ z)) in
    let fewer = count_where-update_find? (is_open_pair k) hit f s.attempts a gone found unsettled in
    let same = ap (open_pairs k) (append_log-attempts a.task_id now (counted st now t).2 written) in
    omega (arith, same, fewer)

settled_store-open_pairs :
    (k task_id : ℕ) (skip : Bool) (attempt_id now : ℕ) (s : Store) (a : Attempt) (x y : Leg)
    → (t : Task) → 0 < now
    → get_attempt s attempt_id ≡ some a
    → is_open_pair k a ≡ true
    → settleable s attempt_id ≡ some (a, x, y, t)
    → open_pairs k
          (settled_store task_id attempt_id now s (settle_from_legs skip attempt_id now s)).attempts
        + 1
      ≤ open_pairs k s.attempts
settled_store-open_pairs k task_id skip attempt_id now s a x y t pos found unsettled e =
    let (exposure, f) = exposure_from_legs-total x y now pos in
    rw (settle_from_legs-settles skip attempt_id now s a x y t exposure e f) (
      settle-open_pairs k attempt_id a t (from_legs x y exposure skip) now (stamped (rollup x y)) s
        (λ b. refl) found unsettled (category_of_legs-IsVerdict x y))

-- A task's pair that is reserved and not settled, with both of its legs closed.
pub record IsGap (s : Store) (task_id : ℕ) (a : Attempt) : Type 0 where
  pub found : get_attempt s a.id ≡ some a
  pub gap : is_gap s task_id a ≡ true
  pub legs : (x : Leg) × (y : Leg) × (closed_legs s a.id ≡ some (x, y))
  pub task : (t : Task) × (get_task s task_id ≡ some t)

IsGap-open : (s : Store) (k : ℕ) (a : Attempt) → is_gap s k a ≡ true → is_open_pair k a ≡ true
IsGap-open s k a h = ground arith

settleable-found :
    (s : Store) (k : ℕ) (a : Attempt) (x y : Leg) (t : Task)
    → get_attempt s a.id ≡ some a
    → is_none a.pair_outcome ≡ true
    → a.task_id ≡ k
    → closed_legs s a.id ≡ some (x, y)
    → get_task s k ≡ some t
    → settleable s a.id ≡ some (a, x, y, t)
unfolding settleable
settleable-found s k a x y t found unsettled own closed there =
    let there' : get_task s a.task_id ≡ some t = ap (get_task s) own ∙ there in
    rw (settleable, found, unsettled, closed, there') refl

settle_drained-open_pairs :
    (k now : ℕ) (a : Attempt) (d : Drain)
    → 0 < now
    → IsGap d.store k a
    → open_pairs k (settle_drained k now a d).store.attempts + 1 ≤ open_pairs k d.store.attempts
unfolding settle_drained rate_limited_for_settlement mark_attempt_rate_limited closed_legs
settle_drained-open_pairs k now a d pos g =
    let (x, y, closed) = g.legs in
    let (t, there) = g.task in
    let unsettled : is_none a.pair_outcome ≡ true = ground (arith, g.gap) in
    let own : a.task_id ≡ k = ground (arith, g.gap) in
    elim (Bool-cases (any (λ j. j == a.id) d.stamp_pending)) [
      | inr e ↦
          rw (settle_drained, rate_limited_for_settlement, e)
            (settled_store-open_pairs k k a.rate_limited a.id now d.store a x y t pos g.found
              (IsGap-open d.store k a g.gap)
              (settleable-found d.store k a x y t g.found unsettled own closed there))
      | inl e ↦
          let s = mark_attempt_rate_limited a.id d.store in
          let a' = record a { rate_limited = true } in
          let found' : get_attempt s a.id ≡ some a' =
            find?-update_first (λ (b : Attempt). b.id == a.id)
              (λ b. record b { rate_limited = true }) d.store.attempts a (λ b. refl) g.found in
          let same =
            count_where-kept (is_open_pair k) (λ (b : Attempt). b.id == a.id)
              (λ b. record b { rate_limited = true }) d.store.attempts (λ b. refl) in
          let drop =
            settled_store-open_pairs k k true a.id now s a' x y t pos found'
              (IsGap-open d.store k a g.gap)
              (settleable-found s k a' x y t found' unsettled own closed there) in
          rw (settle_drained, rate_limited_for_settlement, e) (omega (arith, drop, same))
    ]

-- A pair that was left with both legs closed, as by a crash before its settlement, is settled by the
-- next drain's last step at a positive time: the task has no pair in flight any more, so that the
-- next one may be reserved.
pub recover_crash_gaps-settles :
    (k now : ℕ) (a : Attempt) (d : Drain)
    → 0 < now
    → Inv d.store
    → IsGap d.store k a
    → in_flight (recover_crash_gaps k now d).store k ≡ false
unfolding recover_crash_gaps list_unsettled_terminal_attempts_for_task settle_gaps
recover_crash_gaps-settles k now a d pos h g =
    let (t, there) = g.task in
    let sound = find?-All (IsSound d.store.attempts) (has_id k) d.store.tasks t h.sound there in
    let t_id = get_task-id k d.store.tasks t there in
    let few : open_pairs k d.store.attempts ≤ 1 =
      subst (λ j. open_pairs j d.store.attempts ≤ 1) t_id sound.single in
    let only =
      select-single (is_gap d.store k) (is_open_pair k) (λ (b : Attempt). b.id == a.id)
        d.store.attempts a (IsGap-open d.store k) few g.found g.gap in
    let drop = settle_drained-open_pairs k now a d pos g in
    rw (recover_crash_gaps, list_unsettled_terminal_attempts_for_task, only)
      (any-count_where (is_open_pair k) (settle_drained k now a d).store.attempts (omega arith))
