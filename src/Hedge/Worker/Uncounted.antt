-- ===== src/Hedge/Worker/Uncounted.antt =====
-- A pair that met a rate limit counts for nothing.
use binance_funding_hedging.Prelude.{
  ℕ, ◌≡◌, ◌<◌, Bool, true, false, Option, none, some, List, [], ◌∷◌, arith, refl, Option-cases,
  Bool-cases, inl, inr, any, update_where, ◌==◌, find?-update_first, sym, ◌∙◌,
}
use mathlib.Core.Path.{subst}
use binance_funding_hedging.Hedge.Errors.{ok}
use binance_funding_hedging.Hedge.Vocabulary.{AttemptCategory, TaskType, PairOutcome}
use binance_funding_hedging.Hedge.Attempt.{LegExposure}
use binance_funding_hedging.Hedge.Store.Rows.{Task, Attempt, Leg, Store, LogEntry}
use binance_funding_hedging.Hedge.Store.Counters.{
  apply_task_counters, verdict, skip_verdict, settle_done,
}
use binance_funding_hedging.Hedge.Store.Tasks.{has_id}
use binance_funding_hedging.Hedge.Store.Legs.{mark_attempt_rate_limited}
use binance_funding_hedging.Hedge.Store.Settle.{
  get_attempt, settle, settleable, settle_from_legs, from_legs, stamped, counted, rollup,
  category_of_legs, append_log,
}
use binance_funding_hedging.Hedge.Store.Invariant.Outcomes.{
  settle_from_legs-settles, exposure_from_legs-total, settle_from_legs-idle,
}
use binance_funding_hedging.Hedge.Worker.Drain.{
  Drain, rate_limited_for_settlement, settled_store, settle_drained,
}
use binance_funding_hedging.Hedge.Worker.Dispatch.{
  LiveAttemptDispatch, has_querying, rate_limited_store, dispatch_live,
}
use binance_funding_hedging.Hedge.Worker.Verdicts.{signal_rate_limited}
use binance_funding_hedging.Hedge.Worker.Settled.{mark_legs_querying-IsQuiet}

-- What a task has counted.
pub record Counts : Type 0 where
  pub accepted : ℕ
  pub succeeded : ℕ
  pub failed_in_all : ℕ
  pub failed_in_a_row : ℕ

abbrev pub counts_of : Task → Counts
counts_of t = record {
  accepted = t.accepted_pair_count;
  succeeded = t.success_count;
  failed_in_all = t.fail_count;
  failed_in_a_row = t.consecutive_submission_failures;
}

-- The tasks have counted the same.
abbrev pub AreCountsKept : List Task → List Task → Type 0
AreCountsKept [] [] = Unit
AreCountsKept (t ∷ ts) (u ∷ us) = (counts_of u ≡ counts_of t) × AreCountsKept ts us
AreCountsKept _ _ = ⊥

AreCountsKept-refl : (ts : List Task) → AreCountsKept ts ts
AreCountsKept-refl [] = tt
AreCountsKept-refl (t ∷ ts) = (refl, AreCountsKept-refl ts)

AreCountsKept-update_where :
    (p : Task → Bool) (f : Task → Task) (ts : List Task)
    → ((t : Task) → counts_of (f t) ≡ counts_of t)
    → AreCountsKept ts (update_where p f ts)
AreCountsKept-update_where p f [] h = tt
AreCountsKept-update_where p f (t ∷ ts) h =
    let rest = AreCountsKept-update_where p f ts h in
    elim (Bool-cases (p t)) [ inl e ↦ rw e (h t, rest) | inr e ↦ rw e (refl, rest) ]

append_log-tasks :
    (task_id now : ℕ) (entry : Option LogEntry) (s : Store)
    → (append_log task_id now entry s).tasks ≡ s.tasks
append_log-tasks task_id now none s = refl
append_log-tasks task_id now (some entry) s = refl

skip_verdict-counts :
    (c : AttemptCategory) (x : Option LegExposure) (t : Task)
    → counts_of (skip_verdict c x t).0 ≡ counts_of t
unfolding skip_verdict
skip_verdict-counts c x t = ground arith

settle_done-counts :
    (skip suppress : Bool) (t : Task) (o : Option PairOutcome)
    → counts_of (settle_done skip suppress t o) ≡ counts_of t
unfolding settle_done
settle_done-counts skip suppress t o = ground arith

counted-counts :
    (x y : Leg) (exposure : Option LegExposure) (now : ℕ) (t : Task)
    → counts_of (counted (from_legs x y exposure true) now t).0 ≡ counts_of t
unfolding apply_task_counters verdict
counted-counts x y exposure now t =
    let c = category_of_legs x y in
    settle_done-counts true false (skip_verdict c exposure t).0 (skip_verdict c exposure t).1
    ∙ skip_verdict-counts c exposure t

settle-counts :
    (k : ℕ) (a : Attempt) (t : Task) (x y : Leg) (exposure : Option LegExposure) (now : ℕ)
    → (stamp : Attempt → Attempt) (s : Store)
    → AreCountsKept s.tasks (settle k a t (from_legs x y exposure true) now stamp s).tasks
unfolding settle
settle-counts k a t x y exposure now stamp s =
    rw (append_log-tasks a.task_id now (counted (from_legs x y exposure true) now t).2 _) (
      AreCountsKept-update_where (has_id a.task_id)
        (λ row. (counted (from_legs x y exposure true) now row).0) s.tasks
        (counted-counts x y exposure now))

settled_store-counts :
    (task_id k now : ℕ) (s : Store)
    → 0 < now
    → AreCountsKept s.tasks (settled_store task_id k now s (settle_from_legs true k now s)).tasks
settled_store-counts task_id k now s pos = elim (Option-cases (settleable s k)) [
  | inl e ↦ rw (settle_from_legs-idle true k now s e) (AreCountsKept-refl s.tasks)
  | inr ((a, x, y, t), e) ↦
      let (exposure, f) = exposure_from_legs-total x y now pos in
      rw (settle_from_legs-settles true k now s a x y t exposure e f)
        (settle-counts k a t x y exposure now (stamped (rollup x y)) s)
]

-- The settlement of a pair that is stamped as rate limited, at a positive time and whatever its legs
-- came to, changes no count of any task: neither an accepted pair nor a failure is counted.
pub settle_drained-uncounted :
    (task_id now : ℕ) (a : Attempt) (d : Drain)
    → 0 < now
    → a.rate_limited ≡ true
    → AreCountsKept d.store.tasks (settle_drained task_id now a d).store.tasks
unfolding settle_drained rate_limited_for_settlement mark_attempt_rate_limited
settle_drained-uncounted task_id now a d pos limited =
    elim (Bool-cases (any (λ k. k == a.id) d.stamp_pending)) [
      | inl e ↦
          rw (settle_drained, rate_limited_for_settlement, e)
            (settled_store-counts task_id a.id now (mark_attempt_rate_limited a.id d.store) pos)
      | inr e ↦
          rw (settle_drained, rate_limited_for_settlement, e)
            (subst
              (λ b.
                AreCountsKept d.store.tasks
                  (settled_store task_id a.id now d.store
                    (settle_from_legs b a.id now d.store)).tasks)
              (sym limited) (settled_store-counts task_id a.id now d.store pos))
    ]

-- A dispatch that met a rate limit settles nothing: it leaves every task as it was, tells the worker
-- of the limit, and stamps the attempt, whatever the two legs answered.
pub dispatch_live-stamps :
    (task_id k : ℕ) (task_type : TaskType) (d : LiveAttemptDispatch) (now : ℕ) (s : Store)
    → (a : Attempt) → d.rate_limited ≡ true
    → get_attempt s k ≡ some a
    → (s' : Store) × (dispatch_live task_id k task_type d now s ≡ ok (s', some signal_rate_limited))
      × (s'.tasks ≡ s.tasks)
      × (get_attempt s' k ≡ some (record a { rate_limited = true }))
unfolding dispatch_live mark_attempt_rate_limited
dispatch_live-stamps task_id k task_type d now s a limited found =
    let (_, marked_tasks, marked_attempts) = mark_legs_querying-IsQuiet k d now s in
    let mark : Attempt → Attempt = λ b. record b { rate_limited = true } in
    (
      rate_limited_store task_id k d now s,
      rw (dispatch_live, limited) refl,
      elim (Bool-cases (has_querying d)) [ inl q ↦ rw q marked_tasks | inr q ↦ rw q refl ],
      find?-update_first (λ (b : Attempt). b.id == k) mark _ a (λ b. refl)
          (elim (Bool-cases (has_querying d)) [
            | inl q ↦ rw (q, marked_attempts) found
            | inr q ↦ rw q found
          ]),
    )
