-- ===== src/Hedge/Store/Creation/Eligible.antt =====
-- The filter of `list_eligible_tasks` against the checks of `prepare_attempt`, and what the creation
-- of a task does to the invariant of the database.
use binance_funding_hedging.Prelude.{
  ℕ, ◌+◌, ◌≡◌, ◌≢◌, Bool, false, not, none, some, List, [], ◌∷◌, arith, refl, Bool-cases,
  Option-cases, inl, inr, ◌&&◌, ◌||◌, All, All-map, any, select, find?, is_some, ◌∙◌, sym,
}
use binance_funding_hedging.Hedge.Vocabulary.{is_smooth}
use binance_funding_hedging.Hedge.Store.Rows.{Task, Attempt, Store}
use binance_funding_hedging.Hedge.Store.Counters.Laws.{IsCounted}
use binance_funding_hedging.Hedge.Store.Tasks.{get_task, has_id, in_flight}
use binance_funding_hedging.Hedge.Store.Prepare.{Plan, gate_passed, may_prepare, prepare_attempt}
use binance_funding_hedging.Hedge.Store.Creation.{
  NewTask, created_task, create_task, last_created, is_eligible, older, insert_task, sort_tasks,
  list_eligible_tasks,
}
use binance_funding_hedging.Hedge.Store.Invariant.{Keyed, IsSound, Inv, open_pairs}
use binance_funding_hedging.Hedge.Store.Invariant.Prepare.{has_id-eq}

module _ (p : Task → Bool) where
  any-insert_task : (t : Task) (ts : List Task) → any p (insert_task t ts) ≡ (p t || any p ts)
  unfolding insert_task
  any-insert_task t [] = ground arith
  any-insert_task t (u ∷ us) =
      let rest = any-insert_task t us in
      elim (Bool-cases (older t u)) [
        | inl e ↦ rw (insert_task, e) (ground arith)
        | inr e ↦ rw (insert_task, e) (ground arith)
      ]

  any-sort_tasks : (ts : List Task) → any p (sort_tasks ts) ≡ any p ts
  unfolding sort_tasks
  any-sort_tasks [] = refl
  any-sort_tasks (t ∷ ts) =
      let first = any-insert_task t (sort_tasks ts) in let rest = any-sort_tasks ts in ground arith

  any-select :
      (q r : Task → Bool) (ts : List Task)
      → any (λ t. p t && r t) (select q ts) ≡ any (λ t. p t && (q t && r t)) ts
  any-select q r [] = refl
  any-select q r (t ∷ ts) =
      let rest = any-select q r ts in
      elim (Bool-cases (q t)) [ inl e ↦ rw e (ground arith) | inr e ↦ rw e (ground arith) ]

any-absent :
    (k : ℕ) (r : Task → Bool) (ts : List Task)
    → All (λ u. u.id ≢ k) ts
    → any (λ t. has_id k t && r t) ts ≡ false
any-absent k r [] h = refl
any-absent k r (t ∷ ts) h = let rest = any-absent k r ts h.1 in let ne = h.0 in ground arith

-- A test on the rows of an id is the test on the row that a read by the id gives.
any-get_task :
    (k : ℕ) (r : Task → Bool) (ts : List Task)
    → Keyed ts
    → any (λ t. has_id k t && r t) ts ≡ elim (find? (has_id k) ts) [ none ↦ false | some t ↦ r t ]
any-get_task k r [] h = refl
any-get_task k r (t ∷ ts) h = elim (Bool-cases (has_id k t)) [
  | inl own ↦
      let id_of : t.id ≡ k = has_id-eq k t own in
      let rest =
        any-absent k r ts
          (All-map (λ u. u.id ≢ t.id) (λ u. u.id ≢ k) ts (λ u ne e. ne (e ∙ sym id_of)) h.0) in
      rw own (ground arith)
  | inr other ↦ rw other (any-get_task k r ts h.1)
]

-- The last check of `prepare_attempt`, which the scheduler's filter does not make.
abbrev pub passes : Plan → Task → Bool
passes plan t = not (is_smooth t.mode) || gate_passed t plan

same_checks :
    (s : Store) (t : Task) (plan : Plan)
    → (may_prepare t plan && not (in_flight s t.id)) ≡ (is_eligible s t && passes plan t)
same_checks s t plan = ground arith

-- A pair is reserved for a task exactly if the scheduler lists the task as eligible and the plan
-- passes the gate that a smooth task has; the tasks' ids are distinct.
pub list_eligible_tasks-prepare :
    (k : ℕ) (plan : Plan) (cycle now : ℕ) (s : Store)
    → Keyed s.tasks
    → is_some (prepare_attempt k plan cycle now s).1
      ≡ any (λ t. has_id k t && passes plan t) (list_eligible_tasks s)
unfolding prepare_attempt list_eligible_tasks
list_eligible_tasks-prepare k plan cycle now s h =
    let listed =
      any-sort_tasks (λ t. has_id k t && passes plan t) (select (is_eligible s) s.tasks)
      ∙ any-select (has_id k) (is_eligible s) (passes plan) s.tasks
      ∙ any-get_task k (λ t. is_eligible s t && passes plan t) s.tasks h in
    elim (Option-cases (get_task s k)) [
      | inl e ↦ rw (list_eligible_tasks, listed, prepare_attempt, e) refl
      | inr (t, e) ↦ elim (Bool-cases (may_prepare t plan && not (in_flight s t.id))) [
        | inl go ↦
            rw (list_eligible_tasks, listed, prepare_attempt, e, go)
              (sym (sym (same_checks s t plan) ∙ go))
        | inr refused ↦
            rw (list_eligible_tasks, listed, prepare_attempt, e, refused)
              (sym (sym (same_checks s t plan) ∙ refused))
      ]
    ]

created_task-IsCounted :
    (task_id : ℕ) (n : NewTask) (seq now k : ℕ)
    → k ≡ 0
    → IsCounted (created_task task_id n seq now) k
created_task-IsCounted task_id n seq now k zero = ground arith

created_task-IsSound :
    (attempts : List Attempt) (task_id : ℕ) (n : NewTask) (seq now : ℕ)
    → open_pairs task_id attempts ≡ 0
    → IsSound attempts (created_task task_id n seq now)
created_task-IsSound attempts task_id n seq now none_open = record {
  counts = created_task-IsCounted task_id n seq now (open_pairs task_id attempts) none_open;
  single = omega arith;
}

no_open_pairs :
    (k : ℕ) (attempts : List Attempt)
    → All (λ a. a.task_id ≢ k) attempts
    → open_pairs k attempts ≡ 0
no_open_pairs k [] h = refl
no_open_pairs k (a ∷ rest) h = let others = no_open_pairs k rest h.1 in let ne = h.0 in ground arith

-- The creation of a task under an id that no task has and no attempt refers to keeps the invariant
-- of the database.
pub create_task-Inv :
    (task_id : ℕ) (n : NewTask) (now : ℕ) (s : Store)
    → All (λ u. u.id ≢ task_id) s.tasks
    → All (λ a. a.task_id ≢ task_id) s.attempts
    → Inv s
    → Inv (create_task task_id n now s)
unfolding create_task
create_task-Inv task_id n now s fresh unused h = record {
  sound = (
    created_task-IsSound s.attempts task_id n (last_created s.tasks + 1) now
        (no_open_pairs task_id s.attempts unused),
    h.sound,
  );
  keyed = (fresh, h.keyed);
}
