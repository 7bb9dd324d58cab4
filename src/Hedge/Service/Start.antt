-- ===== src/Hedge/Service/Start.antt =====
-- What the start of a smooth close guards against.
use binance_funding_hedging.Prelude.{
  ℕ, ◌≡◌, ◌⊎◌, Bool, true, false, some, inl, inr, refl, arith, Bool-cases, ◌∙◌, sym, ap, ◌&&◌,
}
use binance_funding_hedging.Hedge.Errors.{IsRefused, invalid_state, Result, ok, err}
use binance_funding_hedging.Hedge.Vocabulary.{
  Status, is_paused, running, paused, done, stopped, deleted,
}
use binance_funding_hedging.Hedge.Attempt.{truthy}
use binance_funding_hedging.Hedge.Store.Rows.{Task, Store}
use binance_funding_hedging.Hedge.Store.Tasks.{
  get_task, update_task, resume_paused_task, arm_prepared_close_task,
}
use binance_funding_hedging.Hedge.Store.Invariant.{Inv}
use binance_funding_hedging.Hedge.Store.Invariant.Terminal.{
  stop_task_fatal-terminal, update_task-none, update_task-row,
}
use binance_funding_hedging.Hedge.Worker.Dispatch.{pause_task_local}
use binance_funding_hedging.Hedge.Service.{
  Preparation, incomplete, signalled, used_up, ready, conflict_from,
  resolve_smooth_close_start_conflict, or_conflict, finish_start, start_smooth_close, rewritten,
}

-- A task that is not to run any more.
abbrev pub IsEnded : Task → Type 0
IsEnded t = (t.status ≡ done) ⊎ ((t.status ≡ stopped) ⊎ (t.status ≡ deleted))

conflict_from-ended :
    (t : Task) (k later : ℕ) (s : Store)
    → IsEnded t
    → conflict_from t k later s ≡ (s, err invalid_state)
conflict_from-ended t k later s (inl e) = rw e refl
conflict_from-ended t k later s (inr (inl e)) = rw e refl
conflict_from-ended t k later s (inr (inr e)) = rw e refl

conflict-ended :
    (k later : ℕ) (s : Store) (t : Task)
    → get_task s k ≡ some t
    → IsEnded t
    → or_conflict k later (s, false) ≡ (s, err invalid_state)
unfolding or_conflict resolve_smooth_close_start_conflict
conflict-ended k later s t found ended =
    rw (or_conflict, resolve_smooth_close_start_conflict, found)
      (conflict_from-ended t k later s ended)

-- A task that other requests have brought to its end while the close was being prepared is not
-- started: whatever the preparation gives, the start is refused and no task is changed.
pub finish_start-ended :
    (p : Preparation) (k now later : ℕ) (s : Store) (t : Task)
    → Inv s
    → get_task s k ≡ some t
    → IsEnded t
    → IsRefused (finish_start p k now later s).1
      × ((finish_start p k now later s).0.tasks ≡ s.tasks)
unfolding finish_start pause_task_local
finish_start-ended (incomplete zh) k now later s t h found ended =
    let (_, pauses, _, _) = stop_task_fatal-terminal k now s t h found ended in
    ((_, refl), ap (λ (d : Store × Bool). d.0.tasks) (pauses _ zh))
finish_start-ended signalled k now later s t h found ended = ((_, refl), refl)
finish_start-ended used_up k now later s t h found ended = ((_, refl), refl)
finish_start-ended (ready q mode snapshot) k now later s t h found ended =
    let (_, _, _, arms) = stop_task_fatal-terminal k now s t h found ended in
    let answer =
      ap (or_conflict k later) (arms q mode snapshot) ∙ conflict-ended k later s t found ended in
    (
      (_, ap (λ (d : Store × Result Task). d.1) answer),
      ap (λ (d : Store × Result Task). d.0.tasks) answer,
    )

rewritten-row :
    (k : ℕ) (s : Store) (t u : Task) → get_task s k ≡ some t → (rewritten k s).1 ≡ ok u → t ≡ u
rewritten-row k s t u found answer = ground arith

Status-cases :
    (st : Status)
    → (st ≡ running) ⊎ ((st ≡ paused) ⊎ ((st ≡ done) ⊎ ((st ≡ stopped) ⊎ (st ≡ deleted))))
Status-cases running = inl refl
Status-cases paused = inr (inl refl)
Status-cases done = inr (inr (inl refl))
Status-cases stopped = inr (inr (inr (inl refl)))
Status-cases deleted = inr (inr (inr (inr refl)))

module _ (k later : ℕ) (s : Store) (t u : Task) (h : Inv s) (found : get_task s k ≡ some t) where
  paused-running : t.status ≡ paused → (conflict_from t k later s).1 ≡ ok u → u.status ≡ running
  unfolding resume_paused_task
  paused-running waits answer =
      elim (Bool-cases (truthy t.q_common && (resume_paused_task k later s).1)) [
        | inl go ↦
            let written : (rewritten k (resume_paused_task k later s).0).1 ≡ ok u = ground arith in
            let (_, row) =
              update_task-row k (λ v. is_paused v.status) _ s t (λ v. refl) found (ground arith) in
            let same = rewritten-row k (resume_paused_task k later s).0 _ u row written in
            ap (λ (v : Task). v.status) (sym same)
        | inr refused ↦ ground arith
      ]

  conflict_from-running : (conflict_from t k later s).1 ≡ ok u → u.status ≡ running
  conflict_from-running answer = elim (Status-cases t.status) [
    | inl runs ↦ ground arith
    | inr (inl waits) ↦ paused-running waits answer
    | inr (inr ended) ↦ let refusal = conflict_from-ended t k later s ended in cc (answer, refusal)
  ]

  -- A conditional write of a running row, and what becomes of it where it finds none.
  or_conflict-running :
      (hit : Task → Bool) (f : Task → Task)
      → ((v : Task) → (f v).id ≡ v.id)
      → ((v : Task) → (f v).status ≡ running)
      → (or_conflict k later (update_task k hit f s)).1 ≡ ok u
      → u.status ≡ running
  unfolding or_conflict resolve_smooth_close_start_conflict
  or_conflict-running hit f same runs answer = elim (Bool-cases (hit t)) [
    | inl e ↦
        let (wrote, row) = update_task-row k hit f s t same found e in
        let written : (rewritten k (update_task k hit f s).0).1 ≡ ok u = ground arith in
        let own = rewritten-row k (update_task k hit f s).0 (f t) u row written in
        ap (λ (v : Task). v.status) (sym own) ∙ runs t
    | inr miss ↦
        let unchanged = update_task-none k hit f s t h found miss in
        conflict_from-running (ground arith)
  ]

finish_start-running :
    (p : Preparation) (k now later : ℕ) (s : Store) (t u : Task)
    → Inv s
    → get_task s k ≡ some t
    → (finish_start p k now later s).1 ≡ ok u
    → u.status ≡ running
unfolding finish_start arm_prepared_close_task
finish_start-running (incomplete zh) k now later s t u h found answer = cc answer
finish_start-running signalled k now later s t u h found answer = cc answer
finish_start-running used_up k now later s t u h found answer = cc answer
finish_start-running (ready q mode snapshot) k now later s t u h found answer =
    or_conflict-running k later s t u h found _ _ (λ v. refl) (λ v. refl) answer

-- The start of a smooth close answers with a task only if both gates are on in the database that it is
-- called with, before it prepares anything; a gate that is turned off during the preparation is not seen.
-- The task that it answers with is running, whatever the preparation did to a sound database that still
-- has the task.
pub start_smooth_close-gated :
    (prepare : Task → ℕ → Store → Store × Preparation) (t v u : Task) (now later : ℕ) (s : Store)
    → Inv s
    → get_task s t.id ≡ some t
    → Inv (prepare t now s).0
    → get_task (prepare t now s).0 t.id ≡ some v
    → (start_smooth_close prepare t now later s).1 ≡ ok u
    → (s.settings.start_gate ≡ true) × (s.settings.close_gate ≡ true) × (u.status ≡ running)
unfolding start_smooth_close resume_paused_task
start_smooth_close-gated prepare t v u now later s h found h' kept answer =
    elim (Bool-cases s.settings.start_gate) [
      | inr off ↦ ground arith
      | inl on ↦ elim (Bool-cases s.settings.close_gate) [
        | inr off ↦ ground arith
        | inl on' ↦ elim (Bool-cases (truthy t.q_common)) [
          | inl armed ↦
              let taken : (or_conflict t.id later (resume_paused_task t.id now s)).1 ≡ ok u =
                ground arith in
              (
                on,
                on',
                or_conflict-running t.id later s t u h found (λ w. is_paused w.status) _ (λ w. refl)
                    (λ w. refl) taken,
              )
          | inr raw ↦ (
            on,
            on',
            finish_start-running (prepare t now s).1 t.id now later (prepare t now s).0 v u h' kept
                (ground arith),
          )
        ]
      ]
    ]
