-- ===== src/Borrow/Worker/Statuses.antt =====
-- The handlers that write the status of a borrow task.
use binance_funding_hedging.Prelude.{
  Option, ap, ◌∙◌, ◌⊎◌, ℕ, ◌≡◌, ◌≢◌, inl, inr, refl, Bool, true, none, some, Option-cases,
}
use mathlib.Core.Path.{sym}
use binance_funding_hedging.Borrow.Rows.{
  BorrowTask, BorrowStore, BorrowStatus, borrowing, paused, deleted, completed,
}
use binance_funding_hedging.Borrow.Attempts.{find_task}
use binance_funding_hedging.Borrow.Tasks.{set_task_status}
use binance_funding_hedging.Borrow.Service.{
  start_request, pause_request, delete_request, handle, with_task, rewritten, started, post_start,
  post_pause, post_delete,
}
use binance_funding_hedging.Borrow.Worker.{Running, status_written}
use binance_funding_hedging.Borrow.Worker.Effects.{IsWritten, Effect, written, rewritten-store}

Status-cases :
    (st : BorrowStatus) → (st ≡ borrowing) ⊎ ((st ≡ paused) ⊎ ((st ≡ deleted) ⊎ (st ≡ completed)))
Status-cases borrowing = inl refl
Status-cases paused = inr (inl refl)
Status-cases deleted = inr (inr (inl refl))
Status-cases completed = inr (inr (inr refl))

module _ (w : Running) (k now : ℕ) where
  -- The write of a status, answered with the row.
  status-IsWritten :
      (st : BorrowStatus) (live : Option Bool) (s : BorrowStore)
      → s ≡ (rewritten k (set_task_status k st live now w.store)).0
      → IsWritten w (set_task_status k st live now w.store) s
  status-IsWritten st live s e =
      written w _ s (e ∙ rewritten-store k (set_task_status k st live now w.store))
        (status_written w k st live now)

  -- The row that was found is the only one to speak of.
  other-row :
      (t : BorrowTask) (st other : BorrowStatus)
      → find_task w.store k ≡ some t
      → t.status ≡ st
      → st ≢ other
      → (u : BorrowTask) → find_task w.store k ≡ some u
      → u.status ≢ other
  other-row t st other e is ne u f q =
      let same : some t ≡ some u = sym e ∙ f in
      let row : t ≡ u = cc same in ne (sym is ∙ ap (λ (v : BorrowTask). v.status) row ∙ q)

  pub post_start-Effect : Effect (start_request k) now w
  unfolding handle post_start
  post_start-Effect = elim (Option-cases (find_task w.store k)) [
    | inl e ↦ inr (rw (handle, post_start, with_task, e) refl, λ t f. absurd (cc (e, f)))
    | inr (t, e) ↦ elim (Status-cases t.status) [
      | inl st ↦ inr (
        rw (handle, post_start, with_task, e, st) refl,
        other-row t borrowing paused e st (λ q. cc q),
      )
      | inr (inl st) ↦ inl (
        t,
        e,
        st,
        status-IsWritten (started t) (some true) _ (rw (handle, post_start, with_task, e, st) refl),
      )
      | inr (inr (inl st)) ↦ inr (
        rw (handle, post_start, with_task, e, st) refl,
        other-row t deleted paused e st (λ q. cc q),
      )
      | inr (inr (inr st)) ↦ inr (
        rw (handle, post_start, with_task, e, st) refl,
        other-row t completed paused e st (λ q. cc q),
      )
    ]
  ]

  pub post_pause-Effect : Effect (pause_request k) now w
  unfolding handle post_pause
  post_pause-Effect = elim (Option-cases (find_task w.store k)) [
    | inl e ↦ inr (rw (handle, post_pause, with_task, e) refl, λ t f. absurd (cc (e, f)))
    | inr (t, e) ↦ elim (Status-cases t.status) [
      | inl st ↦ inl (
        t,
        e,
        st,
        status-IsWritten paused none _ (rw (handle, post_pause, with_task, e, st) refl),
      )
      | inr (inl st) ↦ inr (
        rw (handle, post_pause, with_task, e, st) refl,
        other-row t paused borrowing e st (λ q. cc q),
      )
      | inr (inr (inl st)) ↦ inr (
        rw (handle, post_pause, with_task, e, st) refl,
        other-row t deleted borrowing e st (λ q. cc q),
      )
      | inr (inr (inr st)) ↦ inr (
        rw (handle, post_pause, with_task, e, st) refl,
        other-row t completed borrowing e st (λ q. cc q),
      )
    ]
  ]

  removed :
      (t : BorrowTask) (st : BorrowStatus)
      → find_task w.store k ≡ some t
      → t.status ≡ st
      → st ≢ deleted
      → handle (delete_request k) now w.store
        ≡ (rewritten k (set_task_status k deleted none now w.store)).0
      → Effect (delete_request k) now w
  removed t st e is ne same =
      inl (t, e, (λ q. ne (sym is ∙ q)), status-IsWritten deleted none _ same)

  pub post_delete-Effect : Effect (delete_request k) now w
  unfolding handle post_delete
  post_delete-Effect = elim (Option-cases (find_task w.store k)) [
    | inl e ↦ inr (rw (handle, post_delete, with_task, e) refl, λ t f. absurd (cc (e, f)))
    | inr (t, e) ↦ elim (Status-cases t.status) [
      | inl st ↦
          removed t borrowing e st (λ q. cc q) (rw (handle, post_delete, with_task, e, st) refl)
      | inr (inl st) ↦
          removed t paused e st (λ q. cc q) (rw (handle, post_delete, with_task, e, st) refl)
      | inr (inr (inl st)) ↦ inr (
        rw (handle, post_delete, with_task, e, st) refl,
        λ u f. let row : t ≡ u = cc (e, f) in ap (λ (v : BorrowTask). v.status) (sym row) ∙ st,
      )
      | inr (inr (inr st)) ↦
          removed t completed e st (λ q. cc q) (rw (handle, post_delete, with_task, e, st) refl)
    ]
  ]
