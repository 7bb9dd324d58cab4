-- ===== src/Borrow/Marker.antt =====
-- What the resolution of an attempt does to its task.
use binance_funding_hedging.Prelude.{
  ℕ, ◌+◌, ◌≡◌, ◌≢◌, ◌≤◌, inl, inr, refl, true, none, some, List, arith, Option-cases, find?,
  find?-update_first, ◌==◌,
}
use binance_funding_hedging.Borrow.Rows.{
  BorrowTask, BorrowAttempt, BorrowStore, ExecutorResult, success, deleted, completed,
  is_coalesceable,
}
use binance_funding_hedging.Borrow.Attempts.{
  is_task, find_task, resolve_status, resolve_attempt, coalesce_attempt, record_attempt,
  coalesced_into, result_written, refreshed,
}

-- What a result may do to a task's row.
pub record Resolved (r : ExecutorResult) (t u : BorrowTask) : Type 0 where
  pub released : u.unresolved_attempt_id ≡ none
  pub borrowed : r.result_category ≡ success → u.success_count ≡ t.success_count + 1
  pub not_borrowed :
      r.result_category ≢ success → (u.success_count ≡ t.success_count) × (u.status ≡ t.status)
  pub still_deleted : t.status ≡ deleted → u.status ≡ deleted
  pub moved :
      u.status ≢ t.status → (u.status ≡ completed) × (t.success_target ≤ t.success_count + 1)

result_written-Resolved :
    (r : ExecutorResult) (finished : ℕ) (t : BorrowTask)
    → Resolved r t (result_written r finished t)
unfolding result_written resolve_status
result_written-Resolved r finished t = record {
  released = refl;
  borrowed = λ e. ground arith;
  not_borrowed = λ e. (ground arith, ground arith);
  still_deleted = λ e. ground arith;
  moved = λ e. (ground arith, ground arith);
}

refreshed-Resolved :
    (r : ExecutorResult) (finished : ℕ) (t : BorrowTask)
    → is_coalesceable r.result_category ≡ true
    → Resolved r t (refreshed finished t)
refreshed-Resolved r finished t c = record {
  released = refl;
  borrowed = λ e. ground arith;
  not_borrowed = λ e. (refl, refl);
  still_deleted = λ e. e;
  moved = λ e. absurd (e refl);
}

coalesced_into-coalesceable :
    (r : ExecutorResult) (t : BorrowTask) (attempt_id k : ℕ) (attempts : List BorrowAttempt)
    → coalesced_into r t attempt_id attempts ≡ some k
    → is_coalesceable r.result_category ≡ true
unfolding coalesced_into
coalesced_into-coalesceable r t attempt_id k attempts h = ground arith

find_task-recorded :
    (r : ExecutorResult) (k attempt_id finished : ℕ) (s : BorrowStore) (t : BorrowTask)
    → find_task s k ≡ some t
    → find_task (record_attempt r k attempt_id finished s) k ≡ some (result_written r finished t)
unfolding record_attempt result_written
find_task-recorded r k attempt_id finished s t h =
    find?-update_first (is_task k) (result_written r finished) s.tasks t (λ u. refl) h

find_task-coalesced :
    (r : ExecutorResult) (k attempt_id kept finished : ℕ) (s : BorrowStore) (t : BorrowTask)
    → find_task s k ≡ some t
    → find_task (coalesce_attempt r k attempt_id kept finished s) k ≡ some (refreshed finished t)
unfolding coalesce_attempt
find_task-coalesced r k attempt_id kept finished s t h =
    find?-update_first (is_task k) (refreshed finished) s.tasks t (λ u. refl) h

-- The resolution of an attempt, recorded or coalesced and whatever its result, releases its task; a
-- success counts one more, another result leaves count and status; a deleted task stays deleted, and
-- a status changes only to completed, on reaching the target.
pub resolve_attempt-Resolved :
    (attempt_id : ℕ) (r : ExecutorResult) (finished : ℕ) (s : BorrowStore) (a : BorrowAttempt)
    → (t : BorrowTask) → find? (λ b. b.id == attempt_id) s.attempts ≡ some a
    → find_task s a.task_id ≡ some t
    → (u : BorrowTask) × (find_task (resolve_attempt attempt_id r finished s).0 a.task_id ≡ some u)
      × Resolved r t u
unfolding resolve_attempt
resolve_attempt-Resolved attempt_id r finished s a t e f =
    elim (Option-cases (coalesced_into r t attempt_id s.attempts)) [
      | inl g ↦ (
        result_written r finished t,
        rw (resolve_attempt, e, f, g) (find_task-recorded r a.task_id attempt_id finished s t f),
        result_written-Resolved r finished t,
      )
      | inr (k, g) ↦ (
        refreshed finished t,
        rw (resolve_attempt, e, f, g) (find_task-coalesced r a.task_id attempt_id k finished s t f),
        refreshed-Resolved r finished t (coalesced_into-coalesceable r t attempt_id k s.attempts g),
      )
    ]
