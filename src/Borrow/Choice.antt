-- ===== src/Borrow/Choice.antt =====
-- Which task borrows next: list_eligible_tasks of backend/borrow_tasks/store.py and select_next_task
-- of backend/borrow_tasks/scheduler.py.
use binance_funding_hedging.Prelude.{
  ℕ, Bool, Option, none, some, List, [], ◌∷◌, ltb, ◌==◌, ◌&&◌, find?, select, is_none,
}
use binance_funding_hedging.Borrow.Rows.{BorrowTask, is_borrowing}

-- WHERE of list_eligible_tasks
abbrev pub is_eligible : BorrowTask → Bool
is_eligible t =
    is_borrowing t.status
    && is_none t.unresolved_attempt_id
    && t.live_authorized
    && ltb t.success_count t.success_target

-- ORDER BY creation_seq ASC: the table is kept in the order of creation.
unfoldable pub list_eligible_tasks : List BorrowTask → List BorrowTask
list_eligible_tasks tasks = select is_eligible tasks

-- The first task behind a place in the order of creation.
abbrev pub next_after : ℕ → List BorrowTask → Option BorrowTask
next_after seq tasks = find? (λ t. ltb seq t.creation_seq) tasks

unfoldable pub select_next_task : List BorrowTask → Option ℕ → Option BorrowTask
select_next_task [] cursor = none
select_next_task (first ∷ rest) none = some first
select_next_task (first ∷ rest) (some cursor) = elim (find? (λ t. t.id == cursor) (first ∷ rest)) [
  | none ↦ some first
  | some last ↦ elim (next_after last.creation_seq (first ∷ rest)) [
    | some t ↦ some t
    | none ↦ some first
  ]
]
