-- ===== src/Borrow/Attempts/Insert.antt =====
-- The insertion of a pending attempt behind its gates: insert_pending_attempt of
-- backend/borrow_tasks/store.py.
use binance_funding_hedging.Prelude.{
  ℕ, ◌+◌, Bool, not, Option, none, some, List, [], ◌∷◌, String, if◌then◌else◌, leb, ◌==◌, ◌&&◌,
  ◌||◌, find?, update_where, is_none, max,
}
use binance_funding_hedging.Borrow.Rows.{
  pending, BorrowTask, BorrowAttempt, BorrowSettings, BorrowStore, is_borrowing,
}
use binance_funding_hedging.Borrow.Settings.{is_cooling}

abbrev pub is_task : ℕ → BorrowTask → Bool
is_task task_id t = t.id == task_id

abbrev pub find_task : BorrowStore → ℕ → Option BorrowTask
find_task s task_id = find? (is_task task_id) s.tasks

-- The live gates on the task and the settings at the time of the dispatch.
abbrev pub live_open : BorrowTask → BorrowSettings → ℕ → Bool
live_open t settings dispatched_at_us =
    t.live_authorized
    && settings.execution_enabled
    && not settings.requires_rearm
    && not (is_cooling settings.global_cooldown_until_us dispatched_at_us)

abbrev pub may_insert : Bool → BorrowTask → BorrowSettings → ℕ → Bool
may_insert live_gates t settings dispatched_at_us =
    is_borrowing t.status
    && is_none t.unresolved_attempt_id
    && not (leb t.success_target t.success_count)
    && (not live_gates || live_open t settings dispatched_at_us)

-- COALESCE(MAX(sequence), 0) of a task
unfoldable pub last_sequence : ℕ → List BorrowAttempt → ℕ
last_sequence task_id [] = 0
last_sequence task_id (a ∷ rest) =
    let highest = last_sequence task_id rest in
    if a.task_id == task_id then max a.sequence highest else highest

abbrev pub pending_row : ℕ → ℕ → String → ℕ → String → ℕ → ℕ → BorrowAttempt
pending_row attempt_id task_id asset sequence amount scheduled_at_us dispatched_at_us = record {
  id = attempt_id;
  task_id = task_id;
  asset = asset;
  sequence = sequence;
  outcome = pending;
  result_category = none;
  business_code = none;
  reason = none;
  http_status = none;
  tran_id = none;
  requested_amount = amount;
  scheduled_at_us = scheduled_at_us;
  dispatched_at_us = some dispatched_at_us;
  finished_at_us = none;
}

abbrev pub marked : ℕ → ℕ → BorrowTask → BorrowTask
marked attempt_id dispatched_at_us t = record t {
  unresolved_attempt_id = some attempt_id;
  version = t.version + 1;
  updated_at_us = dispatched_at_us;
}

-- The row, the cursor and the marker, once the gates are passed.
unfoldable pub insert_row : ℕ → String → String → ℕ → ℕ → ℕ → BorrowStore → BorrowStore
unfolding last_sequence
insert_row task_id asset amount scheduled_at_us dispatched_at_us cursor s =
    let attempt_id = s.next_attempt_id in
    record s {
      attempts =
          pending_row attempt_id task_id asset (last_sequence task_id s.attempts + 1) amount
            scheduled_at_us dispatched_at_us
          ∷ s.attempts;
      settings = record s.settings {
        round_robin_cursor = some cursor;
        version = s.settings.version + 1;
        updated_at_us = scheduled_at_us;
      };
      tasks = update_where (is_task task_id) (marked attempt_id dispatched_at_us) s.tasks;
      next_attempt_id = attempt_id + 1;
    }

-- The new database and the id of the attempt, if one was made.
unfoldable pub insert_pending_attempt :
    ℕ → String → String → ℕ → ℕ → ℕ → Bool → BorrowStore → BorrowStore × Option ℕ
unfolding insert_row
insert_pending_attempt task_id asset amount scheduled_at_us dispatched_at_us cursor live_gates s =
    elim (find_task s task_id) [
      | none ↦ (s, none)
      | some t ↦
          if may_insert live_gates t s.settings dispatched_at_us
          then (
            insert_row task_id asset amount scheduled_at_us dispatched_at_us cursor s,
            some s.next_attempt_id,
          )
          else (s, none)
    ]
