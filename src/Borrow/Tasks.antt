-- ===== src/Borrow/Tasks.antt =====
-- The writes to the borrow tasks: create_task, set_task_status, edit_task, clear_attempt_logs and the
-- recovery at the start of a new owner, of backend/borrow_tasks/store.py.
use binance_funding_hedging.Prelude.{
  ℕ, ◌+◌, Bool, true, false, Option, none, some, List, [], ◌∷◌, ◌++◌, String, ◌==◌, ◌&&◌,
  update_where, select, any, is_some, max, coalesce,
}
use binance_funding_hedging.Borrow.Rows.{
  BorrowStatus, borrowing, unknown, pending, resolved, BorrowTask, BorrowAttempt, BorrowStore,
}
use binance_funding_hedging.Borrow.Attempts.{is_task}

-- COALESCE(MAX(creation_seq), 0)
unfoldable pub last_created : List BorrowTask → ℕ
last_created [] = 0
last_created (t ∷ rest) = max t.creation_seq (last_created rest)

abbrev pub created_task : ℕ → String → String → ℕ → ℕ → ℕ → BorrowTask
created_task task_id asset amount target creation_seq now_us = record {
  id = task_id;
  asset = asset;
  amount_per_attempt = amount;
  success_target = target;
  success_count = 0;
  status = borrowing;
  version = 1;
  creation_seq = creation_seq;
  updated_at_us = now_us;
  live_authorized = true;
  unresolved_attempt_id = none;
  latest_result_category = none;
  latest_result_business_code = none;
  latest_result_reason = none;
  latest_result_tran_id = none;
  latest_result_finished_at_us = none;
}

-- The new row stands last, in the order of creation. The id is the one that uuid4 draws.
unfoldable pub create_task : ℕ → String → String → ℕ → ℕ → BorrowStore → BorrowStore
unfolding last_created
create_task task_id asset amount target now_us s = record s {
  tasks =
      s.tasks ++ created_task task_id asset amount target (last_created s.tasks + 1) now_us ∷ [];
}

abbrev pub status_set : BorrowStatus → Option Bool → ℕ → BorrowTask → BorrowTask
status_set status live_authorized now_us t = record t {
  status = status;
  live_authorized = elim live_authorized [ none ↦ t.live_authorized | some b ↦ b ];
  version = t.version + 1;
  updated_at_us = now_us;
}

unfoldable pub set_task_status : ℕ → BorrowStatus → Option Bool → ℕ → BorrowStore → BorrowStore
set_task_status task_id status live_authorized now_us s = record s {
  tasks = update_where (is_task task_id) (status_set status live_authorized now_us) s.tasks;
}

abbrev pub is_version : ℕ → ℕ → BorrowTask → Bool
is_version task_id expected t = is_task task_id t && t.version == expected

abbrev pub edited : String → ℕ → ℕ → BorrowTask → BorrowTask
edited amount target now_us t = record t {
  amount_per_attempt = amount;
  success_target = target;
  version = t.version + 1;
  updated_at_us = now_us;
}

-- `false` stands for the VersionConflictError.
unfoldable pub edit_task : ℕ → String → ℕ → ℕ → ℕ → BorrowStore → BorrowStore × Bool
edit_task task_id amount target expected now_us s = (
  record s {
    tasks = update_where (is_version task_id expected) (edited amount target now_us) s.tasks;
  },
  any (is_version task_id expected) s.tasks,
)

abbrev pub is_marked : ℕ → BorrowTask → Bool
is_marked attempt_id t = elim t.unresolved_attempt_id [ none ↦ false | some k ↦ k == attempt_id ]

-- The rows that no marker names are deleted.
unfoldable pub clear_attempt_logs : BorrowStore → BorrowStore
clear_attempt_logs s = record s {
  attempts = select (λ (a : BorrowAttempt). any (is_marked a.id) s.tasks) s.attempts;
}

abbrev pub released : BorrowTask → BorrowTask
released t = record t { unresolved_attempt_id = none }

abbrev pub is_pending : BorrowAttempt → Bool
is_pending a = elim a.outcome [ pending ↦ true | resolved ↦ false ]

abbrev pub orphaned : ℕ → BorrowAttempt → BorrowAttempt
orphaned now_us a = record a {
  outcome = resolved;
  result_category = some unknown;
  reason = some "crash_orphan_responseless";
  finished_at_us = coalesce a.finished_at_us (some now_us);
}

-- The startup recovery of `__init__`, which only the execution owner runs.
unfoldable pub recover : ℕ → BorrowStore → BorrowStore
recover now_us s = record s {
  tasks = update_where (λ (t : BorrowTask). is_some t.unresolved_attempt_id) released s.tasks;
  attempts = update_where is_pending (orphaned now_us) s.attempts;
}
