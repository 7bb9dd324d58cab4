-- ===== src/Borrow/Worker.antt =====
-- The worker of the borrow service: tick and _dispatch_one of backend/borrow_tasks/service.py, with
-- the exchange as a parameter, and what may happen to the database while it runs.
pub mod Safety
pub mod Steps
pub mod Posted
pub mod Runs
pub mod Effects
pub mod Statuses
pub mod Bodies
pub mod Handlers
use binance_funding_hedging.Prelude.{
  ℕ, ◌≡◌, ◌≢◌, ◌<◌, ◌≤◌, ◌+◌, Bool, true, false, not, Option, none, some, String, if◌then◌else◌,
  ltb, ◌&&◌, All,
}
use binance_funding_hedging.Borrow.Rows.{BorrowStatus, BorrowTask, BorrowStore, ExecutorResult}
use binance_funding_hedging.Borrow.Settings.{is_cooling, set_execution_enabled, update_settings}
use binance_funding_hedging.Borrow.Attempts.{insert_pending_attempt, resolve_attempt}
use binance_funding_hedging.Borrow.Choice.{list_eligible_tasks, select_next_task}
use binance_funding_hedging.Borrow.Tasks.{
  create_task, set_task_status, is_version, edit_task, clear_attempt_logs, recover,
}

-- What the service is started with.
pub record Deployment : Type 0 where
  pub is_execution_owner : Bool
  pub live_mode : Bool
  pub credentials_present : Bool

-- The gates that need no row of a task.
abbrev pub may_dispatch : Deployment → Option ℕ → ℕ → Bool
may_dispatch d cooldown scheduled_us =
    d.is_execution_owner
    && not (d.live_mode && not d.credentials_present)
    && not (is_cooling cooldown scheduled_us)

-- One POST: the two transactions around the executor, which is the parameter and whose exceptions
-- are among its results; the clock is read before each transaction.
unfoldable pub borrow_once :
    Deployment
    → (BorrowTask → ℕ → ExecutorResult)
    → ℕ
    → ℕ
    → ℕ
    → BorrowTask
    → BorrowStore
    → BorrowStore × Bool
unfolding insert_pending_attempt resolve_attempt
borrow_once d execute scheduled_us dispatched_us finished_us chosen s =
    let sent =
      insert_pending_attempt chosen.id chosen.asset chosen.amount_per_attempt scheduled_us
        dispatched_us chosen.id d.live_mode s in
    elim sent.1 [
      | none ↦ (s, false)
      | some attempt_id ↦
          ((resolve_attempt attempt_id (execute chosen attempt_id) finished_us sent.0).0, true)
    ]

-- `_dispatch_one`
unfoldable pub dispatch_one :
    Deployment → (BorrowTask → ℕ → ExecutorResult) → ℕ → ℕ → ℕ → BorrowStore → BorrowStore × Bool
unfolding borrow_once list_eligible_tasks select_next_task
dispatch_one d execute scheduled_us dispatched_us finished_us s =
    if may_dispatch d s.settings.global_cooldown_until_us scheduled_us
    then elim (select_next_task (list_eligible_tasks s.tasks) s.settings.round_robin_cursor) [
      | none ↦ (s, false)
      | some chosen ↦ borrow_once d execute scheduled_us dispatched_us finished_us chosen s
    ]
    else (s, false)

-- The test of tick: the new time of the last tick, and whether an attempt is due.
unfoldable pub due : ℕ → ℕ → Option ℕ → Option ℕ × Bool
due now interval none = (some now, true)
due now interval (some last) =
    if ltb now (last + interval) then (some last, false) else (some now, true)

-- The database and the attempt whose answer the worker waits for.
pub record Running : Type 0 where
  pub store : BorrowStore
  pub in_flight : Option ℕ

-- The transactions, in any order: those of the handlers at any time, also while the worker waits for
-- an answer; the first one of an attempt when the worker waits for none, and the second one for the
-- attempt that it waits for. A new owner starts after the old one's end.
pub data Step : Running → Running → Type 0 where
  created :
      (w : Running) (task_id : ℕ) (asset amount : String) (target now : ℕ)
      → All (λ t. t.id ≢ task_id) w.store.tasks
      → All (λ a. a.task_id ≢ task_id) w.store.attempts
      → 1 ≤ target
      → Step w (record w { store = create_task task_id asset amount target now w.store })
  status_written :
      (w : Running) (task_id : ℕ) (status : BorrowStatus) (live : Option Bool) (now : ℕ)
      → Step w (record w { store = set_task_status task_id status live now w.store })
  edit_written :
      (w : Running) (task_id : ℕ) (amount : String) (target expected now : ℕ)
      → All (λ t. is_version task_id expected t ≡ true → t.success_count < target) w.store.tasks
      → Step w (record w { store = (edit_task task_id amount target expected now w.store).0 })
  logs_cleared : (w : Running) → Step w (record w { store = clear_attempt_logs w.store })
  switched :
      (w : Running) (enabled : Bool) (now : ℕ)
      → Step w (record w { store = set_execution_enabled enabled now w.store })
  configured :
      (w : Running) (seconds : String) (interval now : ℕ)
      → Step w (record w { store = update_settings seconds interval now w.store })
  sent :
      (w : Running) (task_id : ℕ) (asset amount : String) (at dispatched cursor : ℕ) (live : Bool)
      → w.in_flight ≡ none
      → Step w (record {
        store = (insert_pending_attempt task_id asset amount at dispatched cursor live w.store).0;
        in_flight =
            (insert_pending_attempt task_id asset amount at dispatched cursor live w.store).1;
      })
  answer_written :
      (w : Running) (attempt_id : ℕ) (r : ExecutorResult) (finished : ℕ)
      → w.in_flight ≡ some attempt_id
      → Step w
          (record { store = (resolve_attempt attempt_id r finished w.store).0; in_flight = none })
  given_up : (w : Running) → Step w (record w { in_flight = none })
  restarted :
      (w : Running) (now : ℕ) → Step w (record { store = recover now w.store; in_flight = none })

pub data Reach (w : Running) : Running → Type 0 where
  here : Reach w w
  next : {u v : Running} → Reach w u → Step u v → Reach w v
