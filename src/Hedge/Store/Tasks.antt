-- ===== src/Hedge/Store/Tasks.antt =====
-- The operations of backend/hedge_open_tasks/store.py that write one task: its status, its pauses
-- and stops, and its smooth gate. Each is given as the write to the row, under the operation's
-- predicate, and as the operation on the database.
use binance_funding_hedging.Prelude.{
  ℕ, ◌+◌, Bool, true, false, Option, none, some, String, if◌then◌else◌, ltb, ◌==◌, ◌&&◌, ◌||◌,
  find?, update_where, any, is_none,
}
use binance_funding_hedging.Hedge.Vocabulary.{
  Status, running, paused, stopped, PauseReason, StopReason, is_running, is_paused, is_smooth,
}
use binance_funding_hedging.Hedge.Attempt.{truthy}
use binance_funding_hedging.Hedge.Store.Rows.{Task, Attempt, Store}

-- WHERE id = ?
abbrev pub has_id : ℕ → Task → Bool
has_id task_id t = t.id == task_id

abbrev pub get_task : Store → ℕ → Option Task
get_task s task_id = find? (has_id task_id) s.tasks

-- The write of a conditional UPDATE: the rows of the id at which the predicate holds.
unfoldable pub write_task : ℕ → (Task → Bool) → (Task → Task) → Store → Store
write_task task_id hit f s = record s {
  tasks = update_where (λ t. has_id task_id t && hit t) f s.tasks;
}

-- An UPDATE that finds its row, and whether it did.
unfoldable pub update_task : ℕ → (Task → Bool) → (Task → Task) → Store → Store × Bool
unfolding write_task
update_task task_id hit f s =
    (write_task task_id hit f s, any (λ t. has_id task_id t && hit t) s.tasks)

-- An attempt whose pair is not settled.
abbrev pub is_open_pair : ℕ → Attempt → Bool
is_open_pair task_id a = a.task_id == task_id && is_none a.pair_outcome

abbrev pub in_flight : Store → ℕ → Bool
in_flight s task_id = any (is_open_pair task_id) s.attempts

abbrev without_gate : Task → Task
without_gate t = record t {
  smooth_gate_seq = none;
  smooth_gate_started_at_us = none;
  smooth_gate_force_requested = false;
}

-- What every return to `running` clears.
abbrev resumed : Task → Task
resumed t = record t {
  status = running;
  pause_reason = none;
  pause_reason_zh = none;
  last_worker_exit_reason = none;
}

unfoldable pub status_written : Status → ℕ → Task → Task
status_written running now_us t = record (resumed t) { updated_at_us = now_us }
status_written st now_us t = record (without_gate t) { status = st; updated_at_us = now_us }

abbrev always : Task → Bool
always t = true

-- The source raises UnknownTaskError where no row is hit.
unfoldable pub set_task_status : ℕ → Status → ℕ → Store → Store × Bool
unfolding update_task status_written
set_task_status task_id st now_us = update_task task_id always (status_written st now_us)

-- WHERE status IN ('running', 'paused')
abbrev pub is_live : Status → Bool
is_live st = is_running st || is_paused st

abbrev pub stop_written : StopReason → ℕ → Task → Task
stop_written reason now_us t = record (without_gate t) {
  status = stopped;
  stop_reason = some reason;
  updated_at_us = now_us;
}

unfoldable pub stop_task_fatal : ℕ → StopReason → ℕ → Store → Store × Bool
unfolding update_task
stop_task_fatal task_id reason now_us =
    update_task task_id (λ t. is_live t.status) (stop_written reason now_us)

abbrev pub pause_written : PauseReason → String → ℕ → Task → Task
pause_written reason reason_zh now_us t = record (without_gate t) {
  status = paused;
  pause_reason = some reason;
  pause_reason_zh = some reason_zh;
  stop_reason = none;
  updated_at_us = now_us;
}

unfoldable pub pause_task : ℕ → PauseReason → String → ℕ → Store → Store × Bool
unfolding update_task
pause_task task_id reason reason_zh now_us =
    update_task task_id (λ t. is_live t.status) (pause_written reason reason_zh now_us)

unfoldable pub resume_paused_task : ℕ → ℕ → Store → Store × Bool
unfolding update_task
resume_paused_task task_id now_us =
    update_task task_id (λ t. is_paused t.status)
      (λ t. record (resumed t) { updated_at_us = now_us })

unfoldable pub arm_prepared_close_task :
    ℕ → String → Option String → Option String → ℕ → Store → Store × Bool
unfolding update_task
arm_prepared_close_task task_id q_common position_side_mode preflight_snapshot now_us =
    update_task task_id (λ t. is_paused t.status && is_none t.q_common)
      λ t. record (resumed t) {
        q_common = some q_common;
        position_side_mode = position_side_mode;
        preflight_snapshot = preflight_snapshot;
        updated_at_us = now_us;
      }

unfoldable pub clear_smooth_gate : ℕ → ℕ → Store → Store
unfolding write_task
clear_smooth_gate task_id now_us =
    write_task task_id (λ t. is_running t.status)
      λ t. record (without_gate t) { updated_at_us = now_us }

-- The part of the two gate operations' predicate that they share.
abbrev pub gate_ready : Task → Bool
gate_ready t =
    is_smooth t.mode
    && truthy t.q_common
    && is_running t.status
    && ltb t.scheduled_attempt_count t.target_n

abbrev pub is_value : ℕ → Option ℕ → Bool
is_value n none = false
is_value n (some m) = m == n

abbrev pub may_open : ℕ → Task → Bool
may_open gate_seq t =
    gate_ready t
    && gate_seq == t.scheduled_attempt_count + 1
    && (is_none t.smooth_gate_seq || is_value gate_seq t.smooth_gate_seq)

abbrev pub gate_opened : ℕ → ℕ → Task → Task
gate_opened gate_seq started_at_us t =
    if is_none t.smooth_gate_seq
    then record t {
      smooth_gate_seq = some gate_seq;
      smooth_gate_started_at_us = some started_at_us;
      smooth_gate_force_requested = false;
      updated_at_us = started_at_us;
    }
    else t

unfoldable pub open_smooth_gate : ℕ → ℕ → ℕ → Store → Store × Bool
unfolding update_task
open_smooth_gate task_id gate_seq started_at_us s =
    if in_flight s task_id
    then (s, false)
    else update_task task_id (may_open gate_seq) (gate_opened gate_seq started_at_us) s

unfoldable pub force_smooth_gate : ℕ → ℕ → ℕ → Store → Store × Bool
unfolding update_task
force_smooth_gate task_id gate_seq now_us s =
    if in_flight s task_id
    then (s, false)
    else update_task task_id (λ t. gate_ready t && is_value gate_seq t.smooth_gate_seq)
        (λ t. record t { smooth_gate_force_requested = true; updated_at_us = now_us }) s

unfoldable pub set_failure_pause_threshold : ℕ → ℕ → ℕ → Store → Store × Bool
unfolding update_task
set_failure_pause_threshold task_id threshold now_us =
    update_task task_id always
      λ t. record t { failure_pause_threshold = threshold; updated_at_us = now_us }

unfoldable pub clear_leg_exposure : ℕ → ℕ → Store → Store × Bool
unfolding update_task
clear_leg_exposure task_id now_us =
    update_task task_id always λ t. record t { leg_exposure = none; updated_at_us = now_us }

unfoldable pub set_worker_exit_reason : ℕ → Option String → ℕ → Store → Store
unfolding write_task
set_worker_exit_reason task_id reason now_us =
    write_task task_id always
      λ t. record t { last_worker_exit_reason = reason; updated_at_us = now_us }
