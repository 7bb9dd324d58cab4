-- ===== src/Borrow/Attempts.antt =====
-- The resolution of an attempt: resolve_attempt of backend/borrow_tasks/store.py, with
-- _resolve_status and _same_failure_signature; the insertion stands in Insert.
pub mod Insert
unfoldable pub use Insert.*
use binance_funding_hedging.Prelude.{
  ℕ, ◌+◌, Bool, true, false, not, Option, none, some, List, [], ◌∷◌, String, if◌then◌else◌, leb,
  ltb, ◌==◌, ◌&&◌, ◌||◌, find?, update_where, select, is_none, max,
}
use binance_funding_hedging.Borrow.Rows.{
  BorrowStatus, deleted, completed, ResultCategory, success, known_rejection, rate_limited, unknown,
  execution_disabled, pending, resolved, BorrowTask, BorrowAttempt, BorrowSettings, BorrowStore,
  ExecutorResult, Outcome, is_borrowing, is_success, is_rate_limited, is_coalesceable,
}
use binance_funding_hedging.Borrow.Settings.{is_cooling, apply_rate_limit}
use text.Mathlib.Text.{◌==◌ as str_eq}

unfoldable pub resolve_status : BorrowStatus → ℕ → ℕ → BorrowStatus
resolve_status deleted new_count target = deleted
resolve_status completed new_count target = completed
resolve_status current new_count target = if leb target new_count then completed else current

abbrev same_category : ResultCategory → ResultCategory → Bool
same_category success success = true
same_category known_rejection known_rejection = true
same_category rate_limited rate_limited = true
same_category unknown unknown = true
same_category execution_disabled execution_disabled = true
same_category _ _ = false

abbrev same_value : Option String → Option String → Bool
same_value none none = true
same_value (some a) (some b) = str_eq a b
same_value _ _ = false

abbrev pub same_failure_signature :
    ExecutorResult → Option ResultCategory → Option String → Option String → Bool
same_failure_signature r none reason code = false
same_failure_signature r (some category) reason code =
    same_category category r.result_category
    && same_value reason r.reason
    && same_value code r.business_code

-- The resolved attempt of a task with the greatest id below that of the attempt.
unfoldable pub last_failure :
    Option BorrowAttempt → ℕ → ℕ → List BorrowAttempt → Option BorrowAttempt
last_failure best task_id attempt_id [] = best
last_failure best task_id attempt_id (a ∷ rest) =
    last_failure
      (if a.task_id == task_id && is_resolved a.outcome && ltb a.id attempt_id
        then later best a
        else best)
      task_id attempt_id rest
  where
    is_resolved : Outcome → Bool
    is_resolved resolved = true
    is_resolved pending = false

    later : Option BorrowAttempt → BorrowAttempt → Option BorrowAttempt
    later none c = some c
    later (some b) c = if ltb b.id c.id then some c else some b

-- The row that takes the failure over, when the failure is the task's last result once more.
unfoldable pub coalesced_into : ExecutorResult → BorrowTask → ℕ → List BorrowAttempt → Option ℕ
unfolding last_failure
coalesced_into r t attempt_id attempts =
    if is_coalesceable r.result_category
      && same_failure_signature r t.latest_result_category t.latest_result_reason
          t.latest_result_business_code
    then elim (last_failure none t.id attempt_id attempts) [
      | none ↦ none
      | some a ↦
          if same_failure_signature r a.result_category a.reason a.business_code
          then some a.id
          else none
    ]
    else none

abbrev pub limited : ExecutorResult → ℕ → BorrowSettings → BorrowSettings
limited r finished_at_us settings =
    if is_rate_limited r.result_category
    then apply_rate_limit r finished_at_us settings
    else settings

abbrev pub refreshed : ℕ → BorrowTask → BorrowTask
refreshed finished_at_us t = record t {
  latest_result_finished_at_us = some finished_at_us;
  unresolved_attempt_id = none;
  version = t.version + 1;
  updated_at_us = finished_at_us;
}

unfoldable pub coalesce_attempt : ExecutorResult → ℕ → ℕ → ℕ → ℕ → BorrowStore → BorrowStore
unfolding apply_rate_limit
coalesce_attempt r task_id attempt_id kept_id finished_at_us s = record s {
  attempts =
      select (λ a. not (a.id == attempt_id))
        (update_where (λ a. a.id == kept_id)
          (λ a. record a { finished_at_us = some finished_at_us }) s.attempts);
  tasks = update_where (is_task task_id) (refreshed finished_at_us) s.tasks;
  settings = limited r finished_at_us s.settings;
}

unfoldable pub result_written : ExecutorResult → ℕ → BorrowTask → BorrowTask
unfolding resolve_status
result_written r finished_at_us t =
    let borrowed = is_success r.result_category in
    record t {
      latest_result_category = some r.result_category;
      latest_result_business_code = r.business_code;
      latest_result_reason = r.reason;
      latest_result_tran_id = r.tran_id;
      latest_result_finished_at_us = some finished_at_us;
      success_count = if borrowed then t.success_count + 1 else t.success_count;
      status =
          if borrowed
          then resolve_status t.status (t.success_count + 1) t.success_target
          else t.status;
      unresolved_attempt_id = none;
      version = t.version + 1;
      updated_at_us = finished_at_us;
    }

unfoldable pub record_attempt : ExecutorResult → ℕ → ℕ → ℕ → BorrowStore → BorrowStore
unfolding result_written apply_rate_limit
record_attempt r task_id attempt_id finished_at_us s = record s {
  attempts =
      update_where (λ a. a.id == attempt_id)
        (λ a. record a {
          outcome = resolved;
          result_category = some r.result_category;
          business_code = r.business_code;
          reason = r.reason;
          http_status = r.http_status;
          tran_id = r.tran_id;
          finished_at_us = some finished_at_us;
        })
        s.attempts;
  tasks = update_where (is_task task_id) (result_written r finished_at_us) s.tasks;
  settings = limited r finished_at_us s.settings;
}

-- `false` stands for the UnknownTaskError of an attempt that is not there.
unfoldable pub resolve_attempt : ℕ → ExecutorResult → ℕ → BorrowStore → BorrowStore × Bool
unfolding coalesced_into coalesce_attempt record_attempt
resolve_attempt attempt_id r finished_at_us s =
    elim (find? (λ (a : BorrowAttempt). a.id == attempt_id) s.attempts) [
      | none ↦ (s, false)
      | some a ↦
          let kept : Option ℕ = elim (find_task s a.task_id) [
            | none ↦ none
            | some t ↦ coalesced_into r t attempt_id s.attempts
          ] in
          elim kept [
            | some kept_id ↦
                (coalesce_attempt r a.task_id attempt_id kept_id finished_at_us s, true)
            | none ↦ (record_attempt r a.task_id attempt_id finished_at_us s, true)
          ]
    ]
