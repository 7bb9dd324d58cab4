-- ===== src/Borrow/Service.antt =====
-- The handlers of the borrow service, each of them run to its end, from backend/borrow_tasks/service.py.
-- The paging of the attempts and the documents that the handlers return are left out.
use binance_funding_hedging.Prelude.{
  ℕ, Bool, true, false, none, some, List, [], ◌∷◌, String, if◌then◌else◌, leb,
}
use binance_funding_hedging.Borrow.Rows.{
  BorrowStatus, borrowing, paused, deleted, completed, BorrowTask, BorrowSettings, BorrowStore,
}
use binance_funding_hedging.Borrow.Validate.{
  invalid_field, invalid_json, unknown_task, invalid_transition, version_conflict, Reply, refused,
  answered, Field, negative, whole, Body, not_an_object, members, has_unknown_key, validate_asset,
  validate_amount, validate_success_target, parse_interval_seconds,
}
use binance_funding_hedging.Borrow.Attempts.{find_task}
use binance_funding_hedging.Borrow.Settings.{update_settings, set_execution_enabled}
use binance_funding_hedging.Borrow.Tasks.{
  create_task, edit_task, clear_attempt_logs, set_task_status,
}

abbrev pub create_keys : List String
create_keys = "asset" ∷ "amount_per_attempt" ∷ "success_target" ∷ []

abbrev pub edit_keys : List String
edit_keys = "amount_per_attempt" ∷ "success_target" ∷ "version" ∷ []

abbrev pub settings_keys : List String
settings_keys = "interval_seconds" ∷ []

-- A validator's value, or its error with the database as it was.
abbrev pub checked {ℓ κ} :
    {A : Type ℓ} {B : Type κ}
    → BorrowStore
    → Reply A
    → (A → BorrowStore × Reply B)
    → BorrowStore × Reply B
checked s (refused e) go = (s, refused e)
checked s (answered a) go = go a

-- The row of a task, for the handler that needs one.
abbrev pub with_task {ℓ} :
    {A : Type ℓ} → ℕ → BorrowStore → (BorrowTask → BorrowStore × Reply A) → BorrowStore × Reply A
with_task task_id s go = elim (find_task s task_id) [
  | none ↦ (s, refused unknown_task)
  | some t ↦ go t
]

-- A write, answered with the row that it leaves.
abbrev pub rewritten : ℕ → BorrowStore → BorrowStore × Reply BorrowTask
rewritten task_id s = elim (find_task s task_id) [
  | none ↦ (s, refused unknown_task)
  | some t ↦ (s, answered t)
]

-- The id is the one that uuid4 draws.
unfoldable pub post_create : ℕ → Body → ℕ → BorrowStore → BorrowStore × Reply BorrowTask
unfolding create_task has_unknown_key validate_asset validate_amount validate_success_target
post_create task_id not_an_object now_us s = (s, refused invalid_json)
post_create task_id (members keys value) now_us s =
    if has_unknown_key keys create_keys
    then (s, refused (invalid_field "body"))
    else checked s (validate_asset (value "asset")) (λ asset.
      checked s (validate_amount (value "amount_per_attempt")) (λ amount.
        checked s (validate_success_target (value "success_target"))
          (λ target. rewritten task_id (create_task task_id asset amount target now_us s))))

abbrev pub started : BorrowTask → BorrowStatus
started t = if leb t.success_target t.success_count then completed else borrowing

abbrev pub start_from :
    BorrowStatus → ℕ → BorrowTask → ℕ → BorrowStore → BorrowStore × Reply BorrowTask
start_from borrowing task_id t now_us s = (s, refused invalid_transition)
start_from deleted task_id t now_us s = (s, refused invalid_transition)
start_from completed task_id t now_us s = (s, answered t)
start_from paused task_id t now_us s =
    rewritten task_id (set_task_status task_id (started t) (some true) now_us s)

unfoldable pub post_start : ℕ → ℕ → BorrowStore → BorrowStore × Reply BorrowTask
unfolding set_task_status
post_start task_id now_us s = with_task task_id s (λ t. start_from t.status task_id t now_us s)

abbrev pub pause_from : BorrowStatus → ℕ → ℕ → BorrowStore → BorrowStore × Reply BorrowTask
pause_from borrowing task_id now_us s =
    rewritten task_id (set_task_status task_id paused none now_us s)
pause_from _ task_id now_us s = (s, refused invalid_transition)

unfoldable pub post_pause : ℕ → ℕ → BorrowStore → BorrowStore × Reply BorrowTask
unfolding set_task_status
post_pause task_id now_us s = with_task task_id s (λ t. pause_from t.status task_id now_us s)

abbrev pub delete_from : BorrowStatus → ℕ → ℕ → BorrowStore → BorrowStore × Reply BorrowTask
delete_from deleted task_id now_us s = (s, refused invalid_transition)
delete_from _ task_id now_us s = rewritten task_id (set_task_status task_id deleted none now_us s)

unfoldable pub post_delete : ℕ → ℕ → BorrowStore → BorrowStore × Reply BorrowTask
unfolding set_task_status
post_delete task_id now_us s = with_task task_id s (λ t. delete_from t.status task_id now_us s)

-- RUNNABLE_STATUSES
abbrev pub is_runnable : BorrowStatus → Bool
is_runnable borrowing = true
is_runnable paused = true
is_runnable _ = false

-- A version is a whole number of any sign; no row has a negative one.
abbrev pub version_of : Field → Reply ℕ
version_of (whole n) = answered n
version_of negative = refused version_conflict
version_of _ = refused (invalid_field "version")

abbrev pub edit_reply : ℕ → String → ℕ → ℕ → ℕ → BorrowStore → BorrowStore × Reply BorrowTask
edit_reply task_id amount target version now_us s =
    let written = edit_task task_id amount target version now_us s in
    if written.1 then rewritten task_id written.0 else (s, refused version_conflict)

unfoldable pub post_edit : ℕ → Body → ℕ → BorrowStore → BorrowStore × Reply BorrowTask
unfolding edit_task has_unknown_key validate_amount validate_success_target
post_edit task_id not_an_object now_us s = (s, refused invalid_json)
post_edit task_id (members keys value) now_us s =
    if has_unknown_key keys edit_keys
    then (s, refused (invalid_field "body"))
    else with_task task_id s (λ t.
      if is_runnable t.status
      then checked s (validate_amount (value "amount_per_attempt")) (λ amount.
        checked s (validate_success_target (value "success_target")) (λ target.
          if leb target t.success_count
          then (s, refused (invalid_field "success_target"))
          else checked s (version_of (value "version"))
              (λ version. edit_reply task_id amount target version now_us s)))
      else (s, refused invalid_transition))

-- The flag is whether `confirm` is the value true; other keys than it are unknown.
unfoldable pub clear_logs : Bool → Body → BorrowStore → BorrowStore × Reply {0} Unit
unfolding clear_attempt_logs has_unknown_key
clear_logs confirm not_an_object s = (s, refused invalid_json)
clear_logs confirm (members keys value) s =
    if confirm
    then if has_unknown_key keys ("confirm" ∷ [])
      then (s, refused (invalid_field "body"))
      else (clear_attempt_logs s, answered tt)
    else (s, refused (invalid_field "confirm"))

-- A missing key is the null that parse_interval_seconds would refuse with another code.
unfoldable pub put_settings : Body → ℕ → BorrowStore → BorrowStore × Reply BorrowSettings
unfolding update_settings has_unknown_key parse_interval_seconds
put_settings not_an_object now_us s = (s, refused invalid_json)
put_settings (members keys value) now_us s =
    if has_unknown_key keys settings_keys then (s, refused (invalid_field "body")) else elim keys [
      | [] ↦ (s, refused (invalid_field "interval_seconds"))
      | _ ↦
          checked s (parse_interval_seconds (value "interval_seconds"))
            (λ p. let after = update_settings p.0 p.1 now_us s in (after, answered after.settings))
    ]

-- A request that may change the database.
pub data Request : Type 0 where
  create_request edit_request : ℕ → Body → Request
  start_request pause_request delete_request : ℕ → Request
  clear_request : Bool → Body → Request
  settings_request : Body → Request
  execution_request : Bool → Request

-- What the handler of a request does to the database.
unfoldable pub handle : Request → ℕ → BorrowStore → BorrowStore
unfolding post_create post_edit post_start post_pause post_delete clear_logs put_settings
    set_execution_enabled
handle (create_request task_id body) now_us s = (post_create task_id body now_us s).0
handle (edit_request task_id body) now_us s = (post_edit task_id body now_us s).0
handle (start_request task_id) now_us s = (post_start task_id now_us s).0
handle (pause_request task_id) now_us s = (post_pause task_id now_us s).0
handle (delete_request task_id) now_us s = (post_delete task_id now_us s).0
handle (clear_request confirm body) now_us s = (clear_logs confirm body s).0
handle (settings_request body) now_us s = (put_settings body now_us s).0
handle (execution_request enabled) now_us s = set_execution_enabled enabled now_us s
