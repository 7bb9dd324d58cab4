-- ===== src/Hedge/Service.antt =====
-- The handlers that write gates and states of tasks, from backend/hedge_open_tasks/service.py. The
-- documents that they answer with are the rows; the launch of workers and the wake-ups are left out.
pub mod Gates
pub mod Start
use binance_funding_hedging.Prelude.{
  ℕ, Bool, true, false, not, Option, none, some, List, [], ◌∷◌, String, if◌then◌else◌, ◌&&◌,
}
use binance_funding_hedging.Prelude.Texts.{codes, mem}
use binance_funding_hedging.Hedge.Errors.{
  HedgeError, invalid_field, invalid_json, confirmation_required, version_conflict, unknown_task,
  invalid_state, start_gate_closed, close_gate_closed, smooth_close_start_failed, start_required,
  Result, ok, err,
}
use binance_funding_hedging.Hedge.Vocabulary.{
  Status, running, paused, done, stopped, deleted, TaskType, open_task, close_task, PauseReason,
  awaiting_manual_start, preflight_incomplete, is_smooth, is_close, is_paused, is_running,
}
use binance_funding_hedging.Hedge.Attempt.{truthy}
use binance_funding_hedging.Hedge.Store.Rows.{Gate, Settings, Task, Store}
use binance_funding_hedging.Hedge.Store.Tasks.{
  get_task, set_task_status, resume_paused_task, arm_prepared_close_task,
}
use binance_funding_hedging.Hedge.Store.Gates.{set_gate_cas}
use binance_funding_hedging.Hedge.Worker.Dispatch.{pause_task_local}

-- A value of a JSON body, as far as the handlers tell them apart; an absent key is null.
pub data Field : Type 0 where
  null negative other : Field
  boolean : Bool → Field
  whole : ℕ → Field

-- A request body: the keys of a JSON object and its values.
pub data Body : Type 0 where
  not_an_object : Body
  members : List String → (String → Field) → Body

-- `reject_unknown_keys`; the error is only told to be one of the body.
unfoldable pub has_unknown_key : List String → List String → Bool
has_unknown_key [] allowed = false
has_unknown_key (k ∷ keys) allowed = if mem k allowed then has_unknown_key keys allowed else true

-- _START_GATE_BODY_KEYS
abbrev pub gate_keys : List String
gate_keys = "enabled" ∷ "confirm" ∷ "version" ∷ []

abbrev pub swap_reply : Store × Option Settings → Store × Result Settings
swap_reply (d, none) = (d, err version_conflict)
swap_reply (d, some c) = (d, ok c)

-- The checks on the three fields; a negative version is a whole number that no row has.
abbrev pub put_fields : Gate → Field → Field → Field → ℕ → Store → Store × Result Settings
put_fields g (boolean enabled) (boolean true) (whole version) now_us s =
    swap_reply (set_gate_cas g enabled version now_us s)
put_fields g (boolean enabled) (boolean true) negative now_us s = (s, err version_conflict)
put_fields g (boolean enabled) (boolean true) _ now_us s = (s, err (invalid_field "version"))
put_fields g (boolean enabled) _ version now_us s = (s, err confirmation_required)
put_fields g _ confirm version now_us s = (s, err (invalid_field "enabled"))

-- `put_start_gate` and `put_close_gate`, which are the same code on two gates.
unfoldable pub put_gate : Gate → Body → ℕ → Store → Store × Result Settings
unfolding has_unknown_key set_gate_cas
put_gate g not_an_object now_us s = (s, err invalid_json)
put_gate g (members keys value) now_us s =
    if has_unknown_key keys gate_keys
    then (s, err (invalid_field "body"))
    else put_fields g (value "enabled") (value "confirm") (value "version") now_us s

-- `_get_task_or_404`, for the handler of the row.
abbrev pub with_task : ℕ → Store → (Task → Store × Result Task) → Store × Result Task
with_task task_id s go = elim (get_task s task_id) [ none ↦ (s, err unknown_task) | some t ↦ go t ]

-- A write answered with the row that it leaves.
abbrev pub rewritten : ℕ → Store → Store × Result Task
rewritten task_id s = elim (get_task s task_id) [
  | none ↦ (s, err unknown_task)
  | some t ↦ (s, ok t)
]

abbrev pub pause_from : Status → ℕ → ℕ → Store → Store × Result Task
pause_from deleted task_id now_us s = (s, err invalid_state)
pause_from done task_id now_us s = (s, err invalid_state)
pause_from _ task_id now_us s = rewritten task_id (set_task_status task_id paused now_us s).0

unfoldable pub post_pause : ℕ → ℕ → Store → Store × Result Task
unfolding set_task_status
post_pause task_id now_us s = with_task task_id s (λ t. pause_from t.status task_id now_us s)

abbrev pub delete_from : Status → ℕ → ℕ → Store → Store × Result Task
delete_from deleted task_id now_us s = (s, err invalid_state)
delete_from _ task_id now_us s = rewritten task_id (set_task_status task_id deleted now_us s).0

unfoldable pub post_delete : ℕ → ℕ → Store → Store × Result Task
unfolding set_task_status
post_delete task_id now_us s = with_task task_id s (λ t. delete_from t.status task_id now_us s)

-- What `_run_close_preparation` gives: the signal of an incomplete preflight with the text for the
-- operator, another signal, no attempt left, or the quantity as text with the position mode and the
-- record of the snapshot.
pub data Preparation : Type 0 where
  incomplete : String → Preparation
  signalled used_up : Preparation
  ready : String → Option String → Option String → Preparation

-- The state of a task for which the conditional write of a start found no row.
abbrev pub conflict_from : Task → ℕ → ℕ → Store → Store × Result Task
conflict_from t task_id later_us s = elim t.status [
  | running ↦ (s, ok t)
  | paused ↦
      let resumed = resume_paused_task task_id later_us s in
      if truthy t.q_common && resumed.1 then rewritten task_id resumed.0 else (s, err invalid_state)
  | _ ↦ (s, err invalid_state)
]

unfoldable pub resolve_smooth_close_start_conflict : ℕ → ℕ → Store → Store × Result Task
unfolding resume_paused_task
resolve_smooth_close_start_conflict task_id later_us s = elim (get_task s task_id) [
  | none ↦ (s, err invalid_state)
  | some t ↦ conflict_from t task_id later_us s
]

-- A conditional write, answered with its row, or the conflict settled.
unfoldable pub or_conflict : ℕ → ℕ → Store × Bool → Store × Result Task
unfolding resolve_smooth_close_start_conflict
or_conflict task_id later_us d =
    if d.1 then rewritten task_id d.0 else resolve_smooth_close_start_conflict task_id later_us d.0

unfoldable pub finish_start : Preparation → ℕ → ℕ → ℕ → Store → Store × Result Task
unfolding pause_task_local arm_prepared_close_task or_conflict
finish_start (incomplete reason_zh) task_id now_us later_us s = (
  pause_task_local task_id preflight_incomplete reason_zh "preflight_incomplete" now_us s,
  err smooth_close_start_failed,
)
finish_start signalled task_id now_us later_us s = (s, err smooth_close_start_failed)
finish_start used_up task_id now_us later_us s = (s, err invalid_state)
finish_start (ready q mode snapshot) task_id now_us later_us s =
    or_conflict task_id later_us (arm_prepared_close_task task_id q mode snapshot now_us s)

-- The preparation asks the exchange and takes seconds, in which other requests write too, so it is
-- any function from the database before it to the one after it.
module _ (prepare : Task → ℕ → Store → Store × Preparation) where
  unfoldable pub start_smooth_close : Task → ℕ → ℕ → Store → Store × Result Task
  unfolding finish_start resume_paused_task or_conflict
  start_smooth_close t now_us later_us s =
      let prepared = prepare t now_us s in
      let finished = finish_start prepared.1 t.id now_us later_us prepared.0 in
      let resumed = or_conflict t.id later_us (resume_paused_task t.id now_us s) in
      if not s.settings.start_gate
      then (s, err start_gate_closed)
      else if not s.settings.close_gate
      then (s, err close_gate_closed)
      else if truthy t.q_common
      then resumed
      else finished

  abbrev pub start_from : Task → ℕ → ℕ → Store → Store × Result Task
  start_from t now_us later_us s =
      let smooth_close = is_smooth t.mode && is_close t.task_type in
      let live = start_smooth_close t now_us later_us s in
      let plain = rewritten t.id (set_task_status t.id running now_us s).0 in
      elim t.status [
        | deleted ↦ (s, err invalid_state)
        | done ↦ (s, ok t)
        | stopped ↦ if smooth_close then (s, err invalid_state) else plain
        | _ ↦ if smooth_close then live else plain
      ]

  unfoldable pub post_start : ℕ → ℕ → ℕ → Store → Store × Result Task
  unfolding set_task_status start_smooth_close
  post_start task_id now_us later_us s = with_task task_id s (λ t. start_from t now_us later_us s)

abbrev pub is_awaiting : Option PauseReason → Bool
is_awaiting (some awaiting_manual_start) = true
is_awaiting _ = false

-- `_require_fillable`: the error that it raises, if any.
unfoldable pub require_fillable : Task → Option HedgeError
require_fillable t = elim t.status [
  | deleted ↦ some invalid_state
  | done ↦ some invalid_state
  | stopped ↦ some invalid_state
  | _ ↦
      if is_awaiting t.pause_reason
      then if is_smooth t.mode
        then some start_required
        else elim t.task_type [ close_task ↦ some start_required | open_task ↦ none ]
      else none
]
