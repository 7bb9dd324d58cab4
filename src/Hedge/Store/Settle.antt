-- ===== src/Hedge/Store/Settle.antt =====
-- The settlement of a pair in backend/hedge_open_tasks/store.py: at once by the executor's outcome,
-- or later from its two closed legs, with the task's counters or without them.
use binance_funding_hedging.Prelude.{
  ℕ, ◌+◌, Bool, true, false, Option, none, some, ◌∷◌, String, if◌then◌else◌, ◌==◌, ◌&&◌,
  update_where, is_none, find?, count_where,
}
use binance_funding_hedging.Hedge.Errors.{Result, ok, err}
use binance_funding_hedging.Hedge.Vocabulary.{
  AttemptCategory, ErrorCategory, fatal, PairOutcome, StopReason, exchange_fatal,
  single_leg_exposure,
}
use binance_funding_hedging.Hedge.Codes.{rollup_leg_error_category}
use binance_funding_hedging.Hedge.Attempt.{
  spot, perp, LegExposure, truthy, categorize, build_leg_exposure,
}
use binance_funding_hedging.Hedge.Store.Rows.{Task, Attempt, Leg, of_task, LogEntry, Store}
use binance_funding_hedging.Hedge.Store.Tasks.{get_task, has_id}
use binance_funding_hedging.Hedge.Store.Counters.{apply_task_counters}
use binance_funding_hedging.Hedge.Store.Legs.{find_leg, leg_row_to_exposure_input}

abbrev pub get_attempt : Store → ℕ → Option Attempt
get_attempt s attempt_id = find? (λ a. a.id == attempt_id) s.attempts

abbrev pub is_fatal_category : Option ErrorCategory → Bool
is_fatal_category (some fatal) = true
is_fatal_category _ = false

abbrev pub stop_reason_of : Bool → Option StopReason
stop_reason_of is_fatal = if is_fatal then some exchange_fatal else none

abbrev pub append_log : ℕ → ℕ → Option LogEntry → Store → Store
append_log task_id now_us none s = s
append_log task_id now_us (some entry) s = record s {
  logs =
      (record { id = s.next_log_id; task_id = of_task task_id; ts_us = now_us; entry = entry })
      ∷ s.logs;
  next_log_id = s.next_log_id + 1;
}

-- The settings of one call of `_apply_task_counters`.
pub record Settlement : Type 0 where
  pub category : AttemptCategory
  pub exposure : Option LegExposure
  pub is_fatal : Bool
  pub skip_counters : Bool
  pub suppress_done : Bool

abbrev pub counted : Settlement → ℕ → Task → Task × Option PairOutcome × Option LogEntry
counted st now_us =
    apply_task_counters st.category st.exposure st.is_fatal (stop_reason_of st.is_fatal)
      st.skip_counters st.suppress_done now_us

-- `_apply_task_counters` on the database, and the stamp on the attempt's row.
unfoldable pub settle : ℕ → Attempt → Task → Settlement → ℕ → (Attempt → Attempt) → Store → Store
unfolding apply_task_counters
settle attempt_id a t st now_us stamp s =
    let (task', outcome, entry) = counted st now_us t in
    let written = record s {
      tasks = update_where (has_id a.task_id) (λ row. (counted st now_us row).0) s.tasks;
      attempts =
          update_where (λ b. b.id == attempt_id) (λ b. stamp (record b { pair_outcome = outcome }))
            s.attempts;
    } in
    append_log a.task_id now_us entry written

-- The verdict on two closed legs.
abbrev pub category_of_legs : Leg → Leg → AttemptCategory
category_of_legs s p = categorize (truthy s.order_id) (truthy p.order_id)

abbrev pub is_single : AttemptCategory → Bool
is_single single_leg_exposure = true
is_single _ = false

-- `_exposure_from_legs`, for a single leg alone
unfoldable pub exposure_from_legs : Leg → Leg → ℕ → Result (Option LegExposure)
unfolding build_leg_exposure leg_row_to_exposure_input
exposure_from_legs s p now_us =
    if is_single (category_of_legs s p)
    then build_leg_exposure (some (leg_row_to_exposure_input s))
        (some (leg_row_to_exposure_input p)) now_us
    else ok none

abbrev pub rollup : Leg → Leg → Option ErrorCategory × Option String
rollup s p = rollup_leg_error_category s.error_category s.error_code p.error_category p.error_code

abbrev pub stamped : Option ErrorCategory × Option String → Attempt → Attempt
stamped (category, code) a = record a { error_category = category; error_code = code }

-- The two legs of an attempt, when it has exactly two rows and both are terminal.
unfoldable pub closed_legs : Store → ℕ → Option (Leg × Leg)
closed_legs s attempt_id =
    if count_where (λ l. l.attempt_id == attempt_id) s.legs == 2
    then elim (find_leg s attempt_id spot) [
      | none ↦ none
      | some a ↦ elim (find_leg s attempt_id perp) [
        | none ↦ none
        | some b ↦ if a.terminal && b.terminal then some (a, b) else none
      ]
    ]
    else none

-- An attempt that is not settled, with its closed legs and its task. (A task's row is never deleted;
-- for an attempt without one the source would raise.)
unfoldable pub settleable : Store → ℕ → Option (Attempt × Leg × Leg × Task)
unfolding closed_legs
settleable s attempt_id = elim (get_attempt s attempt_id) [
  | none ↦ none
  | some a ↦
      if is_none a.pair_outcome
      then elim (closed_legs s attempt_id) [
        | none ↦ none
        | some (x, y) ↦ elim (get_task s a.task_id) [ none ↦ none | some t ↦ some (a, x, y, t) ]
      ]
      else none
]

abbrev pub from_legs : Leg → Leg → Option LegExposure → Bool → Settlement
from_legs x y exposure skip = record {
  category = category_of_legs x y;
  exposure = exposure;
  is_fatal = if skip then false else is_fatal_category (rollup x y).0;
  skip_counters = skip;
  suppress_done = false;
}

-- The body that `finalize_attempt` and `settle_attempt_no_counters` share: the error is the one of
-- an exposure at the time 0, and the flag is whether the attempt was settled here.
unfoldable pub settle_from_legs : Bool → ℕ → ℕ → Store → Result (Store × Bool)
unfolding settleable exposure_from_legs settle rollup_leg_error_category
settle_from_legs skip attempt_id now_us s = elim (settleable s attempt_id) [
  | none ↦ ok (s, false)
  | some (a, x, y, t) ↦ elim (exposure_from_legs x y now_us) [
    | err e ↦ err e
    | ok exposure ↦
        ok (
          settle attempt_id a t (from_legs x y exposure skip) now_us (stamped (rollup x y)) s,
          true,
        )
  ]
]

unfoldable pub finalize_attempt : ℕ → ℕ → Store → Result (Store × Bool)
unfolding settle_from_legs
finalize_attempt = settle_from_legs false

unfoldable pub settle_attempt_no_counters : ℕ → ℕ → Store → Result (Store × Bool)
unfolding settle_from_legs
settle_attempt_no_counters = settle_from_legs true
