-- ===== src/Hedge/Worker/Drain.antt =====
-- The drain of a task's orders: _reconcile_own_legs, _recover_crash_gaps and
-- _rate_limited_for_settlement of backend/hedge_open_tasks/service.py, with the two selections of
-- backend/hedge_open_tasks/store.py that they read. The copies of raw responses and the fees are left
-- out, and no write of the store fails.
use binance_funding_hedging.Prelude.{
  ℕ, ◌+◌, Bool, true, false, not, Option, none, some, List, [], ◌∷◌, String, if◌then◌else◌, leb,
  ◌==◌, ◌&&◌, ◌||◌, select, any, is_none,
}
use binance_funding_hedging.Hedge.Errors.{Result, ok, err}
use binance_funding_hedging.Hedge.Vocabulary.{
  unknown_querying, collateral_cap, insufficient_funds, LegDispatchState,
}
use binance_funding_hedging.Hedge.Store.Rows.{Attempt, Leg, Store, settlement_failed}
use binance_funding_hedging.Hedge.Store.Legs.{
  QueryResult, resolve_leg_from_query, mark_attempt_rate_limited,
}
use binance_funding_hedging.Hedge.Store.Settle.{get_attempt, settle_from_legs, append_log}
use binance_funding_hedging.Hedge.Worker.Verdicts.{
  Signal, signal_rate_limited, signal_collateral_cap, signal_insufficient_balance,
  signal_order_state_unknown, LegDispatch, is_absent, query_verdict_terminal,
}
use text.Mathlib.Text.{◌==◌ as str_eq}

-- LEG_QUERY_MAX_RETRIES
abbrev pub leg_query_max_retries : ℕ
leg_query_max_retries = 10

abbrev pub owns_leg : Store → ℕ → Leg → Bool
owns_leg s task_id l =
    not l.terminal && any (λ (a : Attempt). a.task_id == task_id && a.id == l.attempt_id) s.attempts

-- ORDER BY id ASC
abbrev pub insert_leg : Leg → List Leg → List Leg
insert_leg l [] = l ∷ []
insert_leg l (m ∷ legs) =
    let rest = insert_leg l legs in if leb l.id m.id then l ∷ m ∷ legs else m ∷ rest

abbrev pub sort_legs : List Leg → List Leg
sort_legs [] = []
sort_legs (l ∷ legs) = insert_leg l (sort_legs legs)

unfoldable pub list_non_terminal_legs_for_task : ℕ → Store → List Leg
list_non_terminal_legs_for_task task_id s = sort_legs (select (owns_leg s task_id) s.legs)

abbrev pub is_gap : Store → ℕ → Attempt → Bool
is_gap s task_id a =
    a.task_id == task_id
    && is_none a.pair_outcome
    && not (any (λ (l : Leg). l.attempt_id == a.id && not l.terminal) s.legs)

-- A task has at most one such attempt, so that their order is of no matter.
unfoldable pub list_unsettled_terminal_attempts_for_task : ℕ → Store → List Attempt
list_unsettled_terminal_attempts_for_task task_id s = select (is_gap s task_id) s.attempts

-- The worker's memory: how often a leg was asked for, and the attempts whose rate limit is not
-- stamped; with what the drain has found so far.
pub record Drain : Type 0 where
  pub store : Store
  pub retries : ℕ → ℕ
  pub stamp_pending : List ℕ
  pub finalized : List ℕ
  pub signal : Option Signal

abbrev pub first_signal : Option Signal → Signal → Option Signal
first_signal none signal = some signal
first_signal (some earlier) signal = some earlier

abbrev pub set_count : ℕ → ℕ → (ℕ → ℕ) → ℕ → ℕ
set_count leg_id n retries k = if k == leg_id then n else retries k

-- An absence counts only once the retries are used up.
abbrev pub closes : Bool → LegDispatch → Bool
closes exhausted v = query_verdict_terminal v && (exhausted || not (is_absent v.error_category))

abbrev is_unknown : LegDispatchState → Bool
is_unknown unknown_querying = true
is_unknown _ = false

abbrev pub signal_after : Bool → Bool → LegDispatch → Option Signal → Option Signal
signal_after terminal exhausted v signal = elim v.error_category [
  | some collateral_cap ↦ some signal_collateral_cap
  | some insufficient_funds ↦ some signal_insufficient_balance
  | _ ↦
      if not terminal && exhausted && is_unknown v.dispatch_state
      then first_signal signal signal_order_state_unknown
      else signal
]

-- exchange_status or LEG_UNKNOWN
abbrev status_or_unknown : Option String → String
status_or_unknown none = "UNKNOWN"
status_or_unknown (some status) = if str_eq status "" then "UNKNOWN" else status

abbrev pub query_result : Bool → LegDispatch → QueryResult
query_result terminal v = record {
  exchange_status = status_or_unknown v.exchange_status;
  order_id = v.order_id;
  base_qty = v.executed_qty;
  quote_amt = v.cumulative_quote;
  fee_amount = none;
  fee_asset = none;
  terminal = terminal;
  error_code = v.error_code;
  error_category = v.error_category;
  avg_price = v.avg_price;
}

abbrev pub insert : ℕ → List ℕ → List ℕ
insert k ks = if any (λ j. j == k) ks then ks else k ∷ ks

-- A verdict that tells the leg's state.
abbrev pub record_verdict : Leg → ℕ → LegDispatch → ℕ → Drain → Drain
record_verdict leg asked v now_us d =
    let exhausted = leb leg_query_max_retries asked in
    let terminal = closes exhausted v in
    record d {
      store = resolve_leg_from_query leg.id (query_result terminal v) now_us d.store;
      retries = set_count leg.id (if terminal then 0 else asked) d.retries;
      finalized = if terminal then insert leg.attempt_id d.finalized else d.finalized;
      signal = signal_after terminal exhausted v d.signal;
    }

-- One leg's query; None is an inconclusive answer. A query that raises is left out.
unfoldable pub drain_leg : (Leg → Option LegDispatch) → ℕ → Leg → Drain → Drain
unfolding resolve_leg_from_query query_verdict_terminal
drain_leg query now_us leg d =
    let asked = d.retries leg.id + 1 in
    elim (query leg) [
      | none ↦ record d {
        retries = set_count leg.id asked d.retries;
        signal =
            if leb leg_query_max_retries asked
            then first_signal d.signal signal_order_state_unknown
            else d.signal;
      }
      | some v ↦
          if v.rate_limited
          then record d {
            retries = set_count leg.id asked d.retries;
            signal = first_signal d.signal signal_rate_limited;
          }
          else record_verdict leg asked v now_us d
    ]

unfoldable pub drain_legs : (Leg → Option LegDispatch) → ℕ → List Leg → Drain → Drain
unfolding drain_leg
drain_legs query now_us [] d = d
drain_legs query now_us (leg ∷ legs) d = drain_legs query now_us legs (drain_leg query now_us leg d)

-- `_rate_limited_for_settlement`: a stamp that is pending is made first.
unfoldable pub rate_limited_for_settlement : Attempt → Drain → Drain × Bool
unfolding mark_attempt_rate_limited
rate_limited_for_settlement a d =
    if any (λ k. k == a.id) d.stamp_pending
    then (
      record d {
        store = mark_attempt_rate_limited a.id d.store;
        stamp_pending = select (λ k. not (k == a.id)) d.stamp_pending;
      },
      true,
    )
    else (d, a.rate_limited)

abbrev pub settled_store : ℕ → ℕ → ℕ → Store → Result (Store × Bool) → Store
settled_store task_id attempt_id now_us s (ok (s', flag)) = s'
settled_store task_id attempt_id now_us s (err e) =
    append_log task_id now_us (some (settlement_failed attempt_id)) s

-- The settlement of an attempt, with the counters or, for a rate limited one, without them.
unfoldable pub settle_drained : ℕ → ℕ → Attempt → Drain → Drain
unfolding rate_limited_for_settlement settle_from_legs
settle_drained task_id now_us a d =
    let (d', limited) = rate_limited_for_settlement a d in
    record d' {
      store =
          settled_store task_id a.id now_us d'.store
            (settle_from_legs limited a.id now_us d'.store);
    }

-- One pass of the loop over the attempts with a leg that was closed.
unfoldable pub settle_one : ℕ → ℕ → ℕ → Drain → Drain
unfolding settle_drained settle_from_legs
settle_one task_id now_us k d = elim (get_attempt d.store k) [
  | some a ↦ settle_drained task_id now_us a d
  | none ↦ record d {
    store = settled_store task_id k now_us d.store (settle_from_legs false k now_us d.store);
  }
]

unfoldable pub settle_finalized : ℕ → ℕ → List ℕ → Drain → Drain
unfolding settle_one
settle_finalized task_id now_us [] d = d
settle_finalized task_id now_us (k ∷ ks) d =
    settle_finalized task_id now_us ks (settle_one task_id now_us k d)

unfoldable pub settle_gaps : ℕ → ℕ → List Attempt → Drain → Drain
unfolding settle_drained
settle_gaps task_id now_us [] d = d
settle_gaps task_id now_us (a ∷ gaps) d =
    settle_gaps task_id now_us gaps (settle_drained task_id now_us a d)

unfoldable pub recover_crash_gaps : ℕ → ℕ → Drain → Drain
unfolding list_unsettled_terminal_attempts_for_task settle_gaps
recover_crash_gaps task_id now_us d =
    settle_gaps task_id now_us (list_unsettled_terminal_attempts_for_task task_id d.store) d

-- The executor has a query here; without one only the gaps are closed.
unfoldable pub reconcile_own_legs : (Leg → Option LegDispatch) → ℕ → ℕ → Drain → Drain
unfolding list_non_terminal_legs_for_task drain_legs settle_finalized recover_crash_gaps
reconcile_own_legs query task_id now_us d =
    let fresh = record d { finalized = []; signal = none } in
    let drained = drain_legs query now_us (list_non_terminal_legs_for_task task_id d.store) fresh in
    recover_crash_gaps task_id now_us (settle_finalized task_id now_us drained.finalized drained)
