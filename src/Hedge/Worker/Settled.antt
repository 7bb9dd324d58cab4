-- ===== src/Hedge/Worker/Settled.antt =====
-- What the dispatch of a pair does to the database.
use binance_funding_hedging.Prelude.{
  ℕ, ◌≡◌, ◌<◌, Bool, true, false, Option, none, some, String, if◌then◌else◌, refl, Option-cases,
  Bool-cases, inl, inr, ◌∙◌,
}
use binance_funding_hedging.Hedge.Errors.{Result, ok}
use binance_funding_hedging.Hedge.Vocabulary.{
  LegDispatchState, TaskType, prepared, dispatching, accepted_or_querying, unknown_querying,
  terminal_recorded, is_close,
}
use binance_funding_hedging.Hedge.Attempt.{LegName, leg_is_accepted, classify_attempt}
use binance_funding_hedging.Hedge.Attempt.Verdict.{build_leg_exposure-classify}
use binance_funding_hedging.Hedge.Store.Rows.{Attempt, Store, rate_limited_event}
use binance_funding_hedging.Hedge.Store.Legs.{mark_leg_querying}
use binance_funding_hedging.Hedge.Store.Settle.{get_attempt, is_single}
use binance_funding_hedging.Hedge.Store.Resolve.{AttemptOutcome, resolve_attempt}
use binance_funding_hedging.Hedge.Store.Invariant.{Inv}
use binance_funding_hedging.Hedge.Store.Invariant.Settle.{IsVerdict, append_log-Inv}
use binance_funding_hedging.Hedge.Store.Invariant.Outcomes.{resolve_attempt-Inv}
use binance_funding_hedging.Hedge.Worker.Verdicts.{
  Signal, signal_rate_limited, LegDispatch, leg_terminal, pause_signal_from_legs,
}
use binance_funding_hedging.Hedge.Worker.Sound.{mark_attempt_rate_limited-Inv}
use binance_funding_hedging.Hedge.Worker.Dispatch.{
  LiveAttemptDispatch, has_querying, leg_doc, outcome_with, dispatch_to_outcome, mark_querying,
  mark_legs_querying, rate_limited_store, settle_dispatched, unlimited_dispatch, dispatch_live,
}

-- A write that leaves tasks and attempts alone.
abbrev pub IsQuiet : (Store → Store) → Type 0
IsQuiet f =
    (s : Store) → (Inv s → Inv (f s)) × ((f s).tasks ≡ s.tasks) × ((f s).attempts ≡ s.attempts)

mark_leg_querying-IsQuiet :
    (attempt_id : ℕ) (name : LegName) (st : LegDispatchState) (order_id : Option String) (now : ℕ)
    → IsQuiet (mark_leg_querying attempt_id name st order_id now)
unfolding mark_leg_querying
mark_leg_querying-IsQuiet attempt_id name st order_id now s =
    (λ h. record { sound = h.sound; keyed = h.keyed }, refl, refl)

mark_querying-IsQuiet :
    (attempt_id : ℕ) (l : LegDispatch) (now : ℕ) → IsQuiet (mark_querying attempt_id l now)
mark_querying-IsQuiet attempt_id l now s = by_state l.dispatch_state refl
  where
    by_state :
        (st : LegDispatchState)
        → l.dispatch_state ≡ st
        → (Inv s → Inv (mark_querying attempt_id l now s))
          × ((mark_querying attempt_id l now s).tasks ≡ s.tasks)
          × ((mark_querying attempt_id l now s).attempts ≡ s.attempts)
    by_state prepared e = rw e (mark_leg_querying-IsQuiet attempt_id l.leg _ l.order_id now s)
    by_state dispatching e = rw e (mark_leg_querying-IsQuiet attempt_id l.leg _ l.order_id now s)
    by_state accepted_or_querying e =
        rw e (mark_leg_querying-IsQuiet attempt_id l.leg _ l.order_id now s)
    by_state unknown_querying e =
        rw e (mark_leg_querying-IsQuiet attempt_id l.leg _ l.order_id now s)
    by_state terminal_recorded e = rw e (λ h. h, refl, refl)

pub mark_legs_querying-IsQuiet :
    (attempt_id : ℕ) (d : LiveAttemptDispatch) (now : ℕ)
    → IsQuiet (mark_legs_querying attempt_id d now)
unfolding mark_legs_querying
mark_legs_querying-IsQuiet attempt_id d now s =
    let (first_Inv, first_tasks, first_attempts) =
      mark_querying-IsQuiet attempt_id d.spot_leg now s in
    let (last_Inv, last_tasks, last_attempts) =
      mark_querying-IsQuiet attempt_id d.perp_leg now (mark_querying attempt_id d.spot_leg now s) in
    (λ h. last_Inv (first_Inv h), last_tasks ∙ first_tasks, last_attempts ∙ first_attempts)

classify_attempt-IsVerdict :
    (s p : LegDispatch) → IsVerdict (classify_attempt (leg_doc s) (leg_doc p))
unfolding classify_attempt
classify_attempt-IsVerdict s p = elim (Bool-cases (leg_is_accepted (leg_doc s))) [
  | inl a ↦ elim (Bool-cases (leg_is_accepted (leg_doc p))) [
    | inl b ↦ rw (a, b) tt
    | inr b ↦ rw (a, b) tt
  ]
  | inr a ↦ elim (Bool-cases (leg_is_accepted (leg_doc p))) [
    | inl b ↦ rw (a, b) tt
    | inr b ↦ rw (a, b) tt
  ]
]

dispatch_to_outcome-IsVerdict :
    (s p : LegDispatch) (payload : String) (ts : ℕ)
    → 0 < ts
    → (o : AttemptOutcome) × (dispatch_to_outcome s p payload ts ≡ ok o) × IsVerdict o.category
unfolding dispatch_to_outcome
dispatch_to_outcome-IsVerdict s p payload ts pos =
    let v = classify_attempt-IsVerdict s p in
    let (exposure, e, _, _) = build_leg_exposure-classify (leg_doc s) (leg_doc p) ts pos in
    elim (Bool-cases (is_single (classify_attempt (leg_doc s) (leg_doc p)))) [
      | inl q ↦ (outcome_with s p payload exposure, rw (dispatch_to_outcome, q, e) refl, v)
      | inr q ↦ (outcome_with s p payload none, rw (dispatch_to_outcome, q) refl, v)
    ]

-- An attempt that is not settled, if it is there.
abbrev pub IsUnsettled : Store → ℕ → Type 0
IsUnsettled s attempt_id = (a : Attempt) → get_attempt s attempt_id ≡ some a → a.pair_outcome ≡ none

settle_dispatched-Inv :
    (attempt_id : ℕ) (d : LiveAttemptDispatch) (x y suppress : Bool) (now : ℕ) (s : Store)
    → 0 < now
    → IsUnsettled s attempt_id
    → Inv s
    → (s' : Store) × (settle_dispatched attempt_id d x y suppress now s ≡ ok s') × Inv s'
unfolding settle_dispatched
settle_dispatched-Inv attempt_id d x y suppress now s pos unsettled h =
    let (o, e, v) = dispatch_to_outcome-IsVerdict d.spot_leg d.perp_leg d.record_payload now pos in
    (
      (resolve_attempt attempt_id o x y suppress now s).0,
      rw (settle_dispatched, e) refl,
      resolve_attempt-Inv attempt_id o x y suppress now s unsettled v h,
    )

unlimited_dispatch-Inv :
    (attempt_id : ℕ) (task_type : TaskType) (d : LiveAttemptDispatch) (now : ℕ) (s : Store)
    → 0 < now
    → IsUnsettled s attempt_id
    → Inv s
    → (s' : Store) × (signal : Option Signal) × (unlimited_dispatch attempt_id task_type d now s
        ≡ ok (s', signal))
      × Inv s'
unfolding unlimited_dispatch
unlimited_dispatch-Inv attempt_id task_type d now s pos unsettled h =
    let marked = mark_legs_querying attempt_id d now s in
    let marked_Inv = (mark_legs_querying-IsQuiet attempt_id d now s).0 h in
    elim (Option-cases (pause_signal_from_legs d.spot_leg d.perp_leg)) [
      | inr (signal, e) ↦ elim (Bool-cases (has_querying d)) [
        | inl q ↦ (marked, some signal, rw (unlimited_dispatch, e, q) refl, marked_Inv)
        | inr q ↦
            let (s', f, g) =
              settle_dispatched-Inv attempt_id d true true true now s pos unsettled h in
            (s', some signal, rw (unlimited_dispatch, e, q, f) refl, g)
      ]
      | inl e ↦ elim (Bool-cases (has_querying d)) [
        | inl q ↦ (marked, none, rw (unlimited_dispatch, e, q) refl, marked_Inv)
        | inr q ↦
            let (s', f, g) =
              settle_dispatched-Inv attempt_id d (leg_terminal d.spot_leg) (leg_terminal d.perp_leg)
                (is_close task_type) now s pos unsettled h in
            (s', none, rw (unlimited_dispatch, e, q, f) refl, g)
      ]
    ]

rate_limited_store-Inv :
    (task_id attempt_id : ℕ) (d : LiveAttemptDispatch) (now : ℕ) (s : Store)
    → Inv s
    → Inv (rate_limited_store task_id attempt_id d now s)
rate_limited_store-Inv task_id attempt_id d now s h =
    let marked_Inv = (mark_legs_querying-IsQuiet attempt_id d now s).0 h in
    mark_attempt_rate_limited-Inv attempt_id _ (
      append_log-Inv task_id now (some rate_limited_event) _
        (elim (Bool-cases (has_querying d)) [ inl q ↦ rw q marked_Inv | inr q ↦ rw q h ]))

-- The dispatch of a reserved pair at a positive time, whatever the two legs answer, gives a database
-- and a signal without an error, and keeps the invariant of the database.
pub dispatch_live-Inv :
    (task_id attempt_id : ℕ) (task_type : TaskType) (d : LiveAttemptDispatch) (now : ℕ) (s : Store)
    → 0 < now
    → IsUnsettled s attempt_id
    → Inv s
    → (s' : Store) × (signal : Option Signal) × (dispatch_live task_id attempt_id task_type d now s
        ≡ ok (s', signal))
      × Inv s'
unfolding dispatch_live
dispatch_live-Inv task_id attempt_id task_type d now s pos unsettled h =
    let limited_store = rate_limited_store task_id attempt_id d now s in
    let limited_Inv = rate_limited_store-Inv task_id attempt_id d now s h in
    let (s', signal, e, g) = unlimited_dispatch-Inv attempt_id task_type d now s pos unsettled h in
    by_limit limited_store limited_Inv s' signal g d.rate_limited
      (unlimited_dispatch attempt_id task_type d now s) e
  where
    by_limit :
        (l : Store)
        → Inv l
        → (s' : Store) (signal : Option Signal) → Inv s'
        → (limited : Bool) → (other : Result (Store × Option Signal)) → other ≡ ok (s', signal)
        → (s'' : Store) × (signal' : Option Signal) × ((if limited
              then ok (l, some signal_rate_limited)
              else other)
            ≡ ok (s'', signal'))
          × Inv s''
    by_limit l i s' signal g true other e = (l, some signal_rate_limited, refl, i)
    by_limit l i s' signal g false other e = (s', signal, e, g)
