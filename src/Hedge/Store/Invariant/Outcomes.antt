-- ===== src/Hedge/Store/Invariant/Outcomes.antt =====
-- The two ways in which a pair is settled, by the executor's outcome and from its closed legs.
use binance_funding_hedging.Prelude.{
  ℕ, ◌≡◌, Bool, true, false, Option, some, none, refl, Option-cases, Bool-cases, inl, inr, arith,
  is_none, ◌≢◌, ◌==◌, ◌<◌, sym, ◌∙◌, find?, String, find?-update_where, update_where, ap,
}
use binance_funding_hedging.Hedge.Errors.{Result, ok}
use binance_funding_hedging.Hedge.Vocabulary.{ErrorCategory}
use binance_funding_hedging.Hedge.Attempt.{LegExposure, spot, perp, truthy}
use binance_funding_hedging.Hedge.Attempt.Verdict.{build_leg_exposure-classify}
use binance_funding_hedging.Hedge.Store.Legs.{leg_row_to_exposure_input}
use binance_funding_hedging.Hedge.Store.Rows.{Task, Attempt, Leg, LogEntry, Store}
use binance_funding_hedging.Hedge.Store.Tasks.{get_task, has_id}
use binance_funding_hedging.Hedge.Store.Settle.{
  get_attempt, settle, Settlement, settleable, settle_from_legs, category_of_legs,
  exposure_from_legs, is_single, from_legs, stamped, append_log, counted, rollup,
}
use binance_funding_hedging.Hedge.Store.Resolve.{
  AttemptOutcome, resolve_attempt, resolve_leg, of_outcome, outcome_stamp, transport_log,
}
use binance_funding_hedging.Hedge.Store.Invariant.{Inv}
use binance_funding_hedging.Hedge.Store.Invariant.Settle.{IsVerdict, settle-Inv, counted-outcome}

-- The settlement of an attempt that is open, by an outcome with a verdict on its two legs, keeps the
-- invariant of the database.
pub resolve_attempt-Inv :
    (attempt_id : ℕ) (o : AttemptOutcome) (spot_terminal perp_terminal suppress : Bool) (now : ℕ)
    → (s : Store) → ((a : Attempt) → get_attempt s attempt_id ≡ some a → a.pair_outcome ≡ none)
    → IsVerdict o.category
    → Inv s
    → Inv (resolve_attempt attempt_id o spot_terminal perp_terminal suppress now s).0
unfolding resolve_leg resolve_attempt
resolve_attempt-Inv attempt_id o spot_terminal perp_terminal suppress now s unsettled v h =
    elim (Option-cases (get_attempt s attempt_id)) [
      | inl e ↦ rw (resolve_attempt, e) h
      | inr (a, e) ↦ elim (Option-cases (get_task s a.task_id)) [
        | inl none_there ↦ rw (resolve_attempt, e, none_there) h
        | inr (t, there) ↦
            rw (resolve_attempt, e, there)
              (settle-Inv attempt_id a t (of_outcome o suppress) now (outcome_stamp o s.next_log_id)
                (transport_log a o now (
                  resolve_leg attempt_id perp o.perp_leg perp_terminal now
                    (resolve_leg attempt_id spot o.spot_leg spot_terminal now s)))
                (λ b. refl) e (unsettled a e) v (record { sound = h.sound; keyed = h.keyed }))
      ]
    ]

pub category_of_legs-IsVerdict : (x y : Leg) → IsVerdict (category_of_legs x y)
category_of_legs-IsVerdict x y = elim (Bool-cases (truthy x.order_id)) [
  | inl p ↦ elim (Bool-cases (truthy y.order_id)) [ inl q ↦ rw (p, q) tt | inr q ↦ rw (p, q) tt ]
  | inr p ↦ elim (Bool-cases (truthy y.order_id)) [ inl q ↦ rw (p, q) tt | inr q ↦ rw (p, q) tt ]
]

settleable-open :
    (s : Store) (attempt_id : ℕ) (a : Attempt) (x y : Leg) (t : Task)
    → settleable s attempt_id ≡ some (a, x, y, t)
    → (get_attempt s attempt_id ≡ some a) × (a.pair_outcome ≡ none)
unfolding settleable
settleable-open s attempt_id a x y t h = ground arith

-- The body of settle_from_legs on a settleable pair whose exposure is known.
pub settle_from_legs-settles :
    (skip : Bool) (attempt_id now : ℕ) (s : Store) (a : Attempt) (x y : Leg) (t : Task)
    → (exposure : Option LegExposure) → settleable s attempt_id ≡ some (a, x, y, t)
    → exposure_from_legs x y now ≡ ok exposure
    → settle_from_legs skip attempt_id now s
      ≡ ok (settle attempt_id a t (from_legs x y exposure skip) now (stamped (rollup x y)) s, true)
unfolding settle_from_legs
settle_from_legs-settles skip attempt_id now s a x y t exposure e f =
    rw (settle_from_legs, e, f) refl

pub settle_from_legs-idle :
    (skip : Bool) (attempt_id now : ℕ) (s : Store)
    → settleable s attempt_id ≡ none
    → settle_from_legs skip attempt_id now s ≡ ok (s, false)
unfolding settle_from_legs
settle_from_legs-idle skip attempt_id now s e = rw (settle_from_legs, e) refl

pub exposure_from_legs-total :
    (x y : Leg) (now : ℕ)
    → 0 < now
    → (exposure : Option LegExposure) × (exposure_from_legs x y now ≡ ok exposure)
unfolding exposure_from_legs
exposure_from_legs-total x y now h =
    let (o, e, _, _) =
      build_leg_exposure-classify (some (leg_row_to_exposure_input x))
        (some (leg_row_to_exposure_input y)) now h in
    elim (Bool-cases (is_single (category_of_legs x y))) [
      | inl q ↦ (o, rw (exposure_from_legs, q) e)
      | inr q ↦ (none, rw (exposure_from_legs, q) refl)
    ]

-- The settlement from the two closed legs, with the task's counters or without, never fails at a
-- positive time and keeps the invariant of the database.
pub settle_from_legs-Inv :
    (skip : Bool) (attempt_id now : ℕ) (s : Store)
    → 0 < now
    → Inv s
    → (s' : Store) × (flag : Bool) × (settle_from_legs skip attempt_id now s ≡ ok (s', flag))
      × Inv s'
settle_from_legs-Inv skip attempt_id now s pos h = elim (Option-cases (settleable s attempt_id)) [
  | inl e ↦ (s, false, settle_from_legs-idle skip attempt_id now s e, h)
  | inr ((a, x, y, t), e) ↦
      let (exposure, f) = exposure_from_legs-total x y now pos in
      let (found, unsettled) = settleable-open s attempt_id a x y t e in
      let st = from_legs x y exposure skip in
      (
        settle attempt_id a t st now (stamped (rollup x y)) s,
        true,
        settle_from_legs-settles skip attempt_id now s a x y t exposure e f,
        settle-Inv attempt_id a t st now (stamped (rollup x y)) s (λ b. refl) found unsettled
            (category_of_legs-IsVerdict x y) h,
      )
]

pub append_log-attempts :
    (task_id now : ℕ) (entry : Option LogEntry) (s : Store)
    → (append_log task_id now entry s).attempts ≡ s.attempts
append_log-attempts task_id now none s = refl
append_log-attempts task_id now (some entry) s = refl

settleable-settled :
    (s : Store) (attempt_id : ℕ)
    → ((b : Attempt) → get_attempt s attempt_id ≡ some b → b.pair_outcome ≢ none)
    → settleable s attempt_id ≡ none
unfolding settleable
settleable-settled s attempt_id h = elim (Option-cases (get_attempt s attempt_id)) [
  | inl e ↦ rw (settleable, e) refl
  | inr (b, e) ↦
      let settled = h b e in
      let closed : is_none b.pair_outcome ≡ false = ground arith in rw (settleable, e, closed) refl
]

-- After its settlement an attempt is not settleable.
settle-settleable :
    (attempt_id : ℕ) (a : Attempt) (t : Task) (st : Settlement) (now : ℕ)
    → (e : Option ErrorCategory × Option String) (s : Store) → IsVerdict st.category
    → settleable (settle attempt_id a t st now (stamped e) s) attempt_id ≡ none
unfolding settle
settle-settleable attempt_id a t st now e s v =
    let hit : Attempt → Bool = λ b. b.id == attempt_id in
    let o = (counted st now t).1 in
    let f : Attempt → Attempt = λ b. stamped e (record b { pair_outcome = o }) in
    let rows = record s {
      tasks = update_where (has_id a.task_id) (λ row. (counted st now row).0) s.tasks;
      attempts = update_where hit f s.attempts;
    } in
    settleable-settled _ attempt_id λ b found.
      let in_rows : find? hit (update_where hit f s.attempts) ≡ some b =
        ap (find? hit) (sym (append_log-attempts a.task_id now (counted st now t).2 rows))
        ∙ found in
      let (c, same) = find?-update_where hit f s.attempts b (λ x. refl) in_rows in
      λ z. counted-outcome st now t v (sym (ap (λ x. x.pair_outcome) same) ∙ z)

ok-store :
    {s s' : Store} {b c : Bool}
    → let p : Result (Store × Bool) = ok (s, b) in p ≡ ok (s', c) → s ≡ s'
ok-store h = cc h

-- A pair that was settled from its legs is not settled again, with the counters or without: the next
-- call changes nothing and says so.
pub settle_from_legs-once :
    (skip : Bool) (attempt_id now : ℕ) (s s' : Store)
    → 0 < now
    → settle_from_legs skip attempt_id now s ≡ ok (s', true)
    → (skip' : Bool) (now' : ℕ) → settle_from_legs skip' attempt_id now' s' ≡ ok (s', false)
settle_from_legs-once skip attempt_id now s s' pos h skip' now' =
    elim (Option-cases (settleable s attempt_id)) [
      | inl e ↦ cc (h, settle_from_legs-idle skip attempt_id now s e)
      | inr ((a, x, y, t), e) ↦
          let (exposure, f) = exposure_from_legs-total x y now pos in
          let same =
            ok-store
              (sym (settle_from_legs-settles skip attempt_id now s a x y t exposure e f) ∙ h) in
          let gone =
            settle-settleable attempt_id a t (from_legs x y exposure skip) now (rollup x y) s
              (category_of_legs-IsVerdict x y) in
          settle_from_legs-idle skip' attempt_id now' s'
            (ap (λ z. settleable z attempt_id) (sym same) ∙ gone)
    ]
