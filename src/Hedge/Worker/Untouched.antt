-- ===== src/Hedge/Worker/Untouched.antt =====
-- When a leg is closed by a query.
use binance_funding_hedging.Prelude.{
  ℕ, ◌+◌, ◌≡◌, ◌≤◌, true, false, Option, some, arith, refl, Option-cases, Bool-cases, inl, inr,
  find?, ◌==◌, leb, find?-update_where, sym, ◌∙◌, ap,
}
use binance_funding_hedging.Hedge.Store.Rows.{Leg}
use binance_funding_hedging.Hedge.Store.Legs.{resolve_leg_from_query, query_written}
use binance_funding_hedging.Hedge.Worker.Verdicts.{LegDispatch, is_absent, query_verdict_terminal}
use binance_funding_hedging.Hedge.Worker.Drain.{
  Drain, drain_leg, closes, query_result, leg_query_max_retries,
}

-- What an answer has to be for the leg to be closed.
pub record IsClosing (v : LegDispatch) (asked : ℕ) : Type 0 where
  pub answered : v.rate_limited ≡ false
  pub final : query_verdict_terminal v ≡ true
  pub waited : is_absent v.error_category ≡ true → leg_query_max_retries ≤ asked

-- A leg that a query closes had an answer that was no rate limit and said that the order is final or
-- was refused; an answer that the order is not there closes it only from the tenth query on.
pub drain_leg-IsClosing :
    (query : Leg → Option LegDispatch) (now : ℕ) (leg before after : Leg) (d : Drain)
    → find? (λ l. l.id == leg.id) d.store.legs ≡ some before
    → before.terminal ≡ false
    → find? (λ l. l.id == leg.id) (drain_leg query now leg d).store.legs ≡ some after
    → after.terminal ≡ true
    → (v : LegDispatch) × (query leg ≡ some v) × IsClosing v (d.retries leg.id + 1)
unfolding drain_leg resolve_leg_from_query query_written
drain_leg-IsClosing query now leg before after d found waits later closed =
    elim (Option-cases (query leg)) [
      | inl e ↦ absurd (ground arith)
      | inr (v, e) ↦ elim (Bool-cases v.rate_limited) [
        | inl limited ↦ absurd (ground arith)
        | inr free ↦
            let exhausted = leb leg_query_max_retries (d.retries leg.id + 1) in
            let (row, same) =
              find?-update_where (λ (l : Leg). l.id == leg.id)
                (query_written (query_result (closes exhausted v) v) now) d.store.legs after
                (λ l. refl) (rw (sym later, drain_leg, e, free) refl) in
            let shut : closes exhausted v ≡ true =
              sym (ap (λ (l : Leg). l.terminal) same) ∙ closed in
            (v, e, record { answered = free; final = ground arith; waited = λ a. ground arith })
      ]
    ]
