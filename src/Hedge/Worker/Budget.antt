-- ===== src/Hedge/Worker/Budget.antt =====
-- How long a leg is asked for that the exchange gives no answer to.
use binance_funding_hedging.Prelude.{
  ℕ, zero, suc, ◌+◌, ◌≡◌, ◌≤◌, Option, none, some, refl, arith, ◌∙◌,
}
use binance_funding_hedging.Hedge.Store.Rows.{Leg}
use binance_funding_hedging.Hedge.Worker.Verdicts.{LegDispatch, signal_order_state_unknown}
use binance_funding_hedging.Hedge.Worker.Drain.{Drain, drain_leg, leg_query_max_retries}

-- A leg's queries over as many rounds; a round begins without a signal.
abbrev pub rounds : (Leg → Option LegDispatch) → ℕ → Leg → ℕ → Drain → Drain
rounds query now leg zero d = d
rounds query now leg (suc n) d =
    let earlier = rounds query now leg n d in
    drain_leg query now leg (record earlier { signal = none })

module _ (query : Leg → Option LegDispatch) (now : ℕ) (leg : Leg) (silent : query leg ≡ none) where
  counted_round : (d : Drain) → (drain_leg query now leg d).retries leg.id ≡ d.retries leg.id + 1
  unfolding drain_leg
  counted_round d = rw (drain_leg, silent) (ground arith)

  kept_store : (d : Drain) → (drain_leg query now leg d).store ≡ d.store
  unfolding drain_leg
  kept_store d = rw (drain_leg, silent) refl

  rounds-retries :
      (n : ℕ) (d : Drain) → (rounds query now leg n d).retries leg.id ≡ d.retries leg.id + n
  rounds-retries zero d = omega arith
  rounds-retries (suc n) d =
      let earlier = rounds-retries n d in
      let last = counted_round (record (rounds query now leg n d) { signal = none }) in omega arith

  rounds-store : (n : ℕ) (d : Drain) → (rounds query now leg n d).store ≡ d.store
  rounds-store zero d = refl
  rounds-store (suc n) d =
      kept_store (record (rounds query now leg n d) { signal = none }) ∙ rounds-store n d

  escalated :
      (d : Drain)
      → leg_query_max_retries ≤ d.retries leg.id + 1
      → d.signal ≡ none
      → (drain_leg query now leg d).signal ≡ some signal_order_state_unknown
  unfolding drain_leg
  escalated d used quiet = rw (drain_leg, silent) (ground arith)

  -- A leg without an answer is asked for ten times at most before the worker is told to stop for a
  -- manual check, however often it was asked for before; the database is as it was, so that the leg
  -- is not closed and nothing is sent again.
  pub rounds-escalates :
      (d : Drain)
      → ((rounds query now leg leg_query_max_retries d).signal ≡ some signal_order_state_unknown)
        × ((rounds query now leg leg_query_max_retries d).store ≡ d.store)
  rounds-escalates d =
      let before = rounds-retries 9 d in
      (
        escalated (record (rounds query now leg 9 d) { signal = none }) (omega arith) refl,
        rounds-store leg_query_max_retries d,
      )
