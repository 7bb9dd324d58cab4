-- ===== src/Hedge/Attempt/Verdict.antt =====
-- How the verdict and the exposure of two legs agree.
use binance_funding_hedging.Prelude.{
  ℕ, ◌≡◌, ◌≢◌, ◌↔◌, ◌<◌, true, Option, none, some, arith, Bool-cases, inl, inr,
}
use binance_funding_hedging.Hedge.Errors.{ok}
use binance_funding_hedging.Hedge.Vocabulary.{single_leg_exposure}
use binance_funding_hedging.Hedge.Attempt.{
  LegDoc, LegExposure, spot, perp, leg_is_accepted, classify_attempt, build_leg_exposure,
  exposure_doc,
}

-- At a positive time the exposure document is built without an error, and there is one exactly when
-- the attempt is a single-leg exposure; it then names the one leg that was accepted.
pub build_leg_exposure-classify :
    (s p : Option LegDoc) (ts : ℕ)
    → 0 < ts
    → (o : Option LegExposure) × (build_leg_exposure s p ts ≡ ok o)
      × ((o ≢ none) ↔ (classify_attempt s p ≡ single_leg_exposure))
      × ((e : LegExposure)
          → o ≡ some e
          → (e.ts ≡ ts)
            × ((e.leg ≡ spot) ↔ (leg_is_accepted s ≡ true))
            × ((e.leg ≡ perp) ↔ (leg_is_accepted p ≡ true)))
unfolding build_leg_exposure classify_attempt
build_leg_exposure-classify s p ts h = elim (Bool-cases (leg_is_accepted s)) [
  | inl a ↦ elim (Bool-cases (leg_is_accepted p)) [
    | inl b ↦ (none, ground arith, (ground arith, ground arith), λ e q. absurd (cc))
    | inr b ↦ (
      some (exposure_doc spot s ts),
      ground arith,
      (ground arith, ground arith),
      λ e q. ground arith,
    )
  ]
  | inr a ↦ elim (Bool-cases (leg_is_accepted p)) [
    | inl b ↦ (
      some (exposure_doc perp p ts),
      ground arith,
      (ground arith, ground arith),
      λ e q. ground arith,
    )
    | inr b ↦ (none, ground arith, (ground arith, ground arith), λ e q. absurd (cc))
  ]
]
