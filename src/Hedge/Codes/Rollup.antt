-- ===== src/Hedge/Codes/Rollup.antt =====
-- How the error categories of two legs become the one of their attempt.
use binance_funding_hedging.Prelude.{
  ◌≡◌, ◌≤◌, ◌<◌, ◌⊎◌, ◌↔◌, ◌≢◌, Option, none, some, String, arith, max,
}
use binance_funding_hedging.Hedge.Vocabulary.{ErrorCategory, fatal}
use binance_funding_hedging.Hedge.Codes.{rollup_priority, rollup_leg_error_category}

-- The rolled-up category has the greater priority of the two, and category and code are those of
-- one leg: the perpetual leg's when its priority is strictly greater, else the spot leg's, and
-- nothing when neither leg has a category.
pub rollup_leg_error_category-max :
    (s p : Option ErrorCategory) (sc pc : Option String)
    → let r = rollup_leg_error_category s sc p pc in
      (rollup_priority r.0 ≡ max (rollup_priority s) (rollup_priority p))
      × (rollup_priority s < rollup_priority p → r ≡ (p, pc))
      × (rollup_priority p ≤ rollup_priority s → s ≢ none → r ≡ (s, sc))
      × (s ≡ none → p ≡ none → r ≡ (none, none))
unfolding rollup_leg_error_category
rollup_leg_error_category-max s p sc pc = (ground arith, ground arith, ground arith, ground arith)

-- The attempt is fatal exactly when a leg is.
pub rollup_leg_error_category-fatal :
    (s p : Option ErrorCategory) (sc pc : Option String)
    → ((rollup_leg_error_category s sc p pc).0 ≡ some fatal) ↔ ((s ≡ some fatal) ⊎ (p ≡ some fatal))
unfolding rollup_leg_error_category
rollup_leg_error_category-fatal s p sc pc = (ground arith, ground arith)
