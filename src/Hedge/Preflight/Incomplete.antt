-- ===== src/Hedge/Preflight/Incomplete.antt =====
-- When a preflight is incomplete, as against rejected by a rule.
use binance_funding_hedging.Prelude.{
  ℕ, ◌≡◌, ◌≢◌, ◌↔◌, ◌⊎◌, Bool, true, false, Option, none, some, arith, inl, inr, Bool-cases,
  Option-cases,
}
use binance_funding_hedging.Prelude.Texts.{Text}
use binance_funding_hedging.Decimal.{Decimal, is_positive}
use binance_funding_hedging.Hedge.Errors.{ok, >>=-eq-ok, Result-cases}
use binance_funding_hedging.Hedge.Vocabulary.{Direction, both_mode, Rejection}
use binance_funding_hedging.Hedge.Filters.{
  Filters, effective_market_step, check_bounds, check_notional, check_common_quantity,
}
use binance_funding_hedging.Hedge.Grid.{decimal_lcm, floor_to_grid}
use binance_funding_hedging.Hedge.Preflight.{
  PreflightSnapshot, PreflightResult, Fingerprint, base_asset, balance_gate, quantity_gates,
  price_gate, step_gates, read_gates, fingerprint, compute_preflight,
}

check_bounds_complete :
    (q : Decimal) (f : Filters) → check_bounds q f ≢ some Rejection.preflight_incomplete
unfolding check_bounds
check_bounds_complete q f = ground arith

check_notional_complete :
    (q : Decimal) (s p : Filters) (price : Option Decimal)
    → check_notional q s p price ≢ some Rejection.preflight_incomplete
unfolding check_notional
check_notional_complete q s p price = ground arith

check_common_quantity_complete :
    (q : Decimal) (s p : Filters) (price : Option Decimal)
    → check_common_quantity q s p price ≢ some Rejection.preflight_incomplete
unfolding check_common_quantity
check_common_quantity_complete q s p price = ground (
  arith,
  check_bounds_complete q s,
  check_bounds_complete q p,
  check_notional_complete q s p price,
)

module _ (s : PreflightSnapshot) (coin : Text) (d : Direction) (n : ℕ) (balance : Bool) where
  balance_gate_complete :
      (q price : Decimal) (rec : Fingerprint) (base : Text)
      → (balance_gate s d n q price rec base).rejection ≢ some Rejection.preflight_incomplete
  unfolding balance_gate
  balance_gate_complete q price rec base = ground arith

  quantity_gates_complete :
      (q price : Decimal) (rec : Fingerprint) (r : PreflightResult)
      → quantity_gates s coin d n balance q price rec ≡ ok r
      → r.rejection ≢ some Rejection.preflight_incomplete
  unfolding quantity_gates
  quantity_gates_complete q price rec r e = elim (Result-cases (base_asset coin)) [
    | inl (x, b) ↦
        ground (arith, check_common_quantity_complete q s.spot_filters s.perp_filters (some price))
    | inr (base, b) ↦ ground (
      arith,
      check_common_quantity_complete q s.spot_filters s.perp_filters (some price),
      balance_gate_complete q price rec base,
    )
  ]

  -- No positive price was read.
  abbrev pub Unpriced : Type 0
  Unpriced =
      (s.est_price ≡ none)
      ⊎ ((price : Decimal) × (s.est_price ≡ some price) × (is_positive price ≡ false))

  price_gate-incomplete :
      (q : Decimal) (rec : Fingerprint) (r : PreflightResult)
      → price_gate s coin d n balance q rec ≡ ok r
      → (r.rejection ≡ some Rejection.preflight_incomplete) ↔ Unpriced
  unfolding price_gate
  price_gate-incomplete q rec r e = elim (Option-cases s.est_price) [
    | inl unread ↦ (λ _. inl unread, λ _. ground arith)
    | inr (price, known) ↦ elim (Bool-cases (is_positive price)) [
      | inr zero_price ↦ (λ _. inr (price, known, zero_price), λ _. ground arith)
      | inl pos ↦ (
        λ h. absurd (quantity_gates_complete q price rec r (ground arith) h),
        λ u. elim u [ inl x ↦ cc | inr (other, k, z) ↦ ground arith ],
      )
    ]
  ]

  -- A fact that the preflight needs could not be read: a market step or a positive price.
  abbrev pub Unread : Type 0
  Unread =
      (effective_market_step s.spot_filters ≡ none)
      ⊎ ((effective_market_step s.perp_filters ≡ none) ⊎ Unpriced)

  step_gates-incomplete :
      (amount spot perp : Decimal) (r : PreflightResult)
      → step_gates s coin d amount n balance spot perp ≡ ok r
      → (r.rejection ≡ some Rejection.preflight_incomplete) ↔ Unpriced
  unfolding step_gates
  step_gates-incomplete amount spot perp r e =
      let (grid, is_grid, rest) = >>=-eq-ok (decimal_lcm spot perp) _ e in
      let (q, is_q, last) = >>=-eq-ok (floor_to_grid amount grid) _ rest in
      price_gate-incomplete q (fingerprint s spot perp grid) r last

  read_gates-incomplete :
      (amount : Decimal) (r : PreflightResult)
      → read_gates s coin d amount n balance ≡ ok r
      → (r.rejection ≡ some Rejection.preflight_incomplete) ↔ Unread
  unfolding read_gates
  read_gates-incomplete amount r e = elim (Option-cases (effective_market_step s.spot_filters)) [
    | inl x ↦ (λ _. inl x, λ _. ground arith)
    | inr (spot, es) ↦ elim (Option-cases (effective_market_step s.perp_filters)) [
      | inl x ↦ (λ _. inr (inl x), λ _. ground arith)
      | inr (perp, ep) ↦
          let steps : step_gates s coin d amount n balance spot perp ≡ ok r = ground arith in
          let both = step_gates-incomplete amount spot perp r steps in
          (
            λ h. inr (inr (both.0 h)),
            λ u. elim u [
              | inl x ↦ cc
              | inr v ↦ elim v [ inl x ↦ cc | inr unpriced ↦ both.1 unpriced ]
            ],
          )
    ]
  ]

-- Of a tradable symbol with one-way positions a preflight of a snapshot that returns is rejected as
-- incomplete exactly when a market step or a positive price could not be read. These two are thus never
-- reported as the violation of a rule, nor such a violation as incomplete; and no other fact that is
-- unread makes the preflight incomplete, be it a bound of a filter or a free amount.
pub compute_preflight-incomplete :
    (s : PreflightSnapshot) (coin : Text) (d : Direction) (n : ℕ) (balance : Bool)
    (amount : Decimal)
    → (r : PreflightResult) → s.symbol_tradable ≡ true
    → s.position_mode ≡ both_mode
    → compute_preflight (some s) coin d amount n balance ≡ ok r
    → (r.rejection ≡ some Rejection.preflight_incomplete) ↔ Unread s coin d n balance
unfolding compute_preflight
compute_preflight-incomplete s coin d n balance amount r t m e =
    read_gates-incomplete s coin d n balance amount r (ground arith)
