-- ===== src/Hedge/Preflight/Gates.antt =====
-- What an accepted preflight guarantees, and which rejections it gives.
use binance_funding_hedging.Prelude.{
  ℕ, ◌≡◌, ◌⊎◌, refl, Bool, true, false, Option, none, some, arith, inl, inr, Bool-cases,
  Option-cases,
}
use binance_funding_hedging.Prelude.Texts.{Text}
use binance_funding_hedging.Decimal.{Decimal, is_positive, le_decimal}
use binance_funding_hedging.Hedge.Errors.{ok, >>=-eq-ok, Result-cases}
use binance_funding_hedging.Hedge.Vocabulary.{Direction, both_mode}
use binance_funding_hedging.Hedge.Filters.{effective_market_step, check_common_quantity}
use binance_funding_hedging.Hedge.Filters.Bounds.{Admits, check_common_quantity-none}
use binance_funding_hedging.Hedge.Grid.{decimal_lcm, floor_to_grid}
use binance_funding_hedging.Hedge.Preflight.{
  PreflightSnapshot, PreflightResult, Fingerprint, base_asset, required_funds, available_funds,
  is_prefunded, balance_gate, quantity_gates, price_gate, step_gates, read_gates, fingerprint,
  compute_preflight,
}

module _ (s : PreflightSnapshot) (coin : Text) (d : Direction) (n : ℕ) where
  -- The funds that the task needs are at hand, or are transferred when it is made.
  abbrev pub Funded : Decimal → Decimal → Text → Type 0
  Funded q price base =
      (is_prefunded d s.spot_route ≡ true)
      ⊎ (le_decimal (required_funds d q n price) (available_funds s d base) ≡ true)

  -- What holds of a quantity that the preflight lets through.
  pub record Cleared (q price : Decimal) (balance : Bool) : Type 0 where
    pub price_known : s.est_price ≡ some price
    pub price_positive : is_positive price ≡ true
    pub quantity_positive : is_positive q ≡ true
    pub spot_admits : Admits s.spot_filters q price
    pub perp_admits : Admits s.perp_filters q price
    pub funded : balance ≡ true → (base : Text) × (base_asset coin ≡ ok base) × Funded q price base

  balance_gate-Funded :
      (q price : Decimal) (rec : Fingerprint) (base : Text)
      → (balance_gate s d n q price rec base).rejection ≡ none
      → Funded q price base
  unfolding balance_gate
  balance_gate-Funded q price rec base h = ground arith

  balance_gate-quantity :
      (q price : Decimal) (rec : Fingerprint) (base : Text)
      → (balance_gate s d n q price rec base).q_common ≡ some q
  unfolding balance_gate
  balance_gate-quantity q price rec base = refl

  abbrev Passed : Bool → Decimal → Decimal → PreflightResult → Type 0
  Passed balance q price r =
      (r.q_common ≡ some q)
      × (check_common_quantity q s.spot_filters s.perp_filters (some price) ≡ none)
      × (balance ≡ true → (base : Text) × (base_asset coin ≡ ok base) × Funded q price base)

  quantity_gates_sound :
      (balance : Bool) (q price : Decimal) (rec : Fingerprint) {r : PreflightResult}
      → quantity_gates s coin d n balance q price rec ≡ ok r
      → r.rejection ≡ none
      → Passed balance q price r
  unfolding quantity_gates
  quantity_gates_sound false q price rec e h = ground arith
  quantity_gates_sound true q price rec {r} e h =
      elim (Option-cases (check_common_quantity q s.spot_filters s.perp_filters (some price))) [
        | inr (reject, c) ↦ ground arith
        | inl c ↦ elim (Result-cases (base_asset coin)) [
          | inl (x, b) ↦ ground arith
          | inr (base, b) ↦
              let same : balance_gate s d n q price rec base ≡ r = ground arith in
              let kept : (balance_gate s d n q price rec base).rejection ≡ none = rw same h in
              (
                rw (← same) (balance_gate-quantity q price rec base),
                c,
                λ _. (base, b, balance_gate-Funded q price rec base kept),
              )
        ]
      ]

  price_gate_sound :
      (balance : Bool) (q : Decimal) (rec : Fingerprint) {r : PreflightResult}
      → price_gate s coin d n balance q rec ≡ ok r
      → r.rejection ≡ none
      → (price : Decimal) × (r.q_common ≡ some q) × Cleared q price balance
  unfolding price_gate
  price_gate_sound balance q rec {r} e h = elim (Option-cases s.est_price) [
    | inl none_read ↦ ground arith
    | inr (price, known) ↦ elim (Bool-cases (is_positive price)) [
      | inr zero_price ↦ ground arith
      | inl pos ↦
          let (same_q, checked, funds) =
            quantity_gates_sound balance q price rec {r = r} (ground arith) h in
          let (positive, sa, pa) =
            (check_common_quantity-none q price s.spot_filters s.perp_filters pos).0 checked in
          (
            price,
            same_q,
            record {
              price_known = known;
              price_positive = pos;
              quantity_positive = positive;
              spot_admits = sa;
              perp_admits = pa;
              funded = funds;
            },
          )
    ]
  ]

  -- What an accepted preflight has established of an amount.
  pub record Accepted (amount : Decimal) (balance : Bool) (r : PreflightResult) : Type 0 where
    pub spot_step : Decimal
    pub perp_step : Decimal
    pub grid : Decimal
    pub q : Decimal
    pub price : Decimal
    pub tradable : s.symbol_tradable ≡ true
    pub one_way : s.position_mode ≡ both_mode
    pub spot_step_read : effective_market_step s.spot_filters ≡ some spot_step
    pub perp_step_read : effective_market_step s.perp_filters ≡ some perp_step
    pub grid_common : decimal_lcm spot_step perp_step ≡ ok grid
    pub q_floored : floor_to_grid amount grid ≡ ok q
    pub q_reported : r.q_common ≡ some q
    pub cleared : Cleared q price balance

  read_gates-steps :
      (balance : Bool) (amount : Decimal) {r : PreflightResult}
      → read_gates s coin d amount n balance ≡ ok r
      → r.rejection ≡ none
      → (spot : Decimal) × (perp : Decimal) × (effective_market_step s.spot_filters ≡ some spot)
        × (effective_market_step s.perp_filters ≡ some perp)
        × (step_gates s coin d amount n balance spot perp ≡ ok r)
  unfolding read_gates
  read_gates-steps balance amount e h = ground arith

  compute_preflight-facts :
      (balance : Bool) (amount : Decimal) {r : PreflightResult}
      → compute_preflight (some s) coin d amount n balance ≡ ok r
      → r.rejection ≡ none
      → (s.symbol_tradable ≡ true)
        × (s.position_mode ≡ both_mode)
        × (read_gates s coin d amount n balance ≡ ok r)
  unfolding compute_preflight
  compute_preflight-facts balance amount e h = ground arith

  step_gates-parts :
      (balance : Bool) (amount spot perp : Decimal) {r : PreflightResult}
      → step_gates s coin d amount n balance spot perp ≡ ok r
      → (grid : Decimal) × (q : Decimal) × (decimal_lcm spot perp ≡ ok grid)
        × (floor_to_grid amount grid ≡ ok q)
        × (price_gate s coin d n balance q (fingerprint s spot perp grid) ≡ ok r)
  unfolding step_gates
  step_gates-parts balance amount spot perp e =
      let (grid, is_grid, rest) = >>=-eq-ok (decimal_lcm spot perp) _ e in
      let (q, is_q, last) = >>=-eq-ok (floor_to_grid amount grid) _ rest in
      (grid, q, is_grid, is_q, last)

compute_preflight-Accepted :
    (s : PreflightSnapshot) (coin : Text) (d : Direction) (n : ℕ) (balance : Bool)
    (amount : Decimal)
    → (r : PreflightResult) → compute_preflight (some s) coin d amount n balance ≡ ok r
    → r.rejection ≡ none
    → Accepted s coin d n amount balance r
compute_preflight-Accepted s coin d n balance amount r e h =
    let (tradable, one_way, read) = compute_preflight-facts s coin d n balance amount {r = r} e h in
    let (spot, perp, es, ep, steps) = read_gates-steps s coin d n balance amount {r = r} read h in
    let (grid, q, is_grid, is_q, last) =
      step_gates-parts s coin d n balance amount spot perp {r = r} steps in
    let (price, reported, cleared) =
      price_gate_sound s coin d n balance q (fingerprint s spot perp grid) {r = r} last h in
    record {
      spot_step = spot;
      perp_step = perp;
      grid = grid;
      q = q;
      price = price;
      tradable = tradable;
      one_way = one_way;
      spot_step_read = es;
      perp_step_read = ep;
      grid_common = is_grid;
      q_floored = is_q;
      q_reported = reported;
      cleared = cleared;
    }

-- A preflight that rejects nothing either had no snapshot, and then reports no quantity; or its snapshot
-- has a tradable symbol and one-way positions, both market steps were read, and it reports the amount
-- floored to their common grid. That quantity is positive, keeps the bounds that _qty_bounds reads of
-- both legs' filters and their minimal notional at a positive price, and, where the balance is checked,
-- is covered by the account that pays for it, or is prefunded.
pub compute_preflight_sound :
    (o : Option PreflightSnapshot) (coin : Text) (d : Direction) (n : ℕ) (balance : Bool)
    (amount : Decimal)
    → (r : PreflightResult) → compute_preflight o coin d amount n balance ≡ ok r
    → r.rejection ≡ none
    → ((o ≡ none) × (r.q_common ≡ none))
      ⊎ ((s : PreflightSnapshot) × (o ≡ some s) × Accepted s coin d n amount balance r)
unfolding compute_preflight
compute_preflight_sound none coin d n balance amount r e h = inl (refl, ground arith)
compute_preflight_sound (some s) coin d n balance amount r e h =
    inr (s, refl, compute_preflight-Accepted s coin d n balance amount r e h)
