-- ===== src/Hedge/Direction/Route.antt =====
-- Which account the spot leg goes to.
use binance_funding_hedging.Prelude.{◌≡◌, refl, ◌⊎◌, ◌↔◌, Bool, true, Option, some, String, arith}
use binance_funding_hedging.Hedge.Vocabulary.{
  Direction, forward, TaskType, open_task, close_task, PositionMode, SpotRoute, papi_margin,
  regular_spot,
}
use binance_funding_hedging.Hedge.Direction.{
  buy, sell, decide_spot_route, spot_route_endpoint, direction_to_leg_actions,
}
use text.Mathlib.Text.{◌==◌ as str_eq}
use text.Mathlib.TextEquality.{eq_iff}

-- The standard spot account is used exactly for a forward close, and for a forward open whose
-- asset is over the collateral cap or whose contract is a TRADIFI perpetual.
pub decide_spot_route-regular :
    (d : Direction) (contract base : String) (exceeded : Option Bool) (t : TaskType)
    → ((decide_spot_route d contract base exceeded t).0 ≡ regular_spot) ↔ (
        (d ≡ forward)
        × ((t ≡ close_task)
            ⊎ ((exceeded ≡ some true) ⊎ (str_eq contract "TRADIFI_PERPETUAL" ≡ true))))
unfolding decide_spot_route
decide_spot_route-regular d contract base exceeded t = (ground arith, ground arith)

spot_route_endpoint-injective :
    (r : SpotRoute) → spot_route_endpoint r ≡ "/api/v3/order" → r ≡ regular_spot
unfolding spot_route_endpoint
spot_route_endpoint-injective regular_spot h = refl
spot_route_endpoint-injective papi_margin h =
    cc ((eq_iff "/papi/v1/margin/order" "/api/v3/order").1 h)

regular-sides :
    (d : Direction) (contract base : String) (exceeded : Option Bool) (t : TaskType)
    → (m : PositionMode) → (decide_spot_route d contract base exceeded t).0 ≡ regular_spot
    → let a = direction_to_leg_actions d m t in
      ((t ≡ open_task) × (a.spot_side ≡ buy)) ⊎ ((t ≡ close_task) × (a.spot_side ≡ sell))
unfolding decide_spot_route direction_to_leg_actions
regular-sides d contract base exceeded t m h = ground arith

-- An order that the route sends to the standard spot endpoint is a forward task's: an open's buy
-- or a close's sell.
pub spot_route_endpoint-regular :
    (d : Direction) (contract base : String) (exceeded : Option Bool) (t : TaskType)
    (m : PositionMode)
    → spot_route_endpoint (decide_spot_route d contract base exceeded t).0 ≡ "/api/v3/order"
    → let a = direction_to_leg_actions d m t in
      ((t ≡ open_task) × (a.spot_side ≡ buy)) ⊎ ((t ≡ close_task) × (a.spot_side ≡ sell))
spot_route_endpoint-regular d contract base exceeded t m h =
    regular-sides d contract base exceeded t m (spot_route_endpoint-injective _ h)
