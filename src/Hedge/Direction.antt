-- ===== src/Hedge/Direction.antt =====
-- Directions and routes: direction_to_leg_actions, evaluation_direction, decide_spot_route and
-- spot_route_endpoint of backend/hedge_open_tasks/domain.py.
pub mod Sides
pub mod Route
use binance_funding_hedging.Prelude.{Bool, true, false, Option, none, some, String, if◌then◌else◌}
use binance_funding_hedging.Hedge.Vocabulary.{
  Direction, forward, reverse, TaskType, open_task, close_task, PositionMode, both_mode, hedge_mode,
  SpotRoute, papi_margin, regular_spot, RouteReason, papi_default, tradifi_regular_spot,
  collateral_cap_precheck, close_sell_regular_spot, is_close, is_forward,
}
use text.Mathlib.Text.{◌==◌ as str_eq}

pub data Side : Type 0 where
  buy sell : Side

pub data PositionSide : Type 0 where
  both long short : PositionSide

pub data SideEffect : Type 0 where
  no_side_effect : SideEffect

pub record LegActions : Type 0 where
  pub spot_side : Side
  pub perp_side : Side
  pub perp_position_side : PositionSide
  pub spot_side_effect : SideEffect

abbrev perp_position : Direction → PositionMode → PositionSide
perp_position forward hedge_mode = short
perp_position forward both_mode = both
perp_position reverse hedge_mode = long
perp_position reverse both_mode = both

abbrev spot_side_of : Direction → Side
spot_side_of forward = buy
spot_side_of reverse = sell

abbrev perp_side_of : Direction → Side
perp_side_of forward = sell
perp_side_of reverse = buy

unfoldable pub direction_to_leg_actions : Direction → PositionMode → TaskType → LegActions
direction_to_leg_actions direction mode task_type =
    let spot = spot_side_of direction in
    let perp = perp_side_of direction in
    let close = is_close task_type in
    record {
      spot_side = if close then perp else spot;
      perp_side = if close then spot else perp;
      perp_position_side = perp_position direction mode;
      spot_side_effect = no_side_effect;
    }

-- On the task's type, `none` for a row without one, and its direction.
unfoldable pub evaluation_direction : Option TaskType → Direction → Direction
evaluation_direction (some close_task) forward = reverse
evaluation_direction (some close_task) reverse = forward
evaluation_direction (some open_task) direction = direction
evaluation_direction none direction = direction

-- `cap_exceeded` is `none` when the list could not be read. The source's `spot_base_asset` is an
-- argument that it does not use.
unfoldable pub decide_spot_route :
    Direction → String → String → Option Bool → TaskType → SpotRoute × RouteReason
decide_spot_route direction contract_type spot_base_asset cap_exceeded task_type =
    if is_close task_type
    then if is_forward direction
      then (regular_spot, close_sell_regular_spot)
      else (papi_margin, papi_default)
    else if is_forward direction
    then elim cap_exceeded [
      | some true ↦ (regular_spot, collateral_cap_precheck)
      | _ ↦
          if str_eq contract_type "TRADIFI_PERPETUAL"
          then (regular_spot, tradifi_regular_spot)
          else (papi_margin, papi_default)
    ]
    else (papi_margin, papi_default)

unfoldable pub spot_route_endpoint : SpotRoute → String
spot_route_endpoint regular_spot = "/api/v3/order"
spot_route_endpoint papi_margin = "/papi/v1/margin/order"
