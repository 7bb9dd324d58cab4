-- ===== src/Hedge/Direction/Sides.antt =====
-- The sides of the two legs.
use binance_funding_hedging.Prelude.{◌≡◌, ◌≢◌, some, arith}
use binance_funding_hedging.Hedge.Vocabulary.{
  Direction, TaskType, open_task, close_task, PositionMode,
}
use binance_funding_hedging.Hedge.Direction.{direction_to_leg_actions, evaluation_direction}

-- The two legs always stand on opposite sides, so a pair is a hedge whatever the direction, the
-- position mode and the type of the task.
pub direction_to_leg_actions-opposite :
    (d : Direction) (m : PositionMode) (t : TaskType)
    → let a = direction_to_leg_actions d m t in a.spot_side ≢ a.perp_side
unfolding direction_to_leg_actions
direction_to_leg_actions-opposite d m t = ground arith

-- A close reverses both orders of the open of the same direction, and names the same position
-- side, so that it works on the position that the open made.
pub direction_to_leg_actions-close :
    (d : Direction) (m : PositionMode)
    → let o = direction_to_leg_actions d m open_task in
      let c = direction_to_leg_actions d m close_task in
      (c.spot_side ≡ o.perp_side)
      × (c.perp_side ≡ o.spot_side)
      × (c.perp_position_side ≡ o.perp_position_side)
      × (c.spot_side ≢ o.spot_side)
      × (c.perp_side ≢ o.perp_side)
unfolding direction_to_leg_actions
direction_to_leg_actions-close d m =
    (ground arith, ground arith, ground arith, ground arith, ground arith)

-- The smooth gate evaluates a task in the direction whose open takes the same sides of the two
-- books as the task's own orders do.
pub evaluation_direction-sides :
    (d : Direction) (m : PositionMode) (t : TaskType)
    → let own = direction_to_leg_actions d m t in
      let gate = direction_to_leg_actions (evaluation_direction (some t) d) m open_task in
      (gate.spot_side ≡ own.spot_side) × (gate.perp_side ≡ own.perp_side)
unfolding direction_to_leg_actions evaluation_direction
evaluation_direction-sides d m t = (ground arith, ground arith)
