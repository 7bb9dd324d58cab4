-- ===== src/Hedge/Worker.antt =====
-- The worker of one hedge-open task, from backend/hedge_open_tasks/service.py: what it makes of the
-- exchange's answers, and how it drains the orders that are in flight. The exchange is a parameter.
pub mod Verdicts
pub mod Drain
pub mod Untouched
pub mod Budget
pub mod Sound
pub mod Progress
pub mod Dispatch
pub mod Checks
pub mod Close
pub mod Wait
pub mod Pair
pub mod Round
pub mod Settled
pub mod Uncounted
