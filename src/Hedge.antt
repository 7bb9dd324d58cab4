-- ===== src/Hedge.antt =====
-- The hedge-open tasks (backend/hedge_open_tasks): one task opens or closes a hedged position,
-- a spot leg and a perpetual leg at a time.
pub mod Cursor
pub mod Threshold
pub mod Vocabulary
pub mod Errors
pub mod Grid
pub mod Codes
pub mod Direction
pub mod Filters
pub mod Preflight
pub mod Attempt
pub mod Store
pub mod SmoothGate
pub mod Worker
pub mod Service
