-- ===== src/Hedge/Store.antt =====
-- The durable state of the hedge-open tasks: backend/hedge_open_tasks/store.py. A table is the list
-- of its rows, and a store operation is a function on the tables, which the source runs as one
-- transaction.
pub mod Rows
pub mod Counters
pub mod Tasks
pub mod Cycles
pub mod Gates
pub mod Creation
pub mod Prepare
pub mod Legs
pub mod Settle
pub mod Resolve
pub mod Invariant
