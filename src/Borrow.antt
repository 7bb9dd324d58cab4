-- ===== src/Borrow.antt =====
-- The borrow tasks of backend/borrow_tasks: a scheduler that borrows one amount at a time, with a
-- durable switch, a cooldown after a rate limit, and a log of attempts.
pub mod Rows
pub mod Settings
pub mod Attempts
pub mod Validate
pub mod Tasks
pub mod Service
pub mod Worker
pub mod Choice
pub mod Gates
pub mod Marker
pub mod Turns
