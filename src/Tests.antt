-- ===== src/Tests.antt =====
-- Concrete runs of the model, at which the theorems are applied.
mod Codes
mod Orders
mod Preflight
mod Database
mod Services
mod Settlements
mod Borrowing
mod Ledgers
mod Workers
mod Rounds
mod Cursors
