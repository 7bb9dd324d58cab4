-- ===== src/Ledger.antt =====
-- The flow log of interest, income and capital movements (backend/ledger_flow): the rows that the
-- exchange sends are stored once, and repaid interest is settled at the price of its repayment.
pub mod Dedup
pub mod Repay
pub mod Match
