-- ===== src/Transactions.antt =====
-- Transactions (src/transactions): the life cycle of a transaction.
pub mod Status
pub mod Table
pub mod History
pub mod Changed
