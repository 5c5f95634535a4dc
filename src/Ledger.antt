-- ===== src/Ledger.antt =====
-- The double-entry ledger (src/ledger): its tables with the database's triggers, the rules of a
-- posting, and the service through which all money moves.
pub mod Types
pub mod Posting
pub mod Store
pub mod Statements
pub mod Consistency
pub mod Accounts
pub mod Extends
pub mod Commit
pub mod Service
pub mod PostWithin
pub mod Effect
pub mod Keeps
pub mod Outcome
pub mod Trial
pub mod Balance
pub mod Posted
pub mod Replay
pub mod Post
pub mod Audit
pub mod Reversal
pub mod ReversedOnce
pub mod Committed
pub mod SystemAccounts
pub mod Unposted
