-- ===== src/Payouts.antt =====
-- Payouts (src/payouts): money out of a wallet to a bank account.
pub mod Desk
pub mod Settle
pub mod Submit
pub mod Gentle
pub mod Replies
pub mod Once
pub mod Settled
pub mod Claims
