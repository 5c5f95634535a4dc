-- ===== src/Wallets.antt =====
-- Wallets (src/wallets): balances of owners, each a ledger account, and what moves money between
-- them.
pub mod Wallet
pub mod Access
pub mod Movements
pub mod Spec
pub mod Sound
pub mod Platform
pub mod Legs
pub mod Refines
pub mod Balances
pub mod History
pub mod Manage
pub mod Register
pub mod Opened
pub mod OpenedBank
pub mod Events
pub mod Credit
pub mod Frozen
pub mod Holds
pub mod Own
pub mod Transfer
pub mod Sums
pub mod Rows
pub mod Flags
pub mod Stopped
