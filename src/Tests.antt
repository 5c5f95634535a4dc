-- ===== src/Tests.antt =====
-- Runs of the modelled code on concrete data: the theorems applied where their hypotheses hold.
mod Ledger
mod Amounts
mod Requests
mod Wallets
mod Payouts
mod Proposals
mod Fees
