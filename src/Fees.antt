-- ===== src/Fees.antt =====
-- Fees (src/fees): the rules that are in force, and what a schedule charges.
pub mod Schedule
pub mod Rules
pub mod Active
pub mod InForce
pub mod Changes
pub mod Reached
