-- ===== src/Proposals.antt =====
-- Proposals (src/proposals): payouts that an agent suggests and a person decides on.
pub mod Board
pub mod Decided
