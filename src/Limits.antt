-- ===== src/Limits.antt =====
-- Velocity limits (src/limits): how much an owner may move.
pub mod Rules
pub mod Accepted
pub mod Window
