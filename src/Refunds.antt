-- ===== src/Refunds.antt =====
-- Refunds (src/refunds): how a refund unwinds a conversion.
pub mod Reversal
pub mod AddsUp
pub mod Exact
