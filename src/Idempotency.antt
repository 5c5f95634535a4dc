-- ===== src/Idempotency.antt =====
-- Idempotency keys (src/idempotency): a request that is sent again is not executed again.
pub mod Keys
pub mod Replay
pub mod Once
