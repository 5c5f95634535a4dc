-- ===== src/Auth.antt =====
-- Sessions (src/auth/tokens): refresh tokens are rotated, and a copied one ends its session.
pub mod Tokens
pub mod Reuse
pub mod Spent
pub mod Stays
pub mod Replayed
