-- ===== src/Fx.antt =====
-- Foreign exchange (src/fx): the exact conversion arithmetic.
pub mod Convert
pub mod Rounding
pub mod Conversions
pub mod Least
