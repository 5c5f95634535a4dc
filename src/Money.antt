-- ===== src/Money.antt =====
-- Money and its exact arithmetic: currencies, text forms of amounts.
pub mod Currency
