-- ===== src/Text.antt =====
-- The routines of lib/ on bytes, strings and numbers.
pub mod Memory
pub mod Decimal
pub mod Radix
pub mod Format
pub mod Strings
pub mod Words
