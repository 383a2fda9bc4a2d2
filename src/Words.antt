-- ===== src/Words.antt =====
-- Bits of machine words: what `|`, `&`, `^` and a one-bit mask do to each bit.
mod Step
pub mod Bit
