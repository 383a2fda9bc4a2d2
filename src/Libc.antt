-- ===== src/Libc.antt =====
-- fs_PintOS/lib: the part of the C library that does not print.
pub mod Memory
pub mod Block
pub mod Text
pub mod Search
mod Tests
