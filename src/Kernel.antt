-- ===== src/Kernel.antt =====
-- fs_PintOS/lib/kernel: the kernel's own library.
pub mod Order
pub mod Linked
pub mod Hash
mod Tests
