-- ===== src/Vm.antt =====
-- The virtual memory of vm_PintOS: supplemental pages and swap.
pub mod Outcome
pub mod Page
pub mod Swap
mod Tests
