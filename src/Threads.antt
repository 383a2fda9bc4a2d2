-- ===== src/Threads.antt =====
-- Project1: the threads of the kernel.
pub mod Scheduler
pub mod Synch
pub mod Timer
mod Tests
