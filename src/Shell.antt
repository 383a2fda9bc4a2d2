-- ===== src/Shell.antt =====
-- The shell of Project0.
pub mod Jobs
mod Tests
