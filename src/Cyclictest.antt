-- ===== src/Cyclictest.antt =====
-- cyclictest: the latency of a thread that sleeps until the next multiple of its interval.
pub mod Time
pub mod Stat
pub mod Print
pub mod Timer
pub mod Thread
pub mod Options
mod Tests
pub mod Kernvar
pub mod Sched
pub mod Mask
pub mod Setup
pub mod Resolution
pub mod Hist
