-- ===== src/PiStress.antt =====
-- pi_stress: groups of three threads that force priority inversions, with a watchdog over them.
pub mod Affinity
pub mod Sched
pub mod Group
pub mod Watchdog
mod Tests
