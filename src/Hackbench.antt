-- ===== src/Hackbench.antt =====
-- src/hackbench/hackbench.c: Pump is a group at work, the loops of sender and receiver; Workers is how
-- group and main create the workers; Options is process_options; Run joins the options and the groups.
pub mod Pump
pub mod Workers
pub mod Options
mod Run
mod Tests
