-- ===== src/Cyclictest/Options.antt =====
-- The command line of src/cyclictest/cyclictest.c: process_options, handlepolicy, policyname and
-- parse_time_string, in a build without NUMA.
-- getopt_long, atoi and strtol are the C library's: an option comes with its argument read as a
-- number. For an optional argument that is `optarg`, or else the next word of the command line.
pub mod Config
pub mod Apply
pub mod Validate
pub mod Gives
pub mod Smp
pub mod Masked
pub mod Accept
mod Tests
