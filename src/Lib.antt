-- ===== src/Lib.antt =====
-- A verification library for rt-tests, the real-time test programs of this repository.
--
-- The programs measure how late a thread wakes up (cyclictest), how long a message, a semaphore or
-- a signal takes from one thread to another (pmqtest, ptsematest, svsematest, sigwaittest,
-- signaltest), send signals from the kernel (backfire, with sendme), force priority inversions
-- (pi_stress, classic_pi, pip_stress), watch tasks move between CPUs (rt-migrate-test) and load the
-- scheduler (hackbench).
-- Each part below stands for a program, over Base; Sendme runs on the driver of Backfire, and the
-- programs with pairs of threads have the statistics and the contract of Pair.
--
-- Base              lists, tests, signed integers and C's integer conversions, shared by all.
-- Cyclictest        src/cyclictest/cyclictest.c
--   Time            tsnorm, tsgreater, calcdiff, calcdiff_ns; the sums and the catch-up loop of
--                   timerthread. Children: Norm, Diff, Catchup.
--   Stat            struct thread_stat and what a round of timerthread writes there.
--                   Children: Extremes, Histogram, Ring (the buffer `values`).
--   Print           the verbose branch of print_stat, the reader of that buffer. Child: Lines.
--   Timer           the loop of timerthread: `round` is its body, `rounds` the loop.
--                   Children: Phase, Rounds, Notes, Keep.
--   Thread          timerthread from its set-up to what follows `out`. Children: Clean, Aligned.
--   Options         process_options: Config (the variables and options), Apply (the switch),
--                   Validate (what follows it). Children on results: Gives (what a step leaves
--                   true), Smp, Masked, Accept.
--   Mask            cpu_for_thread, with rt_numa_bitmask_count and the masks of
--                   src/cyclictest/rt_numa.h. Children: Choice, Single.
--   Setup           the loop of main that sets up the threads, from what Options accepts and on
--                   the CPUs of Mask. Child: Threads.
--   Resolution      the check of the clock in main. Children: Times, Measured.
--   Hist            print_hist, on the statistics of Stat. Child: Balance.
--   Kernvar         kernvar, setkernvar, restorekernvars. Children: Backup, Restore.
--   Sched           raise_soft_prio, setscheduler. Child: Retry.
-- Backfire          src/backfire/backfire.c: open, release, read, write, and the steps that the
--                   kernel makes with the open files. Child: Exclusive.
-- PiStress.Group    src/pi_tests/pi_stress.c: low_priority, med_priority and high_priority as
--                   the moves of one group. Children: Inv, Progress.
-- PiStress.Watchdog watchdog_check and watchdog_clear as the reporter calls them. Child: Idle.
-- Migrate           src/rt-migrate-test/rt-migrate-test.c: record_time, busy_loop, check_times,
--                   the sums of print_results. Children: Check, Busy, Results, Main (the loop of
--                   main), Rows and Verdict (its tables and its exit status), Rotate (the CPUs
--                   of the highest task), Command (parse_options).
-- PiStress.Affinity set_cpu_affinity and the processors of the groups. Child: Spread.
-- PiStress.Sched    process_sched_line, setup_sched_config. Child: Order.
-- ClassicPi         src/pi_tests/classic_pi.c: the barriers, the threads and main. Children: Machine
--                   (their steps on one processor under SCHED_FIFO), Passes.
-- PipStress         src/pi_tests/pip_stress.c: low, medium and high. Children: Report, Ends.
-- Minimal           cyclictest_minimal.c: timerthread, over the arithmetic of Cyclictest.Time.
--                   Children: Command (process_options, the set-up in main), Print (print_stat).
-- Pair              the statistics that the sources of the next four repeat. Child: Exchange, the
--                   contract of a pair: messages in turns, each result from its own two times.
-- Pmqtest           src/pmqtest/pmqtest.c: pmqthread. Children: Refine and Timeout on its pairs,
--                   Options (process_options), Setup (the threads that main creates).
-- Ptsematest        src/ptsematest/ptsematest.c: semathread. Child: Refine.
-- Sigwaittest       src/sigwaittest/sigwaittest.c: semathread. Child: Refine.
-- Svsematest        src/svsematest/svsematest.c: semathread. Children: Overrun, Options
--                   (process_options), Fork (the word that main gives a child).
-- Signaltest        src/signaltest/signaltest.c: signalthread, the ring. Children: Turn, Hang,
--                   Command (process_options).
-- Hackbench         src/hackbench/hackbench.c. Pump: sender and receiver, with Balance and
--                   Progress; Workers: create_worker, group, main, with Count; Options;
--                   Run joins them.
-- RtUtils           src/lib/rt-utils.c: check_privs. Children: Privs, Tracers (get_tracers,
--                   valid_tracer).
-- Sendme            src/backfire/sendme.c: the loop of main. Child: Rounds.
-- Each Tests module runs the models at concrete inputs.
--
-- How the code is rendered. A struct or a program's variables are a record, an enum a data type, a
-- function of the program a function that takes and returns the state. A thread alone with the
-- system is a function of what the system does in each round (Timer, Migrate.Main, Minimal); threads that
-- share state are a step relation (PiStress.Group, Backfire, the pairs, Signaltest, Hackbench.Pump),
-- in which a blocking call is a step that waits for its condition, or a function of the thread that
-- goes on: the one that the priorities pick (ClassicPi), or any in a list (PipStress). A 64-bit word is
-- its bit pattern with its arithmetic modulo 2 ^ 64; int and int64_t are integers, with the casts to int of calcdiff.
-- Seconds and nanoseconds of a timespec are numbers that are not wrapped.
--
-- Fuel. The loop of tsnorm runs on one more than the nanoseconds, of which each round takes a
-- billion; the catch-up loop on one more than the distance from `next` to `now`, which each round
-- shortens by the interval; the loop of print_stat on the number of unread rounds; setscheduler on the
-- number of its calls of sched_setscheduler. Loops that wait for the system (timerthread,
-- busy_loop, main of rt-migrate-test, sendme) take the list of what the system gives.
--
-- Parameters. The clock, sleeping and signal calls, barriers and mutexes, message queues, pipes,
-- getopt_long, atoi, strtol, strcmp, malloc, fork, pthread_create, the files under /proc and debugfs,
-- setrlimit and sched_setscheduler are the system's. They are arguments, and what is relied on is a hypothesis.
--
-- Not modelled: the display and formatting of results, the set-up of ftrace, signal handlers, NUMA
-- placement, most of the main functions; the options of ptsematest, sigwaittest, sendme and
-- classic_pi, and those of pi_stress but for --sched; the shared memory of the forking programs;
-- the wrappers of system calls under src/lib and in pip_stress; the kernel variables of
-- cyclictest_minimal.c, a cut-down copy of those of cyclictest; sigtest.c, a sequence of signal
-- calls; tst-mutexpi10.c, a test of the GNU C Library; hwlatdetect and the scripts.
pub mod Base
pub mod Cyclictest
pub mod Backfire
pub mod PiStress
pub mod Migrate
pub mod Pair
pub mod Pmqtest
pub mod Ptsematest
pub mod Hackbench
pub mod Sigwaittest
pub mod Svsematest
pub mod Signaltest
pub mod RtUtils
pub mod Sendme
pub mod ClassicPi
pub mod PipStress
pub mod Minimal
