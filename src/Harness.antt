-- ===== src/Harness.antt =====
-- The clocks of the test harness (testharness.cpp). What clock_gettime answers is an argument.
pub mod Monitor
pub mod Counts
pub mod Timer
pub mod Aggregate
pub mod Hits
pub mod Control
pub mod Worker
pub mod Threads
pub mod Configure
pub mod Program
use elevator.Base.{ℕ, ◌+◌, ◌-◌, ◌*◌, ◌%◌, ◌^◌, ltb, ◌==◌, ◌||◌, ◌&&◌, if◌then◌else◌}

-- NANOSECOND
abbrev pub nanosecond : ℕ
nanosecond = 1000000000

-- A reading of the real-time clock, which is not before 1970.
pub record Timespec : Type 0 where
  pub tv_sec : ℕ
  pub tv_nsec : ℕ

-- operator -, an `unsigned long`
unfoldable pub timespec_sub : Timespec → Timespec → ℕ
timespec_sub left right =
    if ltb left.tv_sec right.tv_sec
      || ((left.tv_sec == right.tv_sec) && ltb left.tv_nsec right.tv_nsec)
    then 0
    else ((left.tv_sec - right.tv_sec) * nanosecond + left.tv_nsec + 2 ^ 64 - right.tv_nsec)
      % 2 ^ 64
