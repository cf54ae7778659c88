-- ===== src/Harness/Timer.antt =====
-- class hiResTimer of the test harness (testharness.cpp): the mean time of the events of each second.
pub mod Seconds
use elevator.Base.{
  ℕ, zero, suc, ◌+◌, ◌/◌, ◌%◌, ◌^◌, List, [], ◌∷◌, ◌++◌, ltb, ◌==◌, if◌then◌else◌, Run, done,
  out_of_fuel,
}
use elevator.Base.Outcome.{◌>>=◌}
use elevator.Harness.{Timespec, timespec_sub, nanosecond}

pub record HiResTimer : Type 0 where
  pub clock_start : Timespec
  pub clock_prev : Timespec
  pub events_count : ℕ
  pub ns : ℕ
  pub ns_per_second : List ℕ

-- The constructor leaves the two clocks as the memory is.
abbrev pub initial_timer : Timespec → Timespec → HiResTimer
initial_timer start_memory prev_memory = record {
  clock_start = start_memory;
  clock_prev = prev_memory;
  events_count = 0;
  ns = 0;
  ns_per_second = [];
}

-- Start; `first` is read only where the clock is not set, and `second` always.
unfoldable pub start_timer : HiResTimer → Timespec → Timespec → HiResTimer
start_timer t first second = record t {
  clock_prev = if t.clock_prev.tv_sec == 0 then first else t.clock_prev;
  clock_start = second;
}

abbrev pub mean : ℕ → ℕ → ℕ
mean total count = total / (if count == 0 then 1 else count)

-- One entry for a second that is over.
abbrev pub push_mean : HiResTimer → HiResTimer
push_mean t = record t {
  ns_per_second = t.ns_per_second ++ (mean t.ns t.events_count ∷ []);
  events_count = 0;
  ns = 0;
  clock_prev = record t.clock_prev { tv_sec = t.clock_prev.tv_sec + 1 };
}

-- while (clockNow - clockPrev > NANOSECOND), in Stop and in NsPerSecond
unfoldable pub push_means : ℕ → Timespec → HiResTimer → Run HiResTimer
push_means zero now t = out_of_fuel
push_means (suc fuel) now t =
    let further = push_means fuel now (push_mean t) in
    if ltb nanosecond (timespec_sub now t.clock_prev) then further else done t

-- The event that ends now.
abbrev pub count_event : Timespec → HiResTimer → HiResTimer
count_event now t = record t {
  events_count = (t.events_count + 1) % 2 ^ 64;
  ns = (t.ns + timespec_sub now t.clock_start) % 2 ^ 64;
}

unfoldable pub stop_timer : HiResTimer → Timespec → Run HiResTimer
unfolding push_means
stop_timer t now = do
  let pushed = push_means (suc now.tv_sec) now t
  t' ← if ltb nanosecond (timespec_sub now t.clock_prev) then pushed else done t
  done (count_event now t')

-- The entry for the last part of a second, which leaves the counts as they are.
abbrev pub push_rest : HiResTimer → HiResTimer
push_rest t =
    if ltb 0 t.events_count
    then record t { ns_per_second = t.ns_per_second ++ (t.ns / t.events_count ∷ []) }
    else t

-- NsPerSecond returns the member ns_per_second of the timer that it leaves.
unfoldable pub read_timer : HiResTimer → Timespec → Run HiResTimer
unfolding push_means
read_timer t now = do t' ← push_means (suc now.tv_sec) now t; done (push_rest t')
