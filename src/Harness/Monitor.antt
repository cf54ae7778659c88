-- ===== src/Harness/Monitor.antt =====
-- class rateMonitor of the test harness (testharness.cpp): events counted by the second.
use elevator.Base.{
  ℕ, zero, suc, ◌+◌, ◌*◌, ◌/◌, ◌%◌, ◌^◌, List, [], ◌∷◌, ◌++◌, ltb, ◌==◌, ◌&&◌, if◌then◌else◌, Run,
  done, out_of_fuel,
}
use elevator.Base.Outcome.{◌>>=◌}
use elevator.Harness.{Timespec, timespec_sub, nanosecond}

pub record RateMonitor : Type 0 where
  pub clock_prev : Timespec
  pub events_per_second : List ℕ
  pub events_count : ℕ

-- Start, at the time `now`
abbrev pub start : RateMonitor → Timespec → RateMonitor
start m now = record m { clock_prev = now; events_count = 0 }

-- One entry for a second that is over.
abbrev pub push_second : RateMonitor → RateMonitor
push_second m = record {
  clock_prev = record m.clock_prev { tv_sec = m.clock_prev.tv_sec + 1 };
  events_per_second = m.events_per_second ++ (m.events_count ∷ []);
  events_count = 0;
}

-- while (clockNow - clockPrev > NANOSECOND); each round goes on by a second, so the seconds of
-- `now` and one more are fuel enough.
unfoldable pub push_seconds : ℕ → Timespec → RateMonitor → Run RateMonitor
push_seconds zero now m = out_of_fuel
push_seconds (suc fuel) now m =
    let further = push_seconds fuel now (push_second m) in
    if ltb nanosecond (timespec_sub now m.clock_prev) then further else done m

-- Increment; `begin` is the time that Start reads, if it is called, and `now` what is read next.
unfoldable pub increment : RateMonitor → ℕ → Timespec → Timespec → Run RateMonitor
unfolding push_seconds
increment m how_many begin now = do
  let m1 = if m.clock_prev.tv_sec == 0 then start m begin else m
  let pushed = push_seconds (suc now.tv_sec) now m1
  m2 ← if ltb nanosecond (timespec_sub now m1.clock_prev) then pushed else done m1
  done (record m2 { events_count = (m2.events_count + how_many) % 2 ^ 64 })

-- What Stop does once the full seconds are over.
abbrev pub last_second : Timespec → RateMonitor → RateMonitor
last_second now m =
    let elapsed = timespec_sub now m.clock_prev in
    record {
      clock_prev = record m.clock_prev { tv_sec = 0 };
      events_per_second =
          if ltb 0 m.events_count && ltb (nanosecond / 20) elapsed
          then m.events_per_second ++ ((m.events_count * nanosecond) % 2 ^ 64 / elapsed ∷ [])
          else m.events_per_second;
      events_count = 0;
    }

unfoldable pub stop : RateMonitor → Timespec → Run RateMonitor
unfolding push_seconds
stop m now = do m1 ← push_seconds (suc now.tv_sec) now m; done (last_second now m1)
