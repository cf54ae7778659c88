-- ===== src/Tests/Timers.antt =====
-- The timers at inputs that meet the theorems' hypotheses (testharness.cpp).
use elevator.Base.{List, refl, ℕ, ◌≡◌, arith, [], ◌∷◌, done, out_of_fuel}
use elevator.Harness.{Timespec, timespec_sub}
use elevator.Harness.Timer.{HiResTimer, read_timer, push_means}
use elevator.Harness.Aggregate.{add_times}
use elevator.Harness.Aggregate.Calls.{add_calls, add_calls-never}
use elevator.Harness.Aggregate.Growth.{IsPrefix, add_calls-done}

abbrev pub reading : ℕ → ℕ → Timespec
reading sec nsec = record { tv_sec = sec; tv_nsec = nsec }

abbrev timer : HiResTimer
timer = record {
  clock_start = reading 102 900;
  clock_prev = reading 100 7;
  events_count = 2;
  ns = 500;
  ns_per_second = 70 ∷ [];
}

add_calls-never_example :
    add_calls (9 ∷ []) timer 0 [] (reading 100 9 ∷ reading 100 20 ∷ reading 101 5 ∷ [])
    ≡ out_of_fuel
add_calls-never_example =
    add_calls-never (9 ∷ []) timer 0 [] (reading 100 9 ∷ reading 100 20 ∷ reading 101 5 ∷ [])
      (omega arith) (omega arith)
      (unfold timespec_sub in (omega arith, (omega arith, (omega arith, tt))))

-- The first call finds the second over: it adds the mean, and no call after it adds another.
abbrev stopped_timer : HiResTimer
stopped_timer = record timer {
  clock_prev = reading 101 7;
  events_count = 0;
  ns = 0;
  ns_per_second = 70 ∷ 250 ∷ [];
}

abbrev late : List Timespec
late = reading 102 5 ∷ reading 102 5 ∷ reading 102 5 ∷ reading 102 5 ∷ []

late_run : add_calls (9 ∷ []) timer 0 (4 ∷ []) late ≡ done (634 ∷ [], stopped_timer)
unfolding add_calls read_timer push_means timespec_sub
late_run = refl

add_calls-done_example :
    IsPrefix (70 ∷ []) (70 ∷ 250 ∷ []) × (634 ∷ [] ≡ add_times (4 ∷ []) (9 ∷ []) (70 ∷ 250 ∷ []))
add_calls-done_example =
    add_calls-done (9 ∷ []) timer (4 ∷ []) late (634 ∷ []) stopped_timer late_run
