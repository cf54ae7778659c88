-- ===== src/Harness/Control.antt =====
-- class rateControl of the test harness (testharness.cpp): how long a worker waits before its next
-- request. The answers of the clocks are lists, in the order in which they are read.
pub mod Waits
use elevator.Base.{
  ℕ, zero, suc, ◌+◌, ◌-◌, ◌*◌, ◌/◌, ◌%◌, ◌^◌, List, [], ◌∷◌, ltb, ◌==◌, if◌then◌else◌,
}
use elevator.Memory.{time_lt}
use elevator.Harness.{Timespec, timespec_sub, nanosecond}

-- ClockType
pub data ClockType : Type 0 where
  event_based hit_based : ClockType

-- Products and quotients with replayRate, a float, made an int: from the 64-bit pattern of a signed number to that of
-- the int.
pub record ReplayRate : Type 0 where
  pub times : ℕ → ℕ
  pub over : ℕ → ℕ

pub record RateControl : Type 0 where
  pub events_count : ℕ
  pub mode : ClockType
  -- for event_based clocks
  pub clock_prev : Timespec
  pub events_per_second : ℕ
  -- for hit_based clocks
  pub first_hit_time : ℕ
  pub start_clock_time : ℕ

-- The constructor with a request rate, before it calls Start, and the one with a replay rate. Members
-- that neither sets are 0 here; nothing reads one before it is set.
abbrev pub rate_control : ℕ → RateControl
rate_control events_per_second = record {
  events_count = 0;
  mode = event_based;
  clock_prev = record { tv_sec = 0; tv_nsec = 0 };
  events_per_second = events_per_second;
  first_hit_time = 0;
  start_clock_time = 0;
}

abbrev pub replay_control : RateControl
replay_control = record (rate_control 0) { mode = hit_based }

-- Start
abbrev pub start_control : RateControl → Timespec → RateControl
start_control r now = record r { clock_prev = now; events_count = 0 }

-- EventsPerSecond, which sets the rate and returns it.
unfoldable pub set_events_per_second : RateControl → ℕ → RateControl × ℕ
set_events_per_second r rate = (record r { events_per_second = rate }, rate)

-- What a wait came to: the arguments of usleep (0 is a call of pthread_yield), and the
-- readings that are left; or it still goes on when there are no more readings.
pub data Waited (R : Type 0) : Type 0 where
  went_on : List ℕ → List R → Waited R
  waits : List ℕ → Waited R

abbrev pub after_sleep : {R : Type 0} → ℕ → Waited R → Waited R
after_sleep n (went_on sleeps rest) = went_on (n ∷ sleeps) rest
after_sleep n (waits sleeps) = waits (n ∷ sleeps)

-- The loop for event_based clocks; the argument of usleep is of 32 bits: `needed` nanoseconds since `prev` have to be over.
unfoldable pub wait_for_rate : ℕ → Timespec → List Timespec → Waited Timespec
wait_for_rate needed prev [] = waits []
wait_for_rate needed prev (now ∷ readings) =
    let further =
      after_sleep ((needed - timespec_sub now prev) / 1000 % 2 ^ 32)
        (wait_for_rate needed prev readings) in
    if ltb (timespec_sub now prev) needed then further else went_on [] readings

-- (NANOSECOND / eventsPerSecond) * eventsCount
abbrev pub needed_time : RateControl → ℕ
needed_time r = (nanosecond / r.events_per_second * r.events_count) % 2 ^ 64

-- The usleep of the loop for hit_based clocks, of one second less than is to wait, in 32 bits.
abbrev pub hit_sleep : ReplayRate → ℕ → ℕ
hit_sleep rate missing =
    if time_lt 1 (rate.over missing) then 1000000 * (rate.over missing - 1) % 2 ^ 32 else 0

-- The difference of two times, as a 64-bit pattern.
abbrev pub time_sub : ℕ → ℕ → ℕ
time_sub a b = (a + (2 ^ 64 - b)) % 2 ^ 64

-- virtualTime
abbrev pub virtual_time : ReplayRate → RateControl → ℕ → ℕ
virtual_time rate r now = (rate.times (time_sub now r.start_clock_time) + r.first_hit_time) % 2 ^ 64

-- The loop for hit_based clocks, over what time (NULL) answers: until the virtual time is that of the
-- hit.
unfoldable pub wait_for_hit : ReplayRate → RateControl → ℕ → List ℕ → Waited ℕ
wait_for_hit rate r hit_time [] = waits []
wait_for_hit rate r hit_time (now ∷ readings) =
    let virtual = virtual_time rate r now in
    let further =
      after_sleep (hit_sleep rate (time_sub hit_time virtual))
        (wait_for_hit rate r hit_time readings) in
    if time_lt virtual hit_time then further else went_on [] readings

-- What the clocks answer during one call of IncrementAndWait.
pub record Clocks : Type 0 where
  pub readings : List Timespec
  pub times : List ℕ

abbrev pub rate_over : RateControl → Waited Timespec → RateControl × Waited (Unit {0})
rate_over r (went_on sleeps rest) = (r, went_on sleeps [])
rate_over r (waits sleeps) = (r, waits sleeps)

abbrev pub hit_over : RateControl → Waited ℕ → RateControl × Waited (Unit {0})
hit_over r (went_on sleeps rest) = (r, went_on sleeps [])
hit_over r (waits sleeps) = (r, waits sleeps)

-- The first hit sets the two times, and does not wait.
abbrev pub first_hit : RateControl → ℕ → List ℕ → RateControl × Waited (Unit {0})
first_hit r hit_time [] = (record r { first_hit_time = hit_time }, waits [])
first_hit r hit_time (now ∷ times) =
    (record r { first_hit_time = hit_time; start_clock_time = now }, went_on [] [])

abbrev pub by_mode :
    ClockType → ReplayRate → RateControl → ℕ → Clocks → RateControl × Waited (Unit {0})
unfolding wait_for_rate wait_for_hit
by_mode hit_based rate r hit_time clocks =
    if r.first_hit_time == 0
    then first_hit r hit_time clocks.times
    else hit_over r (wait_for_hit rate r hit_time clocks.times)
by_mode event_based rate r hit_time clocks =
    if r.events_per_second == 0
    then (r, went_on [] [])
    else rate_over r (wait_for_rate (needed_time r) r.clock_prev clocks.readings)

-- IncrementAndWait: the controller, and what the wait came to.
unfoldable pub increment_and_wait :
    ReplayRate → RateControl → ℕ → ℕ → Clocks → RateControl × Waited (Unit {0})
unfolding by_mode
increment_and_wait rate r how_many hit_time clocks =
    by_mode r.mode rate (record r { events_count = (r.events_count + how_many) % 2 ^ 64 }) hit_time
      clocks
