-- ===== src/Harness/Control/Waits.antt =====
-- When the loops of rateControl (testharness.cpp) end.
use elevator.Base.{
  ℕ, ◌+◌, ◌-◌, ◌*◌, ◌/◌, ◌%◌, ◌^◌, ◌≡◌, ◌≢◌, refl, ap, sym, subst, Bool, true, false, not, List, [],
  ◌∷◌, ◌++◌, map, All, ltb, leb, Bool-cases, inl, inr, ltb→lt, ltb_false→le, lt→leb_false, le→leb,
  ne→==_false,
}
use elevator.Memory.{time_lt}
use elevator.Harness.{Timespec, timespec_sub}
use elevator.Harness.Control.{
  ReplayRate, RateControl, Clocks, event_based, Waited, went_on, waits, after_sleep, hit_sleep,
  time_sub, virtual_time, needed_time, wait_for_rate, rate_over, by_mode, increment_and_wait,
}

-- A wait over `readings` goes on at the first one that is due, after a sleep for each one before it; it
-- still waits, after a sleep for each reading, if none is due.
abbrev pub IsFirst : {R S : Type 0} → (R → Bool) → (R → ℕ) → List R → Waited S → Type 0
IsFirst due sleep readings (went_on sleeps rest) =
    (early : List _) × (now : _) × (after : List _) × (readings ≡ early ++ (now ∷ after))
    × All (λ t. due t ≡ false) early
    × (due now ≡ true)
    × (sleeps ≡ map sleep early)
IsFirst due sleep readings (waits sleeps) =
    All (λ t. due t ≡ false) readings × (sleeps ≡ map sleep readings)

module _ {R S : Type 0} (due : R → Bool) (sleep : R → ℕ) where
  -- One more reading, which is too early.
  after_sleep-IsFirst :
      (now : R) (readings : List R) (w : Waited S)
      → due now ≡ false
      → IsFirst due sleep readings w
      → IsFirst due sleep (now ∷ readings) (after_sleep (sleep now) w)
  after_sleep-IsFirst now readings (went_on sleeps rest) e (early, t, after, split, h, d, slept) =
      (now ∷ early, t, after, ap (λ l. now ∷ l) split, (e, h), d, ap (λ l. sleep now ∷ l) slept)
  after_sleep-IsFirst now readings (waits sleeps) e (h, slept) =
      ((e, h), ap (λ l. sleep now ∷ l) slept)

-- The events so far are due at a reading.
abbrev pub rate_due : ℕ → Timespec → Timespec → Bool
rate_due needed prev now = leb needed (timespec_sub now prev)

-- The microseconds that are missing, as usleep takes them.
abbrev pub rate_sleep : ℕ → Timespec → Timespec → ℕ
rate_sleep needed prev now = (needed - timespec_sub now prev) / 1000 % 2 ^ 32

wait_for_rate-IsFirst :
    (needed : ℕ) (prev : Timespec) (readings : List Timespec)
    → IsFirst
        (rate_due needed prev)
        (rate_sleep needed prev)
        readings
        (wait_for_rate needed prev readings)
unfolding wait_for_rate
wait_for_rate-IsFirst needed prev [] = (tt, refl)
wait_for_rate-IsFirst needed prev (now ∷ readings) =
    let ih = wait_for_rate-IsFirst needed prev readings in
    elim (Bool-cases (ltb (timespec_sub now prev) needed)) [
      | inl early ↦ rw early (
          after_sleep-IsFirst (rate_due needed prev) (rate_sleep needed prev) now readings
            (wait_for_rate needed prev readings)
            (lt→leb_false _ _ (ltb→lt (timespec_sub now prev) needed early)) ih)
      | inr late ↦ rw late (
        [],
        now,
        readings,
        refl,
        tt,
        le→leb _ _ (ltb_false→le (timespec_sub now prev) needed late),
        refl,
      )
    ]

-- It is time for the hit at an answer of time.
abbrev pub hit_due : ReplayRate → RateControl → ℕ → ℕ → Bool
hit_due rate r hit_time now = not (time_lt (virtual_time rate r now) hit_time)

abbrev pub hit_sleep_at : ReplayRate → RateControl → ℕ → ℕ → ℕ
hit_sleep_at rate r hit_time now = hit_sleep rate (time_sub hit_time (virtual_time rate r now))

rate_over-IsFirst :
    (due : Timespec → Bool) (sleep : Timespec → ℕ) (r : RateControl) (readings : List Timespec)
    (w : Waited Timespec)
    → IsFirst due sleep readings w
    → ((rate_over r w).0 ≡ r) × IsFirst due sleep readings (rate_over r w).1
rate_over-IsFirst due sleep r readings (went_on sleeps rest) h = (refl, h)
rate_over-IsFirst due sleep r readings (waits sleeps) h = (refl, h)

-- The controller with the new events counted.
abbrev pub counted : RateControl → ℕ → RateControl
counted r how_many = record r { events_count = (r.events_count + how_many) % 2 ^ 64 }

-- IncrementAndWait of a worker with a request rate, whatever the clock answers: it counts the events, and
-- goes on at the first reading at which the time since the start is at least that of the events so far
-- (a billion nanoseconds divided by the rate, for each event, modulo 2 ^ 64), after a usleep for what is missing at each
-- earlier reading; it still waits if there is no such reading.
pub increment_and_wait-rate :
    (rate : ReplayRate) (r : RateControl) (how_many hit_time : ℕ) (clocks : Clocks)
    → r.mode ≡ event_based
    → r.events_per_second ≢ 0
    → let needed = 1000000000 / r.events_per_second * (counted r how_many).events_count % 2 ^ 64 in
      ((increment_and_wait rate r how_many hit_time clocks).0 ≡ counted r how_many)
      × IsFirst
          (rate_due needed r.clock_prev)
          (rate_sleep needed r.clock_prev)
          clocks.readings
          (increment_and_wait rate r how_many hit_time clocks).1
unfolding increment_and_wait
increment_and_wait-rate rate r how_many hit_time clocks m limited =
    let r1 = counted r how_many in
    let Goes = λ (x : RateControl × Waited (Unit {0})).
      (x.0 ≡ r1)
      × IsFirst (rate_due (needed_time r1) r.clock_prev) (rate_sleep (needed_time r1) r.clock_prev)
          clocks.readings x.1 in
    subst (λ k. Goes (by_mode k rate r1 hit_time clocks)) (sym m)
      (rw (ne→==_false r.events_per_second 0 limited) (
        rate_over-IsFirst _ _ r1 clocks.readings
          (wait_for_rate (needed_time r1) r.clock_prev clocks.readings)
          (wait_for_rate-IsFirst (needed_time r1) r.clock_prev clocks.readings)))
