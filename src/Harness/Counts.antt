-- ===== src/Harness/Counts.antt =====
-- The differences of clock readings, and the events that rateMonitor counts.
use elevator.Base.{
  ℕ, zero, suc, ◌+◌, ◌-◌, ◌*◌, ◌%◌, ◌^◌, ◌≤◌, ◌<◌, ◌≡◌, refl, inl, inr, arith, List, [], ◌∷◌, ◌++◌,
  ◌∙◌, ap, length, ltb, Bool-cases, ltb→lt, ltb_false→le, ne→==_false, Run, done,
}
use elevator.Base.Outcome.{◌>>=◌}
use elevator.Harness.{Timespec, timespec_sub, nanosecond}
use elevator.Harness.Monitor.{RateMonitor, push_second, push_seconds, increment}

-- A reading in nanoseconds.
abbrev pub in_nanoseconds : Timespec → ℕ
in_nanoseconds t = t.tv_sec * nanosecond + t.tv_nsec

-- A reading that clock_gettime gives before the year 2554.
pub record IsReading (t : Timespec) : Type 0 where
  pub below_second : t.tv_nsec < nanosecond
  pub below_word : in_nanoseconds t < 2 ^ 64

-- The difference of two readings is that of their nanoseconds, and 0 if it is negative.
pub timespec_sub_lem :
    (a b : Timespec)
    → IsReading a
    → b.tv_nsec < nanosecond
    → timespec_sub a b ≡ in_nanoseconds a - in_nanoseconds b
unfolding timespec_sub
timespec_sub_lem a b r s = ground (arith, r.below_second, r.below_word)

abbrev pub sum : List ℕ → ℕ
sum [] = 0
sum (x ∷ xs) = x + sum xs

sum-append : (xs : List ℕ) (n : ℕ) → sum (xs ++ (n ∷ [])) ≡ sum xs + n
sum-append [] n = omega arith
sum-append (x ∷ xs) n = omega (arith, sum-append xs n)

pub length-append_one : (xs : List ℕ) (n : ℕ) → length (xs ++ (n ∷ [])) ≡ length xs + 1
length-append_one [] n = refl
length-append_one (x ∷ xs) n = omega (arith, length-append_one xs n)

-- `m'` is `m` brought up to the time `now`: no event is lost, there is an entry for each second that
-- the clock went on, and at most a second is left.
pub record IsCaughtUp (now : Timespec) (m m' : RateMonitor) : Type 0 where
  pub no_loss :
      sum m'.events_per_second + m'.events_count ≡ sum m.events_per_second + m.events_count
  pub by_second :
      m'.clock_prev.tv_sec + length m.events_per_second
      ≡ m.clock_prev.tv_sec + length m'.events_per_second
  pub current : in_nanoseconds now ≤ in_nanoseconds m'.clock_prev + nanosecond

one_round :
    (k : ℕ) (now : Timespec) (m : RateMonitor)
    → IsReading now
    → m.clock_prev.tv_nsec < nanosecond
    → (nanosecond < timespec_sub now m.clock_prev
        → (m' : RateMonitor) × (push_seconds k now (push_second m) ≡ done m')
          × IsCaughtUp now (push_second m) m')
    → (m' : RateMonitor) × (push_seconds (suc k) now m ≡ done m') × IsCaughtUp now m m'
unfolding push_seconds
one_round k now m r s further = elim (Bool-cases (ltb nanosecond (timespec_sub now m.clock_prev))) [
  | inl over ↦
      let (m', e, c) = further (ltb→lt nanosecond (timespec_sub now m.clock_prev) over) in
      rw over (
        m',
        e,
        record {
          no_loss = omega (arith, c.no_loss, sum-append m.events_per_second m.events_count);
          by_second =
              omega (arith, c.by_second, length-append_one m.events_per_second m.events_count);
          current = c.current;
        },
      )
  | inr rest ↦ rw rest (
    m,
    refl,
    record {
      no_loss = refl;
      by_second = refl;
      current =
          let a = ltb_false→le nanosecond (timespec_sub now m.clock_prev) rest in
          let e = timespec_sub_lem now m.clock_prev r s in omega arith;
    },
  )
]

pub push_seconds-IsCaughtUp :
    (k : ℕ) (now : Timespec) (m : RateMonitor)
    → IsReading now
    → m.clock_prev.tv_nsec < nanosecond
    → now.tv_sec ≤ k + m.clock_prev.tv_sec
    → (m' : RateMonitor) × (push_seconds (suc k) now m ≡ done m') × IsCaughtUp now m m'
push_seconds-IsCaughtUp zero now m r s h = one_round zero now m r s (λ over.
    let e = timespec_sub_lem now m.clock_prev r s in absurd (omega (arith, r.below_second)))
push_seconds-IsCaughtUp (suc k) now m r s h =
    one_round (suc k) now m r s
      (λ over. push_seconds-IsCaughtUp k now (push_second m) r s (omega arith))

abbrev add_events : ℕ → RateMonitor → Run RateMonitor
add_events how_many m = done (record m { events_count = (m.events_count + how_many) % 2 ^ 64 })

-- The test before the loop of Increment is the loop's own.
increment_running :
    (m : RateMonitor) (how_many : ℕ) (begin now : Timespec)
    → 0 < m.clock_prev.tv_sec
    → increment m how_many begin now ≡ (push_seconds (suc now.tv_sec) now m >>= add_events how_many)
unfolding increment push_seconds
increment_running m how_many begin now running =
    let started = ne→==_false m.clock_prev.tv_sec 0 (omega arith) in
    elim (Bool-cases (ltb nanosecond (timespec_sub now m.clock_prev))) [
      | inl over ↦ rw (started, over) refl
      | inr rest ↦ rw (started, rest) refl
    ]

-- Increment of a running monitor ends: it leaves the monitor caught up to `now`, and its count with
-- the new events added.
pub increment-IsCaughtUp :
    (m : RateMonitor) (how_many : ℕ) (begin now : Timespec)
    → IsReading now
    → 0 < m.clock_prev.tv_sec
    → m.clock_prev.tv_nsec < nanosecond
    → (m' : RateMonitor) × (increment m how_many begin now
        ≡ done (record m' { events_count = (m'.events_count + how_many) % 2 ^ 64 }))
      × IsCaughtUp now m m'
increment-IsCaughtUp m how_many begin now r running s =
    let (m', e, c) = push_seconds-IsCaughtUp now.tv_sec now m r s (omega arith) in
    (
      m',
      increment_running m how_many begin now running
          ∙ ap (λ (x : Run RateMonitor). x >>= add_events how_many) e,
      c,
    )
