-- ===== src/Harness/Timer/Seconds.antt =====
-- The loop of hiResTimer over the seconds that are over.
use elevator.Base.{
  ℕ, zero, suc, ◌+◌, ◌-◌, ◌≤◌, ◌<◌, ◌≡◌, ◌⊎◌, refl, inl, inr, arith, ◌∙◌, ap, length, ltb,
  Bool-cases, ltb→lt, ltb_false→le, Run, done, ◌%◌, ◌^◌,
}
use elevator.Base.Outcome.{◌>>=◌}
use elevator.Harness.{Timespec, timespec_sub, nanosecond}
use elevator.Harness.Timer.{HiResTimer, mean, push_mean, push_means, stop_timer, count_event}
use elevator.Harness.Counts.{in_nanoseconds, IsReading, timespec_sub_lem, length-append_one}

-- `t'` is `t` brought up to the time `now`: an entry for each second that the clock went on, at most
-- a second left, and the counts are the old ones or, once an entry is made, 0.
pub record IsUpToDate (now : Timespec) (t t' : HiResTimer) : Type 0 where
  pub by_second :
      t'.clock_prev.tv_sec + length t.ns_per_second ≡ t.clock_prev.tv_sec + length t'.ns_per_second
  pub current : in_nanoseconds now ≤ in_nanoseconds t'.clock_prev + nanosecond
  pub counts : (t' ≡ t) ⊎ ((t'.events_count ≡ 0) × (t'.ns ≡ 0))
  pub block : t'.clock_start ≡ t.clock_start

one_round :
    (k : ℕ) (now : Timespec) (t : HiResTimer)
    → IsReading now
    → t.clock_prev.tv_nsec < nanosecond
    → (nanosecond < timespec_sub now t.clock_prev
        → (t' : HiResTimer) × (push_means k now (push_mean t) ≡ done t')
          × IsUpToDate now (push_mean t) t')
    → (t' : HiResTimer) × (push_means (suc k) now t ≡ done t') × IsUpToDate now t t'
unfolding push_means
one_round k now t r s further = elim (Bool-cases (ltb nanosecond (timespec_sub now t.clock_prev))) [
  | inl over ↦
      let (t', e, c) = further (ltb→lt nanosecond (timespec_sub now t.clock_prev) over) in
      rw over (
        t',
        e,
        record {
          by_second =
              omega
                (arith, c.by_second, length-append_one t.ns_per_second (mean t.ns t.events_count));
          current = c.current;
          counts = elim c.counts [
            | inl same ↦
                inr
                  (ap (λ (u : HiResTimer). u.events_count) same, ap (λ (u : HiResTimer). u.ns) same)
            | inr zeros ↦ inr zeros
          ];
          block = c.block;
        },
      )
  | inr rest ↦ rw rest (
    t,
    refl,
    record {
      by_second = refl;
      current =
          let a = ltb_false→le nanosecond (timespec_sub now t.clock_prev) rest in
          let e = timespec_sub_lem now t.clock_prev r s in omega arith;
      counts = inl refl;
      block = refl;
    },
  )
]

-- The loop ends within its fuel, and brings the timer up to date.
pub push_means-IsUpToDate :
    (k : ℕ) (now : Timespec) (t : HiResTimer)
    → IsReading now
    → t.clock_prev.tv_nsec < nanosecond
    → now.tv_sec ≤ k + t.clock_prev.tv_sec
    → (t' : HiResTimer) × (push_means (suc k) now t ≡ done t') × IsUpToDate now t t'
push_means-IsUpToDate zero now t r s h = one_round zero now t r s (λ over.
    let e = timespec_sub_lem now t.clock_prev r s in absurd (omega (arith, r.below_second)))
push_means-IsUpToDate (suc k) now t r s h =
    one_round (suc k) now t r s
      (λ over. push_means-IsUpToDate k now (push_mean t) r s (omega arith))

-- The test before the loop of Stop is the loop's own.
pub stop_timer_once :
    (t : HiResTimer) (now : Timespec)
    → stop_timer t now ≡ (push_means (suc now.tv_sec) now t >>= λ t'. done (count_event now t'))
unfolding stop_timer push_means
stop_timer_once t now = elim (Bool-cases (ltb nanosecond (timespec_sub now t.clock_prev))) [
  | inl over ↦ rw over refl
  | inr rest ↦ rw rest refl
]

-- Stop at a valid reading of the clock ends: it brings the timer up to date and then counts one event,
-- with the time since Start.
pub stop_timer-IsUpToDate :
    (t : HiResTimer) (now : Timespec)
    → IsReading now
    → t.clock_prev.tv_nsec < nanosecond
    → t.clock_start.tv_nsec < nanosecond
    → (t' : HiResTimer) × (stop_timer t now
        ≡ done (record t' {
          events_count = (t'.events_count + 1) % 2 ^ 64;
          ns = (t'.ns + (in_nanoseconds now - in_nanoseconds t.clock_start)) % 2 ^ 64;
        }))
      × IsUpToDate now t t'
stop_timer-IsUpToDate t now r s b =
    let (t', e, c) = push_means-IsUpToDate now.tv_sec now t r s (omega arith) in
    let spent = timespec_sub_lem now t.clock_start r b in
    (
      t',
      stop_timer_once t now
          ∙ ap (λ (x : Run HiResTimer). x >>= λ u. done (count_event now u)) e
          ∙ rw (c.block, spent) refl,
      c,
    )
