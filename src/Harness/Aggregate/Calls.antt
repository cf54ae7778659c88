-- ===== src/Harness/Aggregate/Calls.antt =====
-- The worker's loops over NsPerSecond (), which they call anew for each use (testharness.cpp).
use elevator.Base.{
  ℕ, ◌+◌, ◌*◌, ◌/◌, ◌%◌, ◌^◌, ◌≤◌, ◌<◌, ◌≡◌, refl, arith, List, [], ◌∷◌, ◌++◌, All, true, length,
  get_or, set, ltb, lt→ltb, le→ltb_false, Bool-cases, inl, inr, if◌then◌else◌, Run, done,
  out_of_fuel,
}
use elevator.Base.Outcome.{◌>>=◌}
use elevator.Harness.{Timespec, timespec_sub, nanosecond}
use elevator.Harness.Counts.{length-append_one}
use elevator.Harness.Timer.{HiResTimer, push_means, read_timer}

-- (*timer)[i] += n, or the value is appended.
abbrev pub add_at : List ℕ → ℕ → ℕ → List ℕ
add_at sums i n =
    if ltb i (length sums)
    then set sums i ((get_or sums i 0 + n) % 2 ^ 64)
    else sums ++ ((n % 2 ^ 64) ∷ [])

-- The loop over `i`: the sums, and the timer. Each call of NsPerSecond () takes one of the readings of
-- the clock, and the loop is not over when there are no more.
unfoldable pub add_calls :
    List ℕ → HiResTimer → ℕ → List ℕ → List Timespec → Run (List ℕ × HiResTimer)
add_calls rates t i sums [] = out_of_fuel
add_calls rates t i sums (now ∷ []) = do
  t' ← read_timer t now
  if ltb i (length t'.ns_per_second) then out_of_fuel else done (sums, t')
add_calls rates t i sums (now ∷ again ∷ readings) = read_timer t now >>= λ t'.
    let added =
      (read_timer t' again >>= λ t''.
      add_calls rates t'' (i + 1) (add_at sums i (get_or rates i 0 * get_or t''.ns_per_second i 0))
        readings) in
    let passed = add_calls rates t' (i + 1) sums (again ∷ readings) in
    if ltb i (length t'.ns_per_second)
    then (if ltb i (length rates) then added else passed)
    else done (sums, t')

-- Within the second, a call adds an entry if an event was counted.
read_timer_grows :
    (t : HiResTimer) (now : Timespec)
    → 0 < t.events_count
    → timespec_sub now t.clock_prev ≤ nanosecond
    → read_timer t now
      ≡ done (record t { ns_per_second = t.ns_per_second ++ (t.ns / t.events_count ∷ []) })
unfolding read_timer push_means
read_timer_grows t now some_events within =
    rw (le→ltb_false nanosecond (timespec_sub now t.clock_prev) within)
      (rw (lt→ltb 0 t.events_count some_events) refl)

still_below :
    (t : HiResTimer) (i : ℕ)
    → i ≤ length t.ns_per_second
    → ltb i (length (t.ns_per_second ++ (t.ns / t.events_count ∷ []))) ≡ true
still_below t i h =
    lt→ltb i _
      (let grown = length-append_one t.ns_per_second (t.ns / t.events_count) in omega arith)

-- A timer that has counted an event keeps the loop from ending as long as the clock stays within the
-- second of its last update: each call of NsPerSecond adds an entry, so that the bound of the loop
-- grows as fast as its index.
pub add_calls-never :
    (rates : List ℕ) (t : HiResTimer) (i : ℕ) (sums : List ℕ) (readings : List Timespec)
    → 0 < t.events_count
    → i ≤ length t.ns_per_second
    → All (λ now. timespec_sub now t.clock_prev ≤ nanosecond) readings
    → add_calls rates t i sums readings ≡ out_of_fuel
unfolding add_calls
add_calls-never rates t i sums [] some_events h within = refl
add_calls-never rates t i sums (now ∷ []) some_events h within =
    rw (read_timer_grows t now some_events within.0) (rw (still_below t i h) refl)
add_calls-never rates t i sums (now ∷ again ∷ readings) some_events h within =
    let t1 = record t { ns_per_second = t.ns_per_second ++ (t.ns / t.events_count ∷ []) } in
    let t2 = record t1 { ns_per_second = t1.ns_per_second ++ (t.ns / t.events_count ∷ []) } in
    let grown = length-append_one t.ns_per_second (t.ns / t.events_count) in
    let grown2 = length-append_one t1.ns_per_second (t.ns / t.events_count) in
    rw (read_timer_grows t now some_events within.0) (
      rw (still_below t i h) (elim (Bool-cases (ltb i (length rates))) [
        | inl e ↦
            rw (e, read_timer_grows t1 again some_events within.1.0)
              (add_calls-never rates t2 (i + 1) _ readings some_events
                (omega (arith, grown, grown2)) within.1.1)
        | inr e ↦ rw e (
            add_calls-never rates t1 (i + 1) sums (again ∷ readings) some_events
              (omega (arith, grown)) within.1)
      ]))
