-- ===== src/Harness/Aggregate/Idle.antt =====
-- The loops over NsPerSecond () for a timer that has counted no event since its last update, and the
-- same loops over a list of means (testharness.cpp).
use elevator.Base.{
  ℕ, zero, suc, ◌+◌, ◌*◌, ◌%◌, ◌^◌, ◌≤◌, ◌<◌, ◌≡◌, refl, ap, ◌∙◌, arith, List, [], ◌∷◌, All, length,
  get_or, ltb, lt→ltb, le→ltb_false, Bool-cases, inl, inr, if◌then◌else◌, done,
}
use elevator.Harness.{Timespec, timespec_sub, nanosecond}
use elevator.Harness.Timer.{HiResTimer, push_means, read_timer}
use elevator.Harness.Aggregate.{add_times}
use elevator.Harness.Aggregate.Calls.{add_at, add_calls}
use native.Mathlib.Numerals.{add-one}

-- The rounds of the loop over an index, where the means stay as they are.
unfoldable pub add_each : List ℕ → List ℕ → ℕ → ℕ → List ℕ → List ℕ
add_each rates means i zero sums = sums
add_each rates means i (suc k) sums =
    add_each rates means (suc i) k
      (if ltb i (length rates) then add_at sums i (get_or rates i 0 * get_or means i 0) else sums)

ltb-suc : (i n : ℕ) → ltb (suc i) (suc n) ≡ ltb i n
ltb-suc i n = elim (Bool-cases (ltb i n)) [ inl e ↦ ground arith | inr e ↦ ground arith ]

add_each_tail :
    (y x z : ℕ) (rates means : List ℕ) (i k : ℕ) (sums : List ℕ)
    → add_each (y ∷ rates) (x ∷ means) (suc i) k (z ∷ sums) ≡ z ∷ add_each rates means i k sums
unfolding add_each
add_each_tail y x z rates means i zero sums = refl
add_each_tail y x z rates means i (suc k) sums = elim (Bool-cases (ltb i (length rates))) [
  | inl e ↦ elim (Bool-cases (ltb i (length sums))) [
    | inl f ↦
        rw (ltb-suc i (length rates), e, ltb-suc i (length sums), f)
          (add_each_tail y x z rates means (suc i) k _)
    | inr f ↦
        rw (ltb-suc i (length rates), e, ltb-suc i (length sums), f)
          (add_each_tail y x z rates means (suc i) k _)
  ]
  | inr e ↦ rw (ltb-suc i (length rates), e) (add_each_tail y x z rates means (suc i) k sums)
]

add_each_no_rates : (means sums : List ℕ) (i k : ℕ) → add_each [] means i k sums ≡ sums
unfolding add_each
add_each_no_rates means sums i zero = refl
add_each_no_rates means sums i (suc k) =
    rw (le→ltb_false i 0 (omega arith)) (add_each_no_rates means sums (suc i) k)

-- The first round.
append_first :
    (rates : List ℕ) (n : ℕ)
    → (if ltb 0 (suc (length rates)) then add_at [] 0 n else []) ≡ (n % 2 ^ 64) ∷ []
append_first rates n = rw (lt→ltb 0 (suc (length rates)) (omega arith)) refl

add_first :
    (rates : List ℕ) (z : ℕ) (sums : List ℕ) (n : ℕ)
    → (if ltb 0 (suc (length rates)) then add_at (z ∷ sums) 0 n else z ∷ sums)
      ≡ ((z + n) % 2 ^ 64) ∷ sums
add_first rates z sums n =
    rw (lt→ltb 0 (suc (length rates)) (omega arith), lt→ltb 0 (suc (length sums)) (omega arith))
      refl

pub add_each-add_times :
    (sums rates means : List ℕ)
    → add_each rates means 0 (length means) sums ≡ add_times sums rates means
unfolding add_each add_times
add_each-add_times sums rates [] = refl
add_each-add_times sums [] (x ∷ means) = add_each_no_rates (x ∷ means) sums 0 (suc (length means))
add_each-add_times [] (y ∷ rates) (x ∷ means) =
    ap (add_each (y ∷ rates) (x ∷ means) 1 (length means)) (append_first rates (y * x))
    ∙ add_each_tail y x ((y * x) % 2 ^ 64) rates means 0 (length means) []
    ∙ ap (λ l. ((y * x) % 2 ^ 64) ∷ l) (add_each-add_times [] rates means)
add_each-add_times (z ∷ sums) (y ∷ rates) (x ∷ means) =
    ap (add_each (y ∷ rates) (x ∷ means) 1 (length means)) (add_first rates z sums (y * x))
    ∙ add_each_tail y x ((z + y * x) % 2 ^ 64) rates means 0 (length means) sums
    ∙ ap (λ l. ((z + y * x) % 2 ^ 64) ∷ l) (add_each-add_times sums rates means)

read_timer_idle :
    (t : HiResTimer) (now : Timespec)
    → t.events_count ≡ 0
    → timespec_sub now t.clock_prev ≤ nanosecond
    → read_timer t now ≡ done t
unfolding read_timer push_means
read_timer_idle t now none_counted within =
    rw
      (
        le→ltb_false nanosecond (timespec_sub now t.clock_prev) within,
        le→ltb_false 0 t.events_count (omega arith),
      )
      refl

module _ (rates : List ℕ) (t : HiResTimer) (none_counted : t.events_count ≡ 0) where
  rounds :
      (k i : ℕ) (sums : List ℕ) (readings : List Timespec)
      → i + k ≡ length t.ns_per_second
      → k + k < length readings
      → All (λ now. timespec_sub now t.clock_prev ≤ nanosecond) readings
      → add_calls rates t i sums readings ≡ done (add_each rates t.ns_per_second i k sums, t)
  unfolding add_calls add_each
  rounds k i sums [] h enough within = absurd (omega arith)
  rounds zero i sums (now ∷ []) h enough within =
      rw
        (
          read_timer_idle t now none_counted within.0,
          le→ltb_false i (length t.ns_per_second) (omega arith),
        )
        refl
  rounds (suc k) i sums (now ∷ []) h enough within = absurd (omega arith)
  rounds zero i sums (now ∷ again ∷ readings) h enough within =
      rw
        (
          read_timer_idle t now none_counted within.0,
          le→ltb_false i (length t.ns_per_second) (omega arith),
        )
        refl
  rounds (suc k) i sums (now ∷ again ∷ readings) h enough within =
      rw
        (
          read_timer_idle t now none_counted within.0,
          lt→ltb i (length t.ns_per_second) (omega arith),
        )
        (elim (Bool-cases (ltb i (length rates))) [
          | inl e ↦
              rw (e, read_timer_idle t again none_counted within.1.0, add-one i)
                (rounds k (suc i) _ readings (omega arith) (omega arith) within.1.1)
          | inr e ↦
              rw (e, add-one i)
                (rounds k (suc i) sums (again ∷ readings) (omega arith) (omega arith) within.1)
        ])

-- Within a second of the last update of a timer that has counted no event since, the loop over
-- NsPerSecond, with two readings of the clock for each mean and one more, ends and adds to the totals
-- what one call of NsPerSecond gives, and leaves the timer as it was.
pub add_calls-add_times :
    (rates : List ℕ) (t : HiResTimer) (sums : List ℕ) (readings : List Timespec)
    → t.events_count ≡ 0
    → All (λ now. timespec_sub now t.clock_prev ≤ nanosecond) readings
    → length t.ns_per_second + length t.ns_per_second < length readings
    → add_calls rates t 0 sums readings ≡ done (add_times sums rates t.ns_per_second, t)
add_calls-add_times rates t sums readings none_counted within enough =
    rounds rates t none_counted (length t.ns_per_second) 0 sums readings (omega arith) enough within
    ∙ ap (λ l. done (l, t)) (add_each-add_times sums rates t.ns_per_second)
