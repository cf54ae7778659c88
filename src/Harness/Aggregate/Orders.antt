-- ===== src/Harness/Aggregate/Orders.antt =====
-- The totals and the order of the workers.
use elevator.Base.{ℕ, ◌+◌, ◌*◌, ◌%◌, ◌^◌, ◌≡◌, refl, ◌∙◌, arith, List, [], ◌∷◌}
use elevator.Harness.Aggregate.{Totals, Measures, add_rates, add_times, add_worker, add_workers}

sum_swap : (s x y : ℕ) → ((s + x) % 2 ^ 64 + y) % 2 ^ 64 ≡ ((s + y) % 2 ^ 64 + x) % 2 ^ 64
sum_swap s x y = omega arith

add_rates_swap : (a b c : List ℕ) → add_rates (add_rates a b) c ≡ add_rates (add_rates a c) b
unfolding add_rates
add_rates_swap a [] c = refl
add_rates_swap a (x ∷ b) [] = refl
add_rates_swap [] (x ∷ b) (y ∷ c) =
    λ i. let e : (x + y) % 2 ^ 64 ≡ (y + x) % 2 ^ 64 = omega arith in e i ∷ add_rates_swap [] b c i
add_rates_swap (s ∷ a) (x ∷ b) (y ∷ c) = λ i. sum_swap s x y i ∷ add_rates_swap a b c i

first_swap : (x y : ℕ) → (x % 2 ^ 64 + y) % 2 ^ 64 ≡ (y % 2 ^ 64 + x) % 2 ^ 64
first_swap x y = omega arith

add_times_swap :
    (a r n q m : List ℕ) → add_times (add_times a r n) q m ≡ add_times (add_times a q m) r n
unfolding add_times
add_times_swap a r [] q m = refl
add_times_swap a [] (x ∷ n) q m = refl
add_times_swap a (u ∷ r) (x ∷ n) q [] = refl
add_times_swap a (u ∷ r) (x ∷ n) [] (y ∷ m) = refl
add_times_swap [] (u ∷ r) (x ∷ n) (v ∷ q) (y ∷ m) =
    λ i. first_swap (u * x) (v * y) i ∷ add_times_swap [] r n q m i
add_times_swap (s ∷ a) (u ∷ r) (x ∷ n) (v ∷ q) (y ∷ m) =
    λ i. sum_swap s (u * x) (v * y) i ∷ add_times_swap a r n q m i

add_worker_swap :
    (t : Totals) (a b : Measures) → add_worker (add_worker t a) b ≡ add_worker (add_worker t b) a
unfolding add_worker
add_worker_swap t a b = λ i. record {
  aggregate_rate = add_rates_swap t.aggregate_rate a.rates b.rates i;
  aggregate_read_timer =
      add_times_swap t.aggregate_read_timer a.rates a.read_means b.rates b.read_means i;
  aggregate_write_timer =
      add_times_swap t.aggregate_write_timer a.rates a.write_means b.rates b.write_means i;
}

-- The same workers in another order.
pub data IsReordering : List Measures → List Measures → Type 0 where
  same : (ms : List Measures) → IsReordering ms ms
  swap : (a b : Measures) (ms : List Measures) → IsReordering (a ∷ b ∷ ms) (b ∷ a ∷ ms)
  behind :
      (a : Measures) {ms ns : List Measures} → IsReordering ms ns → IsReordering (a ∷ ms) (a ∷ ns)
  steps : {ms ns os : List Measures} → IsReordering ms ns → IsReordering ns os → IsReordering ms os

-- The totals are the same in whatever order the workers get the mutex.
pub add_workers-IsReordering :
    {ms ns : List Measures} (t : Totals) → IsReordering ms ns → add_workers t ms ≡ add_workers t ns
unfolding add_workers
add_workers-IsReordering t (same ms) = refl
add_workers-IsReordering t (swap a b ms) = λ i. add_workers (add_worker_swap t a b i) ms
add_workers-IsReordering t (behind a r) = add_workers-IsReordering (add_worker t a) r
add_workers-IsReordering t (steps r s) = add_workers-IsReordering t r ∙ add_workers-IsReordering t s
