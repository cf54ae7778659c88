-- ===== src/Harness/Aggregate.antt =====
-- What a worker of the test harness adds to the totals of all, under consoleMutex, and what main
-- makes of them (testharness.cpp). The indices run over lists in step: a list that has ended is one
-- whose size is not above the index.
pub mod Orders
pub mod Shapes
pub mod Calls
pub mod Idle
pub mod Growth
use elevator.Base.{ℕ, ◌+◌, ◌*◌, ◌/◌, ◌%◌, ◌^◌, List, [], ◌∷◌, ltb, if◌then◌else◌, Run, done}
use elevator.Base.Outcome.{◌>>=◌}

-- The sums over all workers, by second.
pub record Totals : Type 0 where
  pub aggregate_rate : List ℕ
  pub aggregate_read_timer : List ℕ
  pub aggregate_write_timer : List ℕ

-- The loop over the rates of the worker: add to the value that is there, or append.
unfoldable pub add_rates : List ℕ → List ℕ → List ℕ
add_rates sums [] = sums
add_rates [] (r ∷ rates) = r ∷ add_rates [] rates
add_rates (s ∷ sums) (r ∷ rates) = ((s + r) % 2 ^ 64) ∷ add_rates sums rates

-- The loop over the means of a timer; a mean that has no rate is passed over.
unfoldable pub add_times : List ℕ → List ℕ → List ℕ → List ℕ
add_times sums rates [] = sums
add_times sums [] (n ∷ means) = sums
add_times [] (r ∷ rates) (n ∷ means) = ((r * n) % 2 ^ 64) ∷ add_times [] rates means
add_times (s ∷ sums) (r ∷ rates) (n ∷ means) = ((s + r * n) % 2 ^ 64) ∷ add_times sums rates means

-- What a worker measured.
pub record Measures : Type 0 where
  pub rates : List ℕ
  pub read_means : List ℕ
  pub write_means : List ℕ

unfoldable pub add_worker : Totals → Measures → Totals
unfolding add_rates add_times
add_worker totals m = record {
  aggregate_rate = add_rates totals.aggregate_rate m.rates;
  aggregate_read_timer = add_times totals.aggregate_read_timer m.rates m.read_means;
  aggregate_write_timer = add_times totals.aggregate_write_timer m.rates m.write_means;
}

-- The workers in the order in which they get the mutex.
unfoldable pub add_workers : Totals → List Measures → Totals
unfolding add_worker
add_workers totals [] = totals
add_workers totals (m ∷ ms) = add_workers (add_worker totals m) ms

abbrev pub no_totals : Totals
no_totals = record { aggregate_rate = []; aggregate_read_timer = []; aggregate_write_timer = [] }

-- main's loop over the sums of a timer; an index that the rates do not have is undefined.
unfoldable pub averages : List ℕ → List ℕ → Run (List ℕ)
averages [] rates = done []
averages (t ∷ sums) [] = Run.fault
averages (t ∷ sums) (r ∷ rates) = do
  rest ← averages sums rates
  done ((if ltb 0 r then t / r else 0) ∷ rest)
