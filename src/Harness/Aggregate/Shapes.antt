-- ===== src/Harness/Aggregate/Shapes.antt =====
-- The sizes of the totals, and main's averages.
use elevator.Base.{ℕ, ◌≤◌, ◌≡◌, refl, ap, zero, suc, arith, List, [], ◌∷◌, length, done}
use elevator.Harness.Aggregate.{
  Totals, Measures, add_rates, add_times, add_worker, add_workers, no_totals, averages,
}

-- A timer has no second that the rates do not have.
pub record IsWithin (t : Totals) : Type 0 where
  pub reads : length t.aggregate_read_timer ≤ length t.aggregate_rate
  pub writes : length t.aggregate_write_timer ≤ length t.aggregate_rate

length-add_rates :
    (sums rates : List ℕ)
    → (length sums ≤ length (add_rates sums rates)) × (length rates ≤ length (add_rates sums rates))
unfolding add_rates
length-add_rates sums [] = omega arith
length-add_rates [] (r ∷ rates) = omega (arith, length-add_rates [] rates)
length-add_rates (s ∷ sums) (r ∷ rates) = omega (arith, length-add_rates sums rates)

length-add_times :
    (sums rates means : List ℕ) (n : ℕ)
    → length sums ≤ n
    → length rates ≤ n
    → length (add_times sums rates means) ≤ n
unfolding add_times
length-add_times sums rates [] n h k = h
length-add_times sums [] (m ∷ means) n h k = h
length-add_times [] (r ∷ rates) (m ∷ means) zero h k = omega arith
length-add_times (s ∷ sums) (r ∷ rates) (m ∷ means) zero h k = omega arith
length-add_times [] (r ∷ rates) (m ∷ means) (suc n) h k =
    omega (arith, length-add_times [] rates means n (omega arith) (omega arith))
length-add_times (s ∷ sums) (r ∷ rates) (m ∷ means) (suc n) h k =
    omega (arith, length-add_times sums rates means n (omega arith) (omega arith))

pub add_worker-IsWithin : (t : Totals) (m : Measures) → IsWithin t → IsWithin (add_worker t m)
unfolding add_worker
add_worker-IsWithin t m w =
    let l = length-add_rates t.aggregate_rate m.rates in
    record {
      reads =
          length-add_times t.aggregate_read_timer m.rates m.read_means _ (omega (arith, w.reads))
            l.1;
      writes =
          length-add_times t.aggregate_write_timer m.rates m.write_means _ (omega (arith, w.writes))
            l.1;
    }

pub add_workers-IsWithin :
    (ms : List Measures) (t : Totals) → IsWithin t → IsWithin (add_workers t ms)
unfolding add_workers
add_workers-IsWithin [] t w = w
add_workers-IsWithin (m ∷ ms) t w =
    add_workers-IsWithin ms (add_worker t m) (add_worker-IsWithin t m w)

averages_total :
    (sums rates : List ℕ)
    → length sums ≤ length rates
    → (means : List ℕ) × (averages sums rates ≡ done means) × (length means ≡ length sums)
unfolding averages
averages_total [] rates h = ([], refl, refl)
averages_total (s ∷ sums) [] h = absurd (omega arith)
averages_total (s ∷ sums) (r ∷ rates) h =
    let (means, e, l) = averages_total sums rates (omega arith) in rw e (_, refl, ap suc l)

-- Whatever the workers measured, in whatever number and order, main's two loops of divisions stay
-- within the aggregate rate, and give a mean for each second of the timers.
pub averages-add_workers :
    (ms : List Measures)
    → let t = add_workers no_totals ms in
      ((means : List ℕ) × (averages t.aggregate_read_timer t.aggregate_rate ≡ done means)
        × (length means ≡ length t.aggregate_read_timer))
      × ((means : List ℕ) × (averages t.aggregate_write_timer t.aggregate_rate ≡ done means)
          × (length means ≡ length t.aggregate_write_timer))
averages-add_workers ms =
    let w =
      add_workers-IsWithin ms no_totals (record { reads = omega arith; writes = omega arith }) in
    (averages_total _ _ w.reads, averages_total _ _ w.writes)
