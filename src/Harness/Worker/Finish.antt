-- ===== src/Harness/Worker/Finish.antt =====
-- What WorkerThread does after its loop (testharness.cpp): it stops its monitor, prints what it
-- measured, and adds that to the totals.
use elevator.Base.{◌≡◌, refl, List, ℕ, Run, done, subst}
use elevator.Base.Outcome.{◌>>=◌, >>=-eq-done, done-inj}
use elevator.Harness.{Timespec}
use elevator.Harness.Monitor.{RateMonitor, stop}
use elevator.Harness.Timer.{HiResTimer, read_timer}
use elevator.Harness.Aggregate.{Totals, Measures, add_rates, add_worker}
use elevator.Harness.Aggregate.Calls.{add_calls}
use elevator.Harness.Aggregate.Growth.{IsPrefix, add_calls-done}

-- The readings of the clock after the loop, in the order in which they are made.
pub record LastReadings : Type 0 where
  pub monitor_stop : Timespec
  pub read_printed : Timespec
  pub write_printed : Timespec
  pub read_added : List Timespec
  pub write_added : List Timespec

-- The three lines that it prints.
pub record Report : Type 0 where
  pub rate : List ℕ
  pub read_avg_ns : List ℕ
  pub write_avg_ns : List ℕ

unfoldable pub finish_worker :
    LastReadings → Totals → RateMonitor → HiResTimer → HiResTimer → Run (Totals × Report)
finish_worker last totals monitor0 read0 write0 = do
  monitor ← stop monitor0 last.monitor_stop
  read_timer1 ← read_timer read0 last.read_printed
  write_timer1 ← read_timer write0 last.write_printed
  let rates = monitor.events_per_second
  (reads, read_timer2) ← add_calls rates read_timer1 0 totals.aggregate_read_timer last.read_added
  (writes, write_timer2) ←
      add_calls rates write_timer1 0 totals.aggregate_write_timer last.write_added
  done (
    record {
      aggregate_rate = add_rates totals.aggregate_rate rates;
      aggregate_read_timer = reads;
      aggregate_write_timer = writes;
    },
    record {
      rate = rates;
      read_avg_ns = read_timer1.ns_per_second;
      write_avg_ns = write_timer1.ns_per_second;
    },
  )

-- The totals and the report are those of one set of measures.
pub record IsAdded (totals : Totals) (r : Totals × Report) (ms : Measures) : Type 0 where
  pub added : r.0 ≡ add_worker totals ms
  pub rate : r.1.rate ≡ ms.rates
  pub reads : IsPrefix r.1.read_avg_ns ms.read_means
  pub writes : IsPrefix r.1.write_avg_ns ms.write_means

-- A worker that ends adds to the totals one set of measures: the rates that it prints, and means that
-- begin with those it prints.
pub finish_worker-add_worker :
    (last : LastReadings) (totals totals' : Totals) (m : RateMonitor) (read write : HiResTimer)
    (report : Report)
    → finish_worker last totals m read write ≡ done (totals', report)
    → (ms : Measures) × IsAdded totals (totals', report) ms
unfolding finish_worker add_worker
finish_worker-add_worker last totals totals' m read write report e =
    let (m1, e1, k1) = >>=-eq-done (stop m last.monitor_stop) _ e in
    let rates = m1.events_per_second in
    let (r1, e2, k2) = >>=-eq-done (read_timer read last.read_printed) _ k1 in
    let (w1, e3, k3) = >>=-eq-done (read_timer write last.write_printed) _ k2 in
    let ((reads, r2), e4, k4) =
      >>=-eq-done (add_calls rates r1 0 totals.aggregate_read_timer last.read_added) _ k3 in
    let ((writes, w2), e5, k5) =
      >>=-eq-done (add_calls rates w1 0 totals.aggregate_write_timer last.write_added) _ k4 in
    let (p1, s1) =
      add_calls-done rates r1 totals.aggregate_read_timer last.read_added reads r2 e4 in
    let (p2, s2) =
      add_calls-done rates w1 totals.aggregate_write_timer last.write_added writes w2 e5 in
    let ms : Measures = record {
      rates = rates;
      read_means = r2.ns_per_second;
      write_means = w2.ns_per_second;
    } in
    (
      ms,
      subst (λ r. IsAdded totals r ms) (done-inj _ (totals', report) k5)
          (record {
            added = λ i. record {
              aggregate_rate = add_rates totals.aggregate_rate rates;
              aggregate_read_timer = s1 i;
              aggregate_write_timer = s2 i;
            };
            rate = refl;
            reads = p1;
            writes = p2;
          }),
    )
