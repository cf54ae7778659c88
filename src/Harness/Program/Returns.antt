-- ===== src/Harness/Program/Returns.antt =====
-- What main comes to.
use elevator.Base.{
  ℕ, suc, ◌≤◌, ◌<◌, ◌≡◌, refl, sym, subst, ◌∙◌, arith, List, length, get_elem?_below,
  get_elem?_bound, Run, done,
}
use elevator.Harness.Configure.{Options, Configured}
use elevator.Harness.Hits.{Boost}
use elevator.Harness.Hits.Source.{Files}
use elevator.Harness.Aggregate.{Measures, no_totals, add_workers, averages}
use elevator.Harness.Aggregate.Shapes.{averages-add_workers}
use elevator.Harness.Threads.{World, run_schedule}
use elevator.Harness.Threads.Turns.{is_over}
use elevator.Harness.Threads.Ends.{
  turns_of, run_schedule-add_workers, run_schedule-is_over, length-run_schedule,
}
use elevator.Harness.Program.{ThreadClocks, Ended, returned, hits_for, joined, after_join, main}
use elevator.Store.{VCookieStore}
use elevator.Harness.Program.Start.{
  AllOver, join_threads-AllOver, count_over-AllOver, first_threads, create_threads-first_threads,
  length-first_threads, count_over-first_threads, turns_left-first_threads,
}

module _ (boost : Boost) (files : Files) (st : VCookieStore) (fuel : ℕ) where
  -- The threads before any has taken a turn.
  unfoldable pub first_world : Options → st.State → (ℕ → ThreadClocks) → World st.State
  unfolding first_threads
  first_world options new_store clocks = record {
    hits = hits_for options.replay_files;
    totals = no_totals;
    threads = first_threads options new_store clocks options.threads 0;
  }

  module _ (options : Options) (new_store : st.State) (clocks : ℕ → ThreadClocks)
      (schedule : List ℕ) (w : World st.State)
      (ran : run_schedule boost options.replay_rate.rate files st fuel schedule
          (first_world options new_store clocks)
        ≡ done w)
      (enough : (k : ℕ) → k < options.threads → suc options.requests ≤ turns_of k schedule) where
    all_over : AllOver w.threads
    unfolding first_world
    all_over k th found =
        let first = first_threads options new_store clocks options.threads 0 in
        let below : k < length first = omega (
          arith,
          get_elem?_bound w.threads k th found,
          length-run_schedule boost options.replay_rate.rate files st fuel schedule
              (first_world options new_store clocks) w ran,
        ) in
        let (th0, found0) = get_elem?_below first k below in
        let left =
          turns_left-first_threads options new_store clocks options.threads 0 k th0 found0 in
        let n = length-first_threads options new_store clocks options.threads 0 in
        let (th1, found1, over) =
          run_schedule-is_over boost options.replay_rate.rate files st fuel schedule
            (first_world options new_store clocks) w k th0 ran found0
            (omega (arith, left, enough k (omega (arith, below, n)))) in
        let same : th1 ≡ th = cc (sym found1 ∙ found) in subst (λ x. is_over x.phase ≡ 1) same over

    measured :
        (measures : List Measures) × (w.totals ≡ add_workers no_totals measures)
        × (length measures ≡ options.threads)
    unfolding first_world
    measured =
        let (measures, m) =
          run_schedule-add_workers boost options.replay_rate.rate files st fuel schedule
            (first_world options new_store clocks) w ran in
        (
          measures,
          m.totals,
          omega (
            arith,
            m.each,
            count_over-first_threads options new_store clocks options.threads 0,
            count_over-AllOver w.threads all_over,
            length-run_schedule boost options.replay_rate.rate files st fuel schedule
                (first_world options new_store clocks) w ran,
            length-first_threads options new_store clocks options.threads 0,
          ),
        )

  -- What main prints: the sums of the measures, and the averages.
  pub record Prints (measures : List Measures) (ended : Run Ended) : Type 0 where
    pub reads : List ℕ
    pub writes : List ℕ
    pub read_averages :
        averages
          (add_workers no_totals measures).aggregate_read_timer
          (add_workers no_totals measures).aggregate_rate
        ≡ done reads
    pub write_averages :
        averages
          (add_workers no_totals measures).aggregate_write_timer
          (add_workers no_totals measures).aggregate_rate
        ≡ done writes
    pub returns :
        ended ≡ done (returned (add_workers no_totals measures).aggregate_rate reads writes)

  after_join-Prints :
      (measures : List Measures)
      → Prints measures (after_join (add_workers no_totals measures) joined)
  after_join-Prints measures =
      let ((reads, r, n), (writes, s, m)) = averages-add_workers measures in
      record {
        reads = reads;
        writes = writes;
        read_averages = r;
        write_averages = s;
        returns = rw (r, s) refl;
      }

  -- Where no call to create or join a thread has an error, and the threads run by a schedule that gives
  -- each a turn for each request and one to end: main returns 0, whatever code Configure returned, and
  -- prints the totals and averages of one set of measures for each thread.
  pub main-Prints :
      (code : ℕ) (options : Options) (new_store : st.State) (clocks : ℕ → ThreadClocks)
      (create_error join_error : ℕ → ℕ) (schedule : List ℕ) (w : World st.State)
      → ((k : ℕ) → create_error k ≡ 0)
      → ((k : ℕ) → join_error k ≡ 0)
      → run_schedule boost options.replay_rate.rate files st fuel schedule
          (first_world options new_store clocks)
        ≡ done w
      → ((k : ℕ) → k < options.threads → suc options.requests ≤ turns_of k schedule)
      → (measures : List Measures) × (length measures ≡ options.threads)
        × Prints measures (
            main boost files st fuel new_store clocks create_error join_error schedule
              (Configured.returned code options))
  unfolding main first_world
  main-Prints code options new_store clocks create_error join_error schedule w fine_create fine_join
        ran enough =
      let (measures, totals, n) = measured options new_store clocks schedule w ran enough in
      let over = all_over options new_store clocks schedule w ran enough in
      (
        measures,
        n,
        rw
            (
              create_threads-first_threads options new_store clocks create_error options.threads 0
                  fine_create,
              ran,
              totals,
              join_threads-AllOver join_error w.threads 0 fine_join over,
            )
            (after_join-Prints measures),
      )
