-- ===== src/Harness/Program.antt =====
-- main of the test harness (testharness.cpp). What the clocks, pthread_create and pthread_join answer,
-- and the schedule of the threads, are arguments.
pub mod Start
pub mod Returns
pub mod Errors
use elevator.Base.{
  ℕ, zero, suc, ◌+◌, Option, none, some, List, [], ◌∷◌, ◌==◌, false, if◌then◌else◌, Run, done,
  Bytes,
}
use elevator.Base.Outcome.{◌>>=◌}
use elevator.Harness.{Timespec}
use elevator.Harness.Configure.{Options, Configured, exits}
use elevator.Harness.Hits.{Boost}
use elevator.Harness.Hits.Source.{HitSource, Files}
use elevator.Harness.Aggregate.{Totals, no_totals, averages}
use elevator.Harness.Worker.Loop.{Round, start_worker}
use elevator.Harness.Worker.Finish.{LastReadings}
use elevator.Harness.Threads.{Phase, serving, finished, Thread, World, run_schedule}
use elevator.Store.{VCookieStore}

-- What a thread reads from the clocks, and what is in the memory of its timers.
pub record ThreadClocks : Type 0 where
  pub memory : Timespec
  pub control_start : Timespec
  pub monitor_start : Timespec
  pub round : ℕ → Round
  pub last : LastReadings

-- exit with a status, or return 0 after the aggregate rate and the two averages were printed.
pub data Ended : Type 0 where
  exited : ℕ → Ended
  returned : List ℕ → List ℕ → List ℕ → Ended

-- new dwfileHitSource (files, fileReadMutex); the first file is opened by NextHit.
abbrev pub new_source : List Bytes → HitSource
new_source filenames = record { is_open = false; eof = false; unread = []; filenames = filenames }

abbrev pub hits_for : List Bytes → Option HitSource
hits_for [] = none
hits_for (name ∷ names) = some (new_source (name ∷ names))

-- The rounds of a thread, from `i` on
unfoldable pub rounds_from : (ℕ → Round) → ℕ → ℕ → List Round
rounds_from round zero i = []
rounds_from round (suc left) i = round i ∷ rounds_from round left (suc i)

-- new rateControl (options.replayRate), or new rateControl (options.requestRate)
abbrev pub rate_option : Options → Option ℕ
rate_option options = if options.replay_rate.is_positive then none else some options.request_rate

abbrev pub add_thread :
    {S : Type 0} → Thread S → Option (List (Thread S)) → Option (List (Thread S))
add_thread th none = none
add_thread th (some threads) = some (th ∷ threads)

module _ {S : Type 0} (options : Options) (new_store : S) (clocks : ℕ → ThreadClocks) where
  -- threadParam [i], and the thread before its loop
  unfoldable pub new_thread : ℕ → Thread S
  unfolding start_worker rounds_from
  new_thread i = record {
    pid = i + 1;
    phase = serving (rounds_from (clocks i).round options.requests 0) (
        start_worker (new_source options.replay_files) new_store (rate_option options)
          (clocks i).memory (clocks i).control_start (clocks i).monitor_start);
    last = (clocks i).last;
  }

  -- The loop that creates the threads; an error ends the program.
  unfoldable pub create_threads : (ℕ → ℕ) → ℕ → ℕ → Option (List (Thread S))
  unfolding new_thread
  create_threads create_error zero i = some []
  create_threads create_error (suc left) i =
      let created = add_thread (new_thread i) (create_threads create_error left (suc i)) in
      if create_error i == 0 then created else none

-- How the loop that joins the threads ends: it waits for each.
pub data Joined : Type 0 where
  joined failed waiting : Joined

abbrev pub join_one : {S : Type 0} → Phase S → ℕ → Joined → Joined
join_one (serving rounds ws) error rest = waiting
join_one (finished s report) error rest = if error == 0 then rest else failed

unfoldable pub join_threads : {S : Type 0} → (ℕ → ℕ) → List (Thread S) → ℕ → Joined
join_threads join_error [] i = joined
join_threads join_error (th ∷ threads) i =
    join_one th.phase (join_error i) (join_threads join_error threads (suc i))

-- What is left when the threads have run.
abbrev pub after_join : Totals → Joined → Run Ended
after_join totals joined = do
  reads ← averages totals.aggregate_read_timer totals.aggregate_rate
  writes ← averages totals.aggregate_write_timer totals.aggregate_rate
  done (returned totals.aggregate_rate reads writes)
after_join totals failed = done (exited 255)
after_join totals waiting = Run.out_of_fuel

module _ (boost : Boost) (files : Files) (st : VCookieStore) (fuel : ℕ) where
  -- From the creation of the threads on
  abbrev pub after_create : Options → (ℕ → ℕ) → List ℕ → Option (List (Thread st.State)) → Run Ended
  unfolding run_schedule join_threads
  after_create options join_error schedule none = done (exited 255)
  after_create options join_error schedule (some threads) = do
    w ←
        run_schedule boost options.replay_rate.rate files st fuel schedule
          (record { hits = hits_for options.replay_files; totals = no_totals; threads = threads })
    after_join w.totals (join_threads join_error w.threads 0)

  -- main, after Configure: its code is not looked at.
  unfoldable pub main :
      st.State → (ℕ → ThreadClocks) → (ℕ → ℕ) → (ℕ → ℕ) → List ℕ → Configured → Run Ended
  unfolding create_threads after_create
  main new_store clocks create_error join_error schedule exits = done (exited 0)
  main new_store clocks create_error join_error schedule (Configured.returned code options) =
      after_create options join_error schedule
        (create_threads options new_store clocks create_error options.threads 0)
