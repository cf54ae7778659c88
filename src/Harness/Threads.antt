-- ===== src/Harness/Threads.antt =====
-- The threads of the test harness (testharness.cpp): main's children share the source of hits, under
-- its mutex, and the totals, under consoleMutex. Each has its store, timers and controller for itself,
-- so that what it does between two mutexes is part of the turn that begins with the first. A schedule
-- is the list of the threads that take their turns one after the other.
pub mod Shares
pub mod Given
pub mod Turns
pub mod Ends
use elevator.Base.{ℕ, Option, none, some, List, [], ◌∷◌, Run, done, fault, set, get_elem?}
use elevator.Base.Outcome.{◌>>=◌}
use elevator.Harness.Control.{ReplayRate}
use elevator.Harness.Hits.{Boost}
use elevator.Harness.Hits.Source.{
  HitSource, Files, NextHit, hit, no_hit, thrown, undefined, next_hit,
}
use elevator.Harness.Aggregate.{Totals}
use elevator.Harness.Worker.Loop.{Round, WorkerState, do_hit}
use elevator.Harness.Worker.Finish.{LastReadings, Report, finish_worker}
use elevator.Store.{VCookieStore}

-- A thread is in its loop, with the clocks' answers for the rounds that are left, or has added its
-- measures to the totals and ended.
pub data Phase (S : Type 0) : Type 0 where
  serving : List Round → WorkerState S → Phase S
  finished : S → Report → Phase S

-- threadParam_t's pid, and where the thread is.
pub record Thread (S : Type 0) : Type 0 where
  pub pid : ℕ
  pub phase : Phase S
  pub last : LastReadings

-- What the threads share, and the threads. There is no source where there are no replay files.
pub record World (S : Type 0) : Type 0 where
  pub hits : Option HitSource
  pub totals : Totals
  pub threads : List (Thread S)

-- Thread `i` goes on to a phase.
abbrev pub goes_to : {S : Type 0} → World S → ℕ → Thread S → Phase S → World S
goes_to w i th phase = record w { threads = set w.threads i (record th { phase = phase }) }

module _ (boost : Boost) (rate : ReplayRate) (files : Files) (st : VCookieStore) (fuel : ℕ) where
  -- The rest of a round after NextHit.
  abbrev pub after_hit :
      World st.State
      → ℕ
      → Thread st.State
      → Round
      → List Round
      → WorkerState st.State
      → NextHit
      → Run (World st.State)
  unfolding do_hit
  after_hit w i th r rounds ws (hit h source) = do
    ws' ← do_hit boost rate files st r h source ws
    done (goes_to (record w { hits = some source }) i th (serving rounds ws'))
  after_hit w i th r rounds ws (no_hit source) =
      done (goes_to (record w { hits = some source }) i th (serving [] ws))
  after_hit w i th r rounds ws (thrown source) = fault
  after_hit w i th r rounds ws undefined = fault
  after_hit w i th r rounds ws NextHit.out_of_fuel = Run.out_of_fuel

  -- A round: it asks for a hit if there is a source.
  abbrev pub round :
      World st.State
      → ℕ
      → Thread st.State
      → Round
      → List Round
      → WorkerState st.State
      → Option HitSource
      → Run (World st.State)
  round w i th r rounds ws none = done (goes_to w i th (serving rounds ws))
  round w i th r rounds ws (some source) =
      after_hit w i th r rounds ws (next_hit boost fuel files source)

  abbrev pub by_phase : World st.State → ℕ → Thread st.State → Phase st.State → Run (World st.State)
  unfolding finish_worker
  by_phase w i th (serving (r ∷ rounds) ws) = round w i th r rounds ws w.hits
  by_phase w i th (serving [] ws) = do
    (totals, report) ← finish_worker th.last w.totals ws.monitor ws.read_timer ws.write_timer
    done (goes_to (record w { totals = totals }) i th (finished ws.store report))
  by_phase w i th (finished s report) = done w

  abbrev pub by_thread : World st.State → ℕ → Option (Thread st.State) → Run (World st.State)
  by_thread w i none = done w
  by_thread w i (some th) = by_phase w i th th.phase

  -- The turn of thread `i`.
  unfoldable pub turn : ℕ → World st.State → Run (World st.State)
  unfolding by_phase after_hit
  turn i w = by_thread w i (get_elem? w.threads i)

  unfoldable pub run_schedule : List ℕ → World st.State → Run (World st.State)
  unfolding turn
  run_schedule [] w = done w
  run_schedule (i ∷ schedule) w = do w' ← turn i w; run_schedule schedule w'
