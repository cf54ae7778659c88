-- ===== src/Harness/Worker/Loop.antt =====
-- The loop of WorkerThread over its requests (testharness.cpp), with all that it measures.
use elevator.Base.{ℕ, List, [], ◌∷◌, Option, none, some, Run, done, fault}
use elevator.Base.Outcome.{◌>>=◌}
use elevator.Cookie.{construct}
use elevator.Harness.{Timespec}
use elevator.Harness.Monitor.{RateMonitor, increment}
use elevator.Harness.Timer.{HiResTimer, initial_timer, start_timer, stop_timer}
use elevator.Harness.Control.{
  ReplayRate, RateControl, Clocks, Waited, went_on, waits, increment_and_wait, rate_control,
  replay_control, start_control,
}
use elevator.Harness.Hits.{HitData, Boost}
use elevator.Harness.Hits.Source.{
  HitSource, Files, NextHit, hit, no_hit, thrown, undefined, next_hit,
}
use elevator.Harness.Worker.{update_cookie}
use elevator.Store.{VCookieStore}

-- What the clocks answer during one round, in the order in which they are read; a second reading that
-- is not made is passed over.
pub record Round : Type 0 where
  pub monitor_start : Timespec
  pub monitor_now : Timespec
  pub control : Clocks
  pub read_first : Timespec
  pub read_start : Timespec
  pub read_stop : Timespec
  pub write_first : Timespec
  pub write_start : Timespec
  pub write_stop : Timespec

-- The variables of the loop, over the state of the store.
pub record WorkerState (S : Type 0) : Type 0 where
  pub source : HitSource
  pub store : S
  pub monitor : RateMonitor
  pub controller : RateControl
  pub read_timer : HiResTimer
  pub write_timer : HiResTimer

-- What comes before the loop; the two timers' clocks are as the memory is.
unfoldable pub start_worker :
    {S : Type 0} → HitSource → S → Option ℕ → Timespec → Timespec → Timespec → WorkerState S
start_worker source s request_rate memory control_now monitor_now = record {
  source = source;
  store = s;
  monitor = record { clock_prev = monitor_now; events_per_second = []; events_count = 0 };
  controller =
      start_control (elim request_rate [ none ↦ replay_control | some rate ↦ rate_control rate ])
        control_now;
  read_timer = initial_timer memory memory;
  write_timer = initial_timer memory memory;
}

-- The wait is over, or the clocks' answers are.
abbrev pub over : {A : Type 0} → Waited (Unit {0}) → Run A → Run A
over (went_on sleeps rest) k = k
over (waits sleeps) k = Run.out_of_fuel

module _ (boost : Boost) (rate : ReplayRate) (files : Files) (st : VCookieStore) where
  -- From the hit to the end of the round.
  unfoldable pub do_hit :
      Round → HitData → HitSource → WorkerState st.State → Run (WorkerState st.State)
  do_hit r hit_data source w = do
    monitor ← increment w.monitor 1 r.monitor_start r.monitor_now
    let (controller, waited) =
        increment_and_wait rate w.controller 1 hit_data.hit_time_gmt r.control
    let read_started = start_timer w.read_timer r.read_first r.read_start
    c ← over waited (
        construct (st.load_vcookie w.store) hit_data.rsid hit_data.visid_high hit_data.visid_low
          hit_data.visid_new)
    read_timer ← stop_timer read_started r.read_stop
    let write_started = start_timer w.write_timer r.write_first r.write_start
    (s', saved) ← st.save_vcookie w.store (update_cookie c hit_data)
    write_timer ← stop_timer write_started r.write_stop
    done (record {
      source = source;
      store = s';
      monitor = monitor;
      controller = controller;
      read_timer = read_timer;
      write_timer = write_timer;
    })

  -- The rest of the loop after NextHit; an exception of boost's ends the program.
  abbrev pub after_next_hit :
      Round
      → NextHit
      → WorkerState st.State
      → (WorkerState st.State → Run (WorkerState st.State))
      → Run (WorkerState st.State)
  unfolding do_hit
  after_next_hit r (hit h source) w further = do_hit r h source w >>= further
  after_next_hit r (no_hit source) w further = done (record w { source = source })
  after_next_hit r (thrown source) w further = fault
  after_next_hit r undefined w further = fault
  after_next_hit r NextHit.out_of_fuel w further = Run.out_of_fuel

  -- The loop: a round for each request, up to the first that finds no hit.
  unfoldable pub run_worker : ℕ → List Round → WorkerState st.State → Run (WorkerState st.State)
  unfolding after_next_hit
  run_worker fuel [] w = done w
  run_worker fuel (r ∷ rounds) w =
      after_next_hit r (next_hit boost fuel files w.source) w (run_worker fuel rounds)
