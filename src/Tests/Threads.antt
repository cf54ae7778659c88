-- ===== src/Tests/Threads.antt =====
-- The threads and main of the test harness at inputs that meet the theorems' hypotheses.
use elevator.Base.{
  ℕ, zero, suc, ◌*◌, ◌≤◌, ◌<◌, ◌≡◌, refl, arith, true, false, List, [], ◌∷◌, some, length, Run,
  done, bytes_eq,
}
use elevator.Base.Text.{codes}
use elevator.Cookie.{construct, clear_flags, clear_cookie_var, set_purchase_id}
use elevator.Cookie.Purchases.{set_purchase_ids, move_to_end}
use elevator.Cookie.Vars.{clear_var, find_relation_id, find_relation_pos, find_loop}
use elevator.Cookie.Vars.Read.{get_var, get_var_by_id}
use elevator.Nop
use elevator.Harness.{timespec_sub}
use elevator.Harness.Configure.{Options, Configured, ProgramOptions, configure}
use elevator.Harness.Control.{increment_and_wait}
use elevator.Harness.Hits.{HitData}
use elevator.Harness.Hits.Source.{next_hit, read_hit}
use elevator.Harness.Aggregate.{Totals, Measures, no_totals, add_rates}
use elevator.Harness.Aggregate.Calls.{add_calls}
use elevator.Harness.Monitor.{RateMonitor, increment, push_seconds, stop}
use elevator.Harness.Timer.{HiResTimer, start_timer, stop_timer, push_means, read_timer}
use elevator.Harness.Worker.{update_cookie}
use elevator.Harness.Worker.Loop.{start_worker, do_hit}
use elevator.Harness.Worker.Finish.{LastReadings, Report, finish_worker}
use elevator.Harness.Threads.{World, turn, run_schedule}
use elevator.Harness.Threads.Shares.{Shares}
use elevator.Harness.Threads.Given.{run_schedule-Shares}
use elevator.Harness.Threads.Ends.{turns_of}
use elevator.Harness.Program.{ThreadClocks, returned, main, rounds_from, new_thread}
use elevator.Harness.Program.Start.{first_threads}
use elevator.Harness.Program.Returns.{first_world, Prints, main-Prints}
use elevator.Harness.Program.Errors.{main_refused_config}
use elevator.Store.Stores.{nop}
use elevator.Tests.Timers.{reading}
use elevator.Tests.Harness.{boost, files, source, round, replay_rate}

-- Two threads, with two requests each; there is one hit.
abbrev options : Options
options = record {
  threads = 2;
  verbose = 1;
  requests = 2;
  request_rate = 0;
  random_seed = 0;
  config_file = [];
  replay_rate = record { is_positive = false; rate = replay_rate };
  replay_files = codes "day" ∷ codes "lost" ∷ [];
}

abbrev last : LastReadings
last = record {
  monitor_stop = reading 100 500000000;
  read_printed = reading 103 0;
  write_printed = reading 103 0;
  read_added = reading 103 0 ∷ reading 103 0 ∷ reading 103 0 ∷ [];
  write_added = reading 103 0 ∷ reading 103 0 ∷ reading 103 0 ∷ [];
}

abbrev clocks : ℕ → ThreadClocks
clocks i = record {
  memory = reading (103 * i) 0;
  control_start = reading 100 0;
  monitor_start = reading 100 0;
  round = λ n. round;
  last = last;
}

abbrev schedule : List ℕ
schedule = 0 ∷ 1 ∷ 0 ∷ 1 ∷ 0 ∷ 1 ∷ []

abbrev before : World (Unit {0})
before = first_world boost files nop 9 options tt clocks

abbrev world_of : Run (World (Unit {0})) → World (Unit {0})
world_of (done w) = w
world_of Run.fault = record { hits = some source; totals = no_totals; threads = [] }
world_of Run.out_of_fuel = record { hits = some source; totals = no_totals; threads = [] }

abbrev end : World (Unit {0})
end = world_of (run_schedule boost replay_rate files nop 9 schedule before)

-- It ends, and the one hit is counted by one thread.
runs :
    (run_schedule boost replay_rate files nop 9 schedule before ≡ done end)
    × (end.totals.aggregate_rate ≡ 2 ∷ [])
unfolding first_world new_thread first_threads rounds_from start_worker run_schedule turn next_hit
    read_hit bytes_eq do_hit increment increment_and_wait start_timer stop_timer push_means
    push_seconds timespec_sub construct clear_flags update_cookie get_var get_var_by_id
    find_relation_id find_relation_pos find_loop clear_cookie_var clear_var set_purchase_id
    set_purchase_ids move_to_end Nop.load_vcookie Nop.save_vcookie finish_worker stop read_timer
    add_calls add_rates
runs = (refl, refl)

ran : run_schedule boost replay_rate files nop 9 schedule before ≡ done end
ran = runs.0

run_schedule-Shares_example :
    (given : List (ℕ × HitData)) × Shares boost replay_rate files nop 9 before end given
run_schedule-Shares_example =
    run_schedule-Shares boost replay_rate files nop 9 schedule before end ran

enough : (k : ℕ) → k < 2 → 3 ≤ turns_of k schedule
enough zero h = omega arith
enough (suc zero) h = omega arith
enough (suc (suc k)) h = absurd (omega arith)

main-Prints_run :
    (measures : List Measures) × (length measures ≡ 2)
    × Prints boost files nop 9 measures (
        main boost files nop 9 tt clocks (λ k. 0) (λ k. 0) schedule (Configured.returned 1 options))
main-Prints_run =
    main-Prints boost files nop 9 1 options tt clocks (λ k. 0) (λ k. 0) schedule end (λ k. refl)
      (λ k. refl) ran enough

-- A library that accepts any command line and refuses any configuration.
abbrev refusing : ProgramOptions
refusing = record {
  VariablesMap = Unit {0};
  empty = tt;
  store_command_line = λ described positional args vm. (vm, false);
  store_config_file = λ described text vm. (vm, true);
  notify = λ vm options. (options, false);
  count = λ vm name. false;
}

-- As the memory of a global is.
abbrev unset : Options
unset = record options { threads = 0; requests = 0; replay_files = [] }

main_refused_config_example :
    main boost files nop 9 tt clocks
      (λ k. 1)
      (λ k. 0)
      schedule
      (configure refusing files (codes "threads=x") (codes "testharness" ∷ []) unset)
    ≡ done (returned [] [] [])
main_refused_config_example =
    main_refused_config boost files nop 9 refusing (codes "threads=x") (codes "testharness" ∷ [])
      unset unset tt tt tt clocks (λ k. 1) (λ k. 0) schedule refl refl refl refl refl refl

-- What thread 0 does at its end.
abbrev counted : RateMonitor
counted = record { clock_prev = reading 100 0; events_per_second = []; events_count = 1 }

abbrev timed : HiResTimer
timed = record {
  clock_start = reading 101 1;
  clock_prev = reading 101 0;
  events_count = 1;
  ns = 1;
  ns_per_second = [];
}

abbrev added : Totals
added = record {
  aggregate_rate = 5 ∷ [];
  aggregate_read_timer = 10 ∷ [];
  aggregate_write_timer = [];
}

abbrev added_to : Totals
added_to = record {
  aggregate_rate = 7 ∷ [];
  aggregate_read_timer = 12 ∷ [];
  aggregate_write_timer = 2 ∷ [];
}

abbrev printed : Report
printed = record { rate = 2 ∷ []; read_avg_ns = 1 ∷ []; write_avg_ns = 1 ∷ [] }

finished_run : finish_worker last added counted timed timed ≡ done (added_to, printed)
unfolding finish_worker stop push_seconds push_means read_timer add_calls add_rates timespec_sub
finished_run = refl
