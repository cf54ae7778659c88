-- ===== src/Harness/Program/Errors.antt =====
-- What main makes of an error in its configuration.
use elevator.Base.{ℕ, ◌≡◌, refl, ap, none, List, [], ◌∷◌, ◌++◌, true, false, get_elem?, done, Bytes}
use elevator.Base.Text.{codes}
use elevator.Harness.Configure.{
  Options, Configured, ProgramOptions, command_line, config, hidden, config_text, configure,
}
use elevator.Harness.Hits.{Boost}
use elevator.Harness.Hits.Source.{Files}
use elevator.Harness.Aggregate.{no_totals, averages}
use elevator.Harness.Threads.{World, turn, run_schedule}
use elevator.Harness.Control.{ReplayRate}
use elevator.Harness.Program.{ThreadClocks, returned, hits_for, create_threads, join_threads, main}
use elevator.Store.{VCookieStore}

module _ (boost : Boost) (files : Files) (st : VCookieStore) (fuel : ℕ) where
  no_turns :
      (rate : ReplayRate) (schedule : List ℕ) (w : World st.State)
      → w.threads ≡ []
      → run_schedule boost rate files st fuel schedule w ≡ done w
  unfolding run_schedule turn
  no_turns rate [] w e = refl
  no_turns rate (i ∷ schedule) w e =
      let nobody : get_elem? w.threads i ≡ none = ap (λ l. get_elem? l i) e in
      rw nobody (no_turns rate schedule w e)

  no_threads :
      (code : ℕ) (options : Options) (new_store : st.State) (clocks : ℕ → ThreadClocks)
      (create_error join_error : ℕ → ℕ) (schedule : List ℕ)
      → options.threads ≡ 0
      → main boost files st fuel new_store clocks create_error join_error schedule
          (Configured.returned code options)
        ≡ done (returned [] [] [])
  unfolding main create_threads join_threads averages
  no_threads code options new_store clocks create_error join_error schedule e =
      let w : World st.State = record {
        hits = hits_for options.replay_files;
        totals = no_totals;
        threads = [];
      } in
      rw (e, no_turns options.replay_rate.rate schedule w refl) refl

  -- Where the command line is accepted, asks for neither help nor version, and sets no number of threads,
  -- and the configuration is then refused: main runs no thread, prints empty totals and returns 0.
  pub main_refused_config :
      (po : ProgramOptions) (stdin : Bytes) (args : List Bytes) (options0 options : Options)
      (vm vm' : po.VariablesMap) (new_store : st.State) (clocks : ℕ → ThreadClocks)
      (create_error join_error : ℕ → ℕ) (schedule : List ℕ)
      → po.store_command_line (command_line ++ hidden) (codes "config-file") args po.empty
        ≡ (vm, false)
      → po.count vm (codes "help") ≡ false
      → po.count vm (codes "version") ≡ false
      → po.notify vm options0 ≡ (options, false)
      → options.threads ≡ 0
      → po.store_config_file config (config_text po files stdin vm options) vm ≡ (vm', true)
      → main boost files st fuel new_store clocks create_error join_error schedule
          (configure po files stdin args options0)
        ≡ done (returned [] [] [])
  unfolding configure
  main_refused_config po stdin args options0 options vm vm' new_store clocks create_error join_error
        schedule parsed no_help no_version notified no_number refused =
      rw (parsed, no_help, no_version, notified, refused)
        (no_threads 1 options new_store clocks create_error join_error schedule no_number)
