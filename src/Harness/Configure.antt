-- ===== src/Harness/Configure.antt =====
-- Configure of the test harness (testharness.cpp), over boost's program_options, and the options that
-- it sets.
use elevator.Base.{ℕ, Bool, Option, none, some, List, [], ◌∷◌, ◌++◌, if◌then◌else◌, Bytes}
use elevator.Base.Text.{codes}
use elevator.Harness.Control.{ReplayRate}
use elevator.Harness.Hits.Source.{Files}

-- replayRate, a float: whether it is above 0, and its products and quotients.
pub record Replay : Type 0 where
  pub is_positive : Bool
  pub rate : ReplayRate

-- options_t
pub record Options : Type 0 where
  pub threads : ℕ
  pub verbose : ℕ
  pub requests : ℕ
  pub request_rate : ℕ
  pub random_seed : ℕ
  pub config_file : Bytes
  pub replay_rate : Replay
  pub replay_files : List Bytes

-- An option's name, and its default value if it has one.
pub record Description : Type 0 where
  pub name : Bytes
  pub default : Option ℕ

abbrev pub command_line : List Description
command_line =
    record { name = codes "version"; default = none }
    ∷ record { name = codes "help"; default = none }
    ∷ record { name = codes "verbose"; default = some 1 }
    ∷ []

abbrev pub config : List Description
config =
    record { name = codes "threads"; default = some 10 }
    ∷ record { name = codes "requests"; default = some 10000 }
    ∷ record { name = codes "request-rate"; default = some 1000 }
    ∷ record { name = codes "replay-rate"; default = some 0 }
    ∷ record { name = codes "replay-file"; default = none }
    ∷ []

abbrev pub hidden : List Description
hidden = record { name = codes "config-file"; default = none } ∷ []

-- boost::program_options. Parsing with what is stored in the map, and notify with what it writes to the
-- options, come with whether they threw.
pub record ProgramOptions : Type 1 where
  pub VariablesMap : Type 0
  pub empty : VariablesMap
  pub store_command_line :
      List Description → Bytes → List Bytes → VariablesMap → VariablesMap × Bool
  pub store_config_file : List Description → Bytes → VariablesMap → VariablesMap × Bool
  pub notify : VariablesMap → Options → Options × Bool
  pub count : VariablesMap → Bytes → Bool

-- It ended the program with exit (0), or returned a code, with what the options are then.
pub data Configured : Type 0 where
  exits : Configured
  returned : ℕ → Options → Configured

-- What is read of a stream; none of one that is not open.
abbrev pub read_stream : Option Bytes → Bytes
read_stream none = []
read_stream (some bytes) = bytes

module _ (po : ProgramOptions) (files : Files) (stdin : Bytes) where
  -- The second notify, and the return
  abbrev pub after_file : Options × Bool → Configured
  after_file (options, threw) = if threw then returned 1 options else returned 0 options

  abbrev pub after_config : Options → po.VariablesMap × Bool → Configured
  after_config options (vm, threw) =
      if threw then returned 1 options else after_file (po.notify vm options)

  -- The configuration file, or the standard input
  abbrev pub config_text : po.VariablesMap → Options → Bytes
  config_text vm options =
      if po.count vm (codes "config-file") then read_stream (files options.config_file) else stdin

  abbrev pub after_notify : po.VariablesMap → Options × Bool → Configured
  after_notify vm (options, threw) =
      if threw
      then returned 1 options
      else after_config options (po.store_config_file config (config_text vm options) vm)

  abbrev pub after_command_line : Options → po.VariablesMap × Bool → Configured
  after_command_line options (vm, threw) =
      if threw
      then returned 1 options
      else if po.count vm (codes "help")
      then exits
      else if po.count vm (codes "version")
      then exits
      else after_notify vm (po.notify vm options)

  -- Configure; what it prints is left out.
  unfoldable pub configure : List Bytes → Options → Configured
  configure args options =
      after_command_line options
        (po.store_command_line (command_line ++ hidden) (codes "config-file") args po.empty)
