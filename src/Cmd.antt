-- ===== src/Cmd.antt =====
-- cmd/root.go and main.go: the command line.
pub mod Served
use gameserver_ingress_contr.Base.{ℕ, String, Bool, false, Option, none, some, if◌then◌else◌}
use gameserver_ingress_contr.Base.Action.{Action}
use gameserver_ingress_contr.Base.Result.{Result, ok, err, panic, ◌>>=◌}
use gameserver_ingress_contr.App.Connect.{Config, Startup}
use gameserver_ingress_contr.App.Start.{start_controller}
use gameserver_ingress_contr.Base.Text.{is_empty}
use gameserver_ingress_contr.Handlers.{Handler}
use gameserver_ingress_contr.Platform.{Libs}
use gameserver_ingress_contr.Runtime.{State, new_logger}

-- The variables that the flags set.
pub record Flags : Type 0 where
  pub cfg_file : String
  pub master_url : String
  pub kubeconfig : String
  pub sync_period : String
  pub webhook_port : ℕ
  pub health_probe_bind_address : String
  pub metrics_bind_address : String
  pub verbose : Bool
  pub max_concurrent_reconciles : ℕ
  pub enable_gateway_api : String

-- The values that `init` registers for flags that are not given.
abbrev pub default_flags : Flags
default_flags = record {
  cfg_file = "";
  master_url = "";
  kubeconfig = "";
  sync_period = "15s";
  webhook_port = 30234;
  health_probe_bind_address = ":30235";
  metrics_bind_address = ":9090";
  verbose = false;
  max_concurrent_reconciles = 10;
  enable_gateway_api = "auto";
}

abbrev pub config_of : Flags → Config
config_of flags = record {
  kubeconfig = flags.kubeconfig;
  sync_period = flags.sync_period;
  port = flags.webhook_port;
  verbose = flags.verbose;
  health_probe_bind_address = flags.health_probe_bind_address;
  metrics_bind_address = flags.metrics_bind_address;
  max_concurrent_reconciles = flags.max_concurrent_reconciles;
  enable_gateway_api = flags.enable_gateway_api;
}

-- What viper is told to read: a file, or a name in a directory.
pub data ConfigFile : Type 0 where
  config_file : String → ConfigFile
  in_directory : String → String → ConfigFile

-- `initConfig`, of `homedir.Dir()`. An error ends the process with status 1. That there is no such
-- file is no error.
unfoldable pub init_config : {E : Type 0} → Flags → Result E String → Result E ConfigFile
init_config flags home =
    if is_empty flags.cfg_file
    then (home >>= λ dir. ok (in_directory dir ".gameserver-ingress-controller"))
    else ok (config_file flags.cfg_file)

-- `rootCmd.Run` up to the start of the controller: the logger is made first.
unfoldable pub run_command :
    {E S W C D K M : Type 0}
    → Libs E
    → Startup E S W C D K M
    → Flags
    → State
    → Action E W (Handler E S) × State
run_command libs startup flags loggers =
    (start_controller libs startup (config_of flags), (new_logger flags.verbose loggers).1)

-- How a call of the command goes on: the controller runs with this handler, or the process has
-- ended with a status.
pub data Outcome (A : Type 0) : Type 0 where
  runs : A → Outcome A
  exits : ℕ → Outcome A

-- A fatal error ends the process with status 1, and a panic with status 2.
abbrev pub outcome : {E A : Type 0} → Result E A → Outcome A
outcome (ok a) = runs a
outcome (err _) = exits 1
outcome panic = exits 2

module _ {E S W C D K M : Type 0} (libs : Libs E) (startup : Startup E S W C D K M)
    (home : Result E String) (loggers : State) where
  -- What cobra calls for the flags: the initializer, and then `Run`. Where it has only printed the
  -- help, there are none.
  abbrev pub run_with : Option Flags → W → Outcome (Handler E S)
  run_with none w = exits 0
  run_with (some flags) w =
      outcome (init_config flags home >>= λ _. ((run_command libs startup flags loggers).0 w).0)

  -- `Execute`, with the flags that cobra makes of the arguments, or its error.
  unfoldable pub execute : Result E (Option Flags) → W → Outcome (Handler E S)
  unfolding run_command
  execute (ok flags) w = run_with flags w
  execute (err _) w = exits 1
  execute panic w = exits 2
