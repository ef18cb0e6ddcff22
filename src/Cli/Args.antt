-- ===== src/Cli/Args.antt =====
-- The arguments of crates/cli/src/args.rs, as they come out of the parser library, and its defaults.
use Prim.Native.String.{String}
use blockchain_validator.Prelude.{ℕ, Bool, Option, List, [], ◌∷◌}
use blockchain_validator.Cli.Text.{PathBuf}

pub record TestGenesisArgs (IpAddr : Type 0) : Type 0 where
  pub ips : List IpAddr
  pub working_directory : PathBuf
  pub replica_parameters_path : Option PathBuf

pub record RunArgs (Authority : Type 0) : Type 0 where
  pub authority : Authority
  pub public_config_path : String
  pub private_config_path : String
  pub load_generator_config_path : Option String

pub data RemoteTestbedCommand : Type 0 where
  status : RemoteTestbedCommand
  create : ℕ → Option String → RemoteTestbedCommand
  start : ℕ → RemoteTestbedCommand
  stop : RemoteTestbedCommand
  destroy : RemoteTestbedCommand
  -- The committee, the loads, and whether to skip the update and the configuration.
  benchmark : ℕ → List ℕ → Bool → Bool → RemoteTestbedCommand

pub record RemoteTestbedArgs : Type 0 where
  pub settings_path : PathBuf
  pub command : RemoteTestbedCommand

pub data Command (IpAddr Authority : Type 0) : Type 0 where
  test_genesis : TestGenesisArgs IpAddr → Command IpAddr Authority
  run : RunArgs Authority → Command IpAddr Authority
  remote_testbed : RemoteTestbedArgs → Command IpAddr Authority

pub record Args (IpAddr Authority LevelFilter : Type 0) : Type 0 where
  pub log_level : Option LevelFilter
  pub log_file : Option PathBuf
  pub command : Command IpAddr Authority

abbrev pub default_working_directory : PathBuf
default_working_directory = "genesis"

abbrev pub default_start_instances : ℕ
default_start_instances = 10

abbrev pub default_committee : ℕ
default_committee = 4

abbrev pub default_loads : List ℕ
default_loads = 200 ∷ []
