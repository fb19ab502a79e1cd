-- ===== src/CommandLine.antt =====
-- src/main.rs: the arguments of `gofs` as `clap` hands them over, what they make of the
-- configuration, and what is printed.
pub mod Running
pub mod Overrides
pub mod Strategies
pub mod Merging
pub mod Looking
pub mod Telling
use gitoxide_fs.Base.{
  ℕ, Bool, true, false, ◌||◌, Option, none, some, List, [], ◌∷◌, ◌++◌, if◌then◌else◌, ◌==◌, list_eq,
  nat_eq,
}
use gitoxide_fs.Base.Text.{Text, codes}
use gitoxide_fs.Error.{Error, IoError, hint}
use gitoxide_fs.Error.Monad.{Result, ok, err}
use gitoxide_fs.Config.{Config, MergeStrategy, three_way, ours, theirs, rebase}
use gitoxide_fs.Forks.{ForkInfo}
use gitoxide_fs.Forks.Merging.{MergeResult}
use gitoxide_fs.Mounts.{MountStatus}

-- The fields of `Commands::Mount`
pub record MountArguments : Type 0 where
  pub repo : Text
  pub mountpoint : Text
  pub read_only : Bool
  pub daemon : Bool
  pub config : Option Text
  pub debounce_ms : ℕ
  pub no_auto_commit : Bool
  pub verbose : Bool
  pub large_file_threshold : Option ℕ
  pub blob_store_path : Option Text
  pub ignore : Option (List Text)
  pub health_port : Option ℕ
  pub health_socket : Option Text

-- `ForkCommands`; the commit of `create` and the strategy of `merge` come last.
pub data ForkCommands : Type 0 where
  create : Text → Text → Option Text → ForkCommands
  list : Text → ForkCommands
  merge : Text → Text → Text → ForkCommands
  abandon : Text → Text → ForkCommands

-- `Commands`; a shell is given by its name.
pub data Commands : Type 0 where
  mount : MountArguments → Commands
  unmount : Text → Commands
  status : Text → Commands
  fork : ForkCommands → Commands
  checkpoint : Text → Text → Commands
  rollback : Text → Text → Commands
  completions : Text → Commands
  manpage : Commands

pub record Cli : Type 0 where
  pub json : Bool
  pub command : Commands

-- `Box<dyn std::error::Error>`
pub data CliError : Type 0 where
  library : Error → CliError
  io_failure : IoError → CliError
  message : Text → CliError

-- What a command prints, as the values that are put into it
pub data Report : Type 0 where
  mounting mounted : Text → Text → Report
  unmounted : Text → Report
  status_of : MountStatus → Report
  created : ForkInfo → Report
  forks : List ForkInfo → Report
  merged : Text → MergeResult → Report
  abandoned : Text → Report
  checkpointed : Text → Text → Report
  rolled_back : Text → Report
  completions_for : Text → Report
  man_page : Report

-- What `main` prints of an error
pub record Complaint : Type 0 where
  pub error : CliError
  pub hint : Option Text

abbrev flag_off : Bool → Bool → Bool
flag_off flag value = if flag then false else value

abbrev given {ℓ} : {A : Type ℓ} → Option A → A → A
given none value = value
given (some a) value = a

-- The flags over a configuration, in `run`
unfoldable pub mount_config : MountArguments → Config → Config
mount_config a c = record c {
  repo_path = a.repo;
  mount_point = a.mountpoint;
  read_only = a.read_only;
  daemon = a.daemon;
  commit = record c.commit {
    debounce_ms = a.debounce_ms;
    auto_commit = flag_off a.no_auto_commit c.commit.auto_commit;
  };
  log_level = if a.verbose then codes "debug" else c.log_level;
  performance = record c.performance {
    large_file_threshold = given a.large_file_threshold c.performance.large_file_threshold;
    blob_store_path = given a.blob_store_path c.performance.blob_store_path;
  };
  ignore_patterns = given a.ignore c.ignore_patterns;
}

-- `parse_merge_strategy`
unfoldable pub parse_merge_strategy : Text → Result CliError MergeStrategy
parse_merge_strategy s =
    if s == codes "three-way" || s == codes "threeway" || s == codes "3way"
    then ok three_way
    else if s == codes "ours"
    then ok ours
    else if s == codes "theirs"
    then ok theirs
    else if s == codes "rebase"
    then ok rebase
    else err (
        message (
          codes "unknown merge strategy '"
          ++ (s ++ codes "' (valid: three-way, ours, theirs, rebase)")))
