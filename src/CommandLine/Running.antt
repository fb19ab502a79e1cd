-- ===== src/CommandLine/Running.antt =====
-- `run` of src/main.rs: each command as calls of the library. The crates behind it are those of
-- `Libraries`; `serde_json` is taken to print every report, and writing to a terminal to succeed.
use gitoxide_fs.Base.{
  ℕ, Bool, Option, none, some, List, [], ◌∷◌, ◌++◌, if◌then◌else◌, list_eq, nat_eq,
}
use gitoxide_fs.Base.Text.{Text, Bytes}
use gitoxide_fs.Error.{Error, IoError, hint}
use gitoxide_fs.Error.Monad.{Result, ok, err, map_err, Exec, pure, lift, ◌>>=◌, ◌>>◌}
use gitoxide_fs.Config.{Config, MergeStrategy, new_config}
use gitoxide_fs.Config.Loading.{from_file}
use gitoxide_fs.Os.{Os}
use gitoxide_fs.Gix.{Gix}
use gitoxide_fs.Backend.State.{Backend}
use gitoxide_fs.Backend.Opening.{Repositories, Disk, open_backend, left}
use gitoxide_fs.Forks
use gitoxide_fs.Forks.{Json, ForkInfo, ForkManager, Manage}
use gitoxide_fs.Forks.Merging.{MergeResult, merge_fork_with_strategy}
use gitoxide_fs.Mounts
use gitoxide_fs.Mounts.{Host, Process, MountMap, MountStatus, GitFs}
use gitoxide_fs.Health.{Net, HealthServer, start_on_port, start_on_socket}
use gitoxide_fs.CommandLine.{
  MountArguments, ForkCommands, create, list, merge, abandon, Commands, mount, unmount, status,
  fork, checkpoint, rollback, completions, manpage, Cli, CliError, library, io_failure, message,
  Complaint, Report, mounting, mounted, unmounted, status_of, created, forks, merged, abandoned,
  checkpointed, rolled_back, completions_for, man_page, mount_config, parse_merge_strategy,
}

pub record Libraries (O : Os) (G : Gix) : Type 0 where
  pub repositories : Repositories O
  pub host : Host O G
  pub net : Net O
  pub json : Json
  pub from_toml : Text → Result Text Config
  pub digest : Bytes → Bytes

-- A process of `gofs`: the disk, its table of mounts, and what it has printed, each with whether it
-- was printed as JSON.
pub record Session (O : Os) (G : Gix) : Type 0 where
  pub disk : Disk O G
  pub active_mounts : MountMap
  pub printed : List (Bool × Report)

-- `run` comes to its end, or waits for Ctrl+C with a mount and perhaps a health server.
pub data Ending : Type 0 where
  finished : Ending
  parked : Text → Option HealthServer → Ending

abbrev pub with_strategy : MergeStrategy → Config → Config
with_strategy strategy c = record c { fork = record c.fork { merge_strategy = strategy } }

abbrev server_of : Result IoError HealthServer → Result CliError (Option HealthServer)
server_of (ok server) = ok (some server)
server_of (err e) = err (io_failure e)

module _ (O : Os) (G : Gix) (L : Libraries O G) where
  -- Work of a backend that is opened for it, and dropped behind it.
  unfoldable pub with_backend :
      {A : Type 0} → Config → Exec (Backend O G) Error A → Exec (Disk O G) Error A
  with_backend config m = do
    o ← open_backend O G L.repositories config
    λ d. ((m o.backend).0, left O G config.repo_path (m o.backend).1 d)

  -- Work of a fork manager that is made for it.
  unfoldable pub with_manager :
      {A : Type 0} (config : Config) → Manage O G L.json L.digest config A → Exec (Disk O G) Error A
  with_manager config m =
      with_backend config
        (λ b. let r = m (Forks.new O G L.json L.digest config b) in (r.0, r.1.backend))

module _ (O : Os) (G : Gix) (L : Libraries O G) (levels all : ℕ) (json_output : Bool) where
  abbrev pub Run : Type 0 → Type 0
  Run A = Exec (Session O G) CliError A

  abbrev pub say : Report → Run Unit
  say report s = (ok tt, record s { printed = s.printed ++ (json_output, report) ∷ [] })

  abbrev pub on_disk : {A : Type 0} → Exec (Disk O G) Error A → Run A
  on_disk m s = (map_err library (m s.disk).0, record s { disk = (m s.disk).1 })

  -- Mounting and unmounting, on the files of the disk.
  unfoldable pub on_process : {A : Type 0} → Exec (Process O) Error A → Run A
  on_process m s =
      let r = m (record { os = s.disk.os; active_mounts = s.active_mounts }) in
      (
        map_err library r.0,
        record s { disk = record s.disk { os = r.1.os }; active_mounts = r.1.active_mounts },
      )

  -- The configuration of `Commands::Mount`, before the flags
  abbrev base_config : MountArguments → Option Text → Exec (Disk O G) Error Config
  base_config a none d = (ok (new_config a.repo a.mountpoint), d)
  base_config a (some path) d = (from_file O L.from_toml path d.os, d)

  abbrev on_net : Exec O.State IoError HealthServer → Run (Option HealthServer)
  on_net m s =
      (server_of (m s.disk.os).0, record s { disk = record s.disk { os = (m s.disk.os).1 } })

  abbrev start_health : Option ℕ → Option Text → Config → Run (Option HealthServer)
  start_health (some port) socket config = on_net (start_on_port O L.net port config)
  start_health none (some path) config = on_net (start_on_socket O L.net path config)
  start_health none none config = pure none

  -- `Commands::Mount`, on Unix
  unfoldable pub run_mount : MountArguments → Run Ending
  run_mount a = do
    base ← on_disk (base_config a a.config)
    let config = mount_config a base
    if json_output then pure tt else say (mounting config.repo_path a.mountpoint)
    gitfs ← on_disk (Mounts.new O G L.repositories config)
    on_process (Mounts.mount O G L.host gitfs a.mountpoint)
    say (mounted a.mountpoint config.repo_path)
    server ← start_health a.health_port a.health_socket config
    pure (if a.daemon then finished else parked a.mountpoint server)

  -- The handler of Ctrl+C, after which the process ends with the code 0
  unfoldable pub interrupt : Text → Session O G → Session O G
  interrupt mountpoint s = (on_process (Mounts.unmount O G L.host mountpoint) s).1

  abbrev pub fork_at :
      (config : Config) → Text → Option Text → Manage O G L.json L.digest config ForkInfo
  fork_at config name none = Forks.create_fork O G L.json L.digest config name
  fork_at config name (some commit_id) =
      Forks.create_fork_at O G L.json L.digest config name commit_id

  -- `ForkCommands::Merge`, once the strategy is known
  unfoldable pub run_merge : Text → Text → MergeStrategy → Run MergeResult
  run_merge name repo strategy =
      let config = with_strategy strategy (new_config repo []) in
      on_disk (
        with_manager O G L config
          (merge_fork_with_strategy O G L.json L.digest config levels name strategy))

  -- `Commands::Fork`
  unfoldable pub run_fork : ForkCommands → Run Unit
  run_fork (create name repo at) = do
    let config = new_config repo []
    info ← on_disk (with_manager O G L config (fork_at config name at))
    say (created info)
  run_fork (list repo) = do
    let config = new_config repo []
    infos ← on_disk (with_manager O G L config (Forks.list_forks O G L.json L.digest config))
    say (forks infos)
  run_fork (merge name repo strategy) = do
    parsed ← lift (parse_merge_strategy strategy)
    result ← run_merge name repo parsed
    say (merged name result)
  run_fork (abandon name repo) = do
    let config = new_config repo []
    on_disk (with_manager O G L config (Forks.abandon_fork O G L.json L.digest config name))
    say (abandoned name)

  -- `run`
  unfoldable pub run : Commands → Run Ending
  run (mount a) = run_mount a
  run (unmount mountpoint) = do
    on_process (Mounts.unmount O G L.host mountpoint)
    say (unmounted mountpoint)
    pure finished
  run (status path) = do
    gitfs ← on_disk (Mounts.new O G L.repositories (new_config path []))
    say (status_of (Mounts.status O G L.digest all gitfs))
    pure finished
  run (fork action) = run_fork action >> pure finished
  run (checkpoint name repo) = do
    let config = new_config repo []
    commit_id ← on_disk (with_backend O G L config (Mounts.checkpoint O G L.digest config name))
    say (checkpointed name commit_id)
    pure finished
  run (rollback commit repo) = do
    let config = new_config repo []
    on_disk (with_backend O G L config (Mounts.rollback O G L.host config commit))
    say (rolled_back commit)
    pure finished
  run (completions shell) = do say (completions_for shell); pure finished
  run manpage = do say man_page; pure finished

abbrev pub hint_of : CliError → Option Text
hint_of (library e) = hint e
hint_of (io_failure e) = none
hint_of (message m) = none

-- The end of `main`: what it prints to the error output, and the exit code, unless it waits.
unfoldable pub conclude : Bool → Result CliError Ending → Option Complaint × Option ℕ
conclude json (ok finished) = (none, some 0)
conclude json (ok (parked mountpoint server)) = (none, none)
conclude json (err e) =
    (some (record { error = e; hint = if json then none else hint_of e }), some 1)

-- `main`
unfoldable pub main :
    (O : Os) (G : Gix) (L : Libraries O G)
    → ℕ
    → ℕ
    → Cli
    → Session O G
    → (Option Complaint × Option ℕ) × Session O G
main O G L levels all cli s =
    let r = run O G L levels all cli.json cli.command s in (conclude cli.json r.0, r.1)
