-- ===== src/Health.antt =====
-- `HealthServer` of src/health.rs: how it is started, the loop that serves requests, its answers,
-- and the status that it reads. Sockets and threads are those of a `Net`.
pub mod Serving
pub mod Status
use gitoxide_fs.Base.{
  ℕ, Bool, true, false, not, ◌&&◌, Option, none, some, List, [], ◌∷◌, ◌++◌, if◌then◌else◌, ◌==◌,
  list_eq, nat_eq,
}
use gitoxide_fs.Base.Text.{Text, Bytes, codes}
use gitoxide_fs.Base.Decimal.{show_u64}
use gitoxide_fs.Error.{Error, IoError, other_kind}
use gitoxide_fs.Error.Monad.{Result, ok, err, map_err, Exec, pure, ◌>>=◌, ◌>>◌}
use gitoxide_fs.Config.{Config, new_config}
use gitoxide_fs.Os.{Os}
use gitoxide_fs.Gix.{Gix}
use gitoxide_fs.Backend.Refs.{current_branch}
use gitoxide_fs.Backend.Commits.{log}
use gitoxide_fs.Backend.Opening.{Repositories, Disk, Opened, open_backend}
use gitoxide_fs.Mounts.{MountStatus, or_empty, count_of}

-- `TcpListener::bind`, `UnixListener::bind`, `Server::from_listener` and the start of a thread.
pub record Net (O : Os) : Type 0 where
  pub bind_tcp : Text → Exec O.State IoError Unit
  pub bind_unix : Text → Exec O.State IoError Unit
  pub from_listener : Exec O.State Text Unit
  pub spawn_thread : Exec O.State IoError Unit

-- A server that was started: what its thread was given, and whether it is told to stop.
pub record HealthServer : Type 0 where
  pub shutdown : Bool
  pub repo_path : Text
  pub mount_point : Text
  pub read_only : Bool

pub record Response : Type 0 where
  pub status_code : ℕ
  pub body : Text
  pub json_header : Bool

-- One round of the loop, as it finds the world: the flag at the head of the loop, what
-- `recv_timeout` returns (the `url` of a request, nothing after a timeout, or an error), the flag
-- when it is read again, what is on disk, and the time since the start in nanoseconds.
pub record Round (O : Os) (G : Gix) : Type 0 where
  pub stop : Bool
  pub received : Result Unit (Option Text)
  pub stop_late : Bool
  pub disk : Disk O G
  pub elapsed : ℕ

pub data Exit : Type 0 where
  running told_to_stop server_error : Exit

abbrev json_response : ℕ → Text → Response
json_response code body = record { status_code = code; body = body; json_header = true }

unfoldable pub not_found_response : Response
not_found_response = record { status_code = 404; body = codes "Not Found"; json_header = false }

-- `HealthServer::shutdown` and `drop` raise the flag; the wait for the thread changes nothing.
unfoldable pub shutdown : HealthServer → HealthServer
shutdown server = record server { shutdown = true }

module _ (O : Os) where
  module _ (net : Net O) where
    -- `HealthServer::run`
    unfoldable pub run : Config → Exec O.State IoError HealthServer
    run config = do
      net.spawn_thread
      pure (record {
        shutdown = false;
        repo_path = config.repo_path;
        mount_point = config.mount_point;
        read_only = config.read_only;
      })

    unfoldable pub server_of_listener : Exec O.State IoError Unit
    server_of_listener s = (
      map_err (λ e. record { kind = other_kind; raw_os_error = none }) (net.from_listener s).0,
      (net.from_listener s).1,
    )

    -- `HealthServer::start_on_port`
    unfoldable pub start_on_port : ℕ → Config → Exec O.State IoError HealthServer
    start_on_port port config = do
      net.bind_tcp (codes "0.0.0.0:" ++ show_u64 port)
      server_of_listener
      run config

    abbrev remove_stale : Text → Exec O.State IoError Unit
    remove_stale path s = (ok tt, (O.remove_file path s).1)

    -- `HealthServer::start_on_socket`
    unfoldable pub start_on_socket : Text → Config → Exec O.State IoError HealthServer
    start_on_socket path config = do
      remove_stale path
      net.bind_unix path
      server_of_listener
      run config

  module _ (G : Gix) (R : Repositories O) (digest : Bytes → Bytes) (all : ℕ) where
    -- The branch and the number of commits, where the repository can be opened.
    abbrev live_state : Result Error (Opened O G) → Text × ℕ
    live_state (err e) = ([], 0)
    live_state (ok o) = (
      or_empty (current_branch O o.config.repo_path o.backend.os),
      count_of (log O G digest o.config all none o.backend),
    )

    -- `build_status`, and what it leaves on disk
    unfoldable pub build_status : HealthServer → ℕ → Disk O G → MountStatus × Disk O G
    build_status server elapsed d =
        let r = open_backend O G R (new_config server.repo_path server.mount_point) d in
        (
          record {
            mount_point = server.mount_point;
            repo_path = server.repo_path;
            branch = (live_state r.0).0;
            pending_changes = 0;
            total_commits = (live_state r.0).1;
            uptime = elapsed;
            read_only = server.read_only;
          },
          r.1,
        )

    -- `serde_json::to_string`
    module _ (to_json : MountStatus → Result Text Text) where
      abbrev body_of : Result Text Text → Text
      body_of (ok text) = text
      body_of (err e) = codes "{\"error\":\"" ++ (e ++ codes "\"}")

      unfoldable pub health : HealthServer → Round O G → Response
      health server r =
          json_response 200 (body_of (to_json (build_status server r.elapsed r.disk).0))

      unfoldable pub ready : HealthServer → Round O G → Response
      ready server r =
          if O.exists server.mount_point r.disk.os && not r.stop_late
          then json_response 200 (codes "{\"status\":\"ready\"}")
          else json_response 503 (codes "{\"status\":\"not_ready\"}")

      -- The `match` on the `url` of a request
      unfoldable pub answer : HealthServer → Text → Round O G → Response
      answer server url r =
          if url == codes "/health"
          then health server r
          else if url == codes "/health/ready"
          then ready server r
          else not_found_response

      abbrev also : Response → List Response × Exit → List Response × Exit
      also response (responses, exit) = (response ∷ responses, exit)

      abbrev serve :
          HealthServer
          → Round O G
          → Result Unit (Option Text)
          → List Response × Exit
          → List Response × Exit
      serve server r (err e) rest = ([], server_error)
      serve server r (ok none) rest = rest
      serve server r (ok (some url)) rest = also (answer server url r) rest

      -- `HealthServer::serve_loop`, for the rounds that come: the responses in their order, and
      -- why it stopped, if it did.
      unfoldable pub serve_loop : HealthServer → List (Round O G) → List Response × Exit
      serve_loop server [] = ([], running)
      serve_loop server (r ∷ rounds) =
          let rest = serve_loop server rounds in
          if r.stop then ([], told_to_stop) else serve server r r.received rest
