-- ===== src/Health/Status.antt =====
-- The status that src/health.rs reads beside the one of `GitFs` in src/fs.rs.
use gitoxide_fs.Base.{ℕ, ◌≡◌, arith, false, list_eq, nat_eq}
use gitoxide_fs.Base.Text.{Bytes}
use gitoxide_fs.Error.Monad.{ok}
use gitoxide_fs.Config.{Config}
use gitoxide_fs.Os.{Os}
use gitoxide_fs.Gix.{Gix}
use gitoxide_fs.Backend.Opening.{Repositories, Disk, open_backend}
use gitoxide_fs.Backend.Commits.{log}
use gitoxide_fs.Mounts
use gitoxide_fs.Mounts.{GitFs, MountStatus, status}
use gitoxide_fs.Health.{Net, HealthServer, run, build_status}

module _ (O : Os) (net : Net O) (c : Config) where
  abbrev server_of : HealthServer
  server_of = record {
    shutdown = false;
    repo_path = c.repo_path;
    mount_point = c.mount_point;
    read_only = c.read_only;
  }

  started :
      (s : O.State) (server : HealthServer) → (run O net c s).0 ≡ ok server → server ≡ server_of
  unfolding run
  started s server h = ground arith

module _ (O : Os) (G : Gix) (R : Repositories O) (digest : Bytes → Bytes) (all : ℕ) where
  -- What a health server reports of a mount is what `status` reports of it, the uptime aside: when
  -- the server was started for a configuration, and `GitFs::new` succeeds with that
  -- configuration on what is on disk at the time of the request. It also leaves the disk as
  -- `GitFs::new` does.
  pub build_status-status :
      (net : Net O) (c : Config) (s : O.State) (elapsed : ℕ) (d : Disk O G) {server : HealthServer}
      {fs : GitFs O G}
      → (run O net c s).0 ≡ ok server
      → (Mounts.new O G R c d).0 ≡ ok fs
      → build_status O G R digest all server elapsed d
        ≡ (record (status O G digest all fs) { uptime = elapsed }, (Mounts.new O G R c d).1)
  unfolding build_status status Mounts.new open_backend log
  build_status-status net c s elapsed d {server} {fs} h k =
      rw (started O net c s server h) (ground arith)
