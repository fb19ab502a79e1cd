-- ===== src/Tests/Served.antt =====
-- Mounts, the health server and the commands on a small host.
use gitoxide_fs.Backend.Opening.{gix_init}
use gitoxide_fs.Backend.Opening.{is_repository}
use gitoxide_fs.Base.{
  ◌≡◌, ◌≢◌, ◌↔◌, ◌⊎◌, ◌≤◌, refl, arith, Bool, true, false, none, some, List, [], ◌∷◌, length,
  list_eq, nat_eq, list_eqb, ==_refl,
}
use gitoxide_fs.Base.Text.{Text, Bytes, codes}
use gitoxide_fs.Base.Paths.{path_join}
use gitoxide_fs.Base.Dict.{lookup, insert, lookup-insert}
use gitoxide_fs.Error.Monad.{Result, ok}
use gitoxide_fs.Config.{Config, new_config}
use gitoxide_fs.Os.Memory.{Files, memory, dir}
use gitoxide_fs.Gix.Memory.{memory_gix}
use gitoxide_fs.Backend.Opening.{Repositories, Disk, Opened, IsLawful, fresh, open_backend}
use gitoxide_fs.Backend.Opening.Again.{open_backend_again}
use gitoxide_fs.Mounts
use gitoxide_fs.Mounts.{
  Host, GitFs, Process, MountStatus, prepare_mount, finish_mount, unmount, check_unmounted, status,
  mount_options,
}
use gitoxide_fs.Mounts.Table.{IsExclusive}
use gitoxide_fs.Mounts.Exclusive.{
  mount_at, unmount_at, run_all, run_all-IsExclusive, check_unmounted-unmount,
}
use gitoxide_fs.Health.{
  Net, HealthServer, Round, Response, Exit, running, run, build_status, answer, serve_loop,
}
use gitoxide_fs.Health.Serving.{
  before_end, replies, serve_loop-eq-replies, serve_loop_stops, answer_code,
}
use gitoxide_fs.Health.Status.{build_status-status}
use gitoxide_fs.CommandLine.{MountArguments, mount_config}
use gitoxide_fs.CommandLine.Overrides.{mounts_ro, mount_config_flags}

abbrev repo : Text
repo = codes "/r"

abbrev config : Config
config = new_config repo (codes "/m")

abbrev digest : Bytes → Bytes
digest content = []

abbrev git_of : Text → Text
git_of path = path_join path (codes ".git")

-- A repository is opened where there is one, and made by a directory `.git`.
abbrev pub repositories : Repositories memory
repositories = record {
  open_repo = λ path s. ok false;
  init_repo = λ path s. (ok false, insert (git_of path) dir s);
}

made : (path : Text) (s : Files) → lookup (git_of path) (insert (git_of path) dir s) ≡ some dir
made path s = ground (arith, lookup-insert (git_of path) (git_of path) dir s, ==_refl (git_of path))

repositories-IsLawful : IsLawful memory memory_gix repositories
repositories-IsLawful = record {
  exists-init_repo = λ path s bare h. rw (made path s) refl;
  open_repo-init_repo = λ path s bare h. h;
}

abbrev empty_disk : Disk memory memory_gix
empty_disk = record { os = []; stores = λ path. [] }

abbrev made_disk : Disk memory memory_gix
made_disk = record { os = (codes "/r/.git", dir) ∷ []; stores = λ path. [] }

abbrev made_repo : Opened memory memory_gix
made_repo = record {
  config = config;
  bare = false;
  backend = fresh memory memory_gix repo made_disk;
}

open_backend_again_example :
    open_backend memory memory_gix repositories config
      (open_backend memory memory_gix repositories config empty_disk).1
    ≡ (ok made_repo, (open_backend memory memory_gix repositories config empty_disk).1)
unfolding open_backend is_repository lookup gix_init insert path_join
open_backend_again_example =
    open_backend_again memory memory_gix repositories repositories-IsLawful config empty_disk
      made_repo refl

abbrev pub host : Host memory memory_gix
host = record {
  canonicalize = λ path s. ok path;
  spawn_mount2 = λ c h path options s. (ok tt, s);
  command_output =
      λ program arguments directory s. (ok (record { success = true; stderr = [] }), s);
}

abbrev gitfs : GitFs memory memory_gix
gitfs = record { config = config; backend = made_repo.backend }

abbrev nothing_mounted : Process memory
nothing_mounted = record { os = []; active_mounts = [] }

run_all-IsExclusive_example :
    IsExclusive
      (run_all memory memory_gix host
        (mount_at gitfs (codes "/m") ∷ mount_at gitfs (codes "/n") ∷ unmount_at (codes "/m") ∷ [])
        nothing_mounted).active_mounts
run_all-IsExclusive_example =
    run_all-IsExclusive memory memory_gix host
      (mount_at gitfs (codes "/m") ∷ mount_at gitfs (codes "/n") ∷ unmount_at (codes "/m") ∷ [])
      nothing_mounted tt

abbrev one_mounted : Process memory
one_mounted = record { os = []; active_mounts = (codes "/m", repo) ∷ [] }

check_unmounted-unmount_example :
    check_unmounted repo (unmount memory memory_gix host (codes "/m") one_mounted).1.active_mounts
    ≡ ok tt
unfolding unmount Mounts.run_unmount Mounts.unmount_command Mounts.untrack lookup list_eqb
    Mounts.unmounted_key
check_unmounted-unmount_example =
    check_unmounted-unmount memory memory_gix host (codes "/m") repo one_mounted (refl, tt) refl
      refl

abbrev to_json : MountStatus → Result Text Text
to_json s = ok s.branch

abbrev server : HealthServer
server = record { shutdown = false; repo_path = repo; mount_point = codes "/m"; read_only = false }

abbrev asks : Text → Bool → Round memory memory_gix
asks url stop = record {
  stop = stop;
  received = ok (some url);
  stop_late = false;
  disk = made_disk;
  elapsed = 7;
}

abbrev asked : List (Round memory memory_gix)
asked = asks (codes "/health/ready") false ∷ asks (codes "/health") true ∷ []

serve_loop-eq-replies_example :
    (serve_loop memory memory_gix repositories digest 3 to_json server asked).0
    ≡ replies memory memory_gix repositories digest 3 to_json server
        (before_end memory memory_gix asked)
serve_loop-eq-replies_example =
    serve_loop-eq-replies memory memory_gix repositories digest 3 to_json server asked

abbrev loop : List (Round memory memory_gix) → List Response × Exit
loop = serve_loop memory memory_gix repositories digest 3 to_json server

serve_loop_stops_example :
    (loop (asks (codes "/x") false ∷ asked)
      ≡ loop (
          asks (codes "/x") false
          ∷ asks (codes "/health/ready") false
          ∷ asks (codes "/health") true
          ∷ []))
    × (length (loop (asks (codes "/x") false ∷ asked)).0 ≤ 2)
    × ((loop (asks (codes "/x") false ∷ asked)).1 ≢ running)
serve_loop_stops_example =
    serve_loop_stops memory memory_gix repositories digest 3 to_json server
      (asks (codes "/x") false ∷ asks (codes "/health/ready") false ∷ [])
      (asks (codes "/health") true) [] refl

abbrev answered : Response
answered =
    answer memory memory_gix repositories digest 3 to_json server (codes "/health/ready")
      (asks (codes "/health/ready") false)

abbrev pub net : Net memory
net = record {
  bind_tcp = λ address s. (ok tt, s);
  bind_unix = λ path s. (ok tt, s);
  from_listener = λ s. (ok tt, s);
  spawn_thread = λ s. (ok tt, s);
}

build_status-status_example :
    build_status memory memory_gix repositories digest 3 server 7 empty_disk ≡ (
      record (status memory memory_gix digest 3 gitfs) { uptime = 7 },
      (Mounts.new memory memory_gix repositories config empty_disk).1,
    )
unfolding run Mounts.new open_backend is_repository lookup gix_init insert path_join
build_status-status_example =
    build_status-status memory memory_gix repositories digest 3 net config [] 7 empty_disk
      {server = server} {fs = gitfs} refl refl

abbrev arguments : MountArguments
arguments = record {
  repo = repo;
  mountpoint = codes "/m";
  read_only = false;
  daemon = false;
  config = none;
  debounce_ms = 500;
  no_auto_commit = false;
  verbose = false;
  large_file_threshold = none;
  blob_store_path = none;
  ignore = none;
  health_port = none;
  health_socket = none;
}

-- A file that says read-only mode
mount_config_flags_example :
    (mount_config arguments
        (record config { read_only = true; commit = record config.commit { debounce_ms = 9 } })
      ≡ mount_config arguments config)
    × (mounts_ro (mount_options (mount_config arguments config)) ≡ false)
mount_config_flags_example = mount_config_flags arguments config repo (codes "/m") true false 9

answer_code_example :
    (answered.status_code ≡ 200
      ↔ (codes "/health/ready" ≡ codes "/health")
        ⊎ ((codes "/health/ready" ≡ codes "/health/ready")
            × (memory.exists (codes "/m") ((codes "/r/.git", dir) ∷ []) ≡ true)
            × (◌≡◌ {A = Bool} false false)))
    × (answered.status_code ≡ 503
        ↔ (codes "/health/ready" ≡ codes "/health/ready")
          × ((memory.exists (codes "/m") ((codes "/r/.git", dir) ∷ []) ≡ false)
              ⊎ (◌≡◌ {A = Bool} false true)))
    × (answered.status_code ≡ 404
        ↔ (codes "/health/ready" ≢ codes "/health")
          × (codes "/health/ready" ≢ codes "/health/ready"))
answer_code_example =
    answer_code memory memory_gix repositories digest 3 to_json server (codes "/health/ready")
      (asks (codes "/health/ready") false)
