-- ===== src/Mounts.antt =====
-- `GitFs` of src/fs.rs, and the table of active mounts that the process keeps. Sessions of `fuser`,
-- the resolution of paths and the commands that are run are those of a `Host`.
pub mod Options
pub mod Table
pub mod Exclusive
use gitoxide_fs.Base.{
  ℕ, Bool, Option, none, some, List, [], ◌∷◌, ◌++◌, map, any, length, if◌then◌else◌, ◌==◌, list_eq,
  nat_eq,
}
use gitoxide_fs.Base.Text.{Text, Bytes, codes}
use gitoxide_fs.Base.Dict
use gitoxide_fs.Base.Dict.{Dict}
use gitoxide_fs.Error.{Error, IoError, io, fuse}
use gitoxide_fs.Error.Monad.{
  Result, ok, err, map_err, and_then, Exec, continue, pure, guard, ◌>>=◌, ◌>>◌,
}
use gitoxide_fs.Config.{Config}
unfoldable pub use Options.*
use gitoxide_fs.Os.{Os}
use gitoxide_fs.Gix.{Gix}
use gitoxide_fs.Fuse
use gitoxide_fs.Fuse.{FuseHandler}
use gitoxide_fs.Backend.State.{Backend, on_disk}
use gitoxide_fs.Backend.Opening.{Repositories, Disk, open_backend}
use gitoxide_fs.Backend.Refs.{current_branch}
use gitoxide_fs.Backend.Commits.{CommitInfo, commit, log}

-- `std::process::Output`, with the error output as text
pub record Output : Type 0 where
  pub success : Bool
  pub stderr : Text

-- `std::fs::canonicalize`, `fuser::spawn_mount2` of a handler with its configuration, and
-- `std::process::Command` of a program, its arguments and a directory. The error of the last two
-- is its text.
pub record Host (O : Os) (G : Gix) : Type 0 where
  pub canonicalize : Text → O.State → Result IoError Text
  pub spawn_mount2 : Config → FuseHandler O G → Text → List MountOption → Exec O.State Text Unit
  pub command_output : Text → List Text → Option Text → Exec O.State Text Output

abbrev pub MountMap : Type 0
MountMap = Dict Text Text

-- `GitFs`
pub record GitFs (O : Os) (G : Gix) : Type 0 where
  pub config : Config
  pub backend : Backend O G

-- `uptime` in nanoseconds
pub record MountStatus : Type 0 where
  pub mount_point : Text
  pub repo_path : Text
  pub branch : Text
  pub pending_changes : ℕ
  pub total_commits : ℕ
  pub uptime : ℕ
  pub read_only : Bool

-- A process: the files that it sees, and `active_mounts`.
pub record Process (O : Os) : Type 0 where
  pub os : O.State
  pub active_mounts : MountMap

abbrev pub values : MountMap → List Text
values [] = []
values ((m, r) ∷ rest) = r ∷ values rest

unfoldable pub already_mounted : Text → Error
already_mounted repo_path = fuse (codes "repository " ++ (repo_path ++ codes " is already mounted"))

-- The test for a repository that is mounted.
unfoldable pub check_unmounted : Text → MountMap → Result Error Unit
check_unmounted repo_path mounts =
    if any (λ r. r == repo_path) (values mounts) then err (already_mounted repo_path) else ok tt

-- `unwrap_or_default` and `unwrap_or(0)`
abbrev pub or_empty : Result Error Text → Text
or_empty (ok t) = t
or_empty (err e) = []

abbrev pub count_of : Result Error (List CommitInfo) → ℕ
count_of (ok infos) = length infos
count_of (err e) = 0

module _ (O : Os) (G : Gix) where
  -- `GitFs::new`
  unfoldable pub new : Repositories O → Config → Exec (Disk O G) Error (GitFs O G)
  new R config = do
    o ← open_backend O G R config
    pure (record { config = config; backend = o.backend })

  module _ (host : Host O G) where
    -- What `mount` finds out before it mounts: the mount point and the repository, as they are
    -- resolved.
    unfoldable pub prepare_mount : Config → Text → Process O → Result Error (Text × Text)
    prepare_mount config mount_point p =
        and_then (map_err io (host.canonicalize config.repo_path p.os)) (λ repo_path.
          and_then (map_err io (host.canonicalize mount_point p.os)) (λ mount_abs.
            and_then (check_unmounted repo_path p.active_mounts) (λ _. ok (mount_abs, repo_path))))

    unfoldable pub spawn : GitFs O G → Text → List MountOption → Exec (Process O) Error Unit
    spawn fs mount_point options p =
        let handler = Fuse.new O G (record fs.backend { os = p.os }) in
        let r = host.spawn_mount2 fs.config handler mount_point options p.os in
        (map_err (λ e. fuse (codes "mount failed: " ++ e)) r.0, record p { os = r.1 })

    unfoldable pub track : Text × Text → Exec (Process O) Error Unit
    track places p =
        (ok tt, record p { active_mounts = Dict.insert places.0 places.1 p.active_mounts })

    -- What follows: the session, and its place in the table.
    unfoldable pub finish_mount :
        GitFs O G → Text → List MountOption → Text × Text → Exec (Process O) Error Unit
    finish_mount fs mount_point options places = spawn fs mount_point options >> track places

    abbrev mount_by : List MountOption → GitFs O G → Text → Exec (Process O) Error Unit
    mount_by options fs mount_point p =
        continue (prepare_mount fs.config mount_point p) (finish_mount fs mount_point options) p

    -- `GitFs::mount`
    unfoldable pub mount : GitFs O G → Text → Exec (Process O) Error Unit
    mount fs = mount_by (mount_options fs.config) fs

    -- `GitFs::mount_with_options`
    unfoldable pub mount_with_options : GitFs O G → Text → List Text → Exec (Process O) Error Unit
    mount_with_options fs mount_point extra_options =
        mount_by (options_with fs.config extra_options) fs mount_point

    -- `or_else`
    abbrev otherwise : Result Text Output → Exec O.State Text Output → Exec O.State Text Output
    otherwise (ok output) next s = (ok output, s)
    otherwise (err e) next s = next s

    -- `fusermount3`, or else `fusermount`, or else `umount`
    unfoldable pub unmount_command : Text → Exec O.State Text Output
    unmount_command mount_point s =
        let by =
          λ (program : Text). host.command_output program (codes "-u" ∷ mount_point ∷ []) none in
        let last = host.command_output (codes "umount") (mount_point ∷ []) none in
        let r = by (codes "fusermount3") s in
        let q = otherwise r.0 (by (codes "fusermount")) r.1 in otherwise q.0 last q.1

    -- The key under which `unmount` looks in the table.
    abbrev resolved : Text → Result IoError Text → Text
    resolved mount_point (ok mount_abs) = mount_abs
    resolved mount_point (err e) = mount_point

    unfoldable pub unmounted_key : Text → O.State → Text
    unmounted_key mount_point s = resolved mount_point (host.canonicalize mount_point s)

    unfoldable pub untrack : Text → Exec (Process O) Error Unit
    untrack mount_point p = (
      ok tt,
      record p { active_mounts = Dict.remove (unmounted_key mount_point p.os) p.active_mounts },
    )

    unfoldable pub run_unmount : Text → Exec (Process O) Error Output
    run_unmount mount_point p =
        let r = unmount_command mount_point p.os in
        (map_err (λ e. fuse (codes "unmount failed: " ++ e)) r.0, record p { os = r.1 })

    -- `GitFs::unmount`
    unfoldable pub unmount : Text → Exec (Process O) Error Unit
    unmount mount_point = do
      output ← run_unmount mount_point
      guard output.success (fuse (codes "unmount failed: " ++ output.stderr))
      untrack mount_point

    unfoldable pub run_git : Text → List Text → Text → Exec O.State Error Output
    run_git dir arguments failed s =
        let r = host.command_output (codes "git") arguments (some dir) s in
        (map_err (λ e. fuse (failed ++ e)) r.0, r.1)

    abbrev git_step : Text → List Text → Text → Text → Exec O.State Error Unit
    git_step dir arguments failed refused = do
      output ← run_git dir arguments failed
      guard output.success (fuse (refused ++ output.stderr))

    -- `GitFs::rollback`, on the files of the backend
    unfoldable pub rollback : Config → Text → Exec (Backend O G) Error Unit
    rollback config commit_id = on_disk O G (do
      git_step config.repo_path (codes "reset" ∷ codes "--hard" ∷ commit_id ∷ [])
          (codes "git reset failed: ") (codes "rollback failed: ")
      git_step config.repo_path (codes "clean" ∷ codes "-fd" ∷ []) (codes "git clean failed: ")
          (codes "rollback clean failed: "))

  module _ (digest : Bytes → Bytes) where
    -- `GitFs::status`, for a history of at most `all` commits
    unfoldable pub status : ℕ → GitFs O G → MountStatus
    status all fs = record {
      mount_point = fs.config.mount_point;
      repo_path = fs.config.repo_path;
      branch = or_empty (current_branch O fs.config.repo_path fs.backend.os);
      pending_changes = 0;
      total_commits = count_of (log O G digest fs.config all none fs.backend);
      uptime = 0;
      read_only = fs.config.read_only;
    }

    -- `GitFs::checkpoint`
    unfoldable pub checkpoint : Config → Text → Exec (Backend O G) Error Text
    checkpoint config name = commit O G digest config (codes "checkpoint: " ++ name)

-- `GitFs::flush_commits`
unfoldable pub flush_commits : {O : Os} {G : Gix} → Exec (GitFs O G) Error Unit
flush_commits fs = (ok tt, fs)
