-- ===== src/Backend.antt =====
-- `GitBackend` of src/git.rs. Its operations are functions of the
-- configuration and of the state of the file system; `Xattrs` and `AutoCommit` add what the
-- backend keeps in memory.
pub mod State
pub mod Opening
pub mod Refs
pub mod Pointers
pub mod Files
pub mod Directories
pub mod Links
pub mod Xattrs
pub mod Trees
pub mod Incremental
pub mod Commits
pub mod History
pub mod AutoCommit
pub mod Reading
use gitoxide_fs.Base.{Bool, not}
use gitoxide_fs.Base.Text.{Text, codes}
use gitoxide_fs.Error.{Error, io, permission_denied, IoError}
use gitoxide_fs.Error.Monad.{Result, map_err, Exec, guard}
use gitoxide_fs.Config.{Config}
use gitoxide_fs.Validate.{validate_path, validate_file_path, abs_path, is_git_internal}
use gitoxide_fs.Os.{Os}

-- A call of `std::fs` behind `?`
abbrev pub call : {S A : Type 0} → Exec S IoError A → Exec S Error A
call m s = (map_err io (m s).0, (m s).1)

module _ {S : Type 0} (config : Config) where
  -- `GitBackend::check_writable`
  abbrev pub check_writable : Exec S Error Unit
  check_writable =
      guard (not config.read_only) (permission_denied (codes "filesystem is read-only"))

  abbrev pub check_path : Text → Exec S Error Unit
  check_path path s = (validate_path config.repo_path path, s)

  abbrev pub check_file_path : Text → Exec S Error Unit
  check_file_path path s = (validate_file_path config.repo_path path, s)

  abbrev pub check_not_git : Text → Exec S Error Unit
  check_not_git path =
      guard (not (is_git_internal path)) (permission_denied (codes ".git access denied"))

abbrev pub full_path : Config → Text → Text
full_path config path = abs_path config.repo_path path
