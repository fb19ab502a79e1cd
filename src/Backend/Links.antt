-- ===== src/Backend/Links.antt =====
-- The links of `GitBackend` in src/git.rs.
use gitoxide_fs.Base.{not}
use gitoxide_fs.Base.Text.{Text, codes, starts_with}
use gitoxide_fs.Base.Paths.{parent}
use gitoxide_fs.Error.{Error, io, invalid_argument}
use gitoxide_fs.Error.Monad.{map_err, Exec, ◌>>◌, guard}
use gitoxide_fs.Config.{Config}
use gitoxide_fs.Os.{Os}
use gitoxide_fs.Backend.{call, check_writable, check_file_path, full_path}
use gitoxide_fs.Backend.Refs.{create_parent_dirs}

module _ (O : Os) (config : Config) where
  -- `GitBackend::create_symlink`
  unfoldable pub create_symlink : Text → Text → Exec O.State Error Unit
  create_symlink link_path target = do
    check_writable config
    check_file_path config link_path
    guard (not (starts_with target (codes "/")))
        (invalid_argument (codes "absolute symlink targets are not allowed"))
    create_parent_dirs O (parent (full_path config link_path))
    call (O.symlink target (full_path config link_path))

  -- `GitBackend::read_symlink`
  unfoldable pub read_symlink : Text → Exec O.State Error Text
  read_symlink path = do
    check_file_path config path
    λ s. (map_err io (O.read_link (full_path config path) s), s)

  -- `GitBackend::create_hardlink`
  unfoldable pub create_hardlink : Text → Text → Exec O.State Error Unit
  create_hardlink link_path target = do
    check_writable config
    check_file_path config link_path
    call (O.hard_link (full_path config target) (full_path config link_path))
