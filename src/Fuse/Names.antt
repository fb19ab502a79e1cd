-- ===== src/Fuse/Names.antt =====
-- The handlers of src/fs.rs that make and drop names: `mkdir`, `unlink`, `rmdir`, `rename`,
-- `symlink`, `link` and `mknod`.
use gitoxide_fs.Base.{ℕ, Option}
use gitoxide_fs.Base.Text.{Text, Bytes}
use gitoxide_fs.Error.{enoent, einval, enosys}
use gitoxide_fs.Error.Monad.{raise, ◌>>=◌, ◌>>◌}
use gitoxide_fs.Config.{Config}
use gitoxide_fs.Os.{Os}
use gitoxide_fs.Gix.{Gix}
use gitoxide_fs.Inodes
use gitoxide_fs.Backend.Files.{delete_file}
use gitoxide_fs.Backend.Directories
use gitoxide_fs.Backend.Directories.{create_dir, remove_dir}
use gitoxide_fs.Backend.Links.{create_symlink, create_hardlink}
use gitoxide_fs.Fuse.{
  FileAttr, Serve, path_of, child, on_files, change, with_inodes, refuse_read_only, attr_for_path,
  mark_dirty,
}

module _ (O : Os) (G : Gix) (digest : Bytes → Bytes) (config : Config) where
  -- The path is dirty, and its attributes are the reply.
  abbrev pub made : Text → Serve O G FileAttr
  made path = do change O G (mark_dirty O G config digest path); attr_for_path O G config path

  abbrev pub dropped : Text → Serve O G Unit
  dropped path = do
    change O G (with_inodes O G (Inodes.remove path))
    change O G (mark_dirty O G config digest path)

  -- `mkdir`
  unfoldable pub mkdir : ℕ → Option Text → Serve O G FileAttr
  mkdir parent name = do
    refuse_read_only O G config
    path ← child O G einval parent name
    on_files O G (create_dir O config path)
    made path

  -- `unlink`
  unfoldable pub unlink : ℕ → Option Text → Serve O G Unit
  unlink parent name = do
    refuse_read_only O G config
    path ← child O G enoent parent name
    on_files O G (delete_file O config digest path)
    dropped path

  -- `rmdir`
  unfoldable pub rmdir : ℕ → Option Text → Serve O G Unit
  rmdir parent name = do
    refuse_read_only O G config
    path ← child O G enoent parent name
    on_files O G (remove_dir O config path)
    dropped path

  -- `rename`
  unfoldable pub rename : ℕ → Option Text → ℕ → Option Text → Serve O G Unit
  rename parent name newparent newname = do
    refuse_read_only O G config
    from ← child O G enoent parent name
    to ← child O G einval newparent newname
    on_files O G (Directories.rename O config from to)
    change O G (with_inodes O G (Inodes.rename from to))
    change O G (mark_dirty O G config digest to)

  -- `symlink`
  unfoldable pub symlink : ℕ → Option Text → Text → Serve O G FileAttr
  symlink parent link_name target = do
    refuse_read_only O G config
    path ← child O G einval parent link_name
    on_files O G (create_symlink O config path target)
    made path

  -- `link`
  unfoldable pub link : ℕ → ℕ → Option Text → Serve O G FileAttr
  link ino newparent newname = do
    refuse_read_only O G config
    src_path ← path_of O G ino
    dest_path ← child O G einval newparent newname
    on_files O G (create_hardlink O config dest_path src_path)
    made dest_path

  -- `mknod`
  unfoldable pub mknod : Serve O G FileAttr
  mknod = raise enosys
