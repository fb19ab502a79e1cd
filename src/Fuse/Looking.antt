-- ===== src/Fuse/Looking.antt =====
-- The handlers of src/fs.rs that look at paths and directories: `lookup`, `getattr`, `setattr`,
-- `readdir`, `readlink`, `opendir`, `releasedir` and `statfs`.
use gitoxide_fs.Base.{
  ℕ, ◌+◌, Bool, false, not, Option, none, some, List, [], ◌∷◌, ◌++◌, drop, if◌then◌else◌, ◌==◌,
  nat_eq, list_eq,
}
use gitoxide_fs.Base.Text.{Text, Bytes, codes}
use gitoxide_fs.Base.Paths.{parent}
use gitoxide_fs.Base.Utf8.{encode}
use gitoxide_fs.Error.{enoent}
use gitoxide_fs.Error.Monad.{ok, pure, ensure, ◌>>=◌, ◌>>◌}
use gitoxide_fs.Config.{Config}
use gitoxide_fs.Os.{Os}
use gitoxide_fs.Gix.{Gix}
use gitoxide_fs.Inodes
use gitoxide_fs.Inodes.{InodeTable, fuse_root_id}
use gitoxide_fs.Handles
use gitoxide_fs.Backend.Directories.{DirEntry, list_dir}
use gitoxide_fs.Backend.Links.{read_symlink}
use gitoxide_fs.Backend.Files.{set_permissions}
use gitoxide_fs.Backend.Commits.{commit_incremental}
use gitoxide_fs.Backend.AutoCommit.{truncate_file}
use gitoxide_fs.Fuse.{
  FuseFileType, fuse_directory, FileAttr, Serve, path_of, child, utf8_name, on_files, on_backend,
  change, refuse_read_only, attr_for_path, mark_dirty, fuse_file_type, block_size, join_child,
}

-- A line of the reply to `readdir`
pub record Listed : Type 0 where
  pub ino : ℕ
  pub offset : ℕ
  pub kind : FuseFileType
  pub name : Text

-- The arguments of `reply.statfs`
pub record Statistics : Type 0 where
  pub blocks : ℕ
  pub bfree : ℕ
  pub bavail : ℕ
  pub files : ℕ
  pub ffree : ℕ
  pub bsize : ℕ
  pub namelen : ℕ
  pub frsize : ℕ

-- The loop over `reply.add`, which tells of a line whether the buffer is too full for it.
unfoldable pub add_lines : (List Listed → Listed → Bool) → List Listed → List Listed → List Listed
add_lines is_full added [] = added
add_lines is_full added (line ∷ rest) =
    let more = add_lines is_full (added ++ line ∷ []) rest in
    if is_full added line then added else more

-- Every line carries the offset of the next one.
abbrev pub numbered : ℕ → List (ℕ × FuseFileType × Text) → List Listed
numbered i [] = []
numbered i (e ∷ rest) =
    record { ino = e.0; offset = i + 1; kind = e.1; name = e.2 } ∷ numbered (i + 1) rest

abbrev pub parent_inode : Option Text → InodeTable → ℕ × InodeTable
parent_inode none t = (fuse_root_id, t)
parent_inode (some path) t = Inodes.get_or_create path t

-- The inode of `..`
unfoldable pub dotdot : ℕ → Text → InodeTable → ℕ × InodeTable
dotdot ino path t = if ino == fuse_root_id then (fuse_root_id, t) else parent_inode (parent path) t

-- The loop over the entries of the directory
unfoldable pub child_lines :
    Text → List DirEntry → InodeTable → List (ℕ × FuseFileType × Text) × InodeTable
child_lines path [] t = ([], t)
child_lines path (entry ∷ rest) t =
    let (ino, t') = Inodes.get_or_create (join_child path entry.name) t in
    let (lines, t'') = child_lines path rest t' in
    ((ino, fuse_file_type entry.file_type, entry.name) ∷ lines, t'')

-- All the lines of a directory
unfoldable pub directory_lines : ℕ → Text → List DirEntry → InodeTable → List Listed × InodeTable
directory_lines ino path entries t =
    let (up, t') = dotdot ino path t in
    let (lines, t'') = child_lines path entries t' in
    (numbered 0 ((ino, fuse_directory, codes ".") ∷ (up, fuse_directory, codes "..") ∷ lines), t'')

module _ (O : Os) (G : Gix) (digest : Bytes → Bytes) (config : Config) where
  -- `lookup`
  unfoldable pub lookup : ℕ → Option Text → Serve O G FileAttr
  lookup parent name = do
    n ← utf8_name O G name
    λ h. (ensure (not (n == codes ".git")) enoent, h)
    path ← child O G enoent parent name
    attr_for_path O G config path

  -- `getattr`
  unfoldable pub getattr : ℕ → Serve O G FileAttr
  getattr ino = do path ← path_of O G ino; attr_for_path O G config path

  -- The truncation of `setattr`
  unfoldable pub set_size : Text → Option ℕ → Serve O G Unit
  set_size path none = pure tt
  set_size path (some size) = do
    refuse_read_only O G config
    on_backend O G
        (truncate_file O G config digest (commit_incremental O G digest config) path size)
    change O G (mark_dirty O G config digest path)

  -- The `chmod` of `setattr`
  unfoldable pub set_mode : Text → Option ℕ → Serve O G Unit
  set_mode path none = pure tt
  set_mode path (some mode) =
      if config.read_only
      then pure tt
      else (on_files O G (set_permissions O config path mode)
          >> change O G (mark_dirty O G config digest path))

  -- `setattr`; the other attributes are ignored.
  unfoldable pub setattr : ℕ → Option ℕ → Option ℕ → Serve O G FileAttr
  setattr ino mode size = do
    path ← path_of O G ino
    set_size path size
    set_mode path mode
    attr_for_path O G config path

  abbrev pub lines_from : ℕ → Text → List DirEntry → Serve O G (List Listed)
  lines_from ino path entries h =
      let (lines, t) = directory_lines ino path entries h.inodes in
      (ok lines, record h { inodes = t })

  -- `readdir`, with the test of `reply.add`; an offset is given as `offset as usize`.
  unfoldable pub readdir : (List Listed → Listed → Bool) → ℕ → ℕ → Serve O G (List Listed)
  readdir is_full ino offset = do
    path ← path_of O G ino
    entries ← on_files O G (list_dir O config path)
    lines ← lines_from ino path entries
    pure (add_lines is_full [] (drop offset lines))

  -- `readlink`
  unfoldable pub readlink : ℕ → Serve O G Bytes
  readlink ino = do
    path ← path_of O G ino
    target ← on_files O G (read_symlink O config path)
    pure (encode target)

  abbrev pub open_dir : Serve O G ℕ
  open_dir h =
      let (fh, t) = Handles.open_handle (codes "") false h.dir_handles in
      (ok fh, record h { dir_handles = t })

  -- `opendir`
  unfoldable pub opendir : ℕ → Serve O G ℕ
  opendir ino = do _ ← path_of O G ino; open_dir

  -- `releasedir`
  unfoldable pub releasedir : ℕ → Serve O G Unit
  releasedir fh = change O G (λ h. record h { dir_handles = (Handles.close fh h.dir_handles).1 })

  -- `statfs`
  unfoldable pub statfs : Serve O G Statistics
  statfs = pure (record {
    blocks = 0;
    bfree = 0;
    bavail = 0;
    files = 0;
    ffree = 0;
    bsize = block_size;
    namelen = 255;
    frsize = 0;
  })
