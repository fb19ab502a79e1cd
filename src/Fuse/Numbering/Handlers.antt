-- ===== src/Fuse/Numbering/Handlers.antt =====
-- What the handlers of attributes, directories and open files in src/fs.rs do to the inode table.
use gitoxide_fs.Base.{
  ℕ, ◌+◌, length, drop, refl, Bool, Option, none, some, List, [], ◌∷◌, arith, not, ◌==◌, list_eq,
  nat_eq, Bool-cases, inl, inr,
}
use gitoxide_fs.Base.Text.{Text, Bytes}
use mathlib.Core.Path.{subst}
use gitoxide_fs.Error.{Error, einval, enoent, to_errno}
use gitoxide_fs.Error.Monad.{ensure, ◌>>◌, ◌>>=◌, pure, Result, ok, err, continue, map_err}
use gitoxide_fs.Config.{Config}
use gitoxide_fs.Os.{Os}
use gitoxide_fs.Gix.{Gix}
use gitoxide_fs.Inodes
use gitoxide_fs.Inodes.{InodeTable}
use gitoxide_fs.Inodes.Trails.{Within, here, created, both}
use gitoxide_fs.Fuse.{
  FuseHandler, or_errno, attr_for_path, maybe_commit, mark_dirty, destroy, on_files, path_of, child,
  change, refuse_read_only,
}
use gitoxide_fs.Error.{erofs}
use gitoxide_fs.Base.{◌&&◌}
use gitoxide_fs.Fuse.{is_writable}
use gitoxide_fs.Fuse.Looking.{readlink, opendir}
use gitoxide_fs.Fuse.Contents.{
  open_file, read, write, create, release, store, handle_path, content_before, splice,
}
use gitoxide_fs.Fuse.Attributes.{setxattr, getxattr, listxattr, removexattr}
use gitoxide_fs.Backend.Links.{read_symlink}
use gitoxide_fs.Backend.Files.{read_file}
use gitoxide_fs.Backend.AutoCommit.{write_file}
use gitoxide_fs.Base.Paths.{parent}
use gitoxide_fs.Inodes.{fuse_root_id}
use gitoxide_fs.Backend.Files.{set_permissions}
use gitoxide_fs.Backend.AutoCommit.{truncate_file}
use gitoxide_fs.Backend.Commits.{commit_incremental}
use gitoxide_fs.Backend.Directories.{DirEntry, list_dir}
use gitoxide_fs.Fuse.{join_child, on_backend}
use gitoxide_fs.Fuse.Looking.{
  set_size, set_mode, setattr, Listed, child_lines, parent_inode, dotdot, directory_lines, readdir,
  lines_from, add_lines,
}
use gitoxide_fs.Fuse.Numbering.{
  Goes, bind, finish, past, same, either, maybe_commit_inodes, mark_dirty_inodes,
  attr_for_path-Goes,
}

module _ (O : Os) (G : Gix) (digest : Bytes → Bytes) (config : Config) where
  pub set_size-Goes :
      (path : Text) (size : Option ℕ)
      → Goes O G digest config 0 (set_size O G digest config path size)
  unfolding set_size
  set_size-Goes path none h = here h.inodes
  set_size-Goes path (some size) h =
      past O G digest config (refuse_read_only O G config) _ h refl (λ _ g.
        past O G digest config
          (on_backend O G
            (truncate_file O G config digest (commit_incremental O G digest config) path size))
          _ g refl (λ _ g. same O G digest config (mark_dirty_inodes O G digest config path g)))

  pub set_mode-Goes :
      (path : Text) (mode : Option ℕ)
      → Goes O G digest config 0 (set_mode O G digest config path mode)
  unfolding set_mode
  set_mode-Goes path none h = here h.inodes
  set_mode-Goes path (some mode) h =
      let change_mode = on_files O G (set_permissions O config path mode) in
      either O G digest config config.read_only (pure tt)
        (change_mode >> change O G (mark_dirty O G config digest path)) h (here h.inodes)
        (past O G digest config change_mode _ h refl
          (λ _ g. same O G digest config (mark_dirty_inodes O G digest config path g)))

  pub setattr-Goes :
      (ino : ℕ) (mode size : Option ℕ)
      → Goes O G digest config 1 (setattr O G digest config ino mode size)
  unfolding setattr
  setattr-Goes ino mode size h = past O G digest config (path_of O G ino) _ h refl (λ path g.
      bind O G digest config (set_size O G digest config path size) _ g (set_size-Goes path size g)
        (λ _ g.
          bind O G digest config (set_mode O G digest config path mode) _ g
            (set_mode-Goes path mode g) (λ _. attr_for_path-Goes O G digest config path)))

  pub child_lines-Within :
      (path : Text) (entries : List DirEntry) (t : InodeTable)
      → Within (length entries) t (child_lines path entries t).1
  unfolding child_lines
  child_lines-Within path [] t = here t
  child_lines-Within path (entry ∷ rest) t =
      let name = join_child path entry.name in
      subst (λ n. Within n t (child_lines path (entry ∷ rest) t).1) (omega arith)
        (both 1 (length rest) (created name t)
          (child_lines-Within path rest (Inodes.get_or_create name t).1))

  parent-Within : (p : Option Text) (t : InodeTable) → Within 1 t (parent_inode p t).1
  parent-Within none t = here t
  parent-Within (some path) t = created path t

  dotdot-Within : (ino : ℕ) (path : Text) (t : InodeTable) → Within 1 t (dotdot ino path t).1
  unfolding dotdot
  dotdot-Within ino path t = elim (Bool-cases (ino == fuse_root_id)) [
    | inl root ↦ rw root (here t)
    | inr below ↦ rw below (parent-Within (parent path) t)
  ]

  directory_lines-Within :
      (ino : ℕ) (path : Text) (entries : List DirEntry) (t : InodeTable)
      → Within (1 + length entries) t (directory_lines ino path entries t).1
  unfolding directory_lines
  directory_lines-Within ino path entries t =
      both 1 (length entries) (dotdot-Within ino path t)
        (child_lines-Within path entries (dotdot ino path t).1)

  -- The numbers that a listing may need: for its entries, and for the parent.
  abbrev pub listed_numbers : Result Error (List DirEntry) → ℕ
  listed_numbers (ok entries) = 1 + length entries
  listed_numbers (err e) = 0

  abbrev pub numbers_at : Option Text → FuseHandler O G → ℕ
  numbers_at none h = 0
  numbers_at (some path) h = listed_numbers (list_dir O config path h.backend.os).0

  listed-Within :
      (is_full : List Listed → Listed → Bool) (ino offset : ℕ) (path : Text)
      (r : Result Error (List DirEntry)) (g : FuseHandler O G)
      → Within
          (listed_numbers r)
          g.inodes
          (continue
            (map_err to_errno r)
            (λ entries. lines_from O G digest config ino path entries >>= λ lines.
              pure (add_lines is_full [] (drop offset lines)))
            g).1.inodes
  listed-Within is_full ino offset path (ok entries) g =
      directory_lines-Within ino path entries g.inodes
  listed-Within is_full ino offset path (err e) g = here g.inodes

  readdir_at-Within :
      (is_full : List Listed → Listed → Bool) (ino offset : ℕ) (o : Option Text)
      (h : FuseHandler O G)
      → Within
          (numbers_at o h)
          h.inodes
          (continue
            (or_errno enoent o)
            (λ path. on_files O G (list_dir O config path) >>= (λ entries.
              lines_from O G digest config ino path entries >>= λ lines.
              pure (add_lines is_full [] (drop offset lines))))
            h).1.inodes
  readdir_at-Within is_full ino offset none h = here h.inodes
  readdir_at-Within is_full ino offset (some path) h =
      listed-Within is_full ino offset path (list_dir O config path h.backend.os).0
        (on_files O G (list_dir O config path) h).1

  pub readdir-Within :
      (is_full : List Listed → Listed → Bool) (ino offset : ℕ) (h : FuseHandler O G)
      → Within
          (numbers_at (Inodes.get_path ino h.inodes) h)
          h.inodes
          (readdir O G digest config is_full ino offset h).1.inodes
  unfolding readdir
  readdir-Within is_full ino offset h =
      readdir_at-Within is_full ino offset (Inodes.get_path ino h.inodes) h

  pub open_file-Goes :
      (ino flags : ℕ) → Goes O G digest config 1 (open_file O G digest config ino flags)
  unfolding open_file
  open_file-Goes ino flags h = past O G digest config (path_of O G ino) _ h refl (λ path g.
      past O G digest config (λ h. (ensure (not (is_writable flags && config.read_only)) erofs, h))
        _ g refl (λ _ g. here g.inodes))

  pub store_inodes :
      (path : Text) (content : Bytes)
      → Goes O G digest config 0 (store O G digest config path content)
  store_inodes path content h =
      past O G digest config
        (on_backend O G
          (write_file O G config digest (commit_incremental O G digest config) path content))
        _ h refl (λ _ g. same O G digest config (mark_dirty_inodes O G digest config path g))

  pub read-Goes :
      (fh offset size : ℕ) → Goes O G digest config 1 (read O G digest config fh offset size)
  unfolding read
  read-Goes fh offset size h = past O G digest config (handle_path O G fh) _ h refl (λ path g.
      past O G digest config (on_files O G (read_file O config path)) _ g refl
        (λ _ g. here g.inodes))

  pub write-Goes :
      (fh offset : ℕ) (bytes : Bytes)
      → Goes O G digest config 1 (write O G digest config fh offset bytes)
  unfolding write
  write-Goes fh offset bytes h =
      past O G digest config (refuse_read_only O G config) _ h refl (λ _ g.
        past O G digest config (handle_path O G fh) _ g refl (λ path g.
          let content = splice offset bytes (content_before O G digest config path g) in
          bind O G digest config (store O G digest config path content) _ g
            (store_inodes path content g) (λ _ g. here g.inodes)))

  pub create-Goes :
      (parent : ℕ) (name : Option Text) (flags : ℕ)
      → Goes O G digest config 1 (create O G digest config parent name flags)
  unfolding create
  create-Goes parent name flags h =
      past O G digest config (refuse_read_only O G config) _ h refl (λ _ g.
        past O G digest config (child O G einval parent name) _ g refl (λ path g.
          bind O G digest config (store O G digest config path []) _ g (store_inodes path [] g)
            (λ _ g.
              finish O G digest config (attr_for_path O G config path) _ g
                (attr_for_path-Goes O G digest config path g) (λ attr g. here g.inodes))))

  pub release-Goes : (fh : ℕ) → Goes O G digest config 1 (release O G digest config fh)
  unfolding release maybe_commit
  release-Goes fh h = same O G digest config (ground arith)

  pub destroy-Goes : Goes O G digest config 1 (destroy O G config digest)
  unfolding destroy
  destroy-Goes h = same O G digest config (maybe_commit_inodes O G digest config h)

  pub readlink-Goes : (ino : ℕ) → Goes O G digest config 1 (readlink O G digest config ino)
  unfolding readlink
  readlink-Goes ino h = past O G digest config (path_of O G ino) _ h refl (λ path g.
      past O G digest config (on_files O G (read_symlink O config path)) _ g refl
        (λ _ g. here g.inodes))

  pub opendir-Goes : (ino : ℕ) → Goes O G digest config 1 (opendir O G digest config ino)
  unfolding opendir
  opendir-Goes ino h = past O G digest config (path_of O G ino) _ h refl (λ _ g. here g.inodes)

  pub setxattr-Goes :
      (ino : ℕ) (name : Option Text) (value : Bytes)
      → Goes O G digest config 1 (setxattr O G config ino name value)
  unfolding setxattr
  setxattr-Goes ino name value h = same O G digest config (ground arith)

  pub getxattr-Goes :
      (ino : ℕ) (name : Option Text) (size : ℕ)
      → Goes O G digest config 1 (getxattr O G config ino name size)
  unfolding getxattr
  getxattr-Goes ino name size h = same O G digest config (ground arith)

  pub listxattr-Goes : (ino size : ℕ) → Goes O G digest config 1 (listxattr O G config ino size)
  unfolding listxattr
  listxattr-Goes ino size h = same O G digest config (ground arith)

  pub removexattr-Goes :
      (ino : ℕ) (name : Option Text) → Goes O G digest config 1 (removexattr O G config ino name)
  unfolding removexattr
  removexattr-Goes ino name h = same O G digest config (ground arith)
