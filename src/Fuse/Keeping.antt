-- ===== src/Fuse/Keeping.antt =====
-- The requests that leave the files, the objects and what waits for a commit as they are.
use gitoxide_fs.Base.{
  ℕ, ◌≡◌, refl, ap, ◌∙◌, Bool, Option, List, [], arith, not, ◌==◌, list_eq, nat_eq, drop,
}
use gitoxide_fs.Base.Text.{Text, Bytes, codes}
use gitoxide_fs.Error.{Error, Errno, enoent}
use gitoxide_fs.Error.Monad.{Result, ok, err, Exec, pure, ensure, continue, ◌>>=◌}
use gitoxide_fs.Config.{Config}
use gitoxide_fs.Os.{Os}
use gitoxide_fs.Gix.{Gix}
use gitoxide_fs.Backend.Reading.{
  read_file_unchanged, stat_unchanged, list_dir_unchanged, read_symlink_unchanged,
}
use gitoxide_fs.Backend.AutoCommit.{flush_pending_auto_commit}
use gitoxide_fs.Fuse.{
  FuseHandler, Serve, attr_for_path, maybe_commit, destroy, on_files, new_inode, tells, make_attr,
  path_of, utf8_name, child,
}
use gitoxide_fs.Fuse.Looking.{
  Listed, lookup, getattr, readdir, readlink, opendir, lines_from, add_lines, open_dir,
}
use gitoxide_fs.Fuse.Contents.{open_file, read, release, handle_path, slice}
use gitoxide_fs.Fuse.Attributes.{setxattr, getxattr, listxattr, removexattr}
use gitoxide_fs.Backend.Files.{read_file}
use gitoxide_fs.Backend.Directories.{stat, list_dir, DirEntry}
use gitoxide_fs.Backend.Links.{read_symlink}
use gitoxide_fs.Base.Utf8.{encode}
use gitoxide_fs.Fuse.Requests.{}

module _ (O : Os) (G : Gix) (digest : Bytes → Bytes) (config : Config) where
  -- The files, the objects, and what waits for a commit
  abbrev pub lasting : FuseHandler O G → O.State × G.Store × List Text × List Text
  lasting h = (h.backend.os, h.backend.objects, h.dirty, h.backend.dirty_files)

  -- A run leaves them as they are.
  abbrev pub Keeps : {A : Type 0} → Serve O G A → FuseHandler O G → Type 0
  Keeps m h = lasting (m h).1 ≡ lasting h

  -- Nothing waits for a commit.
  abbrev pub IsIdle : FuseHandler O G → Type 0
  IsIdle h = (h.dirty ≡ []) × (h.backend.dirty_files ≡ [])

  pub continue_kept :
      {A B : Type 0} (r : Result Errno A) (f : A → Serve O G B) (g h : FuseHandler O G)
      → lasting g ≡ lasting h
      → ((a : A) → lasting (f a g).1 ≡ lasting g)
      → lasting (continue r f g).1 ≡ lasting h
  continue_kept (ok a) f g h e k = k a ∙ e
  continue_kept (err x) f g h e k = e

  pub bind_kept :
      {A B : Type 0} (m : Serve O G A) (f : A → Serve O G B) (h : FuseHandler O G)
      → Keeps m h
      → ((a : A) (g : FuseHandler O G) → Keeps (f a) g)
      → Keeps (m >>= f) h
  bind_kept m f h e k = continue_kept (m h).0 f (m h).1 h e (λ a. k a (m h).1)

  pub on_files_kept :
      {A : Type 0} (m : Exec O.State Error A) (h : FuseHandler O G)
      → (m h.backend.os).1 ≡ h.backend.os
      → Keeps (on_files O G m) h
  on_files_kept m h e = ap (λ s. (s, h.backend.objects, h.dirty, h.backend.dirty_files)) e

  pub attr_for_path_kept :
      (path : Text) (h : FuseHandler O G) → Keeps (attr_for_path O G config path) h
  unfolding attr_for_path
  attr_for_path_kept path h =
      bind_kept (on_files O G (stat O config path))
        (λ s. new_inode O G path >>= (λ ino. tells O G (λ g. ok (make_attr ino s)))) h
        (on_files_kept (stat O config path) h (stat_unchanged O config path h.backend.os))
        (λ s g. refl)

  pub getattr_kept : (ino : ℕ) (h : FuseHandler O G) → Keeps (getattr O G digest config ino) h
  unfolding getattr
  getattr_kept ino h =
      bind_kept (path_of O G ino) (attr_for_path O G config) h refl attr_for_path_kept

  pub lookup_kept :
      (parent : ℕ) (name : Option Text) (h : FuseHandler O G)
      → Keeps (lookup O G digest config parent name) h
  unfolding lookup
  lookup_kept parent name h =
      bind_kept (utf8_name O G name)
        (λ n g.
          continue (ensure (not (n == codes ".git")) enoent)
            (λ _. child O G enoent parent name >>= attr_for_path O G config) g)
        h refl
        (λ n g.
          continue_kept (ensure (not (n == codes ".git")) enoent)
            (λ _. child O G enoent parent name >>= attr_for_path O G config) g g refl
            (λ _.
              bind_kept (child O G enoent parent name) (attr_for_path O G config) g refl
                attr_for_path_kept))

  pub read_kept :
      (fh offset size : ℕ) (h : FuseHandler O G) → Keeps (read O G digest config fh offset size) h
  unfolding read
  read_kept fh offset size h =
      bind_kept (handle_path O G fh)
        (λ path.
          on_files O G (read_file O config path) >>= (λ content. pure (slice offset size content)))
        h refl
        (λ path g.
          bind_kept (on_files O G (read_file O config path))
            (λ content. pure (slice offset size content)) g
            (on_files_kept (read_file O config path) g
              (read_file_unchanged O config path g.backend.os))
            (λ content k. refl))

  pub readlink_kept : (ino : ℕ) (h : FuseHandler O G) → Keeps (readlink O G digest config ino) h
  unfolding readlink
  readlink_kept ino h =
      bind_kept (path_of O G ino)
        (λ path. on_files O G (read_symlink O config path) >>= (λ target. pure (encode target))) h
        refl
        (λ path g.
          bind_kept (on_files O G (read_symlink O config path)) (λ target. pure (encode target)) g
            (on_files_kept (read_symlink O config path) g
              (read_symlink_unchanged O config path g.backend.os))
            (λ target k. refl))

  pub readdir_kept :
      (is_full : List Listed → Listed → Bool) (ino offset : ℕ) (h : FuseHandler O G)
      → Keeps (readdir O G digest config is_full ino offset) h
  unfolding readdir
  readdir_kept is_full ino offset h =
      let answer : Text → List DirEntry → Serve O G (List Listed) = λ path entries.
        lines_from O G digest config ino path entries
        >>= (λ lines. pure (add_lines is_full [] (drop offset lines))) in
      bind_kept (path_of O G ino) (λ path. on_files O G (list_dir O config path) >>= answer path) h
        refl
        (λ path g.
          bind_kept (on_files O G (list_dir O config path)) (answer path) g
            (on_files_kept (list_dir O config path) g
              (list_dir_unchanged O config path g.backend.os))
            (λ entries k. refl))

  pub opendir_kept : (ino : ℕ) (h : FuseHandler O G) → Keeps (opendir O G digest config ino) h
  unfolding opendir
  opendir_kept ino h =
      bind_kept (path_of O G ino) (λ _. open_dir O G digest config) h refl (λ _ g. refl)

  pub open_file_kept :
      (ino flags : ℕ) (h : FuseHandler O G) → Keeps (open_file O G digest config ino flags) h
  unfolding open_file
  open_file_kept ino flags h = ground arith

  pub getxattr_kept :
      (ino : ℕ) (name : Option Text) (size : ℕ) (h : FuseHandler O G)
      → Keeps (getxattr O G config ino name size) h
  unfolding getxattr
  getxattr_kept ino name size h = ground arith

  pub setxattr_kept :
      (ino : ℕ) (name : Option Text) (value : Bytes) (h : FuseHandler O G)
      → Keeps (setxattr O G config ino name value) h
  unfolding setxattr
  setxattr_kept ino name value h = ground arith

  pub listxattr_kept :
      (ino size : ℕ) (h : FuseHandler O G) → Keeps (listxattr O G config ino size) h
  unfolding listxattr
  listxattr_kept ino size h = ground arith

  pub removexattr_kept :
      (ino : ℕ) (name : Option Text) (h : FuseHandler O G)
      → Keeps (removexattr O G config ino name) h
  unfolding removexattr
  removexattr_kept ino name h = ground arith

  pub flush_kept :
      (h : FuseHandler O G) → IsIdle h → lasting (maybe_commit O G config digest h) ≡ lasting h
  unfolding maybe_commit
  flush_kept h idle = ground (arith, idle)

  pub release_kept :
      (fh : ℕ) (h : FuseHandler O G) → IsIdle h → Keeps (release O G digest config fh) h
  unfolding release maybe_commit
  release_kept fh h idle = ground (arith, idle)

  pub destroy_kept : (h : FuseHandler O G) → IsIdle h → Keeps (destroy O G config digest) h
  unfolding destroy maybe_commit flush_pending_auto_commit
  destroy_kept h idle = ground (arith, idle)
