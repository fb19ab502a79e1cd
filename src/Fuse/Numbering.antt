-- ===== src/Fuse/Numbering.antt =====
-- What the requests of the kernel to src/fs.rs do to the inode table: how a run is followed, and the
-- handlers of names.
pub mod Handlers
pub mod Serving
use mathlib.Core.Path.{subst}
use gitoxide_fs.Base.{
  ℕ, ◌≡◌, refl, sym, ap, ◌∙◌, Bool, Option, none, some, List, [], ◌∷◌, arith, not, ◌==◌, list_eq,
  nat_eq, Bool-cases, inl, inr, true, false, if◌then◌else◌,
}
use gitoxide_fs.Base.Text.{Text, Bytes, codes}
use gitoxide_fs.Error.{Errno, enoent, einval}
use gitoxide_fs.Error.Monad.{Result, ok, err, continue, ensure, ◌>>=◌, ◌>>◌, pure}
use gitoxide_fs.Config.{Config}
use gitoxide_fs.Os.{Os}
use gitoxide_fs.Gix.{Gix}
use gitoxide_fs.Inodes
use gitoxide_fs.Inodes.{InodeTable}
use gitoxide_fs.Inodes.Trails.{Within, here, created, removed, renamed, after, before}
use gitoxide_fs.Backend.Files.{delete_file}
use gitoxide_fs.Backend.Directories
use gitoxide_fs.Backend.Directories.{stat, create_dir, remove_dir}
use gitoxide_fs.Backend.Links.{create_symlink, create_hardlink}
use gitoxide_fs.Fuse.{
  FuseHandler, Serve, attr_for_path, maybe_commit, mark_dirty, destroy, on_files, path_of, child,
  utf8_name, change, with_inodes, refuse_read_only,
}
use gitoxide_fs.Error.{erofs}
use gitoxide_fs.Base.{◌&&◌}
use gitoxide_fs.Fuse.{is_writable}
use gitoxide_fs.Fuse.Looking.{readlink, opendir}
use gitoxide_fs.Fuse.Contents.{
  open_file, read, write, create, release, store, handle_path, content_before, splice,
}
use gitoxide_fs.Fuse.Attributes.{setxattr, getxattr, listxattr, removexattr}
use gitoxide_fs.Backend.Links.{read_symlink}
use gitoxide_fs.Backend.Files.{read_file}
use gitoxide_fs.Backend.AutoCommit.{write_file}
use gitoxide_fs.Base.Paths.{parent}
use gitoxide_fs.Inodes.{fuse_root_id}
use gitoxide_fs.Backend.Files.{set_permissions}
use gitoxide_fs.Backend.AutoCommit.{truncate_file}
use gitoxide_fs.Backend.Commits.{commit_incremental}
use gitoxide_fs.Backend.Directories.{DirEntry, list_dir}
use gitoxide_fs.Fuse.{join_child, on_backend}
use gitoxide_fs.Fuse.Looking.{
  lookup, getattr, set_size, set_mode, setattr, Listed, child_lines, parent_inode, dotdot,
  directory_lines, readdir,
}
use gitoxide_fs.Fuse.Names.{made, dropped, mkdir, unlink, rmdir, rename, symlink, link}

module _ (O : Os) (G : Gix) (digest : Bytes → Bytes) (config : Config) where
  -- A run keeps the table valid and takes at most `n` numbers, as long as there are that many.
  abbrev pub Goes : {A : Type 0} → ℕ → Serve O G A → Type 0
  Goes n m = (h : FuseHandler O G) → Within n h.inodes (m h).1.inodes

  pub step :
      {A B : Type 0} {n : ℕ} (r : Result Errno A) (k : A → Serve O G B) (t : InodeTable)
      (g : FuseHandler O G)
      → Within 0 t g.inodes
      → ((a : A) → Goes n (k a))
      → Within n t (continue r k g).1.inodes
  step (ok a) k t g e f = after e (f a g)
  step (err x) k t g e f = after e (here g.inodes)

  -- A part of a run that takes no number, and what follows it.
  pub bind :
      {A B : Type 0} {n : ℕ} (m : Serve O G A) (k : A → Serve O G B) (h : FuseHandler O G)
      → Within 0 h.inodes (m h).1.inodes
      → ((a : A) → Goes n (k a))
      → Within n h.inodes (continue (m h).0 k (m h).1).1.inodes
  bind m k h e f = step (m h).0 k h.inodes (m h).1 e f

  finish_step :
      {A B : Type 0} {n : ℕ} (r : Result Errno A) (k : A → Serve O G B) (t : InodeTable)
      (g : FuseHandler O G)
      → Within n t g.inodes
      → ((a : A) → Goes 0 (k a))
      → Within n t (continue r k g).1.inodes
  finish_step (ok a) k t g e f = before e (f a g)
  finish_step (err x) k t g e f = e

  -- A part of a run, and what follows it and takes no number.
  pub finish :
      {A B : Type 0} {n : ℕ} (m : Serve O G A) (k : A → Serve O G B) (h : FuseHandler O G)
      → Within n h.inodes (m h).1.inodes
      → ((a : A) → Goes 0 (k a))
      → Within n h.inodes (continue (m h).0 k (m h).1).1.inodes
  finish m k h e f = finish_step (m h).0 k h.inodes (m h).1 e f

  -- A part that leaves the table alone
  pub past :
      {A B : Type 0} {n : ℕ} (m : Serve O G A) (k : A → Serve O G B) (h : FuseHandler O G)
      → (m h).1.inodes ≡ h.inodes
      → ((a : A) → Goes n (k a))
      → Within n h.inodes (continue (m h).0 k (m h).1).1.inodes
  past m k h e f = bind m k h (subst (λ v. Within 0 h.inodes v) (sym e) (here h.inodes)) f

  pub same : {n : ℕ} {t u : InodeTable} → u ≡ t → Within n t u
  same {n} {t} e = subst (λ v. Within n t v) (sym e) (here t)

  pub either :
      {A : Type 0} {k : ℕ} (b : Bool) (m n : Serve O G A) (h : FuseHandler O G)
      → Within k h.inodes (m h).1.inodes
      → Within k h.inodes (n h).1.inodes
      → Within k h.inodes ((if b then m else n) h).1.inodes
  either true m n h e f = e
  either false m n h e f = f

  pub maybe_commit_inodes :
      (h : FuseHandler O G) → (maybe_commit O G config digest h).inodes ≡ h.inodes
  unfolding maybe_commit
  maybe_commit_inodes h = ground arith

  pub mark_dirty_inodes :
      (path : Text) (h : FuseHandler O G) → (mark_dirty O G config digest path h).inodes ≡ h.inodes
  unfolding mark_dirty maybe_commit
  mark_dirty_inodes path h = ground arith

  pub attr_for_path-Goes : (path : Text) → Goes 1 (attr_for_path O G config path)
  unfolding attr_for_path
  attr_for_path-Goes path h =
      past (on_files O G (stat O config path)) _ h refl (λ s g. created path g.inodes)

  pub getattr-Goes : (ino : ℕ) → Goes 1 (getattr O G digest config ino)
  unfolding getattr
  getattr-Goes ino h = past (path_of O G ino) _ h refl attr_for_path-Goes

  pub lookup-Goes :
      (parent : ℕ) (name : Option Text) → Goes 1 (lookup O G digest config parent name)
  unfolding lookup
  lookup-Goes parent name h = past (utf8_name O G name) _ h refl (λ n g.
      past (λ h. (ensure (not (n == codes ".git")) enoent, h)) _ g refl
        (λ _ g. past (child O G enoent parent name) _ g refl attr_for_path-Goes))

  pub made-Goes : (path : Text) → Goes 1 (made O G digest config path)
  made-Goes path h =
      after (same (mark_dirty_inodes path h))
        (attr_for_path-Goes path (mark_dirty O G config digest path h))

  -- A name that is made on disk by `m`.
  pub making-Goes :
      (parent : ℕ) (name : Option Text) (m : Text → Serve O G Unit)
      → ((path : Text) (h : FuseHandler O G) → (m path h).1.inodes ≡ h.inodes)
      → Goes 1 (do
        refuse_read_only O G config
        path ← child O G einval parent name
        m path
        made O G digest config path)
  making-Goes parent name m e h = past (refuse_read_only O G config) _ h refl (λ _ g.
      past (child O G einval parent name) _ g refl
        (λ path g. past (m path) _ g (e path g) (λ _. made-Goes path)))

  pub mkdir-Goes : (parent : ℕ) (name : Option Text) → Goes 1 (mkdir O G digest config parent name)
  unfolding mkdir
  mkdir-Goes parent name =
      making-Goes parent name (λ path. on_files O G (create_dir O config path)) (λ path h. refl)

  pub symlink-Goes :
      (parent : ℕ) (name : Option Text) (target : Text)
      → Goes 1 (symlink O G digest config parent name target)
  unfolding symlink
  symlink-Goes parent name target =
      making-Goes parent name (λ path. on_files O G (create_symlink O config path target))
        (λ path h. refl)

  pub link-Goes :
      (ino newparent : ℕ) (newname : Option Text)
      → Goes 1 (link O G digest config ino newparent newname)
  unfolding link
  link-Goes ino newparent newname h = past (refuse_read_only O G config) _ h refl (λ _ g.
      past (path_of O G ino) _ g refl (λ src_path g.
        past (child O G einval newparent newname) _ g refl (λ dest_path g.
          past (on_files O G (create_hardlink O config dest_path src_path)) _ g refl
            (λ _. made-Goes dest_path))))

  pub dropped-Goes : (path : Text) → Goes 1 (dropped O G digest config path)
  dropped-Goes path h =
      after (removed path h.inodes)
        (same (mark_dirty_inodes path (with_inodes O G (Inodes.remove path) h)))

  -- A name that is dropped on disk by `m`.
  pub dropping-Goes :
      (parent : ℕ) (name : Option Text) (m : Text → Serve O G Unit)
      → ((path : Text) (h : FuseHandler O G) → (m path h).1.inodes ≡ h.inodes)
      → Goes 1 (do
        refuse_read_only O G config
        path ← child O G enoent parent name
        m path
        dropped O G digest config path)
  dropping-Goes parent name m e h = past (refuse_read_only O G config) _ h refl (λ _ g.
      past (child O G enoent parent name) _ g refl
        (λ path g. past (m path) _ g (e path g) (λ _. dropped-Goes path)))

  pub unlink-Goes :
      (parent : ℕ) (name : Option Text) → Goes 1 (unlink O G digest config parent name)
  unfolding unlink
  unlink-Goes parent name =
      dropping-Goes parent name (λ path. on_files O G (delete_file O config digest path))
        (λ path h. refl)

  pub rmdir-Goes : (parent : ℕ) (name : Option Text) → Goes 1 (rmdir O G digest config parent name)
  unfolding rmdir
  rmdir-Goes parent name =
      dropping-Goes parent name (λ path. on_files O G (remove_dir O config path)) (λ path h. refl)

  pub rename-Goes :
      (parent : ℕ) (name : Option Text) (newparent : ℕ) (newname : Option Text)
      → Goes 1 (rename O G digest config parent name newparent newname)
  unfolding rename
  rename-Goes parent name newparent newname h = past (refuse_read_only O G config) _ h refl (λ _ g.
      past (child O G enoent parent name) _ g refl (λ from g.
        past (child O G einval newparent newname) _ g refl (λ to g.
          past (on_files O G (Directories.rename O config from to)) _ g refl (λ _ g.
            after (renamed from to g.inodes)
              (same (mark_dirty_inodes to (with_inodes O G (Inodes.rename from to) g)))))))
