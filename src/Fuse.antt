-- ===== src/Fuse.antt =====
-- `FuseHandler` of src/fs.rs: what it keeps, the paths and attributes it answers with, and when it
-- commits. A name is given by what `OsStr::to_str` makes of it; a reply is the value of a run, or
-- the number of its error.
pub mod Looking
pub mod Contents
pub mod Names
pub mod Attributes
pub mod Requests
pub mod Splice
pub mod Paging
pub mod Keeping
pub mod Numbering
pub mod WriteRead
pub mod ReadOnly
use gitoxide_fs.Base.{
  ℕ, ◌+◌, ◌/◌, ◌%◌, ◌^◌, Bool, not, ◌||◌, Option, none, some, List, [], ◌∷◌, ◌++◌, is_empty, any,
  length, leb, if◌then◌else◌, ◌==◌, nat_eq, list_eq,
}
use gitoxide_fs.Base.Text.{Text, Bytes, codes}
use gitoxide_fs.Base.Paths.{path_join}
use gitoxide_fs.Base.Decimal.{show_u64}
use gitoxide_fs.Error.{Error, Errno, to_errno, enoent, erofs, einval}
use gitoxide_fs.Error.Monad.{Result, ok, err, map_err, Exec, ensure, ◌>>=◌, ◌>>◌, continue}
use gitoxide_fs.Config.{Config}
use gitoxide_fs.Os.{Os}
use gitoxide_fs.Gix.{Gix}
use gitoxide_fs.Inodes
use gitoxide_fs.Inodes.{InodeTable}
use gitoxide_fs.Handles
use gitoxide_fs.Handles.{HandleTable}
use gitoxide_fs.Backend.State.{Backend, on_disk, or_false, is_ignored}
use gitoxide_fs.Backend.Directories.{FileType, regular_file, directory, symlink, FileStat, stat}
use gitoxide_fs.Backend.Commits.{commit, commit_incremental}
use gitoxide_fs.Backend.AutoCommit.{flush_pending_auto_commit}

-- `fuser::FileType`
pub data FuseFileType : Type 0 where
  named_pipe char_device block_device fuse_directory fuse_regular_file : FuseFileType
  fuse_symlink socket : FuseFileType

-- `fuser::FileAttr`
pub record FileAttr : Type 0 where
  pub ino : ℕ
  pub size : ℕ
  pub blocks : ℕ
  pub atime : ℕ × ℕ
  pub mtime : ℕ × ℕ
  pub ctime : ℕ × ℕ
  pub crtime : ℕ × ℕ
  pub kind : FuseFileType
  pub perm : ℕ
  pub nlink : ℕ
  pub uid : ℕ
  pub gid : ℕ
  pub rdev : ℕ
  pub blksize : ℕ
  pub flags : ℕ

abbrev pub block_size : ℕ
block_size = 512

-- `FuseHandler`; the configuration does not change.
pub record FuseHandler (O : Os) (G : Gix) : Type 0 where
  pub backend : Backend O G
  pub inodes : InodeTable
  pub file_handles : HandleTable
  pub dir_handles : HandleTable
  pub dirty : List Text

abbrev pub join_child : Text → Text → Text
join_child parent_path name = if is_empty parent_path then name else path_join parent_path name

abbrev child_of : Option Text → Option Text → Option Text
child_of none name = none
child_of (some parent_path) none = none
child_of (some parent_path) (some name) = some (join_child parent_path name)

-- `FuseHandler::child_path`
unfoldable pub child_path : InodeTable → ℕ → Option Text → Option Text
child_path inodes parent name = child_of (Inodes.get_path parent inodes) name

unfoldable pub fuse_file_type : FileType → FuseFileType
fuse_file_type directory = fuse_directory
fuse_file_type regular_file = fuse_regular_file
fuse_file_type symlink = fuse_symlink

-- `FuseHandler::make_attr`
unfoldable pub make_attr : ℕ → FileStat → FileAttr
make_attr ino stat = record {
  ino = ino;
  size = stat.size;
  blocks = (stat.size + 511) / 512;
  atime = stat.atime;
  mtime = stat.mtime;
  ctime = stat.ctime;
  crtime = stat.ctime;
  kind = fuse_file_type stat.file_type;
  perm = stat.mode % 4096;
  nlink = stat.nlinks;
  uid = stat.uid;
  gid = stat.gid;
  rdev = 0;
  blksize = block_size;
  flags = 0;
}

-- `flags & libc::O_WRONLY != 0`, or the same of `O_RDWR`
unfoldable pub is_writable : ℕ → Bool
is_writable flags = not (flags % 2 == 0) || not ((flags / 2) % 2 == 0)

-- The insertion into a `HashSet`
abbrev add_path : Text → List Text → List Text
add_path path dirty = if any (λ p. p == path) dirty then dirty else dirty ++ path ∷ []

unfoldable pub update_message : List Text → Text
update_message [] = codes "Update 0 files"
update_message (path ∷ []) = codes "Update " ++ path
update_message (p ∷ q ∷ rest) =
    codes "Update " ++ (show_u64 (length (p ∷ q ∷ rest)) ++ codes " files")

-- A value, or an error for its absence.
abbrev pub or_errno : Errno → Option Text → Result Errno Text
or_errno e none = err e
or_errno e (some path) = ok path

module _ (O : Os) (G : Gix) where
  abbrev pub Serve : Type 0 → Type 0
  Serve A = Exec (FuseHandler O G) Errno A

  -- A reply from what is there, which changes nothing.
  abbrev pub tells : {A : Type 0} → (FuseHandler O G → Result Errno A) → Serve A
  tells r h = (r h, h)

  abbrev pub refuse_read_only : Config → Serve Unit
  refuse_read_only config h = (ensure (not config.read_only) erofs, h)

  -- The path of an inode
  abbrev pub path_of : ℕ → Serve Text
  path_of ino h = (or_errno enoent (Inodes.get_path ino h.inodes), h)

  abbrev pub child : Errno → ℕ → Option Text → Serve Text
  child e parent name h = (or_errno e (child_path h.inodes parent name), h)

  abbrev pub utf8_name : Option Text → Serve Text
  utf8_name name h = (or_errno einval name, h)

  -- An operation of the backend, with the number of its error.
  abbrev pub on_backend : {A : Type 0} → Exec (Backend O G) Error A → Serve A
  on_backend m h = (map_err to_errno (m h.backend).0, record h { backend = (m h.backend).1 })

  abbrev pub on_files : {A : Type 0} → Exec O.State Error A → Serve A
  on_files m = on_backend (on_disk O G m)

  -- A change that cannot fail.
  abbrev pub change : (FuseHandler O G → FuseHandler O G) → Serve Unit
  change u h = (ok tt, u h)

  abbrev pub with_inodes : (InodeTable → InodeTable) → FuseHandler O G → FuseHandler O G
  with_inodes u h = record h { inodes = u h.inodes }

  abbrev pub new_inode : Text → Serve ℕ
  new_inode path h =
      let (ino, t) = Inodes.get_or_create path h.inodes in (ok ino, record h { inodes = t })

  -- `FuseHandler::new`
  unfoldable pub new : Backend O G → FuseHandler O G
  new b = record {
    backend = b;
    inodes = Inodes.new;
    file_handles = Handles.new;
    dir_handles = Handles.new;
    dirty = [];
  }

  module _ (config : Config) where
    -- `FuseHandler::attr_for_path`
    unfoldable pub attr_for_path : Text → Serve FileAttr
    attr_for_path path = do
      s ← on_files (stat O config path)
      ino ← new_inode path
      tells (λ h. ok (make_attr ino s))

    -- `FuseHandler::should_skip_commit`
    unfoldable pub should_skip_commit : Text → FuseHandler O G → Bool
    should_skip_commit path h = or_false (is_ignored O config path h.backend.os)

    module _ (digest : Bytes → Bytes) where
      -- The result of the commit is ignored.
      abbrev commit_dirty : FuseHandler O G → FuseHandler O G
      commit_dirty h = record h {
        backend = (commit O G digest config (update_message h.dirty) h.backend).1;
        dirty = [];
      }

      -- `FuseHandler::maybe_commit`
      unfoldable pub maybe_commit : FuseHandler O G → FuseHandler O G
      maybe_commit h =
          if is_empty h.dirty || not config.commit.auto_commit then h else commit_dirty h

      abbrev when_full : FuseHandler O G → FuseHandler O G
      when_full h = if leb config.commit.max_batch_size (length h.dirty) then maybe_commit h else h

      -- `FuseHandler::mark_dirty`
      unfoldable pub mark_dirty : Text → FuseHandler O G → FuseHandler O G
      mark_dirty path h =
          if should_skip_commit path h
          then h
          else when_full (record h { dirty = add_path path h.dirty })

      abbrev flushed : FuseHandler O G → FuseHandler O G
      flushed h = record h {
        backend =
            (flush_pending_auto_commit O G config digest (commit_incremental O G digest config)
              h.backend).1;
      }

      -- `destroy`; a failure to flush is printed.
      unfoldable pub destroy : Serve Unit
      destroy h = (ok tt, flushed (maybe_commit h))
