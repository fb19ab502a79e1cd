-- ===== src/Error.antt =====
-- src/error.rs: the errors of every operation, their hints and their `errno` for FUSE. The
-- constants of `libc` are kept as names; `raw` is a number that the operating system reported.
pub mod Monad
pub mod Runs
use gitoxide_fs.Base.{
  ℕ, Bool, true, false, ◌||◌, Option, none, some, List, [], ◌∷◌, ◌++◌, if◌then◌else◌,
}
use gitoxide_fs.Base.Text.{Text, codes, contains, has_char, slash}

pub data IoErrorKind : Type 0 where
  not_found_kind directory_not_empty_kind other_kind : IoErrorKind

-- `io::Error`: `kind()` and `raw_os_error()`
pub record IoError : Type 0 where
  pub kind : IoErrorKind
  pub raw_os_error : Option ℕ

pub data Error : Type 0 where
  io : IoError → Error
  git fuse config fork : Text → Error
  merge_conflict : Text → Error
  not_found already_exists permission_denied not_a_directory is_a_directory : Text → Error
  directory_not_empty invalid_argument name_too_long : Text → Error
  no_space too_many_open_files cross_device_link : Error
  lock_poisoned : Text → Error

pub data Errno : Type 0 where
  enoent eexist eacces enotdir eisdir enotempty einval enametoolong enospc emfile exdev : Errno
  eio erofs ebadf erange enosys : Errno
  raw : ℕ → Errno

raw_or_eio : Option ℕ → Errno
raw_or_eio none = eio
raw_or_eio (some n) = raw n

-- `Error::to_errno`
unfoldable pub to_errno : Error → Errno
unfolding raw_or_eio
to_errno (not_found _) = enoent
to_errno (already_exists _) = eexist
to_errno (permission_denied _) = eacces
to_errno (not_a_directory _) = enotdir
to_errno (is_a_directory _) = eisdir
to_errno (directory_not_empty _) = enotempty
to_errno (invalid_argument _) = einval
to_errno (name_too_long _) = enametoolong
to_errno no_space = enospc
to_errno too_many_open_files = emfile
to_errno cross_device_link = exdev
to_errno (io e) = raw_or_eio e.raw_os_error
to_errno (git _) = eio
to_errno (fuse _) = eio
to_errno (config _) = eio
to_errno (fork _) = eio
to_errno (merge_conflict _) = eio
to_errno (lock_poisoned _) = eio

abbrev create_hint : Text
create_hint = codes "the target path does not exist — create it first with `mkdir -p`"

-- `Error::hint`
unfoldable pub hint : Error → Option Text
unfolding contains
hint (not_found p) =
    if has_char slash p || contains p (codes "repo") || contains p (codes "git")
    then some (codes "check the path or run `git init` to create a new repository")
    else some create_hint
hint (permission_denied _) = some (
    codes
      "check FUSE permissions; you may need to be in the `fuse` group or run with `allow_other`")
hint (fuse msg) =
    if contains msg (codes "mount")
    then some (
        codes
          "is the mount point an empty directory? Check that FUSE is installed (`fusermount3 --version`)")
    else none
hint (config _) = some (codes "check your config file syntax — see `gofs mount --help` for options")
hint (already_exists _) = some (
    codes
      "a resource with that name already exists — choose a different name or remove the existing one")
hint (fork msg) =
    if contains msg (codes "not found")
    then some (codes "list available forks with `gofs fork list --repo <path>`")
    else none
hint (merge_conflict _) = some (
    codes "try a different merge strategy: --strategy ours, --strategy theirs, or resolve manually")
hint (git msg) =
    if contains msg (codes "not a git repository") || contains msg (codes "open")
    then some
        (codes "the path is not a git repository — run `git init` first or check the --repo path")
    else none
hint (io e) = elim e.kind [ not_found_kind ↦ some create_hint | _ ↦ none ]
hint (not_a_directory _) = none
hint (is_a_directory _) = none
hint (directory_not_empty _) = none
hint (invalid_argument _) = none
hint (name_too_long _) = none
hint no_space = none
hint too_many_open_files = none
hint cross_device_link = none
hint (lock_poisoned _) = none
