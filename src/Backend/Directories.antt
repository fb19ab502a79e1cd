-- ===== src/Backend/Directories.antt =====
-- The directories of `GitBackend` in src/git.rs: `create_dir`, `remove_dir`, `rename`, `list_dir`
-- and `stat`.
use gitoxide_fs.Base.{
  ℕ, ◌%◌, ◌^◌, Bool, false, ◌&&◌, ◌||◌, not, Option, none, some, List, [], ◌∷◌, ◌++◌, is_empty,
  if◌then◌else◌, ◌==◌, nat_eq, list_eq,
}
use gitoxide_fs.Base.Text.{Text, codes}
use gitoxide_fs.Base.Paths.{path_join, parent}
use gitoxide_fs.Base.Sort.{sort_by}
use gitoxide_fs.Error.{
  Error, io, not_found, already_exists, not_a_directory, directory_not_empty, invalid_argument,
  IoError,
}
use gitoxide_fs.Error.Monad.{Result, ok, err, map_err, and_then, Exec, ◌>>◌, guard}
use gitoxide_fs.Config.{Config}
use gitoxide_fs.Os.{Os, EntryType, dir_type, symlink_type, file_type, Metadata, DirItem}
use gitoxide_fs.BlobStore.Pointer.{PointerFile}
use gitoxide_fs.BlobStore.Store.{not_found_or_io}
use gitoxide_fs.Backend.{
  call, check_writable, check_path, check_file_path, check_not_git, full_path,
}
use gitoxide_fs.Backend.Files.{pointer_in}
use gitoxide_fs.Backend.Refs.{create_parent_dirs}

pub data FileType : Type 0 where
  regular_file directory symlink : FileType

pub record DirEntry : Type 0 where
  pub name : Text
  pub file_type : FileType
  pub size : ℕ
  pub mode : ℕ

-- Times are seconds and nanoseconds since the epoch.
pub record FileStat : Type 0 where
  pub file_type : FileType
  pub size : ℕ
  pub mode : ℕ
  pub mtime : ℕ × ℕ
  pub ctime : ℕ × ℕ
  pub atime : ℕ × ℕ
  pub nlinks : ℕ
  pub uid : ℕ
  pub gid : ℕ
  pub inode : ℕ

unfoldable pub file_type_of : EntryType → FileType
file_type_of dir_type = directory
file_type_of symlink_type = symlink
file_type_of file_type = regular_file

-- A time, or the epoch.
abbrev or_epoch : Option (ℕ × ℕ) → ℕ × ℕ
or_epoch none = (0, 0)
or_epoch (some t) = t

abbrev gitkeep : Text
gitkeep = codes ".gitkeep"

-- The size of what a pointer stands for, or of the file itself.
abbrev shown_size : Option PointerFile → ℕ → ℕ
shown_size none len = len
shown_size (some p) len = p.size

-- The entries that could be read, other than `.gitkeep`.
unfoldable pub has_user_files : List (Result IoError DirItem) → Bool
has_user_files [] = false
has_user_files (err e ∷ rest) = has_user_files rest
has_user_files (ok entry ∷ rest) = not (entry.file_name == gitkeep) || has_user_files rest

abbrev when_empty : Text → List (Result IoError DirItem) → Result Error Unit
when_empty path entries = if has_user_files entries then err (directory_not_empty path) else ok tt

module _ (O : Os) (config : Config) where
  abbrev refuse_file : Text → Text → Exec O.State Error Unit
  refuse_file path full s = (
    if O.exists full s && not (O.is_dir full s)
        then err (already_exists (codes "a file already exists at '" ++ (path ++ codes "'")))
        else ok tt,
    s,
  )

  abbrev write_gitkeep : Text → Exec O.State Error Unit
  write_gitkeep keep s = if O.exists keep s then (ok tt, s) else call (O.write keep []) s

  -- `GitBackend::create_dir`
  unfoldable pub create_dir : Text → Exec O.State Error Unit
  create_dir path = do
    check_writable config
    check_file_path config path
    refuse_file path (full_path config path)
    call (O.create_dir_all (full_path config path))
    write_gitkeep (path_join (full_path config path) gitkeep)

  abbrev removable : Text → Text → O.State → Result Error Unit
  removable path full s =
      if not (O.exists full s)
      then err (not_found path)
      else if not (O.is_dir full s)
      then err (not_a_directory path)
      else and_then (map_err io (O.read_dir full s)) (when_empty path)

  -- `GitBackend::remove_dir`
  unfoldable pub remove_dir : Text → Exec O.State Error Unit
  remove_dir path = do
    check_writable config
    guard (not (is_empty path)) (invalid_argument (codes "cannot remove root directory"))
    check_file_path config path
    λ s. (removable path (full_path config path) s, s)
    λ s.
        let (r, s') = O.remove_dir_all (full_path config path) s in
        (map_err (not_found_or_io path) r, s')

  abbrev renamable : Text → Text → Text → Text → O.State → Result Error Unit
  renamable from to full_from full_to s =
      if not (O.exists full_from s)
      then err (not_found from)
      else if O.is_dir full_from s && O.is_dir full_to s
      then and_then (map_err io (O.read_dir full_to s)) (when_empty to)
      else ok tt

  -- `GitBackend::rename`
  unfoldable pub rename : Text → Text → Exec O.State Error Unit
  rename from to = do
    check_writable config
    check_file_path config from
    check_path config to
    let full_from = full_path config from
    let full_to = full_path config to
    λ s. (renamable from to full_from full_to s, s)
    create_parent_dirs O (parent full_to)
    call (O.rename full_from full_to)

  -- One entry of `list_dir`, from its type and its metadata.
  unfoldable pub dir_entry : Text → Text → EntryType → Metadata → O.State → DirEntry
  dir_entry full name t m s = record {
    name = name;
    file_type = file_type_of t;
    size = elim t [
      | file_type ↦ shown_size (pointer_in (O.read (path_join full name) s)) m.len
      | _ ↦ m.len
    ];
    mode = m.mode;
  }

  -- The loop of `list_dir`; `at_root` is `path.is_empty()`.
  unfoldable pub dir_entries :
      Text → Bool → O.State → List (Result IoError DirItem) → Result Error (List DirEntry)
  unfolding dir_entry
  dir_entries full at_root s [] = ok []
  dir_entries full at_root s (err e ∷ rest) = err (io e)
  dir_entries full at_root s (ok entry ∷ rest) =
      let others = dir_entries full at_root s rest in
      if entry.file_name == gitkeep || at_root && entry.file_name == codes ".git"
      then others
      else and_then (map_err io entry.entry_type) (λ t.
        and_then (map_err io entry.metadata)
          (λ m. and_then others (λ entries. ok (dir_entry full entry.file_name t m s ∷ entries))))

  listed : Text → Text → O.State → Result Error (List DirEntry)
  unfolding dir_entries
  listed path full s =
      if not (O.exists full s)
      then err (not_found path)
      else if not (O.is_dir full s)
      then err (not_a_directory path)
      else and_then (map_err io (O.read_dir full s)) (λ items.
        and_then (dir_entries full (is_empty path) s items)
          (λ entries. ok (sort_by (λ e. DirEntry.name e) entries)))

  -- `GitBackend::list_dir`
  unfoldable pub list_dir : Text → Exec O.State Error (List DirEntry)
  unfolding listed
  list_dir path = do check_path config path; λ s. (listed path (full_path config path) s, s)

  -- `stat` from the metadata
  unfoldable pub file_stat : Text → Metadata → O.State → FileStat
  unfolding file_type_of
  file_stat full m s = record {
    file_type = file_type_of m.entry_type;
    size = elim m.entry_type [
      | file_type ↦ shown_size (pointer_in (O.read full s)) m.len
      | _ ↦ m.len
    ];
    mode = m.mode;
    mtime = or_epoch m.modified;
    ctime = or_epoch m.ctime;
    atime = or_epoch m.accessed;
    nlinks = m.nlink % 2 ^ 32;
    uid = m.uid;
    gid = m.gid;
    inode = m.ino;
  }

  -- `GitBackend::stat`
  unfoldable pub stat : Text → Exec O.State Error FileStat
  unfolding file_stat
  stat path = do
    check_not_git config path
    check_path config path
    λ s. (
      and_then (map_err (not_found_or_io path) (O.symlink_metadata (full_path config path) s))
          (λ m. ok (file_stat (full_path config path) m s)),
      s,
    )
