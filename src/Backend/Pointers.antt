-- ===== src/Backend/Pointers.antt =====
-- How `GitBackend` of src/git.rs keeps large files in the blob store: the pointers it writes, and
-- the blobs it deletes when no file of the working tree points to them any more.
pub mod Referring
use gitoxide_fs.Base.{
  ℕ, zero, suc, Bool, true, false, ◌||◌, Option, none, some, List, [], ◌∷◌, length, leb, nat_eqb,
  if◌then◌else◌, ◌==◌, nat_eq, list_eq, option_eq,
}
use gitoxide_fs.Base.Text.{Text, Bytes, codes}
use gitoxide_fs.Base.Paths.{path_join, file_name, same_path}
use gitoxide_fs.Error.{Error, io, IoError}
use gitoxide_fs.Error.Monad.{Result, ok, err, map_err, and_then, Exec, pure, ◌>>=◌}
use gitoxide_fs.Config.{Config}
use gitoxide_fs.Os.{Os, EntryType, DirItem, dir_type, file_type, symlink_type}
use gitoxide_fs.BlobStore.Pointer.{PointerFile, parse_pointer, to_bytes}
use gitoxide_fs.BlobStore.Store.{store_bytes, delete_blob}

abbrev pub name_or : Text → Option Text → Text
name_or path none = path
name_or path (some name) = name

-- Whether the bytes are the pointer to a blob.
unfoldable pub points_to : Text → Option PointerFile → Bool
points_to sha256 none = false
points_to sha256 (some p) = p.sha256 == sha256

abbrev pub skips : Option Text → Text → Bool
skips none path = false
skips (some skip) path = same_path skip path

-- PATH_MAX, with which `validate_path` bounds the paths too. A path below a directory is longer
-- than the directory's, so no directory has more levels below it.
abbrev pub path_max : ℕ
path_max = 4096

module _ (O : Os) where
  abbrev pub content_points_to : Text → Result IoError Bytes → Bool
  content_points_to sha256 (err e) = false
  content_points_to sha256 (ok b) = points_to sha256 (parse_pointer b)

  -- One entry: `below` is the answer of the recursive call, `others` that of the entries behind.
  unfoldable pub visit :
      Bool
      → Result Error EntryType
      → Result Error Bool
      → Bool
      → Result Error Bool
      → Result Error Bool
  visit true t below refers others = others
  visit false (err e) below refers others = err e
  visit false (ok dir_type) below refers others =
      and_then below (λ b. if b then ok true else others)
  visit false (ok symlink_type) below refers others = others
  visit false (ok file_type) below refers others = if refers then ok true else others

  -- The loop over the entries of a directory; `below` is the recursive call.
  unfoldable pub references_found :
      (Text → Result Error Bool)
      → Text
      → Option Text
      → Text
      → O.State
      → List (Result IoError DirItem)
      → Result Error Bool
  references_found below sha256 skip dir s [] = ok false
  references_found below sha256 skip dir s (err e ∷ rest) = err (io e)
  references_found below sha256 skip dir s (ok entry ∷ rest) =
      let path = path_join dir entry.file_name in
      visit (entry.file_name == codes ".git" || skips skip path) (map_err io entry.entry_type)
        (below path) (content_points_to sha256 (O.read path s))
        (references_found below sha256 skip dir s rest)

  -- What follows `dir.exists()`, from the entries of the directory.
  unfoldable pub references_read :
      (Text → Result Error Bool)
      → Text
      → Option Text
      → Text
      → O.State
      → Result IoError (List (Result IoError DirItem))
      → Result Error Bool
  references_read below sha256 skip dir s (ok items) =
      references_found below sha256 skip dir s items
  references_read below sha256 skip dir s (err e) = err (io e)

  -- `repo_references_blob_in_dir`, for at most so many levels of directories
  unfoldable pub references_in_dir : ℕ → Text → Option Text → Text → O.State → Result Error Bool
  references_in_dir zero sha256 skip dir s = ok false
  references_in_dir (suc fuel) sha256 skip dir s =
      let found =
        references_read (λ path. references_in_dir fuel sha256 skip path s) sha256 skip dir s
          (O.read_dir dir s) in
      if O.exists dir s then found else ok false

  module _ (digest : Bytes → Bytes) (config : Config) where
    -- `GitBackend::repo_references_blob`
    unfoldable pub repo_references_blob : Text → Option Text → O.State → Result Error Bool
    repo_references_blob sha256 skip s = references_in_dir path_max sha256 skip config.repo_path s

    -- `GitBackend::cleanup_blob_if_orphaned`
    unfoldable pub cleanup_blob_if_orphaned : Text → Option Text → Exec O.State Error Unit
    cleanup_blob_if_orphaned sha256 skip s = elim (repo_references_blob sha256 skip s) [
      | err e ↦ (err e, s)
      | ok true ↦ (ok tt, s)
      | ok false ↦ delete_blob O config.performance.blob_store_path sha256 s
    ]

    -- What is written for content that is not a pointer itself.
    unfoldable pub pointerize : Text → Bytes → Exec O.State Error Bytes
    pointerize path content = do
      pointer ←
          store_bytes O digest config.performance.blob_store_path (name_or path (file_name path))
            content
      pure (to_bytes pointer)

    abbrev pub stays : Bytes → Bool
    stays content =
        nat_eqb config.performance.large_file_threshold 0
        || leb (length content) config.performance.large_file_threshold

    -- A pointer is kept as it is, and so is content up to the threshold.
    unfoldable pub stored_form : Option PointerFile → Bool → Text → Bytes → Exec O.State Error Bytes
    stored_form (some p) small path content s = (ok content, s)
    stored_form none true path content s = (ok content, s)
    stored_form none false path content s = pointerize path content s

    -- `GitBackend::maybe_pointerize_content`
    unfoldable pub maybe_pointerize_content : Text → Bytes → Exec O.State Error Bytes
    maybe_pointerize_content path content =
        stored_form (parse_pointer content) (stays content) path content
