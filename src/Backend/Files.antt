-- ===== src/Backend/Files.antt =====
-- The file operations of `GitBackend` in src/git.rs that need no commit: `read_file`,
-- `delete_file`, `fallocate`, the permissions, and `write_file` up to its automatic commit.
pub mod WriteRead
use gitoxide_fs.Base.{
  ℕ, Bool, true, false, ◌||◌, not, Option, none, some, List, [], ◌∷◌, ◌++◌, length, ltb, leb,
  if◌then◌else◌, ◌==◌, nat_eq, list_eq, option_eq,
}
use gitoxide_fs.Base.Text.{Text, Bytes, codes}
use gitoxide_fs.Base.Paths.{path_join, parent}
use gitoxide_fs.Error.{Error, io, not_found, is_a_directory, IoError}
use gitoxide_fs.Error.Monad.{
  Result, ok, err, map_err, and_then, to_option, Exec, pure, raise, gets, ◌>>=◌, ◌>>◌, continue,
  guard,
}
use gitoxide_fs.Config.{Config}
use gitoxide_fs.Os.{Os, Metadata}
use gitoxide_fs.Validate.{validate_file_path, abs_path, is_git_internal}
use gitoxide_fs.BlobStore.Pointer.{PointerFile, parse_pointer}
use gitoxide_fs.BlobStore.Store.{read_blob, not_found_or_io}
use gitoxide_fs.Backend.{call, check_writable, check_file_path, check_not_git, full_path}
use gitoxide_fs.Backend.Pointers.{maybe_pointerize_content, cleanup_blob_if_orphaned}

abbrev pub pointer_in : Result IoError Bytes → Option PointerFile
pointer_in (ok b) = parse_pointer b
pointer_in (err e) = none

abbrev missing_parent : Text → Error
missing_parent path =
    not_found (codes "parent directory does not exist for '" ++ (path ++ codes "'"))

abbrev pub hash_of : Option PointerFile → Option Text
hash_of none = none
hash_of (some p) = some p.sha256

module _ (O : Os) (config : Config) where
  -- The content that the bytes of a file stand for.
  unfoldable pub resolve : Option PointerFile → Bytes → O.State → Result Error Bytes
  resolve none content s = ok content
  resolve (some p) content s = read_blob O config.performance.blob_store_path p.sha256 s

  unfoldable pub resolve_read : Text → Result IoError Bytes → O.State → Result Error Bytes
  resolve_read path (err e) s = err (not_found_or_io path e)
  resolve_read path (ok content) s = resolve (parse_pointer content) content s

  unfoldable pub read_full : Text → Text → Exec O.State Error Bytes
  unfolding resolve_read
  read_full path full s = (
    if O.is_dir full s then err (is_a_directory path) else resolve_read path (O.read full s) s,
    s,
  )

  -- `GitBackend::read_file`
  unfoldable pub read_file : Text → Exec O.State Error Bytes
  unfolding read_full
  read_file path = do
    check_file_path config path
    check_not_git config path
    read_full path (full_path config path)

  abbrev pub previous_pointer : Text → O.State → Option PointerFile
  previous_pointer full s = if O.is_file full s then pointer_in (O.read full s) else none

  abbrev pub refuse_dir : Text → Text → Exec O.State Error Unit
  refuse_dir path full s = (if O.is_dir full s then err (is_a_directory path) else ok tt, s)

  abbrev parent_exists : Text → Option Text → O.State → Result Error Unit
  parent_exists path none s = ok tt
  parent_exists path (some d) s = if O.exists d s then ok tt else err (missing_parent path)

  abbrev pub refuse_orphan : Text → Option Text → Exec O.State Error Unit
  refuse_orphan path d s = (parent_exists path d s, s)

  module _ (digest : Bytes → Bytes) where
    -- Cleans up behind the pointer that was there, unless the new one is to the same blob.
    unfoldable pub drop_previous : Option PointerFile → Bytes → Exec O.State Error Unit
    drop_previous none stored s = (ok tt, s)
    drop_previous (some p) stored s =
        if hash_of (parse_pointer stored) == some p.sha256
        then (ok tt, s)
        else cleanup_blob_if_orphaned O digest config p.sha256 none s

    -- What is stored for the content, and the write of it.
    unfoldable pub store_content : Text → Bytes → Option PointerFile → Exec O.State Error Unit
    store_content path content previous = do
      stored ← maybe_pointerize_content O digest config path content
      call (O.write (full_path config path) stored)
      drop_previous previous stored

    -- `write_file` behind the checks of its path
    unfoldable pub write_full : Text → Bytes → Text → Exec O.State Error Unit
    write_full path content full = do
      previous ← gets (previous_pointer full)
      refuse_dir path full
      refuse_orphan path (parent full)
      store_content path content previous

    -- `GitBackend::write_file`, up to the automatic commit
    unfoldable pub write_content : Text → Bytes → Exec O.State Error Unit
    write_content path content = do
      check_writable config
      check_file_path config path
      check_not_git config path
      write_full path content (full_path config path)

    -- Cleans up behind the pointer that was deleted.
    unfoldable pub drop_deleted : Text → Option PointerFile → Exec O.State Error Unit
    drop_deleted full none s = (ok tt, s)
    drop_deleted full (some p) s = cleanup_blob_if_orphaned O digest config p.sha256 (some full) s

    abbrev pub remove_full : Text → Text → Exec O.State Error Unit
    remove_full path full s =
        (map_err (not_found_or_io path) (O.remove_file full s).0, (O.remove_file full s).1)

    -- `GitBackend::delete_file`
    unfoldable pub delete_file : Text → Exec O.State Error Unit
    delete_file path = do
      check_writable config
      check_file_path config path
      check_not_git config path
      let full = full_path config path
      pointer ← gets (λ s. pointer_in (O.read full s))
      remove_full path full
      drop_deleted full pointer

  abbrev create_empty : Text → Exec O.State Error Unit
  create_empty full s = if O.exists full s then (ok tt, s) else call (O.write full []) s

  -- `GitBackend::fallocate`
  unfoldable pub fallocate : Text → ℕ → Exec O.State Error Unit
  fallocate path size = do
    check_writable config
    check_file_path config path
    create_empty (full_path config path)
    call (O.set_len (full_path config path) size)

  -- `GitBackend::set_permissions`
  unfoldable pub set_permissions : Text → ℕ → Exec O.State Error Unit
  set_permissions path mode = do
    check_writable config
    check_file_path config path
    call (O.set_permissions (full_path config path) mode)

  abbrev mode_of : Result IoError Metadata → Result Error ℕ
  mode_of (ok m) = ok m.mode
  mode_of (err e) = err (io e)

  -- `GitBackend::get_permissions`
  unfoldable pub get_permissions : Text → Exec O.State Error ℕ
  get_permissions path = do
    check_file_path config path
    λ s. (mode_of (O.metadata (full_path config path) s), s)
