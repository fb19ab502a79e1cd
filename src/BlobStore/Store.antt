-- ===== src/BlobStore/Store.antt =====
-- `BlobStore` of src/blobstore.rs on the file system. `digest` is SHA-256 of the crate `sha2`, and
-- `root` the directory of the store.
use mathlib.Core.List.{reverse}
use gitoxide_fs.Base.{
  ℕ, ◌+◌, ◌-◌, ◌/◌, ◌%◌, ◌^◌, Bool, Option, none, some, List, [], ◌∷◌, ◌++◌, length, take, drop,
  ltb, if◌then◌else◌,
}
use gitoxide_fs.Base.Text.{Text, Bytes, codes, join}
use gitoxide_fs.Base.Paths.{path_join, parent, components, is_absolute, same_path}
use gitoxide_fs.Error.{
  Error, io, not_found, IoError, not_found_kind, directory_not_empty_kind, other_kind,
}
use gitoxide_fs.Error.Monad.{Result, ok, err, map_err, Exec, pure, ◌>>◌}
use gitoxide_fs.Os.{Os}
use gitoxide_fs.BlobStore.Pointer.{PointerFile}

hex_char : ℕ → ℕ
hex_char d = if ltb d 10 then b'0' + d else b'a' + (d - 10)

-- `{byte:02x}` of every byte
unfoldable pub hex : Bytes → Text
unfolding hex_char
hex [] = []
hex (b ∷ bs) = hex_char (b / 16) ∷ hex_char (b % 16) ∷ hex bs

-- `BlobStore::hash_bytes`
unfoldable pub hash_bytes : (Bytes → Bytes) → Bytes → Text
unfolding hex
hash_bytes digest content = hex (digest content)

-- `BlobStore::blob_path`; the hash is 64 digits, so the slices are in range.
unfoldable pub blob_path : Text → Text → Text
unfolding path_join
blob_path root sha256 =
    path_join (path_join (path_join root (take 2 sha256)) (take 2 (drop 2 sha256))) sha256

render : Bool → List Text → Text
unfolding join
render absolute cs = (if absolute then codes "/" else []) ++ join (codes "/") cs

-- A path and its parents, from the components in reverse.
ancestors_from : Bool → List Text → List Text
unfolding render
ancestors_from absolute [] = render absolute [] ∷ []
ancestors_from absolute (c ∷ cs) = render absolute (reverse (c ∷ cs)) ∷ ancestors_from absolute cs

unfoldable pub ancestors : Option Text → List Text
unfolding ancestors_from is_absolute components
ancestors none = []
ancestors (some path) = ancestors_from (is_absolute path) (reverse (components path))

unfoldable pub not_found_or_io : Text → IoError → Error
not_found_or_io message e = elim e.kind [ not_found_kind ↦ not_found message | _ ↦ io e ]

module _ (O : Os) where
  -- What a failed or successful `remove_dir` means for the loop: go on, stop, or fail.
  prune_result : Result IoError Unit → Option (Result Error Unit)
  prune_result (ok _) = none
  prune_result (err e) = elim e.kind [
    | not_found_kind ↦ none
    | directory_not_empty_kind ↦ some (ok tt)
    | other_kind ↦ some (err (io e))
  ]

  -- `BlobStore::prune_empty_parents`, over the parents that `current` runs through.
  unfoldable pub prune_empty_parents : Text → List Text → Exec O.State Error Unit
  unfolding prune_result same_path
  prune_empty_parents root [] s = (ok tt, s)
  prune_empty_parents root (path ∷ rest) s =
      let (r, s') = O.remove_dir path s in
      let others = prune_empty_parents root rest s' in
      if same_path path root
      then (ok tt, s)
      else elim (prune_result r) [ none ↦ others | some out ↦ (out, s') ]

  delete_result : Text → Text → Result IoError Unit → Exec O.State Error Unit
  unfolding prune_empty_parents ancestors
  delete_result root path (ok _) s = prune_empty_parents root (ancestors (parent path)) s
  delete_result root path (err e) s = elim e.kind [
    | not_found_kind ↦ (ok tt, s)
    | _ ↦ (err (io e), s)
  ]

  -- `BlobStore::delete_blob`
  unfoldable pub delete_blob : Text → Text → Exec O.State Error Unit
  unfolding delete_result blob_path parent
  delete_blob root sha256 s =
      let path = blob_path root sha256 in
      let (r, s') = O.remove_file path s in delete_result root path r s'

  -- `BlobStore::read_blob`
  unfoldable pub read_blob : Text → Text → O.State → Result Error Bytes
  read_blob root sha256 s =
      map_err (not_found_or_io (codes "blob '" ++ (sha256 ++ codes "' not found")))
        (O.read (blob_path root sha256) s)

  -- `fs::create_dir_all(parent)?`
  unfoldable pub create_parent : Option Text → Exec O.State Error Unit
  create_parent none s = (ok tt, s)
  create_parent (some d) s = (map_err io (O.create_dir_all d s).0, (O.create_dir_all d s).1)

  -- the write of a blob that is not there yet
  unfoldable pub write_new : Text → Bytes → Exec O.State Error Unit
  write_new path content s =
      if O.exists path s
      then (ok tt, s)
      else (map_err io (O.write path content s).0, (O.write path content s).1)

  -- `BlobStore::store_bytes`
  unfoldable pub store_bytes :
      (Bytes → Bytes) → Text → Text → Bytes → Exec O.State Error PointerFile
  store_bytes digest root original_name content = do
    let sha256 = hash_bytes digest content
    let path = blob_path root sha256
    create_parent (parent path)
    write_new path content
    pure (record { sha256 = sha256; size = length content % 2 ^ 64; original = original_name })
