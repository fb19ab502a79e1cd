-- ===== src/Backend/Trees.antt =====
-- `build_tree_from_workdir` and `build_entry_from_workdir` of src/git.rs: the tree of the working
-- directory as objects of git.
pub mod Naming
pub mod Clean
use gitoxide_fs.Base.{
  ℕ, zero, suc, ◌/◌, ◌%◌, Bool, ◌||◌, not, Option, none, some, List, [], ◌∷◌, ◌++◌, is_empty,
  nat_eqb, if◌then◌else◌, ◌==◌, nat_eq, list_eq,
}
use gitoxide_fs.Base.Text.{Text, Bytes, codes}
use gitoxide_fs.Base.Paths.{path_join}
use gitoxide_fs.Base.Sort.{sort_with}
use gitoxide_fs.Base.Utf8.{encode}
use gitoxide_fs.Error.{Error, io, IoError}
use gitoxide_fs.Error.Monad.{Result, ok, err, map_err, Exec, pure, continue, ◌>>=◌}
use gitoxide_fs.Config.{Config}
use gitoxide_fs.Os.{Os, EntryType, dir_type, symlink_type, file_type, DirItem, Metadata}
use gitoxide_fs.Gix.{
  Gix, Object, blob_object, tree_object, TreeEntry, EntryKind, tree_kind, blob_kind,
  executable_kind, link_kind,
}
use gitoxide_fs.Backend.{full_path}
use gitoxide_fs.Backend.Pointers.{maybe_pointerize_content, path_max}
use gitoxide_fs.Backend.State.{Backend, with_os, on_disk, write_object, or_false, is_ignored}

-- `mode & 0o111 != 0`
unfoldable pub is_executable : ℕ → Bool
is_executable mode =
    not (nat_eqb (mode % 2) 0) || not (nat_eqb (mode / 8 % 2) 0) || not (nat_eqb (mode / 64 % 2) 0)

unfoldable pub file_kind : ℕ → EntryKind
file_kind mode = if is_executable mode then executable_kind else blob_kind

-- The kind of a file, from its metadata; otherwise what the caller does without them.
abbrev pub kind_of : Option EntryKind → Result IoError Metadata → Option EntryKind
kind_of otherwise (ok m) = some (file_kind m.mode)
kind_of otherwise (err e) = otherwise

-- The path of an entry from the root of the working directory.
abbrev pub child_path : Text → Text → Text
child_path rel_dir name = if is_empty rel_dir then name else rel_dir ++ (codes "/" ++ name)

module _ (O : Os) (G : Gix) (digest : Bytes → Bytes) (config : Config) where
  abbrev pub Entry : Type 0
  Entry = TreeEntry G.ObjectId

  abbrev pub Build : Type 0 → Type 0
  Build A = Exec (Backend O G) Error A

  abbrev entry_of : Option EntryKind → Text → G.ObjectId → Option Entry
  entry_of none name oid = none
  entry_of (some kind) name oid = some (record { kind = kind; filename = name; oid = oid })

  -- Writes the object of an entry.
  unfoldable pub write_entry : Option EntryKind → Text → Object G.ObjectId → Build (Option Entry)
  write_entry kind name x = do oid ← write_object O G x; pure (entry_of kind name oid)

  -- A symbolic link, unless it vanished.
  unfoldable pub link_entry : Text → Result IoError Text → Build (Option Entry)
  link_entry name (err e) b = (ok none, b)
  link_entry name (ok target) b = write_entry (some link_kind) name (blob_object (encode target)) b

  -- A file whose content was written back.
  unfoldable pub stored_entry :
      Option EntryKind → Text → Bytes → Result IoError Unit → Build (Option Entry)
  stored_entry kind name content (err e) b = (ok none, b)
  stored_entry kind name content (ok _) b = write_entry kind name (blob_object content) b

  abbrev write_back : Option EntryKind → Text → Text → Bytes → Build (Option Entry)
  write_back kind name path content b =
      stored_entry kind name content (O.write path content b.os).0
        (with_os O G b (O.write path content b.os).1)

  -- A file, unless it vanished.
  unfoldable pub file_entry :
      Option EntryKind → Text → Text → Text → Result IoError Bytes → Build (Option Entry)
  file_entry kind name child_rel path (err e) b = (ok none, b)
  file_entry kind name child_rel path (ok content) b =
      (on_disk O G (maybe_pointerize_content O digest config child_rel content) >>= λ stored.
      write_back kind name path stored)
        b

  -- What is no directory; `otherwise` is the kind of a file without metadata.
  unfoldable pub leaf_entry :
      Option EntryKind → Text → Text → DirItem → EntryType → Build (Option Entry)
  leaf_entry otherwise path child_rel entry symlink_type b =
      link_entry entry.file_name (O.read_link path b.os) b
  leaf_entry otherwise path child_rel entry dir_type b =
      file_entry (kind_of otherwise entry.metadata) entry.file_name child_rel path
        (O.read path b.os) b
  leaf_entry otherwise path child_rel entry file_type b =
      file_entry (kind_of otherwise entry.metadata) entry.file_name child_rel path
        (O.read path b.os) b

  -- The same for what is not ignored; `build_entry_from_workdir` with the kind of a plain file.
  unfoldable pub unignored_entry :
      Option EntryKind → Text → Text → DirItem → EntryType → Build (Option Entry)
  unignored_entry otherwise rel_dir child_rel entry t b =
      if or_false (is_ignored O config child_rel b.os)
      then (ok none, b)
      else leaf_entry otherwise (path_join (full_path config rel_dir) entry.file_name) child_rel
          entry t b

  unfoldable pub build_entry_from_workdir : Text → Text → DirItem → EntryType → Build (Option Entry)
  build_entry_from_workdir = unignored_entry (some blob_kind)

  abbrev pub tree_entry : Text → G.ObjectId → Option Entry
  tree_entry name oid = some (record { kind = tree_kind; filename = name; oid = oid })

  -- A directory, by the recursive call.
  abbrev pub subtree_entry : (Text → Build G.ObjectId) → Text → Text → Build (Option Entry)
  subtree_entry below name child_rel = do oid ← below child_rel; pure (tree_entry name oid)

  unfoldable pub typed_entry :
      (Text → Build G.ObjectId) → Text → DirItem → Result IoError EntryType → Build (Option Entry)
  typed_entry below rel_dir entry (err e) b = (ok none, b)
  typed_entry below rel_dir entry (ok dir_type) b =
      subtree_entry below entry.file_name (child_path rel_dir entry.file_name) b
  typed_entry below rel_dir entry (ok symlink_type) b =
      unignored_entry none rel_dir (child_path rel_dir entry.file_name) entry symlink_type b
  typed_entry below rel_dir entry (ok file_type) b =
      unignored_entry none rel_dir (child_path rel_dir entry.file_name) entry file_type b

  abbrev pub cons_entry : Option Entry → List Entry → List Entry
  cons_entry none entries = entries
  cons_entry (some e) entries = e ∷ entries

  -- The loop over a directory; `item` makes one entry.
  unfoldable pub build_items :
      (DirItem → Build (Option Entry)) → List (Result IoError DirItem) → Build (List Entry)
  build_items item [] b = (ok [], b)
  build_items item (err e ∷ rest) b = build_items item rest b
  build_items item (ok entry ∷ rest) b =
      let others = build_items item rest in
      if entry.file_name == codes ".git"
      then others b
      else (item entry >>= λ made. others >>= λ entries. pure (cons_entry made entries)) b

  abbrev pub write_tree : List Entry → Build G.ObjectId
  write_tree entries = write_object O G (tree_object (sort_with G.entry_leb entries))

  -- The entries of the directory, if it is one, and its tree.
  unfoldable pub scan_dir : (DirItem → Build (Option Entry)) → Text → Build G.ObjectId
  scan_dir item abs_dir b =
      if not (O.exists abs_dir b.os) || not (O.is_dir abs_dir b.os)
      then write_object O G (tree_object []) b
      else continue (map_err io (O.read_dir abs_dir b.os))
          (λ items. build_items item items >>= write_tree) b

  -- `build_tree_from_workdir`, for at most so many levels of directories
  unfoldable pub build_tree_levels : ℕ → Text → Build G.ObjectId
  build_tree_levels zero rel_dir = write_object O G (tree_object [])
  build_tree_levels (suc levels) rel_dir =
      let below = build_tree_levels levels in
      scan_dir (λ entry. typed_entry below rel_dir entry entry.entry_type)
        (full_path config rel_dir)

  unfoldable pub build_tree_from_workdir : Text → Build G.ObjectId
  build_tree_from_workdir = build_tree_levels path_max
