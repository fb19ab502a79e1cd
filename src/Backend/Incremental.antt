-- ===== src/Backend/Incremental.antt =====
-- `build_tree_incremental` of src/git.rs: the tree of the working directory, with what a previous
-- tree has for the entries that are not dirty.
use gitoxide_fs.Base.{
  ℕ, zero, suc, Bool, true, false, ◌||◌, ◌&&◌, not, Option, none, some, List, [], ◌∷◌, ◌++◌,
  is_empty, if◌then◌else◌, nat_eq, list_eq,
}
use gitoxide_fs.Base.Text.{Text, Bytes, codes, slash, split, strip_prefix}
use gitoxide_fs.Base.Dict.{Dict, lookup, insert, member}
use gitoxide_fs.Error.{Error, git, IoError}
use gitoxide_fs.Error.Monad.{Result, ok, err, continue}
use gitoxide_fs.Config.{Config}
use gitoxide_fs.Os.{Os, EntryType, dir_type, symlink_type, file_type, DirItem}
use gitoxide_fs.Gix.{
  Gix, Object, blob_object, tree_object, commit_object, TreeEntry, EntryKind, tree_kind, blob_kind,
  executable_kind, link_kind, commit_kind,
}
use gitoxide_fs.Backend.{full_path}
use gitoxide_fs.Backend.Pointers.{path_max}
use gitoxide_fs.Backend.State.{write_object}
use gitoxide_fs.Backend.Trees.{
  Build, Entry, build_tree_levels, build_entry_from_workdir, subtree_entry, child_path, scan_dir,
}

-- The first component of a path.
abbrev first_of : List Text → Text
first_of [] = []
first_of (w ∷ ws) = w

abbrev child_of : Option Text → List Text
child_of none = []
child_of (some suffix) = first_of (split slash suffix) ∷ []

-- The names of the entries of a directory that are dirty, or hold what is. The prefix of the root
-- is empty, which every path has.
unfoldable pub dirty_children : Text → List Text → List Text
dirty_children rel_dir [] = []
dirty_children rel_dir (path ∷ rest) =
    child_of (strip_prefix path (if is_empty rel_dir then [] else rel_dir ++ codes "/"))
    ++ dirty_children rel_dir rest

-- `EntryMode::is_tree`
unfoldable pub is_tree : EntryKind → Bool
is_tree tree_kind = true
is_tree blob_kind = false
is_tree executable_kind = false
is_tree link_kind = false
is_tree commit_kind = false

abbrev pub is_dir : EntryType → Bool
is_dir dir_type = true
is_dir symlink_type = false
is_dir file_type = false

abbrev same_type : EntryKind → EntryType → Bool
same_type kind t = is_tree kind && is_dir t || not (is_tree kind) && not (is_dir t)

module _ (O : Os) (G : Gix) where
  -- The entries of an object that is a tree.
  unfoldable pub entries_of :
      Result Text (Object G.ObjectId) → Result Error (List (TreeEntry G.ObjectId))
  entries_of (err e) = err (git e)
  entries_of (ok (tree_object entries)) = ok entries
  entries_of (ok (blob_object content)) = err (git G.not_a_tree)
  entries_of (ok (commit_object c)) = err (git G.not_a_tree)

  abbrev pub Previous : Type 0
  Previous = Dict Text (EntryKind × G.ObjectId)

  -- The map of the previous entries: a later one of the same name replaces the one before.
  unfoldable pub previous_from : Previous → List (TreeEntry G.ObjectId) → Previous
  previous_from found [] = found
  previous_from found (e ∷ rest) = previous_from (insert e.filename (e.kind, e.oid) found) rest

  module _ (digest : Bytes → Bytes) (config : Config) where
    module _ (rel_dir : Text) (levels : ℕ) (entry : DirItem) where
      abbrev child : Text
      child = child_path rel_dir entry.file_name

      -- What is new, or has another type than before, or is a dirty file.
      unfoldable pub rebuild :
          EntryType → Build O G digest config (Option (Entry O G digest config))
      rebuild dir_type =
          subtree_entry O G digest config (build_tree_levels O G digest config levels)
            entry.file_name child
      rebuild symlink_type =
          build_entry_from_workdir O G digest config rel_dir child entry symlink_type
      rebuild file_type = build_entry_from_workdir O G digest config rel_dir child entry file_type

      unfoldable pub clean_entry :
          Option (EntryKind × G.ObjectId)
          → EntryType
          → Build O G digest config (Option (Entry O G digest config))
      clean_entry none t b = rebuild t b
      clean_entry (some (kind, oid)) t b =
          if same_type kind t
          then (ok (some (record { kind = kind; filename = entry.file_name; oid = oid })), b)
          else rebuild t b

      -- `below` is the recursive call, from a tree of the previous commit.
      unfoldable pub dirty_entry :
          (Text → G.ObjectId → Build O G digest config G.ObjectId)
          → Option (EntryKind × G.ObjectId)
          → EntryType
          → Build O G digest config (Option (Entry O G digest config))
      dirty_entry below none t b = rebuild t b
      dirty_entry below (some (kind, oid)) t b =
          if is_dir t && is_tree kind
          then subtree_entry O G digest config (λ path. below path oid) entry.file_name child b
          else rebuild t b

      unfoldable pub incremental_entry :
          (Text → G.ObjectId → Build O G digest config G.ObjectId)
          → List Text
          → Previous
          → Result IoError EntryType
          → Build O G digest config (Option (Entry O G digest config))
      incremental_entry below dirty previous (err e) b = (ok none, b)
      incremental_entry below dirty previous (ok t) b =
          if member dirty entry.file_name
          then dirty_entry below (lookup entry.file_name previous) t b
          else clean_entry (lookup entry.file_name previous) t b

    -- `build_tree_incremental`, for at most so many levels of directories
    unfoldable pub build_incremental_levels :
        ℕ → Text → List Text → G.ObjectId → Build O G digest config G.ObjectId
    build_incremental_levels zero rel_dir dirty_paths prev_tree_id b =
        write_object O G (tree_object []) b
    build_incremental_levels (suc levels) rel_dir dirty_paths prev_tree_id b =
        let below = λ (path : Text) (oid : G.ObjectId).
          build_incremental_levels levels path dirty_paths oid in
        continue (entries_of (G.find_object prev_tree_id b.objects))
          (λ entries.
            scan_dir O G digest config
              (λ entry.
                incremental_entry rel_dir levels entry below (dirty_children rel_dir dirty_paths)
                  (previous_from [] entries) entry.entry_type)
              (full_path config rel_dir))
          b

    unfoldable pub build_tree_incremental :
        Text → List Text → G.ObjectId → Build O G digest config G.ObjectId
    build_tree_incremental = build_incremental_levels path_max
