-- ===== src/Backend/Trees/Naming.antt =====
-- The names of the entries that the trees of src/git.rs are built of.
use mathlib.Core.Path.{subst}
use gitoxide_fs.Base.{◌≡◌, refl, Bool-cases, inl, inr, Option, none, some, nat_eq, list_eq}
use gitoxide_fs.Base.Text.{Text, Bytes}
use gitoxide_fs.Error.{Error, git, IoError}
use gitoxide_fs.Error.Monad.{Result, ok, err, map_err}
use gitoxide_fs.Error.Runs.{outcomes}
use gitoxide_fs.Config.{Config}
use gitoxide_fs.Os.{Os, DirItem, EntryType, dir_type, symlink_type, file_type}
use gitoxide_fs.Gix.{Gix, TreeEntry, Object, EntryKind}
use gitoxide_fs.Backend.State.{Backend, with_objects}
use gitoxide_fs.Backend.Trees.{
  Build, write_entry, entry_of, link_entry, stored_entry, file_entry, leaf_entry, unignored_entry,
  subtree_entry, typed_entry,
}
use gitoxide_fs.Gix.{link_kind, blob_object}
use gitoxide_fs.Base.Utf8.{encode}
use gitoxide_fs.Base.Paths.{path_join}
use gitoxide_fs.Backend.State.{on_disk, with_os, or_false, is_ignored}
use gitoxide_fs.Backend.Pointers.{maybe_pointerize_content}
use gitoxide_fs.Backend.{full_path}
use gitoxide_fs.Backend.Trees.{write_back, kind_of, child_path, tree_entry}

module _ (O : Os) (G : Gix) (digest : Bytes → Bytes) (config : Config) where
  -- An entry, if there is one, has the name.
  abbrev pub IsNamed : Text → Option (TreeEntry G.ObjectId) → Type 0
  IsNamed name none = Unit
  IsNamed name (some e) = e.filename ≡ name

  abbrev pub Names : Text → Build O G digest config (Option (TreeEntry G.ObjectId)) → Type 0
  Names name m =
      (b : Backend O G) (o : Option (TreeEntry G.ObjectId)) → (m b).0 ≡ ok o → IsNamed name o

  -- What a run that returns `o'` names
  returned :
      (name : Text) (o o' : Option (TreeEntry G.ObjectId))
      (r : Result Error (Option (TreeEntry G.ObjectId)))
      → IsNamed name o'
      → r ≡ ok o'
      → r ≡ ok o
      → IsNamed name o
  returned name o o' r n e h = let same : o' ≡ o = cc in subst (IsNamed name) same n

  entry_of-IsNamed :
      (kind : Option EntryKind) (name : Text) (oid : G.ObjectId)
      → IsNamed name (entry_of O G digest config kind name oid)
  entry_of-IsNamed none name oid = tt
  entry_of-IsNamed (some kind) name oid = refl

  write_entry-Names :
      (kind : Option EntryKind) (name : Text) (x : Object G.ObjectId)
      → Names name (write_entry O G digest config kind name x)
  unfolding write_entry
  write_entry-Names kind name x b o =
      outcomes (map_err git (G.write_object x b.objects).0)
        (λ oid c. (ok (entry_of O G digest config kind name oid), c))
        (with_objects O G b (G.write_object x b.objects).1) (λ q. q.0 ≡ ok o → IsNamed name o)
        (λ oid _ h.
          returned name o (entry_of O G digest config kind name oid)
            (ok (entry_of O G digest config kind name oid)) (entry_of-IsNamed kind name oid) refl h)
        (λ e _ h. cc)

  nothing-Names : (name : Text) → Names name (λ b. (ok none, b))
  nothing-Names name b o h = returned name o none (ok none) tt refl h

  link_entry-Names :
      (name : Text) (r : Result IoError Text) → Names name (link_entry O G digest config name r)
  unfolding link_entry
  link_entry-Names name (err e) = nothing-Names name
  link_entry-Names name (ok target) =
      write_entry-Names (some link_kind) name (blob_object (encode target))

  stored_entry-Names :
      (kind : Option EntryKind) (name : Text) (content : Bytes) (r : Result IoError Unit)
      → Names name (stored_entry O G digest config kind name content r)
  unfolding stored_entry
  stored_entry-Names kind name content (err e) = nothing-Names name
  stored_entry-Names kind name content (ok _) = write_entry-Names kind name (blob_object content)

  file_entry-Names :
      (kind : Option EntryKind) (name child_rel path : Text) (r : Result IoError Bytes)
      → Names name (file_entry O G digest config kind name child_rel path r)
  unfolding file_entry
  file_entry-Names kind name child_rel path (err e) b o = nothing-Names name b o
  file_entry-Names kind name child_rel path (ok content) b o =
      let formed = on_disk O G (maybe_pointerize_content O digest config child_rel content) b in
      outcomes formed.0 (λ stored. write_back O G digest config kind name path stored) formed.1
        (λ q. q.0 ≡ ok o → IsNamed name o)
        (λ stored _.
          stored_entry-Names kind name stored (O.write path stored formed.1.os).0
            (with_os O G formed.1 (O.write path stored formed.1.os).1) o)
        (λ e _ h. cc)

  leaf_entry-Names :
      (otherwise : Option EntryKind) (path child_rel : Text) (entry : DirItem) (t : EntryType)
      → Names entry.file_name (leaf_entry O G digest config otherwise path child_rel entry t)
  unfolding leaf_entry
  leaf_entry-Names otherwise path child_rel entry symlink_type b =
      link_entry-Names entry.file_name (O.read_link path b.os) b
  leaf_entry-Names otherwise path child_rel entry dir_type b =
      file_entry-Names (kind_of otherwise entry.metadata) entry.file_name child_rel path
        (O.read path b.os) b
  leaf_entry-Names otherwise path child_rel entry file_type b =
      file_entry-Names (kind_of otherwise entry.metadata) entry.file_name child_rel path
        (O.read path b.os) b

  unignored_entry-Names :
      (otherwise : Option EntryKind) (rel_dir child_rel : Text) (entry : DirItem) (t : EntryType)
      → Names entry.file_name
          (unignored_entry O G digest config otherwise rel_dir child_rel entry t)
  unfolding unignored_entry
  unignored_entry-Names otherwise rel_dir child_rel entry t b o =
      elim (Bool-cases (or_false (is_ignored O config child_rel b.os))) [
        | inl y ↦ rw y (nothing-Names entry.file_name b o)
        | inr n ↦ rw n (
            leaf_entry-Names otherwise (path_join (full_path config rel_dir) entry.file_name)
              child_rel entry t b o)
      ]

  subtree_entry-Names :
      (below : Text → Build O G digest config G.ObjectId) (name child_rel : Text)
      → Names name (subtree_entry O G digest config below name child_rel)
  subtree_entry-Names below name child_rel b o =
      outcomes (below child_rel b).0 (λ oid c. (ok (tree_entry O G digest config name oid), c))
        (below child_rel b).1 (λ q. q.0 ≡ ok o → IsNamed name o)
        (λ oid _ h.
          returned name o (tree_entry O G digest config name oid)
            (ok (tree_entry O G digest config name oid)) refl refl h)
        (λ e _ h. cc)

  pub typed_entry-Names :
      (below : Text → Build O G digest config G.ObjectId) (rel_dir : Text) (entry : DirItem)
      (t : Result IoError EntryType)
      → Names entry.file_name (typed_entry O G digest config below rel_dir entry t)
  unfolding typed_entry
  typed_entry-Names below rel_dir entry (err e) = nothing-Names entry.file_name
  typed_entry-Names below rel_dir entry (ok dir_type) =
      subtree_entry-Names below entry.file_name (child_path rel_dir entry.file_name)
  typed_entry-Names below rel_dir entry (ok symlink_type) =
      unignored_entry-Names none rel_dir (child_path rel_dir entry.file_name) entry symlink_type
  typed_entry-Names below rel_dir entry (ok file_type) =
      unignored_entry-Names none rel_dir (child_path rel_dir entry.file_name) entry file_type
