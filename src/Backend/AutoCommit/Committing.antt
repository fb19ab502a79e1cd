-- ===== src/Backend/AutoCommit/Committing.antt =====
-- What `commit_incremental` of src/git.rs does to the writes that wait for a commit: nothing, in any
-- of its steps. So the automatic commits of `write_file` keep them few.
use gitoxide_fs.Base.{
  ℕ, zero, suc, ◌≡◌, refl, ◌∙◌, ap, true, Bool-cases, inl, inr, Option, none, some, List, [], ◌∷◌,
  arith, length, is_empty, ◌==◌, ◌&&◌, ◌||◌, not, nat_eq, list_eq,
}
use gitoxide_fs.Base.Text.{Text, Bytes, codes}
use gitoxide_fs.Base.Dict.{lookup, member}
use gitoxide_fs.Error.{Error, io, IoError}
use gitoxide_fs.Error.Monad.{Result, ok, err, map_err, Exec, continue, ◌>>=◌}
use gitoxide_fs.Config.{Config}
use gitoxide_fs.Os.{Os, EntryType, dir_type, symlink_type, file_type, DirItem}
use gitoxide_fs.Gix.{Gix, EntryKind, TreeEntry, Object}
use gitoxide_fs.Backend.{full_path}
use gitoxide_fs.Backend.State.{Backend, on_disk, or_false, is_ignored, with_os, with_progress}
use gitoxide_fs.Backend.Refs.{update_head_to}
use gitoxide_fs.Backend.Pointers.{maybe_pointerize_content, path_max}
use gitoxide_fs.Backend.Trees.{
  write_entry, link_entry, stored_entry, file_entry, leaf_entry, unignored_entry,
  build_entry_from_workdir, typed_entry, build_items, write_tree, scan_dir, build_tree_levels,
  build_tree_from_workdir, child_path,
}
use gitoxide_fs.Backend.Incremental.{
  entries_of, Previous, rebuild, clean_entry, dirty_entry, incremental_entry, is_dir, is_tree,
  build_incremental_levels, build_tree_incremental, dirty_children, previous_from,
}
use gitoxide_fs.Backend.Commits.{
  commit_of, write_commit_inner, advance, commit_tree, parents_of, guarded_build, incremental_tree,
  commit_incremental,
}
use gitoxide_fs.Backend.AutoCommit.{write_file}
use gitoxide_fs.Backend.AutoCommit.Queue.{IsBelowBatch, write_file-IsBelowBatch}

module _ (O : Os) (G : Gix) where
  -- A run that leaves the waiting writes alone.
  abbrev Waits : {A : Type 0} → Exec (Backend O G) Error A → Type 0
  Waits m = (b : Backend O G) → (m b).1.dirty_files ≡ b.dirty_files

  step :
      {A B : Type 0} (r : Result Error A) (k : A → Exec (Backend O G) Error B) (c : Backend O G)
      → ((a : A) → Waits (k a))
      → (continue r k c).1.dirty_files ≡ c.dirty_files
  step (ok a) k c f = f a c
  step (err e) k c f = refl

  bind :
      {A B : Type 0} (m : Exec (Backend O G) Error A) (k : A → Exec (Backend O G) Error B)
      → Waits m
      → ((a : A) → Waits (k a))
      → Waits (m >>= k)
  bind m k w f b = step (m b).0 k (m b).1 f ∙ w b

module _ (O : Os) (G : Gix) (digest : Bytes → Bytes) (config : Config) where
  write_entry-Waits :
      (kind : Option EntryKind) (name : Text) (x : Object G.ObjectId)
      → Waits O G (write_entry O G digest config kind name x)
  unfolding write_entry
  write_entry-Waits kind name x b = step O G _ _ _ (λ _ _. refl)

  link_entry-Waits :
      (name : Text) (r : Result IoError Text) → Waits O G (link_entry O G digest config name r)
  unfolding link_entry
  link_entry-Waits name (err e) b = refl
  link_entry-Waits name (ok target) b = write_entry-Waits _ name _ b

  stored_entry-Waits :
      (kind : Option EntryKind) (name : Text) (content : Bytes) (r : Result IoError Unit)
      → Waits O G (stored_entry O G digest config kind name content r)
  unfolding stored_entry
  stored_entry-Waits kind name content (err e) b = refl
  stored_entry-Waits kind name content (ok _) b = write_entry-Waits kind name _ b

  file_entry-Waits :
      (kind : Option EntryKind) (name child_rel path : Text) (r : Result IoError Bytes)
      → Waits O G (file_entry O G digest config kind name child_rel path r)
  unfolding file_entry
  file_entry-Waits kind name child_rel path (err e) b = refl
  file_entry-Waits kind name child_rel path (ok content) b =
      step O G _ _ (on_disk O G (maybe_pointerize_content O digest config child_rel content) b).1
        (λ stored c.
          stored_entry-Waits kind name stored (O.write path stored c.os).0
            (with_os O G c (O.write path stored c.os).1))

  leaf_entry-Waits :
      (otherwise : Option EntryKind) (path child_rel : Text) (entry : DirItem) (t : EntryType)
      → Waits O G (leaf_entry O G digest config otherwise path child_rel entry t)
  unfolding leaf_entry
  leaf_entry-Waits otherwise path child_rel entry symlink_type b =
      link_entry-Waits entry.file_name (O.read_link path b.os) b
  leaf_entry-Waits otherwise path child_rel entry dir_type b =
      file_entry-Waits _ entry.file_name child_rel path (O.read path b.os) b
  leaf_entry-Waits otherwise path child_rel entry file_type b =
      file_entry-Waits _ entry.file_name child_rel path (O.read path b.os) b

  unignored_entry-Waits :
      (otherwise : Option EntryKind) (rel_dir child_rel : Text) (entry : DirItem) (t : EntryType)
      → Waits O G (unignored_entry O G digest config otherwise rel_dir child_rel entry t)
  unfolding unignored_entry
  unignored_entry-Waits otherwise rel_dir child_rel entry t b =
      elim (Bool-cases (or_false (is_ignored O config child_rel b.os))) [
        | inl y ↦ rw y refl
        | inr n ↦ rw n (leaf_entry-Waits otherwise _ child_rel entry t b)
      ]

  typed_entry-Waits :
      (below : Text → Exec (Backend O G) Error G.ObjectId)
      → ((path : Text) → Waits O G (below path))
      → (rel_dir : Text) (entry : DirItem) (t : Result IoError EntryType)
      → Waits O G (typed_entry O G digest config below rel_dir entry t)
  unfolding typed_entry
  typed_entry-Waits below w rel_dir entry (err e) b = refl
  typed_entry-Waits below w rel_dir entry (ok dir_type) b =
      bind O G (below (child_path rel_dir entry.file_name)) _ (w _) (λ _ _. refl) b
  typed_entry-Waits below w rel_dir entry (ok symlink_type) b =
      unignored_entry-Waits none rel_dir _ entry symlink_type b
  typed_entry-Waits below w rel_dir entry (ok file_type) b =
      unignored_entry-Waits none rel_dir _ entry file_type b

  module _ (item : DirItem → Exec (Backend O G) Error (Option (TreeEntry G.ObjectId)))
      (w : (entry : DirItem) → Waits O G (item entry)) where
    build_items-Waits :
        (items : List (Result IoError DirItem))
        → Waits O G (build_items O G digest config item items)
    unfolding build_items
    build_items-Waits [] b = refl
    build_items-Waits (err e ∷ rest) b = build_items-Waits rest b
    build_items-Waits (ok entry ∷ rest) b = elim (Bool-cases (entry.file_name == codes ".git")) [
      | inl y ↦ rw y (build_items-Waits rest b)
      | inr n ↦ rw n (
          bind O G (item entry) _ (w entry)
            (λ made.
              bind O G (build_items O G digest config item rest) _ (build_items-Waits rest)
                (λ _ _. refl))
            b)
    ]

    scan_dir-Waits : (abs_dir : Text) → Waits O G (scan_dir O G digest config item abs_dir)
    unfolding scan_dir
    scan_dir-Waits abs_dir b =
        elim (Bool-cases (not (O.exists abs_dir b.os) || not (O.is_dir abs_dir b.os))) [
          | inl y ↦ rw y refl
          | inr n ↦ rw n (
              step O G (map_err io (O.read_dir abs_dir b.os)) _ b (λ items.
                bind O G (build_items O G digest config item items) (write_tree O G digest config)
                  (build_items-Waits items) (λ _ _. refl)))
        ]

  build_tree_levels-Waits :
      (levels : ℕ) (rel_dir : Text) → Waits O G (build_tree_levels O G digest config levels rel_dir)
  unfolding build_tree_levels
  build_tree_levels-Waits zero rel_dir b = refl
  build_tree_levels-Waits (suc levels) rel_dir b =
      scan_dir-Waits _
        (λ entry.
          typed_entry-Waits (build_tree_levels O G digest config levels)
            (build_tree_levels-Waits levels) rel_dir entry entry.entry_type)
        (full_path config rel_dir) b

  module _ (rel_dir : Text) (levels : ℕ) (entry : DirItem) where
    rebuild-Waits : (t : EntryType) → Waits O G (rebuild O G digest config rel_dir levels entry t)
    unfolding rebuild build_entry_from_workdir
    rebuild-Waits dir_type b =
        bind O G (build_tree_levels O G digest config levels (child_path rel_dir entry.file_name)) _
          (build_tree_levels-Waits levels _) (λ _ _. refl) b
    rebuild-Waits symlink_type b = unignored_entry-Waits _ rel_dir _ entry symlink_type b
    rebuild-Waits file_type b = unignored_entry-Waits _ rel_dir _ entry file_type b

    clean_entry-Waits :
        (o : Option (EntryKind × G.ObjectId)) (t : EntryType)
        → Waits O G (clean_entry O G digest config rel_dir levels entry o t)
    unfolding clean_entry
    clean_entry-Waits none t b = rebuild-Waits t b
    clean_entry-Waits (some (kind, oid)) t b =
        elim (Bool-cases (is_tree kind && is_dir t || not (is_tree kind) && not (is_dir t))) [
          | inl y ↦ rw y refl
          | inr n ↦ rw n (rebuild-Waits t b)
        ]

    module _ (below : Text → G.ObjectId → Exec (Backend O G) Error G.ObjectId)
        (w : (path : Text) (oid : G.ObjectId) → Waits O G (below path oid)) where
      dirty_entry-Waits :
          (o : Option (EntryKind × G.ObjectId)) (t : EntryType)
          → Waits O G (dirty_entry O G digest config rel_dir levels entry below o t)
      unfolding dirty_entry
      dirty_entry-Waits none t b = rebuild-Waits t b
      dirty_entry-Waits (some (kind, oid)) t b = elim (Bool-cases (is_dir t && is_tree kind)) [
        | inl y ↦
            rw y (
              bind O G (below (child_path rel_dir entry.file_name) oid) _ (w _ oid) (λ _ _. refl) b)
        | inr n ↦ rw n (rebuild-Waits t b)
      ]

      incremental_entry-Waits :
          (dirty : List Text) (previous : Previous O G) (t : Result IoError EntryType)
          → Waits O G
              (incremental_entry O G digest config rel_dir levels entry below dirty previous t)
      unfolding incremental_entry
      incremental_entry-Waits dirty previous (err e) b = refl
      incremental_entry-Waits dirty previous (ok t) b =
          elim (Bool-cases (member dirty entry.file_name)) [
            | inl y ↦ rw y (dirty_entry-Waits (lookup entry.file_name previous) t b)
            | inr n ↦ rw n (clean_entry-Waits (lookup entry.file_name previous) t b)
          ]

  build_incremental_levels-Waits :
      (levels : ℕ) (rel_dir : Text) (dirty_paths : List Text) (prev_tree_id : G.ObjectId)
      → Waits O G
          (build_incremental_levels O G digest config levels rel_dir dirty_paths prev_tree_id)
  unfolding build_incremental_levels
  build_incremental_levels-Waits zero rel_dir dirty_paths prev_tree_id b = refl
  build_incremental_levels-Waits (suc levels) rel_dir dirty_paths prev_tree_id b =
      step O G (entries_of O G (G.find_object prev_tree_id b.objects)) _ b (λ entries.
        scan_dir-Waits _
          (λ entry.
            incremental_entry-Waits rel_dir levels entry _
              (λ path oid. build_incremental_levels-Waits levels path dirty_paths oid)
              (dirty_children rel_dir dirty_paths) (previous_from O G [] entries) entry.entry_type)
          (full_path config rel_dir))

  incremental_tree-Waits :
      (dirty_paths : List Text) (parents : List G.ObjectId)
      → Waits O G (incremental_tree O G digest config dirty_paths parents)
  unfolding incremental_tree build_tree_from_workdir build_tree_incremental
  incremental_tree-Waits dirty_paths [] b = build_tree_levels-Waits path_max [] b
  incremental_tree-Waits dirty_paths (parent ∷ ps) b = elim (Bool-cases (is_empty dirty_paths)) [
    | inl y ↦ rw y (build_tree_levels-Waits path_max [] b)
    | inr n ↦ rw n (
        step O G (commit_of O G (G.find_object parent b.objects)) _ b
          (λ c. build_incremental_levels-Waits path_max [] dirty_paths c.tree))
  ]

  commit_tree-Waits :
      (parents : List G.ObjectId) (message : Text) (tree_id : G.ObjectId)
      → Waits O G (commit_tree O G digest config parents message tree_id)
  unfolding commit_tree write_commit_inner advance
  commit_tree-Waits parents message tree_id =
      bind O G (write_commit_inner O G digest config tree_id parents message) _ (λ b. refl)
        (λ id.
          bind O G (on_disk O G (update_head_to O G config.repo_path id)) _ (λ b. refl)
            (λ _ _. refl))

  -- Taking the tree and writing the commit leave the waiting writes alone.
  commit_incremental-Waits :
      (message : Text) (dirty_paths : List Text)
      → Waits O G (commit_incremental O G digest config message dirty_paths)
  unfolding commit_incremental
  commit_incremental-Waits message dirty_paths b =
      let build = incremental_tree O G digest config dirty_paths (parents_of O G digest config b) in
      bind O G (guarded_build O G digest config build) _
        (λ c.
          incremental_tree-Waits dirty_paths (parents_of O G digest config b)
            (with_progress O G c true))
        (commit_tree-Waits (parents_of O G digest config b) message) b

  -- `write_file`, which commits by `commit_incremental`, keeps the writes that wait for a commit few,
  -- whether it and the commit succeed or fail: none waits afterwards when there is no debounce, and
  -- fewer than `max_batch_size` wait when that is positive, if this was so before.
  pub write_file-IsBounded :
      (path : Text) (content : Bytes) (b : Backend O G)
      → let commit = commit_incremental O G digest config in
        IsBelowBatch O G config digest commit b
        → IsBelowBatch O G config digest commit
            (write_file O G config digest commit path content b).1
  write_file-IsBounded path content b v =
      write_file-IsBelowBatch O G config digest (commit_incremental O G digest config)
        (λ message files c. omega (arith, ap length (commit_incremental-Waits message files c)))
        path content b v
