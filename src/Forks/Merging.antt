-- ===== src/Forks/Merging.antt =====
-- `merge_fork_with_strategy` and `can_merge` of src/fork.rs.
use gitoxide_fs.Base.{
  ℕ, Bool, true, false, not, ◌&&◌, Option, none, some, List, [], ◌∷◌, ◌++◌, is_empty, if◌then◌else◌,
  nat_eq, list_eq,
}
use gitoxide_fs.Base.Text.{Text, Bytes, codes}
use gitoxide_fs.Base.Paths.{path_join, parent}
use gitoxide_fs.Base.Dict.{lookup, insert, contains_key, keys}
use gitoxide_fs.Error.{Error, fork}
use gitoxide_fs.Error.Monad.{Result, ok, err, and_then, Exec, pure, ◌>>=◌, ◌>>◌}
use gitoxide_fs.Config.{Config, MergeStrategy, three_way, ours, theirs, rebase}
use gitoxide_fs.Os.{Os}
use gitoxide_fs.Gix.{Gix}
use gitoxide_fs.Merge.{Snapshot, Merge, MergeConflict, three_way_merge}
use gitoxide_fs.Backend.Refs.{branch_commit_oid, checkout_branch, create_parent_dirs, write_file_of}
use gitoxide_fs.Backend.Commits.{create_merge_commit}
use gitoxide_fs.Backend.History.{tree_at_commit}
use gitoxide_fs.Forks.{
  ForkMetadata, Forks, Json, ForkManager, Manage, find_fork, reads, on_files, on_backend,
  resolve_branch_commit, persist,
}

pub record MergeResult : Type 0 where
  pub commit_id : Text
  pub had_conflicts : Bool
  pub conflicts : List MergeConflict
  pub files_changed : ℕ

-- What a merge looks at: the parent, the two commits, and the three trees.
pub record Sides : Type 0 where
  pub parent_branch : Text
  pub parent_commit : Text
  pub fork_commit : Text
  pub base_tree : Snapshot
  pub parent_tree : Snapshot
  pub fork_tree : Snapshot

unfoldable pub merged_fork : Text → Error
merged_fork name = fork (codes "fork '" ++ (name ++ codes "' has already been merged"))

-- A fork that is not merged yet.
unfoldable pub unmerged : Text → ForkMetadata → Result Error ForkMetadata
unmerged name meta = if meta.merged then err (merged_fork name) else ok meta

abbrev pub merge_sides : Sides → MergeStrategy → Merge
merge_sides s strategy = three_way_merge s.base_tree s.parent_tree s.fork_tree strategy

-- `strategy == MergeStrategy::ThreeWay`
abbrev pub is_three_way : MergeStrategy → Bool
is_three_way three_way = true
is_three_way ours = false
is_three_way theirs = false
is_three_way rebase = false

abbrev pub set_merged : Text → Option ForkMetadata → Forks → Forks
set_merged name none forks = forks
set_merged name (some meta) forks = insert name (record meta { merged = true }) forks

-- `if let Some(meta) = forks.get_mut(name) { meta.merged = true }`
unfoldable pub mark : Text → Forks → Forks
mark name forks = set_merged name (lookup name forks) forks

module _ (O : Os) (G : Gix) (json : Json) (digest : Bytes → Bytes) (config : Config)
    (levels : ℕ) where
  -- The commits and trees of a merge, from the metadata of the fork.
  unfoldable pub sides_of : ForkMetadata → ForkManager O G → Result Error Sides
  sides_of meta f =
      and_then (resolve_branch_commit O G json digest config meta.parent_branch f) (λ parent_commit.
        and_then (branch_commit_oid O config.repo_path meta.branch f.backend.os) (λ fork_commit.
          and_then (tree_at_commit O G levels meta.fork_point f.backend.objects) (λ base_tree.
            and_then (tree_at_commit O G levels parent_commit f.backend.objects) (λ parent_tree.
              and_then (tree_at_commit O G levels fork_commit f.backend.objects) (λ fork_tree.
                ok (record {
                  parent_branch = meta.parent_branch;
                  parent_commit = parent_commit;
                  fork_commit = fork_commit;
                  base_tree = base_tree;
                  parent_tree = parent_tree;
                  fork_tree = fork_tree;
                }))))))

  -- The start that `merge_fork_with_strategy` and `can_merge` have in common.
  unfoldable pub prepare : Text → ForkManager O G → Result Error Sides
  prepare name f =
      and_then (find_fork name f.forks) (λ meta. and_then (unmerged name meta) (λ m. sides_of m f))

  abbrev pub mark_merged : Text → Manage O G json digest config Unit
  mark_merged name f = (ok tt, record f { forks = mark name f.forks })

  -- The fork is merged, on disk too.
  unfoldable pub settle : Text → MergeResult → Manage O G json digest config MergeResult
  settle name result = do mark_merged name; persist O G json digest config; pure result

  -- The loop that writes the merged files.
  unfoldable pub write_merged : Snapshot → Exec O.State Error Unit
  write_merged [] s = (ok tt, s)
  write_merged ((path, content) ∷ rest) s =
      let others = write_merged rest in
      let abs_path = path_join config.repo_path path in
      (create_parent_dirs O (parent abs_path) >> (write_file_of O abs_path content >> others)) s

  abbrev remove_if_there : Text → O.State → O.State
  remove_if_there path s = if O.exists path s then (O.remove_file path s).1 else s

  -- The loop that removes what the merge deleted.
  unfoldable pub remove_deleted : List Text → Snapshot → O.State → O.State
  remove_deleted [] merged s = s
  remove_deleted (path ∷ rest) merged s =
      remove_deleted rest merged (
        if contains_key path merged then s else remove_if_there (path_join config.repo_path path) s)

  abbrev pub remove_files : List Text → Snapshot → Exec O.State Error Unit
  remove_files paths merged s = (ok tt, remove_deleted paths merged s)

  abbrev pub merge_message : Text → Text → Text
  merge_message name parent_branch =
      codes "Merge fork '" ++ (name ++ (codes "' into " ++ parent_branch))

  -- The merge in the working tree, and its commit
  unfoldable pub write_merge : Text → Sides → Merge → Manage O G json digest config Text
  write_merge name s m = do
    on_files O G json digest config (checkout_branch O config.repo_path s.parent_branch)
    on_files O G json digest config (write_merged m.merged)
    on_files O G json digest config (remove_files (keys s.parent_tree) m.merged)
    on_backend O G json digest config (
        create_merge_commit O G digest config s.parent_commit s.fork_commit
          (merge_message name s.parent_branch))

  abbrev pub applied : Merge → Text → MergeResult
  applied m commit_id = record {
    commit_id = commit_id;
    had_conflicts = false;
    conflicts = [];
    files_changed = m.files_changed;
  }

  -- The merge without conflicts to report
  unfoldable pub apply_merge : Text → Sides → Merge → Manage O G json digest config MergeResult
  apply_merge name s m = do commit_id ← write_merge name s m; settle name (applied m commit_id)

  abbrev pub conflicting : Sides → Merge → MergeResult
  conflicting s m = record {
    commit_id = s.parent_commit;
    had_conflicts = true;
    conflicts = m.conflicts;
    files_changed = m.files_changed;
  }

  -- Conflicts are reported by the default strategy; otherwise the merge is applied.
  unfoldable pub conclude :
      Text → MergeStrategy → Sides → Merge → Manage O G json digest config MergeResult
  conclude name strategy s m =
      if not (is_empty m.conflicts) && is_three_way strategy
      then settle name (conflicting s m)
      else apply_merge name s m

  -- `ForkManager::merge_fork_with_strategy`
  unfoldable pub merge_fork_with_strategy :
      Text → MergeStrategy → Manage O G json digest config MergeResult
  merge_fork_with_strategy name strategy = do
    s ← reads O G json digest config (prepare name)
    conclude name strategy s (merge_sides s strategy)

  -- `ForkManager::merge_fork`
  unfoldable pub merge_fork : Text → Manage O G json digest config MergeResult
  merge_fork name = merge_fork_with_strategy name three_way

  -- `ForkManager::can_merge`
  unfoldable pub can_merge : Text → Manage O G json digest config Bool
  can_merge name =
      reads O G json digest config
        (λ f. and_then (prepare name f) (λ s. ok (is_empty (merge_sides s three_way).conflicts)))
