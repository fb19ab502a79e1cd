-- ===== src/Tests/Forked.antt =====
-- Runs of the fork manager on a small repository with a conflict.
use gitoxide_fs.Base.Paths.{parent}
use gitoxide_fs.Backend.Refs.{create_parent_dirs}
use gitoxide_fs.Forks.{persist}
use gitoxide_fs.Forks.Merging.{settle}
use gitoxide_fs.Merge.{three_way_merge}
use gitoxide_fs.Forks.Merging.{conclude}
use gitoxide_fs.Base.Text.{trim}
use gitoxide_fs.Backend.History.{read_blobs}
use gitoxide_fs.Backend.Incremental.{is_tree}
use gitoxide_fs.Backend.History.{flatten_entries}
use gitoxide_fs.Backend.Incremental.{entries_of}
use gitoxide_fs.Backend.History.{flatten_tree_inner}
use gitoxide_fs.Backend.Commits.{commit_of}
use gitoxide_fs.Backend.History.{get_commit_tree_id_inner}
use gitoxide_fs.Backend.History.{flat_of_commit}
use gitoxide_fs.Base.Utf8.{encode}
use gitoxide_fs.Backend.History.{tree_at_commit}
use gitoxide_fs.Base.Utf8.{decode}
use gitoxide_fs.Backend.Refs.{text_of}
use gitoxide_fs.Backend.Refs.{read_to_string}
use gitoxide_fs.Backend.Refs.{git_dir}
use gitoxide_fs.Backend.Refs.{branch_commit_oid}
use gitoxide_fs.Forks.{resolve_branch_commit}
use gitoxide_fs.Forks.Merging.{sides_of}
use gitoxide_fs.Forks.Merging.{unmerged}
use gitoxide_fs.Forks.{find_fork}
use gitoxide_fs.Forks.Merging.{prepare}
use gitoxide_fs.Base.{◌≡◌, refl, true, false, none, some, List, [], ◌∷◌, ℕ, list_eq, nat_eq}
use gitoxide_fs.Base.Text.{Text, Bytes, codes}
use gitoxide_fs.Base.Dict.{lookup, insert}
use gitoxide_fs.Error.Monad.{ok, err}
use gitoxide_fs.Config.{Config, new_config, three_way, ours}
use gitoxide_fs.Os.Memory.{memory, file}
use gitoxide_fs.Gix.{Object, since, blob_kind, blob_object, commit_object, tree_object, Signature}
use gitoxide_fs.Gix.Memory.{memory_gix}
use gitoxide_fs.Merge.{both_modified}
use gitoxide_fs.Forks.{Json, ForkManager}
use gitoxide_fs.Forks.Registry.{Change, IsNamed}
use gitoxide_fs.Forks.Merging.{MergeResult, merged_fork, merge_fork_with_strategy, can_merge}
use gitoxide_fs.Forks.Merges.{merge_once, can_merge_lem, merge_objects}
use gitoxide_fs.Forks.Operations.{create, abandon, run, run_all, run-Change, run_all-IsNamed}

abbrev pub digest : Bytes → Bytes
digest content = []

abbrev json : Json
json = record { to_string_pretty = λ forks. ok (codes "forks"); from_str = λ t. none }

abbrev pub config : Config
config = new_config (codes "/r") (codes "/m")

abbrev signature : Signature
signature = record { name = codes "a"; email = codes "b"; seconds = some (since 1) }

-- A tree with the file `f`, and a commit of it
abbrev tree_of : ℕ → Object ℕ
tree_of oid = tree_object (record { kind = blob_kind; filename = codes "f"; oid = oid } ∷ [])

abbrev commit_to : ℕ → Object ℕ
commit_to tree =
    commit_object (record {
      tree = tree;
      parents = [];
      author = signature;
      committer = signature;
      message = [];
    })

abbrev pub objects : List (Object ℕ)
objects =
    blob_object (1 ∷ [])
    ∷ blob_object (2 ∷ [])
    ∷ blob_object (3 ∷ [])
    ∷ tree_of 0
    ∷ tree_of 1
    ∷ tree_of 2
    ∷ commit_to 3
    ∷ commit_to 4
    ∷ commit_to 5
    ∷ []

-- The ids of the three commits
abbrev pub base_id : Text
base_id = codes "aaaaaaa"

abbrev pub main_id : Text
main_id = codes "aaaaaaaa"

abbrev pub dev_id : Text
dev_id = codes "aaaaaaaaa"

abbrev pub dev : Text
dev = codes "dev"

-- `main` and the fork `dev` changed the file `f` in two ways.
abbrev pub manager : ForkManager memory memory_gix
manager = record {
  backend = record {
    os =
        (codes "/r/.git/HEAD", file (codes "ref: refs/heads/main"))
        ∷ (codes "/r/.git/refs/heads/main", file main_id)
        ∷ (codes "/r/.git/refs/heads/dev", file dev_id)
        ∷ [];
    objects = objects;
    xattrs = [];
    dirty_files = [];
    commit_in_progress = false;
  };
  forks =
      (
        dev,
        record { branch = dev; parent_branch = codes "main"; fork_point = base_id; merged = false },
      )
      ∷ [];
}

abbrev pub result : MergeResult
result = record {
  commit_id = main_id;
  had_conflicts = true;
  conflicts =
      record {
        path = codes "f";
        conflict_type = both_modified;
        ours = some (2 ∷ []);
        theirs = some (3 ∷ []);
        base = some (1 ∷ []);
      }
      ∷ [];
  files_changed = 1;
}

run-Change_example :
    Change manager.forks
      (run memory memory_gix json digest config 2 (create (codes "new")) manager).forks
run-Change_example =
    run-Change memory memory_gix json digest config 2 (create (codes "new")) manager

-- A manager without forks
abbrev without_forks : ForkManager memory memory_gix
without_forks = record manager { forks = [] }

run_all-IsNamed_example :
    IsNamed
      (run_all memory memory_gix json digest config 2
        (create (codes "new") ∷ abandon (codes "new") ∷ [])
        without_forks).forks
unfolding lookup
run_all-IsNamed_example =
    run_all-IsNamed memory memory_gix json digest config 2
      (create (codes "new") ∷ abandon (codes "new") ∷ []) without_forks (λ name meta h. cc)

manager-merge :
    (merge_fork_with_strategy memory memory_gix json digest config 2 dev three_way manager).0
    ≡ ok result
unfolding merge_fork_with_strategy prepare find_fork lookup unmerged sides_of resolve_branch_commit
    branch_commit_oid git_dir read_to_string text_of decode tree_at_commit encode flat_of_commit
    get_commit_tree_id_inner commit_of flatten_tree_inner entries_of flatten_entries is_tree
    read_blobs insert trim conclude three_way_merge settle persist create_parent_dirs parent
manager-merge = refl

manager-can_merge : (can_merge memory memory_gix json digest config 2 dev manager).0 ≡ ok false
unfolding can_merge prepare find_fork lookup unmerged sides_of resolve_branch_commit
    branch_commit_oid git_dir read_to_string text_of decode tree_at_commit encode flat_of_commit
    commit_of flatten_entries flatten_tree_inner get_commit_tree_id_inner read_blobs entries_of
    is_tree insert trim three_way_merge
manager-can_merge = refl

merge_once_example :
    let q = merge_fork_with_strategy memory memory_gix json digest config 2 dev three_way manager in
    (merge_fork_with_strategy memory memory_gix json digest config 2 dev ours q.1
      ≡ (err (merged_fork dev), q.1))
    × (can_merge memory memory_gix json digest config 2 dev q.1 ≡ (err (merged_fork dev), q.1))
merge_once_example =
    merge_once memory memory_gix json digest config 2 dev three_way ours manager result
      manager-merge

can_merge_lem_example :
    can_merge memory memory_gix json digest config 2 dev manager ≡ (ok false, manager)
can_merge_lem_example =
    can_merge_lem memory memory_gix json digest config 2 dev manager result manager-merge

merge_objects_example :
    (merge_fork_with_strategy memory memory_gix json digest config 2 dev three_way
      manager).1.backend.objects
    ≡ objects
merge_objects_example =
    merge_objects memory memory_gix json digest config 2 dev manager manager-can_merge
