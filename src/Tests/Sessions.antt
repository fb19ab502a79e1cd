-- ===== src/Tests/Sessions.antt =====
-- Processes of `gofs` that follow one another on one repository.
use gitoxide_fs.Forks.Merging.{mark}
use gitoxide_fs.Backend.Opening.{fresh}
use gitoxide_fs.Backend.Opening.{left}
use gitoxide_fs.Backend.Opening.{gix_open}
use gitoxide_fs.Backend.Opening.{open_backend}
use gitoxide_fs.Backend.Opening.{is_repository}
use gitoxide_fs.Base.Paths.{parent}
use gitoxide_fs.Backend.Refs.{create_parent_dirs}
use gitoxide_fs.Forks.Merging.{settle}
use gitoxide_fs.Merge.{three_way_merge}
use gitoxide_fs.Forks.Merging.{conclude}
use gitoxide_fs.Base.Text.{trim}
use gitoxide_fs.Base.Dict.{insert}
use gitoxide_fs.Backend.History.{read_blobs}
use gitoxide_fs.Backend.Incremental.{is_tree}
use gitoxide_fs.Backend.History.{flatten_entries}
use gitoxide_fs.Backend.Incremental.{entries_of}
use gitoxide_fs.Backend.History.{flatten_tree_inner}
use gitoxide_fs.Backend.Commits.{commit_of}
use gitoxide_fs.Backend.History.{get_commit_tree_id_inner}
use gitoxide_fs.Backend.History.{flat_of_commit}
use gitoxide_fs.Base.Utf8.{encode}
use gitoxide_fs.Backend.History.{tree_at_commit}
use gitoxide_fs.Base.Utf8.{decode}
use gitoxide_fs.Backend.Refs.{text_of}
use gitoxide_fs.Backend.Refs.{read_to_string}
use gitoxide_fs.Backend.Refs.{git_dir}
use gitoxide_fs.Base.Paths.{path_join}
use gitoxide_fs.Backend.Refs.{branch_commit_oid}
use gitoxide_fs.Forks.Merging.{sides_of}
use gitoxide_fs.Forks.Merging.{unmerged}
use gitoxide_fs.Forks.Merging.{prepare}
use gitoxide_fs.Forks.Merging.{merge_fork_with_strategy}
use mathlib.Core.Path.{subst}
use gitoxide_fs.Base.Utf8.{IsScalar}
use gitoxide_fs.Base.{
  ==_refl, ap, sym, All, ◌≡◌, refl, arith, Bool, true, false, ◌&&◌, some, [], ◌∷◌, if◌then◌else◌,
  ◌==◌, ==_iff, list_eq, nat_eq,
}
use gitoxide_fs.Base.Text.{Text, codes}
use gitoxide_fs.Base.Dict.{lookup}
use gitoxide_fs.Error.Monad.{ok, err}
use gitoxide_fs.Config.{three_way, ours}
use gitoxide_fs.Os.Memory.{memory, memory-IsLawful, file, dir}
use gitoxide_fs.Gix.Memory.{memory_gix}
use gitoxide_fs.Forks
use gitoxide_fs.Forks.{Forks, ForkMetadata, Json, ForkManager}
use gitoxide_fs.Forks.Merging.{merged_fork}
use gitoxide_fs.Forks.Operations.{run, merge, result_of}
use gitoxide_fs.Forks.Persistence.{IsLawful}
use gitoxide_fs.Forks.Reloading.{new-run}
use gitoxide_fs.Base.{◌⊎◌, ℕ, Option, none}
use gitoxide_fs.CommandLine
use gitoxide_fs.CommandLine.{Cli, Complaint, Report}
use gitoxide_fs.CommandLine.Running.{main}
use gitoxide_fs.CommandLine.Telling.{is_brief, main_tells}
use gitoxide_fs.CommandLine.{library}
use gitoxide_fs.CommandLine.Running.{Libraries, Session, run_merge}
use gitoxide_fs.CommandLine.Running
use gitoxide_fs.CommandLine.Merging.{run_merge_once}
use gitoxide_fs.CommandLine.Looking.{show_files}
use gitoxide_fs.Tests.Forked.{digest, config, objects, base_id, dev, manager, result}
use gitoxide_fs.Tests.Served.{repositories, host, net}

-- The fork `dev`, once it is merged
abbrev saved_meta : ForkMetadata
saved_meta = record {
  branch = dev;
  parent_branch = codes "main";
  fork_point = base_id;
  merged = true;
}

abbrev saved : Forks
saved = (dev, saved_meta) ∷ []

is_saved_meta : ForkMetadata → Bool
is_saved_meta m =
    m.branch == dev && (m.parent_branch == codes "main" && (m.fork_point == base_id && m.merged))

is_saved : Forks → Bool
is_saved [] = false
is_saved ((name, m) ∷ []) = name == dev && is_saved_meta m
is_saved (x ∷ y ∷ rest) = false

is_saved-eq : (d : Forks) → is_saved d ≡ true → d ≡ saved
unfolding is_saved is_saved_meta
is_saved-eq [] h = cc
is_saved-eq ((name, m) ∷ []) h = ground (
  arith,
  ==_iff name dev,
  ==_iff m.branch dev,
  ==_iff m.parent_branch (codes "main"),
  ==_iff m.fork_point base_id,
)
is_saved-eq (x ∷ y ∷ rest) h = cc

-- A printer of this map only
abbrev json : Json
json = record {
  to_string_pretty = λ d. if is_saved d then ok (codes "after") else err [];
  from_str = λ t. if t == codes "after" then some saved else some manager.forks;
}

printed :
    (d : Forks) (text : Text)
    → json.to_string_pretty d ≡ ok text
    → (d ≡ saved) × (text ≡ codes "after")
printed d text h = ground (arith, is_saved-eq d)

json-IsLawful : IsLawful json
json-IsLawful = record {
  loaded = λ d text. saved;
  from_str-to_string_pretty = λ d text h. rw ((printed d text h).1, ==_refl (codes "after")) refl;
  lookup-loaded = λ d text name h. ap (lookup name) (sym (printed d text h).0);
  to_string_pretty-IsScalar =
      λ d text h. subst (All IsScalar) (sym (printed d text h).1) (omega arith);
}

new-run_example :
    let g = run memory memory_gix json digest config 2 (merge dev three_way) manager in
    lookup dev (Forks.new memory memory_gix json digest config g.backend).forks ≡ lookup dev g.forks
unfolding result_of merge_fork_with_strategy prepare Forks.find_fork lookup unmerged sides_of
    Forks.resolve_branch_commit branch_commit_oid git_dir read_to_string text_of decode
    tree_at_commit encode flat_of_commit get_commit_tree_id_inner commit_of flatten_tree_inner
    entries_of flatten_entries is_tree read_blobs insert trim conclude three_way_merge settle
    Forks.persist create_parent_dirs parent is_saved mark is_saved_meta
new-run_example =
    new-run memory memory_gix json digest config memory-IsLawful json-IsLawful 2
      (merge dev three_way) manager dev refl

abbrev libraries : Libraries memory memory_gix
libraries = record {
  repositories = repositories;
  host = host;
  net = net;
  json = json;
  from_toml = λ t. err [];
  digest = digest;
}

abbrev session : Session memory memory_gix
session = record {
  disk = record {
    os =
        (codes "/r/.git", dir)
        ∷ (codes "/r/.gitoxide-fs/forks.json", file (codes "before"))
        ∷ manager.backend.os;
    stores = λ path. objects;
  };
  active_mounts = [];
  printed = [];
}

abbrev again : Session memory memory_gix
again = (run_merge memory memory_gix libraries 2 3 true dev (codes "/r") three_way session).1

session-merge :
    (run_merge memory memory_gix libraries 2 3 true dev (codes "/r") three_way session).0
    ≡ ok result
unfolding run_merge Running.with_manager Running.with_backend open_backend is_repository lookup
    gix_open merge_fork_with_strategy prepare Forks.find_fork Forks.new Forks.load_from_disk
    read_to_string text_of fresh decode unmerged sides_of Forks.resolve_branch_commit
    branch_commit_oid git_dir tree_at_commit encode flat_of_commit get_commit_tree_id_inner
    commit_of flatten_tree_inner entries_of flatten_entries is_tree read_blobs insert trim conclude
    three_way_merge settle Forks.persist create_parent_dirs parent is_saved mark is_saved_meta
session-merge = refl

run_merge_once_example :
    ((run_merge memory memory_gix libraries 2 3 true dev (codes "/r") ours again).0
      ≡ err (library (merged_fork dev)))
    × ((run_merge memory memory_gix libraries 2 3 true dev (codes "/r") ours again).1.disk.os
        ≡ again.disk.os)
unfolding is_repository lookup run_merge Running.with_manager Running.with_backend open_backend
    gix_open left merge_fork_with_strategy prepare Forks.find_fork Forks.new Forks.load_from_disk
    read_to_string text_of fresh decode unmerged sides_of Forks.resolve_branch_commit
    branch_commit_oid git_dir tree_at_commit encode flat_of_commit get_commit_tree_id_inner
    commit_of flatten_tree_inner entries_of flatten_entries is_tree read_blobs insert trim conclude
    three_way_merge settle Forks.persist create_parent_dirs parent is_saved mark is_saved_meta
run_merge_once_example =
    run_merge_once memory memory_gix libraries memory-IsLawful json-IsLawful 2 3 true dev
      (codes "/r") three_way ours session result false session-merge refl refl

show_files_example :
    ((Running.run memory memory_gix libraries 2 3 true
        (CommandLine.status (codes "/r"))
        session).1.disk.os
      ≡ session.disk.os)
    × ((Running.run memory memory_gix libraries 2 3 true
          (CommandLine.fork (CommandLine.list (codes "/r")))
          session).1.disk.os
        ≡ session.disk.os)
unfolding is_repository lookup path_join
show_files_example = show_files memory memory_gix libraries 2 3 true (codes "/r") session

abbrev asked : Cli
asked = record { json = false; command = CommandLine.status (codes "/r") }

abbrev shown : (Option Complaint × Option ℕ) × Session memory memory_gix
shown = main memory memory_gix libraries 2 3 asked session

main_tells_example :
    ((shown.0 ≡ (none, some 0)) × ((r : Report) × (shown.1.printed ≡ (false, r) ∷ [])))
    ⊎ ((c : Complaint) × (shown.0 ≡ (some c, some 1)) × (shown.1.printed ≡ []))
unfolding is_brief
main_tells_example = main_tells memory memory_gix libraries 2 3 asked session refl
