-- ===== src/Forks.antt =====
-- `ForkManager` of src/fork.rs: what it keeps, and how forks are made, listed and dropped. A lock
-- that is poisoned by a panic is not modelled.
pub mod Merging
pub mod Lifecycle
pub mod Registry
pub mod Settling
pub mod Merges
pub mod Operations
pub mod Persistence
pub mod Reloading
use gitoxide_fs.Base.{
  ℕ, ◌+◌, Bool, true, false, not, Option, none, some, List, [], ◌∷◌, ◌++◌, if◌then◌else◌, ◌==◌,
  nat_eq, list_eq,
}
use gitoxide_fs.Base.Text.{Text, Bytes, codes}
use gitoxide_fs.Base.Utf8.{encode}
use gitoxide_fs.Base.Paths.{path_join, parent}
use gitoxide_fs.Base.Sort.{sort_by}
use gitoxide_fs.Base.Dict
use gitoxide_fs.Base.Dict.{Dict, lookup, insert, remove, contains_key}
use gitoxide_fs.Error.{Error, fork, not_found, already_exists}
use gitoxide_fs.Error.Monad.{
  Result, ok, err, map_err, and_then, to_option, Exec, pure, ensure, continue, ◌>>=◌, ◌>>◌,
}
use gitoxide_fs.Config.{Config}
use gitoxide_fs.Os.{Os}
use gitoxide_fs.Gix.{Gix}
use gitoxide_fs.Backend.Refs.{
  current_branch, create_branch, create_branch_at, delete_branch, branch_commit_oid,
  head_commit_hex, read_to_string, create_parent_dirs, write_file_of,
}
use gitoxide_fs.Backend.State.{Backend, on_disk}
use gitoxide_fs.Backend.Commits.{CommitInfo, log}
use gitoxide_fs.Backend.History.{diff}

pub record ForkInfo : Type 0 where
  pub id : Text
  pub branch : Text
  pub parent_branch : Text
  pub fork_point : Text
  pub mount_point : Option Text
  pub commits_ahead : ℕ
  pub merged : Bool

pub record ForkMetadata : Type 0 where
  pub branch : Text
  pub parent_branch : Text
  pub fork_point : Text
  pub merged : Bool

abbrev pub Forks : Type 0
Forks = Dict Text ForkMetadata

-- The crate `serde_json` on the map of forks.
pub record Json : Type 0 where
  pub to_string_pretty : Forks → Result Text Text
  pub from_str : Text → Option Forks

-- `ForkManager`; the path of the metadata does not change.
pub record ForkManager (O : Os) (G : Gix) : Type 0 where
  pub backend : Backend O G
  pub forks : Forks

abbrev pub metadata_path : Text → Text
metadata_path repo_path =
    path_join (path_join repo_path (codes ".gitoxide-fs")) (codes "forks.json")

unfoldable pub unknown_fork : Text → Error
unknown_fork name = not_found (codes "fork '" ++ (name ++ codes "' not found"))

unfoldable pub known_fork : Text → Error
known_fork name = already_exists (codes "fork '" ++ (name ++ codes "'"))

abbrev pub info_of : Text → ForkMetadata → ℕ → ForkInfo
info_of name meta ahead = record {
  id = name;
  branch = meta.branch;
  parent_branch = meta.parent_branch;
  fork_point = meta.fork_point;
  mount_point = none;
  commits_ahead = ahead;
  merged = meta.merged;
}

abbrev or_unknown : Text → Option ForkMetadata → Result Error ForkMetadata
or_unknown name none = err (unknown_fork name)
or_unknown name (some meta) = ok meta

-- `forks.get(name).ok_or_else(..)`
unfoldable pub find_fork : Text → Forks → Result Error ForkMetadata
find_fork name forks = or_unknown name (lookup name forks)

abbrev or_no_commits : Option Text → Result Error Text
or_no_commits none = err (fork (codes "no commits yet, cannot fork"))
or_no_commits (some hex) = ok hex

abbrev unmerged_parent : Text → ForkMetadata → Result Error ForkMetadata
unmerged_parent name meta =
    if meta.merged
    then err (fork (codes "cannot fork from already-merged fork '" ++ (name ++ codes "'")))
    else ok meta

-- The commits before the fork point.
unfoldable pub count_before : Text → List CommitInfo → ℕ
count_before fork_point [] = 0
count_before fork_point (c ∷ rest) =
    if c.id == fork_point then 0 else count_before fork_point rest + 1

module _ (O : Os) (G : Gix) (json : Json) (digest : Bytes → Bytes) (config : Config) where
  abbrev pub Manage : Type 0 → Type 0
  Manage A = Exec (ForkManager O G) Error A

  -- An operation of the backend.
  abbrev pub on_backend : {A : Type 0} → Exec (Backend O G) Error A → Manage A
  on_backend m f = ((m f.backend).0, record f { backend = (m f.backend).1 })

  -- An operation on its files.
  abbrev pub on_files : {A : Type 0} → Exec O.State Error A → Manage A
  on_files m = on_backend (on_disk O G m)

  -- What only reads.
  abbrev pub reads : {A : Type 0} → (ForkManager O G → Result Error A) → Manage A
  reads r f = (r f, f)

  abbrev update_forks : (Forks → Forks) → Manage Unit
  update_forks u f = (ok tt, record f { forks = u f.forks })

  -- `load_from_disk`
  unfoldable pub load_from_disk : O.State → Option Forks
  load_from_disk s = elim (read_to_string O (metadata_path config.repo_path) s) [
    | err e ↦ none
    | ok text ↦ json.from_str text
  ]

  abbrev or_empty : Option Forks → Forks
  or_empty none = []
  or_empty (some forks) = forks

  -- `ForkManager::new`
  unfoldable pub new : Backend O G → ForkManager O G
  new b = record { backend = b; forks = or_empty (load_from_disk b.os) }

  abbrev fork_error : Text → Error
  fork_error e = fork (codes "failed to serialize fork metadata: " ++ e)

  -- `persist`
  unfoldable pub persist : Manage Unit
  persist f =
      (do
        on_files (create_parent_dirs O (parent (metadata_path config.repo_path)))
        text ← reads (λ g. map_err fork_error (json.to_string_pretty g.forks))
        on_files (write_file_of O (metadata_path config.repo_path) (encode text)))
        f

  -- The new fork in the map and on disk, and what is told of it.
  unfoldable pub track : Text → Text → Text → Manage ForkInfo
  track name parent_branch fork_point = do
    let meta : ForkMetadata = record {
      branch = name;
      parent_branch = parent_branch;
      fork_point = fork_point;
      merged = false;
    }
    update_forks (insert name meta)
    persist
    pure (info_of name meta 0)

  abbrev pub refuse_known : Text → Manage Unit
  refuse_known name f = (ensure (not (contains_key name f.forks)) (known_fork name), f)

  -- `ForkManager::create_fork`
  unfoldable pub create_fork : Text → Manage ForkInfo
  create_fork name = do
    parent_branch ← reads (λ f. current_branch O config.repo_path f.backend.os)
    fork_point ← reads (λ f. or_no_commits (head_commit_hex O G config.repo_path f.backend.os))
    refuse_known name
    on_files (create_branch O G config.repo_path name)
    track name parent_branch fork_point

  -- `ForkManager::create_fork_at`
  unfoldable pub create_fork_at : Text → Text → Manage ForkInfo
  create_fork_at name commit_id = do
    parent_branch ← reads (λ f. current_branch O config.repo_path f.backend.os)
    refuse_known name
    on_files (create_branch_at O G config.repo_path name commit_id)
    track name parent_branch commit_id

  -- `ForkManager::create_nested_fork`
  unfoldable pub create_nested_fork : Text → Text → Manage ForkInfo
  create_nested_fork parent_fork name = do
    parent_meta ←
        reads (λ f. and_then (find_fork parent_fork f.forks) (unmerged_parent parent_fork))
    parent_commit ←
        reads (λ f. branch_commit_oid O config.repo_path parent_meta.branch f.backend.os)
    refuse_known name
    on_files (create_branch_at O G config.repo_path name parent_commit)
    track name parent_fork parent_commit

  -- `ForkManager::abandon_fork`
  unfoldable pub abandon_fork : Text → Manage Unit
  abandon_fork name = do
    meta ← reads (λ f. find_fork name f.forks)
    on_files (delete_branch O config.repo_path meta.branch)
    update_forks (remove name)
    persist

  -- `resolve_branch_commit`
  unfoldable pub resolve_branch_commit : Text → ForkManager O G → Result Error Text
  resolve_branch_commit branch f = elim (lookup branch f.forks) [
    | some meta ↦ branch_commit_oid O config.repo_path meta.branch f.backend.os
    | none ↦ branch_commit_oid O config.repo_path branch f.backend.os
  ]

  abbrev count_in : Text → Result Error (List CommitInfo) → ℕ
  count_in fork_point (err e) = 0
  count_in fork_point (ok logs) = count_before fork_point logs

  abbrev ahead_of : Text → Result Error Text → ForkManager O G → ℕ
  ahead_of fork_point (err e) f = 0
  ahead_of fork_point (ok tip) f =
      if tip == fork_point
      then 0
      else count_in fork_point (log O G digest config 0 (some 100) f.backend)

  -- `count_commits_ahead`
  unfoldable pub count_commits_ahead : Text → Text → ForkManager O G → ℕ
  count_commits_ahead branch fork_point f =
      ahead_of fork_point (branch_commit_oid O config.repo_path branch f.backend.os) f

  unfoldable pub fork_infos : Forks → ForkManager O G → List ForkInfo
  fork_infos [] f = []
  fork_infos ((name, meta) ∷ rest) f =
      info_of name meta (count_commits_ahead meta.branch meta.fork_point f) ∷ fork_infos rest f

  -- `ForkManager::list_forks`
  unfoldable pub list_forks : Manage (List ForkInfo)
  list_forks = reads (λ f. ok (sort_by (λ (i : ForkInfo). i.id) (fork_infos f.forks f)))

  -- `ForkManager::get_fork`
  unfoldable pub get_fork : Text → Manage ForkInfo
  get_fork name = reads (λ f.
      and_then (find_fork name f.forks)
        (λ meta. ok (info_of name meta (count_commits_ahead meta.branch meta.fork_point f))))

  -- `ForkManager::fork_diff`
  unfoldable pub fork_diff : ℕ → Text → Manage Text
  fork_diff levels name = reads (λ f. and_then (find_fork name f.forks) (λ meta.
      and_then (resolve_branch_commit meta.parent_branch f) (λ parent_commit.
        and_then (branch_commit_oid O config.repo_path meta.branch f.backend.os) (λ fork_commit.
          if parent_commit == fork_commit
          then ok []
          else diff O G levels parent_commit fork_commit f.backend.objects))))
