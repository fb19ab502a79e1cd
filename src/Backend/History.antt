-- ===== src/Backend/History.antt =====
-- What `GitBackend` in src/git.rs reads of a commit: `diff`, `flatten_tree_inner`,
-- `tree_at_commit`, `read_file_at_commit` and `repo_info`. `levels` is the depth of trees that the
-- recursion of `flatten_tree_inner` can go through.
use gitoxide_fs.Base.{
  ℕ, zero, suc, Bool, Option, none, some, List, [], ◌∷◌, ◌++◌, is_empty, length, if◌then◌else◌,
  nat_eq, list_eq,
}
use gitoxide_fs.Base.Text.{Text, Bytes, codes, newline}
use gitoxide_fs.Base.Utf8.{encode}
use gitoxide_fs.Base.Dict.{Dict, lookup, insert, contains_key, keys}
use gitoxide_fs.Error.{Error, git, not_found}
use gitoxide_fs.Error.Monad.{Result, ok, err, map_err, and_then}
use gitoxide_fs.Config.{Config}
use gitoxide_fs.Os.{Os}
use gitoxide_fs.Gix.{Gix, TreeEntry}
use gitoxide_fs.Backend.Refs.{head_commit_hex, list_branches, invalid_commit_id}
use gitoxide_fs.Backend.State.{Backend}
use gitoxide_fs.Backend.Incremental.{entries_of, is_tree}
use gitoxide_fs.Backend.Commits.{commit_of, log}

pub record RepoInfo : Type 0 where
  pub is_bare : Bool
  pub head_commit : Option Text
  pub branch_count : ℕ
  pub commit_count : ℕ

-- `HashMap::extend`
unfoldable pub extend {ℓ} : {V : Type ℓ} → Dict Text V → Dict Text V → Dict Text V
extend m [] = m
extend m ((k, v) ∷ rest) = extend (insert k v m) rest

abbrev line : Text → Text
line t = t ++ newline ∷ []

abbrev header : Text → Text
header path = line (codes "diff --git a/" ++ (path ++ (codes " b/" ++ path)))

abbrev added_file : Text → Text
added_file path =
    header path
    ++ (line (codes "new file") ++ (line (codes "--- /dev/null") ++ line (codes "+++ b/" ++ path)))

abbrev changed_file : Text → Text
changed_file path = header path ++ (line (codes "--- a/" ++ path) ++ line (codes "+++ b/" ++ path))

abbrev deleted_file : Text → Text
deleted_file path =
    header path
    ++ (line (codes "deleted file")
        ++ (line (codes "--- a/" ++ path) ++ line (codes "+++ /dev/null")))

-- The path of an entry of a tree.
abbrev pub entry_path : Text → Text → Text
entry_path prefix name = if is_empty prefix then name else prefix ++ (codes "/" ++ name)

module _ (O : Os) (G : Gix) where
  abbrev parse_id : Error → Text → Result Error G.ObjectId
  parse_id e hex = elim (G.from_hex (encode hex)) [ none ↦ err e | some oid ↦ ok oid ]

  -- `get_commit_tree_id_inner`
  unfoldable pub get_commit_tree_id_inner : G.ObjectId → G.Store → Result Error G.ObjectId
  get_commit_tree_id_inner oid s = and_then (commit_of O G (G.find_object oid s)) (λ c. ok c.tree)

  abbrev pub Flat : Type 0
  Flat = Dict Text G.ObjectId

  -- The loop over the entries of a tree; `below` is the recursive call.
  unfoldable pub flatten_entries :
      (G.ObjectId → Text → Result Error Flat)
      → Text
      → List (TreeEntry G.ObjectId)
      → Flat
      → Result Error Flat
  flatten_entries below prefix [] found = ok found
  flatten_entries below prefix (e ∷ rest) found =
      let path = entry_path prefix e.filename in
      if is_tree e.kind
      then and_then (below e.oid path)
          (λ subtree. flatten_entries below prefix rest (extend found subtree))
      else flatten_entries below prefix rest (insert path e.oid found)

  unfoldable pub flatten_tree_inner : ℕ → G.ObjectId → Text → G.Store → Result Error Flat
  flatten_tree_inner zero tree_oid prefix s = err (git [])
  flatten_tree_inner (suc levels) tree_oid prefix s =
      let below = λ (oid : G.ObjectId) (path : Text). flatten_tree_inner levels oid path s in
      and_then (entries_of O G (G.find_object tree_oid s))
        (λ entries. flatten_entries below prefix entries [])

  -- The loop of `tree_at_commit`: the content of every blob.
  unfoldable pub read_blobs : Flat → G.Store → Dict Text Bytes → Result Error (Dict Text Bytes)
  read_blobs [] s found = ok found
  read_blobs ((path, oid) ∷ rest) s found =
      and_then (map_err git (G.find_object oid s))
        (λ x. read_blobs rest s (insert path (G.data_of x) found))

  module _ (levels : ℕ) where
    unfoldable pub flat_of_commit : G.ObjectId → G.Store → Result Error Flat
    flat_of_commit oid s =
        and_then (get_commit_tree_id_inner oid s) (λ t. flatten_tree_inner levels t [] s)

    -- `GitBackend::tree_at_commit`
    unfoldable pub tree_at_commit : Text → G.Store → Result Error (Dict Text Bytes)
    tree_at_commit commit_hex s =
        and_then (parse_id (invalid_commit_id G commit_hex) commit_hex)
          (λ oid. and_then (flat_of_commit oid s) (λ flat. read_blobs flat s []))

    abbrev changed_text : Text → G.ObjectId → Option G.ObjectId → Text
    changed_text path to_blob none = added_file path
    changed_text path to_blob (some from_blob) =
        if G.id_eqb from_blob to_blob then [] else changed_file path

    -- The two loops of `diff`.
    unfoldable pub diff_new : Flat → Flat → Text
    diff_new from_files [] = []
    diff_new from_files ((path, to_blob) ∷ rest) =
        changed_text path to_blob (lookup path from_files) ++ diff_new from_files rest

    unfoldable pub diff_deleted : List Text → Flat → Text
    diff_deleted [] to_files = []
    diff_deleted (path ∷ rest) to_files =
        (if contains_key path to_files then [] else deleted_file path) ++ diff_deleted rest to_files

    -- `GitBackend::diff`
    unfoldable pub diff : Text → Text → G.Store → Result Error Text
    diff from to s = and_then (parse_id (invalid_commit_id G from) from) (λ from_oid.
        and_then (parse_id (invalid_commit_id G to) to) (λ to_oid.
          and_then (get_commit_tree_id_inner from_oid s) (λ from_tree_id.
            and_then (get_commit_tree_id_inner to_oid s) (λ to_tree_id.
              and_then (flatten_tree_inner levels from_tree_id [] s) (λ from_files.
                and_then (flatten_tree_inner levels to_tree_id [] s) (λ to_files.
                  ok (diff_new from_files to_files ++ diff_deleted (keys from_files) to_files)))))))

  -- The entry that `read_file_at_commit` found, or none.
  abbrev content_of : Text → Text → Option (TreeEntry G.ObjectId) → G.Store → Result Error Bytes
  content_of path commit_id none s =
      err (not_found (codes "'" ++ (path ++ (codes "' not found at commit " ++ commit_id))))
  content_of path commit_id (some e) s =
      and_then (map_err git (G.find_object e.oid s)) (λ x. ok (G.data_of x))

  -- `GitBackend::read_file_at_commit`
  unfoldable pub read_file_at_commit : Text → Text → G.Store → Result Error Bytes
  read_file_at_commit path commit_id s =
      and_then (parse_id (git (codes "invalid commit ID: " ++ G.invalid_hex commit_id)) commit_id)
        (λ oid.
          and_then (map_err (λ e. git (codes "commit not found: " ++ e)) (G.find_object oid s))
            (λ x. and_then (commit_of O G (ok x)) (λ c.
              and_then (entries_of O G (G.find_object c.tree s)) (λ entries.
                and_then (map_err git (G.lookup_entry_by_path entries path s))
                  (λ found. content_of path commit_id found s)))))

  -- `GitBackend::repo_info`, for a repository that is `bare` or not
  unfoldable pub repo_info :
      (Bytes → Bytes) → Config → ℕ → Bool → Backend O G → Result Error RepoInfo
  repo_info digest config all bare b = and_then (list_branches O config.repo_path b.os) (λ branches.
      and_then (log O G digest config all none b) (λ commits. ok (record {
        is_bare = bare;
        head_commit = head_commit_hex O G config.repo_path b.os;
        branch_count = length branches;
        commit_count = length commits;
      })))
