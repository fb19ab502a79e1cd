-- ===== src/Backend/Refs.antt =====
-- The references of a repository, as `GitBackend` of src/git.rs reads and writes them under
-- `.git`. `ObjectId` and its hexadecimal form are those of the crate `gix`.
pub mod Branches
use gitoxide_fs.Base.{
  ℕ, zero, suc, Option, none, some, Bool, true, false, List, [], ◌∷◌, ◌++◌, is_empty, if◌then◌else◌,
}
use gitoxide_fs.Base.Text.{Text, Bytes, codes, newline, trim, strip_prefix}
use gitoxide_fs.Base.Paths.{path_join, parent}
use gitoxide_fs.Base.Sort.{sort}
use gitoxide_fs.Base.Utf8.{encode, decode}
use gitoxide_fs.Error.{Error, git, io, not_found, already_exists, IoError, other_kind}
use gitoxide_fs.Error.Monad.{
  and_then, Result, ok, err, map_err, Exec, pure, raise, lift, continue, ◌>>=◌, ◌>>◌,
}
use gitoxide_fs.Gix.{Gix}
use gitoxide_fs.Os.{Os, DirItem, EntryType, dir_type, symlink_type, file_type}

-- The error of a commit id that does not parse.
abbrev pub invalid_commit_id : Gix → Text → Error
invalid_commit_id G hex =
    git (codes "invalid commit ID '" ++ (hex ++ (codes "': " ++ G.invalid_hex hex)))

unfoldable pub git_dir : Text → Text
unfolding path_join
git_dir repo_path = path_join repo_path (codes ".git")

abbrev pub branch_path : Text → Text → Text
branch_path repo_path name = path_join (path_join (git_dir repo_path) (codes "refs/heads")) name

-- A line of text in a file of `.git`.
abbrev pub ref_line : Text → Bytes
ref_line t = encode (t ++ newline ∷ [])

-- `io::ErrorKind::InvalidData`
abbrev pub from_utf8 : Option Text → Result Error Text
from_utf8 none = err (io (record { kind = other_kind; raw_os_error = none }))
from_utf8 (some t) = ok t

unfoldable pub text_of : Result IoError Bytes → Result Error Text
text_of (ok b) = from_utf8 (decode b)
text_of (err e) = err (io e)

abbrev pub trimmed : Result Error Text → Result Error Text
trimmed (ok hex) = ok (trim hex)
trimmed (err e) = err e

abbrev pub short_name : Text → Option Text → Text
short_name ref_name (some branch) = branch
short_name ref_name none = ref_name

unfoldable pub branch_of : Option Text → Result Error Text
branch_of none = err (git (codes "HEAD is detached"))
branch_of (some ref_name) = ok (short_name ref_name (strip_prefix ref_name (codes "refs/heads/")))

unfoldable pub branch_in : Result Error Text → Result Error Text
branch_in (ok content) = branch_of (strip_prefix (trim content) (codes "ref: "))
branch_in (err e) = err e

module _ (O : Os) where
  -- `fs::read_to_string(path)?`
  unfoldable pub read_to_string : Text → O.State → Result Error Text
  read_to_string path s = text_of (O.read path s)

  -- `fs::write(path, content)?`
  abbrev pub write_file_of : Text → Bytes → Exec O.State Error Unit
  write_file_of path content s = (map_err io (O.write path content s).0, (O.write path content s).1)

  abbrev pub create_dirs : Text → Exec O.State Error Unit
  create_dirs d s = (map_err io (O.create_dir_all d s).0, (O.create_dir_all d s).1)

  -- `if let Some(parent) = path.parent() { fs::create_dir_all(parent)?; }`
  unfoldable pub create_parent_dirs : Option Text → Exec O.State Error Unit
  create_parent_dirs none s = (ok tt, s)
  create_parent_dirs (some d) s = create_dirs d s

  -- `GitBackend::current_branch`
  unfoldable pub current_branch : Text → O.State → Result Error Text
  current_branch repo_path s =
      branch_in (read_to_string (path_join (git_dir repo_path) (codes "HEAD")) s)

  -- `GitBackend::checkout_branch`
  unfoldable pub checkout_branch : Text → Text → Exec O.State Error Unit
  checkout_branch repo_path name s =
      if O.exists (branch_path repo_path name) s
      then write_file_of (path_join (git_dir repo_path) (codes "HEAD"))
          (ref_line (codes "ref: refs/heads/" ++ name)) s
      else (err (not_found (codes "branch '" ++ (name ++ codes "' not found"))), s)

  -- `GitBackend::delete_branch`
  unfoldable pub delete_branch : Text → Text → Exec O.State Error Unit
  delete_branch repo_path name s =
      let path = branch_path repo_path name in
      if O.exists path s
      then (map_err io (O.remove_file path s).0, (O.remove_file path s).1)
      else (err (not_found (codes "branch '" ++ (name ++ codes "' not found"))), s)

  -- `GitBackend::branch_commit_oid`
  unfoldable pub branch_commit_oid : Text → Text → O.State → Result Error Text
  branch_commit_oid repo_path name s =
      let path = branch_path repo_path name in
      if O.exists path s
      then trimmed (read_to_string path s)
      else err (not_found (codes "branch '" ++ (name ++ codes "' not found")))

  -- `GitBackend::update_branch`
  unfoldable pub update_branch : Text → Text → Text → Exec O.State Error Unit
  update_branch repo_path name commit_hex s =
      let path = branch_path repo_path name in
      if O.exists path s
      then write_file_of path (ref_line commit_hex) s
      else (err (not_found (codes "branch '" ++ (name ++ codes "' not found"))), s)

  -- What one entry adds: the names below it, or its own.
  abbrev names_of : EntryType → Result Error (List Text) → Text → Result Error (List Text)
  names_of dir_type below name = below
  names_of symlink_type below name = ok (name ∷ [])
  names_of file_type below name = ok (name ∷ [])

  abbrev prefixed : Text → Text → Text
  prefixed prefix name = if is_empty prefix then name else prefix ++ (codes "/" ++ name)

  -- The loop of `collect_refs_recursive`; `below` is the recursive call.
  unfoldable pub collect_entries :
      (Text → Text → Result Error (List Text))
      → Text
      → Text
      → List (Result IoError DirItem)
      → Result Error (List Text)
  collect_entries below path prefix [] = ok []
  collect_entries below path prefix (err e ∷ rest) = err (io e)
  collect_entries below path prefix (ok entry ∷ rest) =
      let full_name = prefixed prefix entry.file_name in
      let found = below (path_join path entry.file_name) full_name in
      let others = collect_entries below path prefix rest in
      and_then (map_err io entry.entry_type) (λ t.
        and_then (names_of t found full_name)
          (λ names. and_then others (λ more. ok (names ++ more))))

  -- `collect_refs_recursive`, for at most so many levels of directories
  unfoldable pub collect_refs_recursive : ℕ → Text → Text → O.State → Result Error (List Text)
  collect_refs_recursive zero path prefix s = ok []
  collect_refs_recursive (suc fuel) path prefix s =
      let below = λ (p : Text) (full_name : Text). collect_refs_recursive fuel p full_name s in
      and_then (map_err io (O.read_dir path s)) (collect_entries below path prefix)

  -- `GitBackend::list_branches`; no path is longer than 4096 bytes.
  unfoldable pub list_branches : Text → O.State → Result Error (List Text)
  list_branches repo_path s =
      let refs_heads = path_join (git_dir repo_path) (codes "refs/heads") in
      if O.exists refs_heads s
      then and_then (collect_refs_recursive 4096 refs_heads [] s) (λ names. ok (sort names))
      else ok []

  module _ (G : Gix) where
    unfoldable pub oid_of : Result Error Text → Option G.ObjectId
    oid_of (err e) = none
    oid_of (ok hex) = G.from_hex (encode (trim hex))

    unfoldable pub head_target : Text → Text → Option Text → O.State → Option G.ObjectId
    head_target repo_path content none s = G.from_hex (encode content)
    head_target repo_path content (some ref_name) s =
        oid_of (read_to_string (path_join (git_dir repo_path) ref_name) s)

    -- `GitBackend::head_commit_oid`
    unfoldable pub head_commit_oid : Text → O.State → Option G.ObjectId
    head_commit_oid repo_path s =
        elim (read_to_string (path_join (git_dir repo_path) (codes "HEAD")) s) [
          | err e ↦ none
          | ok content ↦
              head_target repo_path (trim content) (strip_prefix (trim content) (codes "ref: ")) s
        ]

    -- `GitBackend::head_commit_hex`
    unfoldable pub head_commit_hex : Text → O.State → Option Text
    head_commit_hex repo_path s = elim (head_commit_oid repo_path s) [
      | none ↦ none
      | some oid ↦ some (G.to_hex oid)
    ]

    abbrev target_of : Text → Option Text → Text
    target_of repo_path (some ref_name) = path_join (git_dir repo_path) ref_name
    target_of repo_path none = path_join (git_dir repo_path) (codes "HEAD")

    -- `GitBackend::update_head_to`
    unfoldable pub update_head_to : Text → G.ObjectId → Exec O.State Error Unit
    update_head_to repo_path commit_id = do
      content ← λ s. (read_to_string (path_join (git_dir repo_path) (codes "HEAD")) s, s)
      let target = target_of repo_path (strip_prefix (trim content) (codes "ref: "))
      create_parent_dirs (parent target)
      write_file_of target (ref_line (G.to_hex commit_id))

    -- What `create_branch` and `create_branch_at` do once they have the commit.
    unfoldable pub create_ref : Text → Text → G.ObjectId → Exec O.State Error Unit
    create_ref repo_path name oid s =
        let path = branch_path repo_path name in
        if O.exists path s
        then (err (already_exists (codes "branch '" ++ (name ++ codes "'"))), s)
        else (create_parent_dirs (parent path) >> write_file_of path (ref_line (G.to_hex oid))) s

    unfoldable pub create_from : Error → Text → Text → Option G.ObjectId → Exec O.State Error Unit
    create_from e repo_path name none s = (err e, s)
    create_from e repo_path name (some oid) s = create_ref repo_path name oid s

    -- `GitBackend::create_branch`
    unfoldable pub create_branch : Text → Text → Exec O.State Error Unit
    create_branch repo_path name s =
        create_from (git (codes "no commits yet, cannot create branch")) repo_path name
          (head_commit_oid repo_path s) s

    -- `GitBackend::create_branch_at`
    unfoldable pub create_branch_at : Text → Text → Text → Exec O.State Error Unit
    create_branch_at repo_path name commit_hex =
        create_from (invalid_commit_id G commit_hex) repo_path name (G.from_hex (encode commit_hex))
