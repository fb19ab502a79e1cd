-- ===== src/Backend/Commits.antt =====
-- The commits of `GitBackend` in src/git.rs, and what reads them: `commit`, `commit_incremental`,
-- `commit_pending`, `create_merge_commit` and `log`.
pub mod Heads
pub mod Logs
use gitoxide_fs.Base.{
  ℕ, zero, suc, Bool, true, false, ◌||◌, ◌&&◌, not, Option, none, some, List, [], ◌∷◌, ◌++◌,
  is_empty, map, if◌then◌else◌,
}
use gitoxide_fs.Base.Text.{Text, Bytes, codes, newline, trim}
use gitoxide_fs.Base.Utf8.{encode}
use gitoxide_fs.Error.{Error, git}
use gitoxide_fs.Error.Monad.{Result, ok, err, map_err, and_then, Exec, pure, continue, ◌>>=◌, ◌>>◌}
use gitoxide_fs.Config.{Config}
use gitoxide_fs.Os.{Os}
use gitoxide_fs.Gix.{
  Gix, Object, blob_object, tree_object, commit_object, Commit, Signature, Seconds, since,
}
use gitoxide_fs.Backend.Refs.{head_commit_oid, update_head_to}
use gitoxide_fs.Backend.State.{Backend, on_disk, write_object, with_progress}
use gitoxide_fs.Backend.Trees.{build_tree_from_workdir}
use gitoxide_fs.Backend.Incremental.{build_tree_incremental}

pub data ChangeOperation : Type 0 where
  create modify delete : ChangeOperation
  rename : Text → ChangeOperation
  chmod : ChangeOperation

-- Without the time, which nothing reads.
pub record PendingChange : Type 0 where
  pub path : Text
  pub operation : ChangeOperation

pub record CommitInfo : Type 0 where
  pub id : Text
  pub message : Text
  pub author : Text
  pub timestamp : Seconds
  pub parent_ids : List Text

abbrev line : Text → Text
line t = t ++ newline ∷ []

abbrev change_line : Text → ChangeOperation → Text
change_line path create = line (codes "Create: " ++ path)
change_line path modify = line (codes "Modify: " ++ path)
change_line path delete = line (codes "Delete: " ++ path)
change_line path (rename from) = line (codes "Rename " ++ (from ++ (codes " -> " ++ path)))
change_line path chmod = line (codes "Chmod: " ++ path)

-- The message of `commit_pending`, before it is trimmed.
unfoldable pub pending_message : List PendingChange → Text
pending_message [] = []
pending_message (c ∷ rest) = change_line c.path c.operation ++ pending_message rest

abbrev time_or_zero : Option Seconds → Seconds
time_or_zero none = since 0
time_or_zero (some t) = t

abbrev as_list {ℓ} : {A : Type ℓ} → Option A → List A
as_list none = []
as_list (some a) = a ∷ []

module _ (O : Os) (G : Gix) where
  unfoldable pub commit_of : Result Text (Object G.ObjectId) → Result Error (Commit G.ObjectId)
  commit_of (err e) = err (git e)
  commit_of (ok (commit_object c)) = ok c
  commit_of (ok (blob_object content)) = err (git G.not_a_commit)
  commit_of (ok (tree_object entries)) = err (git G.not_a_commit)

  unfoldable pub info_of : G.ObjectId → Commit G.ObjectId → CommitInfo
  info_of oid c = record {
    id = G.to_hex oid;
    message = c.message;
    author = c.author.name ++ (codes " <" ++ (c.author.email ++ codes ">"));
    timestamp = time_or_zero c.author.seconds;
    parent_ids = map G.to_hex c.parents;
  }

  -- `parse_commit_inner`
  unfoldable pub parse_commit_inner : G.ObjectId → G.Store → Result Error CommitInfo
  parse_commit_inner oid s = and_then (commit_of (G.find_object oid s)) (λ c. ok (info_of oid c))

  abbrev pub next_commit : List Text → Option G.ObjectId
  next_commit [] = none
  next_commit (p ∷ ps) = G.from_hex (encode p)

  -- The loop of `log`, for at most so many rounds
  unfoldable pub log_loop : ℕ → Option G.ObjectId → G.Store → Result Error (List CommitInfo)
  log_loop zero current s = ok []
  log_loop (suc n) none s = ok []
  log_loop (suc n) (some oid) s =
      let rest = λ (o : Option G.ObjectId). log_loop n o s in
      and_then (parse_commit_inner oid s)
        (λ info. and_then (rest (next_commit info.parent_ids)) (λ infos. ok (info ∷ infos)))

  -- The number of rounds: the limit, or `all` for a history that is not longer.
  abbrev pub rounds : ℕ → Option ℕ → ℕ
  rounds all none = all
  rounds all (some limit) = limit

  module _ (digest : Bytes → Bytes) (config : Config) where
    -- `GitBackend::log`
    unfoldable pub log : ℕ → Option ℕ → Backend O G → Result Error (List CommitInfo)
    log all limit b =
        log_loop (rounds all limit) (head_commit_oid O G config.repo_path b.os) b.objects

    abbrev signature : ℕ → Signature
    signature now = record {
      name = config.commit.author_name;
      email = config.commit.author_email;
      seconds = some (since now);
    }

    -- The commit that `write_commit_inner` writes, at the time `now`.
    unfoldable pub new_commit : ℕ → G.ObjectId → List G.ObjectId → Text → Commit G.ObjectId
    new_commit now tree_id parents message = record {
      tree = tree_id;
      parents = parents;
      author = signature now;
      committer = signature now;
      message = message;
    }

    unfoldable pub write_commit_inner :
        G.ObjectId → List G.ObjectId → Text → Exec (Backend O G) Error G.ObjectId
    write_commit_inner tree_id parents message b =
        write_object O G (commit_object (new_commit (O.now b.os) tree_id parents message)) b

    -- `update_head_to`, and the id as text
    unfoldable pub advance : G.ObjectId → Exec (Backend O G) Error Text
    advance commit_id = do
      on_disk O G (update_head_to O G config.repo_path commit_id)
      pure (G.to_hex commit_id)

    -- What follows the tree: the commit, and `HEAD`.
    unfoldable pub commit_tree : List G.ObjectId → Text → G.ObjectId → Exec (Backend O G) Error Text
    commit_tree parents message tree_id = do
      commit_id ← write_commit_inner tree_id parents message
      advance commit_id

    abbrev pub parents_of : Backend O G → List G.ObjectId
    parents_of b = as_list (head_commit_oid O G config.repo_path b.os)

    -- Runs the builder of a tree with `commit_in_progress` set.
    abbrev pub guarded_build :
        Exec (Backend O G) Error G.ObjectId → Exec (Backend O G) Error G.ObjectId
    guarded_build build b =
        let (r, b') = build (with_progress O G b true) in (r, with_progress O G b' false)

    -- `GitBackend::commit`
    unfoldable pub commit : Text → Exec (Backend O G) Error Text
    commit message = do
      tree_id ← guarded_build (build_tree_from_workdir O G digest config [])
      λ b. commit_tree (parents_of b) message tree_id b

    -- The tree of `commit_incremental`
    unfoldable pub incremental_tree :
        List Text → List G.ObjectId → Exec (Backend O G) Error G.ObjectId
    incremental_tree dirty_paths [] b = build_tree_from_workdir O G digest config [] b
    incremental_tree dirty_paths (parent ∷ ps) b =
        if is_empty dirty_paths
        then build_tree_from_workdir O G digest config [] b
        else continue (commit_of (G.find_object parent b.objects))
            (λ c. build_tree_incremental O G digest config [] dirty_paths c.tree) b

    -- `GitBackend::commit_incremental`
    unfoldable pub commit_incremental : Text → List Text → Exec (Backend O G) Error Text
    commit_incremental message dirty_paths b =
        (guarded_build (incremental_tree dirty_paths (parents_of b))
            >>= commit_tree (parents_of b) message)
          b

    -- `GitBackend::commit_pending`
    unfoldable pub commit_pending : List PendingChange → Exec (Backend O G) Error Text
    commit_pending changes = commit (trim (pending_message changes))

    abbrev parent_id : Text → Text → Exec (Backend O G) Error G.ObjectId
    parent_id label hex b = elim (G.from_hex (encode hex)) [
      | none ↦ (err (git (label ++ G.invalid_hex hex)), b)
      | some oid ↦ (ok oid, b)
    ]

    -- `GitBackend::create_merge_commit`
    unfoldable pub create_merge_commit : Text → Text → Text → Exec (Backend O G) Error Text
    create_merge_commit parent1_hex parent2_hex message = do
      p1 ← parent_id (codes "invalid parent1: ") parent1_hex
      p2 ← parent_id (codes "invalid parent2: ") parent2_hex
      tree_id ← build_tree_from_workdir O G digest config []
      commit_tree (p1 ∷ p2 ∷ []) message tree_id
