-- ===== src/Forks/Reloading.antt =====
-- Every operation of src/fork.rs that succeeds leaves its map of forks on disk.
use gitoxide_fs.Base.{nat_eq, list_eq, ◌≡◌, refl, ℕ, Bool-cases, inl, inr, not, ◌&&◌, is_empty}
use gitoxide_fs.Base.Text.{Text, Bytes}
use gitoxide_fs.Base.Dict.{lookup, remove}
use gitoxide_fs.Error.{Error}
use gitoxide_fs.Error.Monad.{Result, ok, err, and_then, ◌>>◌}
use gitoxide_fs.Config.{Config, MergeStrategy}
use gitoxide_fs.Os.{Os}
use gitoxide_fs.Os.Laws
use gitoxide_fs.Gix.{Gix}
use gitoxide_fs.Merge.{Merge}
use gitoxide_fs.Backend.Refs.{
  create_branch, create_branch_at, delete_branch, current_branch, head_commit_hex,
  branch_commit_oid,
}
use gitoxide_fs.Forks.{
  Json, ForkManager, Manage, new, track, create_fork, create_fork_at, create_nested_fork,
  abandon_fork, on_files, refuse_known, or_no_commits, find_fork, unmerged_parent,
}
use gitoxide_fs.Forks.Merging.{
  MergeResult, Sides, settle, prepare, write_merge, apply_merge, applied, conflicting, conclude,
  is_three_way, merge_sides, merge_fork_with_strategy,
}
use gitoxide_fs.Forks.Operations.{
  done, result_of, Operation, create, abandon, create_at, create_nested, merge, run,
}
use gitoxide_fs.Forks.Persistence.{IsLawful}
use gitoxide_fs.Forks.Persistence

module _ (O : Os) (G : Gix) (json : Json) (digest : Bytes → Bytes) (config : Config)
    (disk : Laws.IsLawful O) (lawful : IsLawful json) where
  track-IsSaved :
      (name parent_branch fork_point : Text)
      → Persistence.Saves O G json digest config disk lawful
          (track O G json digest config name parent_branch fork_point)
  unfolding track
  track-IsSaved name parent_branch fork_point f b =
      Persistence.last-IsSaved O G json digest config disk lawful _ b _

  -- A new fork, once its branch is made by `make`.
  created-IsSaved :
      (name parent_branch fork_point : Text) (make : Manage O G json digest config Unit)
      → Persistence.Saves O G json digest config disk lawful (
          refuse_known O G json digest config name
          >> (make >> track O G json digest config name parent_branch fork_point))
  created-IsSaved name parent_branch fork_point make f b =
      let rest = track O G json digest config name parent_branch fork_point in
      Persistence.then-IsSaved O G json digest config disk lawful
        (refuse_known O G json digest config name f).0 (λ _. make >> rest) f b
        (λ _ _.
          Persistence.then-IsSaved O G json digest config disk lawful (make f).0 (λ _. rest)
            (make f).1 b (λ _ _. track-IsSaved name parent_branch fork_point (make f).1 b))

  create_fork-IsSaved :
      (name : Text)
      → Persistence.Saves O G json digest config disk lawful
          (create_fork O G json digest config name)
  unfolding create_fork
  create_fork-IsSaved name f b =
      Persistence.then-IsSaved O G json digest config disk lawful
        (current_branch O config.repo_path f.backend.os) _ f b
        (λ p _.
          Persistence.then-IsSaved O G json digest config disk lawful
            (or_no_commits (head_commit_hex O G config.repo_path f.backend.os)) _ f b
            (λ c _.
              created-IsSaved name p c
                (on_files O G json digest config (create_branch O G config.repo_path name)) f b))

  create_fork_at-IsSaved :
      (name commit_id : Text)
      → Persistence.Saves O G json digest config disk lawful
          (create_fork_at O G json digest config name commit_id)
  unfolding create_fork_at
  create_fork_at-IsSaved name commit_id f b =
      Persistence.then-IsSaved O G json digest config disk lawful
        (current_branch O config.repo_path f.backend.os) _ f b
        (λ p _.
          created-IsSaved name p commit_id
            (on_files O G json digest config (create_branch_at O G config.repo_path name commit_id))
            f b)

  create_nested_fork-IsSaved :
      (parent_fork name : Text)
      → Persistence.Saves O G json digest config disk lawful
          (create_nested_fork O G json digest config parent_fork name)
  unfolding create_nested_fork
  create_nested_fork-IsSaved parent_fork name f b =
      Persistence.then-IsSaved O G json digest config disk lawful
        (and_then (find_fork parent_fork f.forks) (unmerged_parent parent_fork)) _ f b
        (λ meta _.
          Persistence.then-IsSaved O G json digest config disk lawful
            (branch_commit_oid O config.repo_path meta.branch f.backend.os) _ f b
            (λ c _.
              created-IsSaved name parent_fork c
                (on_files O G json digest config (create_branch_at O G config.repo_path name c)) f
                b))

  abandon_fork-IsSaved :
      (name : Text)
      → Persistence.Saves O G json digest config disk lawful
          (abandon_fork O G json digest config name)
  unfolding abandon_fork
  abandon_fork-IsSaved name f b =
      Persistence.then-IsSaved O G json digest config disk lawful (find_fork name f.forks) _ f b
        (λ meta _.
          let drop =
            on_files O G json digest config (delete_branch O config.repo_path meta.branch) in
          Persistence.then-IsSaved O G json digest config disk lawful (drop f).0 _ (drop f).1 b
            (λ _ _.
              Persistence.persist-IsSaved O G json digest config disk lawful
                (record (drop f).1 { forks = remove name f.forks }) b))

  module _ (levels : ℕ) where
    settle-IsSaved :
        (name : Text) (result : MergeResult)
        → Persistence.Saves O G json digest config disk lawful
            (settle O G json digest config levels name result)
    unfolding settle
    settle-IsSaved name result f b =
        Persistence.last-IsSaved O G json digest config disk lawful _ b result

    conclude-IsSaved :
        (name : Text) (strategy : MergeStrategy) (s : Sides) (m : Merge)
        → Persistence.Saves O G json digest config disk lawful
            (conclude O G json digest config levels name strategy s m)
    unfolding conclude apply_merge
    conclude-IsSaved name strategy s m f b =
        elim (Bool-cases (not (is_empty m.conflicts) && is_three_way strategy)) [
          | inl t ↦ rw t (settle-IsSaved name (conflicting O G json digest config levels s m) f b)
          | inr t ↦
              let w = write_merge O G json digest config levels name s m f in
              rw t (
                Persistence.then-IsSaved O G json digest config disk lawful w.0 _ w.1 b
                  (λ id _. settle-IsSaved name (applied O G json digest config levels m id) w.1 b))
        ]

    merge-IsSaved :
        (name : Text) (strategy : MergeStrategy)
        → Persistence.Saves O G json digest config disk lawful
            (merge_fork_with_strategy O G json digest config levels name strategy)
    unfolding merge_fork_with_strategy
    merge-IsSaved name strategy f b =
        Persistence.then-IsSaved O G json digest config disk lawful
          (prepare O G json digest config levels name f) _ f b
          (λ s _. conclude-IsSaved name strategy s (merge_sides s strategy) f b)

    when_done :
        {A : Type 0} (r : Result Error A) (P : Type 0)
        → ((a : A) → r ≡ ok a → P)
        → done r ≡ ok tt
        → P
    when_done (ok a) P h e = h a refl
    when_done (err x) P h e = cc

    -- On a lawful operating system and with a lawful `serde_json`: after an operation that
    -- succeeded, a fork manager that is made anew on the same disk has the same forks.
    pub new-run :
        (op : Operation) (f : ForkManager O G) (name : Text)
        → result_of O G json digest config levels op f ≡ ok tt
        → let g = run O G json digest config levels op f in
          lookup name (new O G json digest config g.backend).forks ≡ lookup name g.forks
    unfolding result_of run
    new-run (create fork) f name =
        when_done (create_fork O G json digest config fork f).0 _
          (λ a e. create_fork-IsSaved fork f a e name)
    new-run (abandon fork) f name =
        when_done (abandon_fork O G json digest config fork f).0 _
          (λ a e. abandon_fork-IsSaved fork f a e name)
    new-run (create_at fork commit_id) f name =
        when_done (create_fork_at O G json digest config fork commit_id f).0 _
          (λ a e. create_fork_at-IsSaved fork commit_id f a e name)
    new-run (create_nested parent_fork fork) f name =
        when_done (create_nested_fork O G json digest config parent_fork fork f).0 _
          (λ a e. create_nested_fork-IsSaved parent_fork fork f a e name)
    new-run (merge fork strategy) f name =
        when_done (merge_fork_with_strategy O G json digest config levels fork strategy f).0 _
          (λ a e. merge-IsSaved fork strategy f a e name)
