-- ===== src/CommandLine/Merging.antt =====
-- Commands of src/main.rs in processes that follow one another: what one leaves on disk, and the
-- next finds there.
use gitoxide_fs.Base.{◌≡◌, refl, ap, ◌∙◌, Bool, true, some, [], ℕ, list_eq, nat_eq}
use gitoxide_fs.Base.Text.{Text}
use gitoxide_fs.Base.Dict.{lookup}
use gitoxide_fs.Error.{Error}
use gitoxide_fs.Error.Monad.{Result, ok, err}
use gitoxide_fs.Error.Runs.{outcomes, map_err_ok}
use gitoxide_fs.Config.{Config, MergeStrategy, new_config}
use gitoxide_fs.Os.{Os}
use gitoxide_fs.Os.Laws
use gitoxide_fs.Gix.{Gix}
use gitoxide_fs.Backend.Opening.{Disk, open_backend, is_repository, gix_open, fresh, left}
use gitoxide_fs.Forks
use gitoxide_fs.Forks.{ForkMetadata, ForkManager, Manage, load_from_disk}
use gitoxide_fs.Forks.Merging.{MergeResult, merge_fork_with_strategy, merged_fork}
use gitoxide_fs.Forks.Merges.{merge-lookup, merge_refused}
use gitoxide_fs.Forks.Operations
use gitoxide_fs.Forks.Operations.{result_of}
use gitoxide_fs.Forks.Persistence
use gitoxide_fs.Forks.Reloading.{new-run}
use gitoxide_fs.CommandLine.{library}
use gitoxide_fs.CommandLine.Running.{
  with_strategy, Libraries, Session, with_backend, with_manager, run_merge,
}

-- The configuration of `gofs fork merge`
abbrev config_of : Text → MergeStrategy → Config
config_of repo strategy = with_strategy strategy (new_config repo [])

module _ (O : Os) (G : Gix) (L : Libraries O G) where
  -- The work of a fork manager that succeeded, and the files that it leaves.
  with_manager-ok :
      {A : Type 0} (config : Config) (m : Manage O G L.json L.digest config A) (d : Disk O G)
      (a : A)
      → (with_manager O G L config m d).0 ≡ ok a
      → (f : ForkManager O G) × ((m f).0 ≡ ok a)
        × ((with_manager O G L config m d).1.os ≡ (m f).1.backend.os)
  unfolding with_manager with_backend left
  with_manager-ok {A} config m d a =
      outcomes (open_backend O G L.repositories config d).0 _
        (open_backend O G L.repositories config d).1 Succeeds
        (λ o _ done. (Forks.new O G L.json L.digest config o.backend, done, refl)) (λ _ _ done. cc)
    where
      Succeeds : Result Error A × Disk O G → Type 0
      Succeeds r =
          r.0 ≡ ok a → (f : ForkManager O G) × ((m f).0 ≡ ok a) × (r.1.os ≡ (m f).1.backend.os)

  -- A repository that is there is opened again, and the manager is made on what is on disk.
  with_manager-there :
      {A : Type 0} (config : Config) (m : Manage O G L.json L.digest config A) (d : Disk O G)
      (bare : Bool)
      → is_repository O G L.repositories config.repo_path d.os ≡ true
      → L.repositories.open_repo config.repo_path d.os ≡ ok bare
      → with_manager O G L config m d ≡ (
          let r = m (Forks.new O G L.json L.digest config (fresh O G config.repo_path d)) in
          (r.0, left O G config.repo_path r.1.backend d))
  unfolding with_manager with_backend open_backend gix_open
  with_manager-there config m d bare there opened = rw (there, opened) refl

  module _ (disk : Laws.IsLawful O) (lawful : Persistence.IsLawful L.json) (levels all : ℕ)
      (json_output : Bool) where
    merged_there :
        (name repo : Text) (strategy later : MergeStrategy) (f : ForkManager O G) (r : MergeResult)
        (d : Disk O G)
        → (merge_fork_with_strategy O G L.json L.digest
            (config_of repo strategy)
            levels
            name
            strategy
            f).0
          ≡ ok r
        → d.os
          ≡ (merge_fork_with_strategy O G L.json L.digest
              (config_of repo strategy)
              levels
              name
              strategy
              f).1.backend.os
        → (meta : ForkMetadata) × (lookup name
              (Forks.new O G L.json L.digest (config_of repo later) (fresh O G repo d)).forks
            ≡ some meta)
          × (meta.merged ≡ true)
    unfolding Forks.new load_from_disk result_of Operations.run fresh
    merged_there name repo strategy later f r d done e =
        let c = config_of repo strategy in
        let (meta, there, t) = merge-lookup O G L.json L.digest c levels name strategy f r done in
        let op = Operations.merge name strategy in
        let g = Operations.run O G L.json L.digest c levels op f in
        let kept = new-run O G L.json L.digest c disk lawful levels op f name (rw done refl) in
        let forks_on =
          λ (s : O.State). (Forks.new O G L.json L.digest c (record g.backend { os = s })).forks in
        (meta, ap (λ s. lookup name (forks_on s)) e ∙ (kept ∙ there), t)

    -- On a lawful operating system and with a lawful `serde_json`: a fork that `gofs fork merge`
    -- merged is refused by every later `gofs fork merge`, in another process, with the error that
    -- it has already been merged, and the files are as they were, provided that the repository is
    -- then still there and can be opened.
    pub run_merge_once :
        (name repo : Text) (strategy later : MergeStrategy) (s : Session O G) (r : MergeResult)
        (bare : Bool)
        → let t = (run_merge O G L levels all json_output name repo strategy s).1 in
          (run_merge O G L levels all json_output name repo strategy s).0 ≡ ok r
          → is_repository O G L.repositories repo t.disk.os ≡ true
          → L.repositories.open_repo repo t.disk.os ≡ ok bare
          → ((run_merge O G L levels all json_output name repo later t).0
              ≡ err (library (merged_fork name)))
            × ((run_merge O G L levels all json_output name repo later t).1.disk.os ≡ t.disk.os)
    unfolding run_merge left fresh Forks.new
    run_merge_once name repo strategy later s r bare done there opened =
        let merge_by = λ (m : MergeStrategy).
          merge_fork_with_strategy O G L.json L.digest (config_of repo m) levels name m in
        let earlier = with_manager O G L (config_of repo strategy) (merge_by strategy) s.disk in
        let (f, merged, files) =
          with_manager-ok (config_of repo strategy) (merge_by strategy) s.disk r
            (map_err_ok library earlier.0 r done) in
        let (meta, listed, t) = merged_there name repo strategy later f r earlier.1 merged files in
        let g = Forks.new O G L.json L.digest (config_of repo later) (fresh O G repo earlier.1) in
        let again =
          with_manager-there (config_of repo later) (merge_by later) earlier.1 bare there opened in
        let refused =
          merge_refused O G L.json L.digest (config_of repo later) levels name later g meta listed
            t in
        (rw (again, refused) refl, rw (again, refused) refl)
