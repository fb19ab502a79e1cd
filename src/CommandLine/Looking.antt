-- ===== src/CommandLine/Looking.antt =====
-- The commands of src/main.rs that only show something.
use gitoxide_fs.Base.{[], List, ◌∙◌, ◌≡◌, refl, arith, Bool, ℕ, if◌then◌else◌, Bool-cases, inl, inr}
use gitoxide_fs.Base.Text.{Text}
use gitoxide_fs.Error.{Error, git}
use gitoxide_fs.Error.Monad.{Result, ok, map_err, pure}
use gitoxide_fs.Error.Runs.{outcomes}
use gitoxide_fs.Os.{Os}
use gitoxide_fs.Gix.{Gix}
use gitoxide_fs.Config.{new_config}
use gitoxide_fs.Backend.Opening.{
  Disk, Opened, opened, open_backend, gix_open, gix_init, is_repository, left, fresh,
}
use gitoxide_fs.Forks
use gitoxide_fs.Forks.{ForkInfo}
use gitoxide_fs.Mounts
use gitoxide_fs.Mounts.{GitFs}
use gitoxide_fs.CommandLine.{library, status, fork, list}
use gitoxide_fs.CommandLine.Running.{
  finished, Libraries, Session, run, run_fork, with_manager, with_backend,
}

module _ (O : Os) (G : Gix) (L : Libraries O G) (levels all : ℕ) (json_output : Bool) where
  -- The files that opening a repository leaves.
  abbrev files_of : Text → Session O G → O.State
  files_of path s =
      if is_repository O G L.repositories path s.disk.os
      then s.disk.os
      else (L.repositories.init_repo path s.disk.os).1

  open_files :
      (path : Text) (s : Session O G)
      → (open_backend O G L.repositories (new_config path []) s.disk).1.os ≡ files_of path s
  unfolding open_backend gix_open gix_init
  open_files path s = elim (Bool-cases (is_repository O G L.repositories path s.disk.os)) [
    | inl there ↦ rw there (
        outcomes (map_err git (L.repositories.open_repo path s.disk.os)) _ s.disk
          (λ q. q.1.os ≡ s.disk.os) (λ _ _. refl) (λ _ _. refl))
    | inr none_there ↦ rw none_there (
        outcomes (map_err git (L.repositories.init_repo path s.disk.os).0) _
          (record s.disk { os = (L.repositories.init_repo path s.disk.os).1 })
          (λ q. q.1.os ≡ (L.repositories.init_repo path s.disk.os).1) (λ _ _. refl) (λ _ _. refl))
  ]

  status_files :
      (path : Text) (s : Session O G)
      → (run O G L levels all json_output (status path) s).1.disk.os ≡ files_of path s
  unfolding run Mounts.new
  status_files path s =
      outcomes (map_err library opened.0) _ (record s { disk = opened.1 })
        (λ q. q.1.disk.os ≡ files_of path s) (λ _ _. e) (λ _ _. e)
    where
      opened : Result Error (GitFs O G) × Disk O G
      opened = Mounts.new O G L.repositories (new_config path []) s.disk

      e : opened.1.os ≡ files_of path s
      e =
          outcomes (open_backend O G L.repositories (new_config path []) s.disk).0 _
            (open_backend O G L.repositories (new_config path []) s.disk).1
            (λ q. q.1.os ≡ files_of path s) (λ _ _. open_files path s) (λ _ _. open_files path s)

  -- A backend that was just opened sees the files that are on disk.
  opened_files :
      (path : Text) (s : Session O G) (o : Opened O G)
      → (open_backend O G L.repositories (new_config path []) s.disk).0 ≡ ok o
      → o.backend.os ≡ (open_backend O G L.repositories (new_config path []) s.disk).1.os
  unfolding open_backend fresh
  opened_files path s o =
      let config = new_config path [] in
      let r =
        if is_repository O G L.repositories path s.disk.os
        then gix_open O G L.repositories path s.disk
        else gix_init O G L.repositories path s.disk in
      outcomes r.0 (opened O G config) r.1 (λ q. q.0 ≡ ok o → o.backend.os ≡ q.1.os)
        (λ bare _ done. ground arith) (λ _ _ done. cc)

  list_files :
      (path : Text) (s : Session O G)
      → (run_fork O G L levels all json_output (list path) s).1.disk.os ≡ files_of path s
  unfolding run_fork with_manager with_backend left Forks.list_forks Forks.new
  list_files path s =
      outcomes (map_err library opened.0) _ (record s { disk = opened.1 })
        (λ q. q.1.disk.os ≡ files_of path s) (λ _ _. e) (λ _ _. e)
    where
      opened : Result Error (List ForkInfo) × Disk O G
      opened =
          with_manager O G L (new_config path [])
            (Forks.list_forks O G L.json L.digest (new_config path [])) s.disk

      e : opened.1.os ≡ files_of path s
      e =
          outcomes (open_backend O G L.repositories (new_config path []) s.disk).0 _
            (open_backend O G L.repositories (new_config path []) s.disk).1
            (λ q. q.1.os ≡ files_of path s) (λ o h. opened_files path s o h ∙ open_files path s)
            (λ _ _. open_files path s)

  -- `gofs status` and `gofs fork list` leave the files alone where there is a repository. Where
  -- there is none, they make one.
  pub show_files :
      (path : Text) (s : Session O G)
      → ((run O G L levels all json_output (status path) s).1.disk.os ≡ files_of path s)
        × ((run O G L levels all json_output (fork (list path)) s).1.disk.os ≡ files_of path s)
  unfolding run
  show_files path s =
      let r = run_fork O G L levels all json_output (list path) s in
      (
        status_files path s,
        outcomes r.0 (λ _. pure finished) r.1 (λ q. q.1.disk.os ≡ files_of path s)
            (λ _ _. list_files path s) (λ _ _. list_files path s),
      )
