-- ===== src/Backend/Opening/Again.antt =====
-- Opening a repository of src/git.rs a second time.
use gitoxide_fs.Base.{◌≡◌, refl, Bool, true, Bool-cases, inl, inr, ap, ◌∙◌}
use gitoxide_fs.Base.Text.{Text}
use gitoxide_fs.Error.{Error, git}
use gitoxide_fs.Error.Monad.{Result, ok, map_err}
use gitoxide_fs.Error.Runs.{outcomes, map_err_ok}
use gitoxide_fs.Config.{Config}
use gitoxide_fs.Os.{Os}
use gitoxide_fs.Gix.{Gix}
use gitoxide_fs.Backend.Opening.{
  Repositories, Disk, Opened, IsLawful, opened, fresh, gix_open, gix_init, is_repository,
  open_backend,
}

module _ (O : Os) (G : Gix) (R : Repositories O) (lawful : IsLawful O G R) where
  there :
      (c : Config) (bare : Bool) (d : Disk O G)
      → is_repository O G R c.repo_path d.os ≡ true
      → R.open_repo c.repo_path d.os ≡ ok bare
      → open_backend O G R c d
        ≡ (ok (record { config = c; bare = bare; backend = fresh O G c.repo_path d }), d)
  unfolding open_backend gix_open
  there c bare d h k = rw (h, k) refl

  made :
      (path : Text) (bare : Bool) (s : O.State)
      → (R.init_repo path s).0 ≡ ok bare
      → is_repository O G R path (R.init_repo path s).1 ≡ true
  unfolding is_repository
  made path bare s h = rw (lawful.exists-init_repo path s bare h) refl

  -- What an `open` that succeeded leaves: a repository that is there, and is the one in the result.
  abbrev Leaves : Config → Opened O G → Result Error (Opened O G) × Disk O G → Type 0
  Leaves c o q =
      q.0 ≡ ok o
      → (bare : Bool) × (is_repository O G R c.repo_path q.1.os ≡ true)
        × (R.open_repo c.repo_path q.1.os ≡ ok bare)
        × (record { config = c; bare = bare; backend = fresh O G c.repo_path q.1 } ≡ o)

  open_backend-Leaves :
      (c : Config) (d : Disk O G) (o : Opened O G) → Leaves c o (open_backend O G R c d)
  unfolding open_backend gix_open gix_init
  open_backend-Leaves c d o = elim (Bool-cases (is_repository O G R c.repo_path d.os)) [
    | inl h ↦ rw h (
        outcomes (map_err git (R.open_repo c.repo_path d.os)) (opened O G c) d (Leaves c o)
          (λ bare e done. (bare, h, map_err_ok git _ bare e, cc)) (λ _ _ done. cc))
    | inr n ↦ rw n (
        outcomes (map_err git (R.init_repo c.repo_path d.os).0) (opened O G c)
          (record d { os = (R.init_repo c.repo_path d.os).1 }) (Leaves c o)
          (λ bare e done.
            let i = map_err_ok git (R.init_repo c.repo_path d.os).0 bare e in
            (
              bare,
              made c.repo_path bare d.os i,
              lawful.open_repo-init_repo c.repo_path d.os bare i,
              cc,
            ))
          (λ _ _ done. cc))
  ]

  -- When `open` succeeds, opening the same configuration again gives the same backend and leaves
  -- the disk as it is, whether the repository was there before or not, provided that a repository
  -- that `gix` made can be opened.
  pub open_backend_again :
      (c : Config) (d : Disk O G) (o : Opened O G)
      → (open_backend O G R c d).0 ≡ ok o
      → open_backend O G R c (open_backend O G R c d).1 ≡ (ok o, (open_backend O G R c d).1)
  open_backend_again c d o done =
      let (bare, h, k, e) = open_backend-Leaves c d o done in
      there c bare (open_backend O G R c d).1 h k ∙ ap (λ x. (ok x, (open_backend O G R c d).1)) e
