-- ===== src/Backend/Opening.antt =====
-- The constructors of `GitBackend` in src/git.rs: `open`, `init` and `open_existing`. Opening and
-- making a repository are calls of the crate `gix`.
pub mod Again
use gitoxide_fs.Base.{Bool, true, false, ◌||◌, ◌≡◌, [], if◌then◌else◌, list_eq, nat_eq, ◌==◌}
use gitoxide_fs.Base.Text.{Text, codes}
use gitoxide_fs.Base.Paths.{path_join}
use gitoxide_fs.Error.{Error, git}
use gitoxide_fs.Error.Monad.{Result, ok, map_err, Exec, continue}
use gitoxide_fs.Config.{Config, new_config}
use gitoxide_fs.Os.{Os}
use gitoxide_fs.Gix.{Gix}
use gitoxide_fs.Backend.State.{Backend}

-- `gix::open` and `gix::init`, with `is_bare` of the repository that they return; an error is the
-- text that `to_string` gives.
pub record Repositories (O : Os) : Type 0 where
  pub open_repo : Text → O.State → Result Text Bool
  pub init_repo : Text → Exec O.State Text Bool

-- What is on disk: the files, and the objects of the repository at each path.
pub record Disk (O : Os) (G : Gix) : Type 0 where
  pub os : O.State
  pub stores : Text → G.Store

-- A `GitBackend` that was just made.
pub record Opened (O : Os) (G : Gix) : Type 0 where
  pub config : Config
  pub bare : Bool
  pub backend : Backend O G

module _ (O : Os) (G : Gix) where
  -- The backend on what is on disk, with nothing in memory.
  unfoldable pub fresh : Text → Disk O G → Backend O G
  fresh path d = record {
    os = d.os;
    objects = d.stores path;
    xattrs = [];
    dirty_files = [];
    commit_in_progress = false;
  }

  -- What the backend left on disk.
  unfoldable pub left : Text → Backend O G → Disk O G → Disk O G
  left path b d = record { os = b.os; stores = λ p. if p == path then b.objects else d.stores p }

  abbrev pub opened : Config → Bool → Exec (Disk O G) Error (Opened O G)
  opened config bare d =
      (ok (record { config = config; bare = bare; backend = fresh config.repo_path d }), d)

  module _ (R : Repositories O) where
    unfoldable pub gix_open : Text → Exec (Disk O G) Error Bool
    gix_open path d = (map_err git (R.open_repo path d.os), d)

    unfoldable pub gix_init : Text → Exec (Disk O G) Error Bool
    gix_init path d =
        (map_err git (R.init_repo path d.os).0, record d { os = (R.init_repo path d.os).1 })

    unfoldable pub is_repository : Text → O.State → Bool
    is_repository path s =
        O.exists (path_join path (codes ".git")) s || O.exists (path_join path (codes "HEAD")) s

    -- `GitBackend::open`
    unfoldable pub open_backend : Config → Exec (Disk O G) Error (Opened O G)
    open_backend config d =
        let r =
          if is_repository config.repo_path d.os
          then gix_open config.repo_path d
          else gix_init config.repo_path d in
        continue r.0 (opened config) r.1

    -- `GitBackend::init`; the repository is taken not to be bare.
    unfoldable pub init_backend : Text → Exec (Disk O G) Error (Opened O G)
    init_backend path d =
        let r = gix_init path d in continue r.0 (λ _. opened (new_config path []) false) r.1

    -- `GitBackend::open_existing`
    unfoldable pub open_existing : Text → Exec (Disk O G) Error (Opened O G)
    open_existing path d = let r = gix_open path d in continue r.0 (opened (new_config path [])) r.1

    -- What `gix` documents of a repository that it made: it has a `.git`, and can be opened.
    pub record IsLawful : Type 0 where
      pub exists-init_repo :
          (path : Text) (s : O.State) (bare : Bool)
          → (R.init_repo path s).0 ≡ ok bare
          → O.exists (path_join path (codes ".git")) (R.init_repo path s).1 ≡ true
      pub open_repo-init_repo :
          (path : Text) (s : O.State) (bare : Bool)
          → (R.init_repo path s).0 ≡ ok bare
          → R.open_repo path (R.init_repo path s).1 ≡ ok bare
