-- ===== src/Backend/State.antt =====
-- What `GitBackend` of src/git.rs keeps, and the parts of it that its operations work on.
use gitoxide_fs.Base.{Bool, true, false, not, List, if◌then◌else◌}
use gitoxide_fs.Base.Text.{Text, codes}
use gitoxide_fs.Base.Paths.{path_join}
use gitoxide_fs.Error.{Error, git}
use gitoxide_fs.Error.Monad.{Result, ok, err, map_err, and_then, Exec}
use gitoxide_fs.Config.{Config}
use gitoxide_fs.Os.{Os}
use gitoxide_fs.Gix.{Gix, Object}
use gitoxide_fs.Ignore.Rules.{gitignored, is_ignored_by_config}
use gitoxide_fs.Backend.Refs.{read_to_string}
use gitoxide_fs.Backend.Xattrs.{Xattrs}

-- The files on disk, the objects of the repository, the attributes, the writes that wait for a
-- commit, and whether one is being made. The paths and the configuration do not change.
pub record Backend (O : Os) (G : Gix) : Type 0 where
  pub os : O.State
  pub objects : G.Store
  pub xattrs : Xattrs
  pub dirty_files : List Text
  pub commit_in_progress : Bool

module _ (O : Os) (G : Gix) where
  abbrev pub with_os : Backend O G → O.State → Backend O G
  with_os b s = record b { os = s }

  abbrev pub with_objects : Backend O G → G.Store → Backend O G
  with_objects b s = record b { objects = s }

  abbrev pub with_xattrs : Backend O G → Xattrs → Backend O G
  with_xattrs b x = record b { xattrs = x }

  abbrev pub with_dirty : Backend O G → List Text → Backend O G
  with_dirty b files = record b { dirty_files = files }

  abbrev pub with_progress : Backend O G → Bool → Backend O G
  with_progress b p = record b { commit_in_progress = p }

  -- An operation on the files on disk.
  abbrev pub on_disk : {A : Type 0} → Exec O.State Error A → Exec (Backend O G) Error A
  on_disk m b = ((m b.os).0, with_os b (m b.os).1)

  -- An operation on the attributes, which looks at the files.
  abbrev pub on_xattrs : {A : Type 0} → (O.State → Exec Xattrs Error A) → Exec (Backend O G) Error A
  on_xattrs m b = ((m b.os b.xattrs).0, with_xattrs b (m b.os b.xattrs).1)

  -- `repo.write_object(..).map_err(..)`
  abbrev pub write_object : Object G.ObjectId → Exec (Backend O G) Error G.ObjectId
  write_object x b =
      (map_err git (G.write_object x b.objects).0, with_objects b (G.write_object x b.objects).1)

-- `.unwrap_or(false)`, and whether a result is `Ok(true)`
abbrev pub or_false : Result Error Bool → Bool
or_false (ok b) = b
or_false (err e) = false

-- `GitBackend::is_ignored`
unfoldable pub is_ignored : (O : Os) → Config → Text → O.State → Result Error Bool
is_ignored O config path s =
    let gitignore = path_join config.repo_path (codes ".gitignore") in
    if is_ignored_by_config config.ignore_patterns path
    then ok true
    else if not (O.exists gitignore s)
    then ok false
    else and_then (read_to_string O gitignore s) (λ content. ok (gitignored content path))
