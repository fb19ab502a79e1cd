-- ===== src/Backend/AutoCommit.antt =====
-- `write_file` of `GitBackend` in src/git.rs with its automatic commit, and
-- `flush_pending_auto_commit`: the writes that are waiting for a commit, and when they get it.
-- `commit_incremental` is a parameter here.
pub mod Queue
pub mod Committing
use gitoxide_fs.Base.{
  ℕ, Bool, true, false, ◌&&◌, not, Option, none, some, List, [], ◌∷◌, ◌++◌, is_empty, length, ltb,
  leb, nat_eqb, if◌then◌else◌,
}
use gitoxide_fs.Base.Text.{Text, Bytes, codes, join}
use gitoxide_fs.Base.Paths.{path_join}
use gitoxide_fs.Error.{Error}
use gitoxide_fs.Error.Monad.{Result, ok, err, and_then, Exec, pure, ◌>>=◌, ◌>>◌, continue}
use gitoxide_fs.Config.{Config}
use gitoxide_fs.Os.{Os}
use gitoxide_fs.Gix.{Gix}
use gitoxide_fs.Backend.State.{Backend, with_dirty, on_disk, or_false, is_ignored}
use gitoxide_fs.Ignore.Rules.{gitignored, is_ignored_by_config}
use gitoxide_fs.Backend.{check_writable, check_file_path, full_path}
use gitoxide_fs.Backend.Refs.{read_to_string}
use gitoxide_fs.Backend.Files.{read_file, write_content}
use gitoxide_fs.Base.{resize}

module _ (O : Os) (G : Gix) (config : Config) where
  -- Whether a write waits for a commit.
  unfoldable pub is_tracked : Text → Backend O G → Bool
  unfolding is_ignored
  is_tracked path b =
      config.commit.auto_commit
      && not b.commit_in_progress
      && not (or_false (is_ignored O config path b.os))

  module _ (digest : Bytes → Bytes)
      (commit_incremental : Text → List Text → Exec (Backend O G) Error Text) where
    abbrev pub forget_id : Result Error Text × Backend O G → Result Error Unit × Backend O G
    forget_id (ok id, b) = (ok tt, b)
    forget_id (err e, b) = (err e, b)

    abbrev pub message : Text → List Text → Text
    message label files = label ++ join (codes ", ") files

    -- Takes all the waiting files and commits them.
    abbrev pub commit_all : Text → Exec (Backend O G) Error Text
    commit_all label b =
        commit_incremental (message label b.dirty_files) b.dirty_files (with_dirty O G b [])

    -- Commits what is waiting, or leaves it waiting.
    unfoldable pub commit_when_due : Exec (Backend O G) Error Unit
    commit_when_due b =
        if nat_eqb config.commit.debounce_ms 0
        then forget_id (commit_all (codes "Auto-commit: ") b)
        else if ltb 0 config.commit.max_batch_size
            && leb config.commit.max_batch_size (length b.dirty_files)
        then forget_id (commit_all (codes "Auto-commit batch: ") b)
        else (ok tt, b)

    -- The end of `write_file`.
    unfoldable pub auto_commit : Text → Exec (Backend O G) Error Unit
    auto_commit path b =
        if is_tracked path b
        then commit_when_due (with_dirty O G b (b.dirty_files ++ path ∷ []))
        else (ok tt, b)

    -- `GitBackend::write_file`
    unfoldable pub write_file : Text → Bytes → Exec (Backend O G) Error Unit
    write_file path content = do
      on_disk O G (write_content O config digest path content)
      auto_commit path

    abbrev some_id : Result Error Text × Backend O G → Result Error (Option Text) × Backend O G
    some_id (ok id, b) = (ok (some id), b)
    some_id (err e, b) = (err e, b)

    -- `GitBackend::flush_pending_auto_commit`
    unfoldable pub flush_pending_auto_commit : Exec (Backend O G) Error (Option Text)
    flush_pending_auto_commit b =
        if is_empty b.dirty_files
        then (ok none, b)
        else some_id (commit_all (codes "Auto-commit: ") b)

    -- `GitBackend::truncate_file`
    unfoldable pub truncate_file : Text → ℕ → Exec (Backend O G) Error Unit
    truncate_file path size = do
      check_writable config
      check_file_path config path
      content ← on_disk O G (read_file O config path)
      write_file path (resize size 0 content)
