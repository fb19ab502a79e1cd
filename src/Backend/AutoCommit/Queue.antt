-- ===== src/Backend/AutoCommit/Queue.antt =====
-- The writes that wait for a commit.
use gitoxide_fs.Base.{
  ◌≡◌, ◌<◌, ◌≤◌, refl, sym, Bool-cases, ◌&&◌, List, [], ◌∷◌, ◌++◌, arith, inl, inr, length, nat_eqb,
  ltb, leb,
}
use mathlib.Core.Path.{subst}
use gitoxide_fs.Base.Text.{Text, Bytes, codes}
use gitoxide_fs.Error.{Error}
use gitoxide_fs.Error.Monad.{Result, ok, err, Exec, continue}
use gitoxide_fs.Config.{Config}
use gitoxide_fs.Os.{Os}
use gitoxide_fs.Gix.{Gix}
use gitoxide_fs.Backend.State.{Backend, with_os, with_dirty}
use gitoxide_fs.Backend.Files.{write_content}
use gitoxide_fs.Backend.AutoCommit.{
  is_tracked, commit_when_due, auto_commit, write_file, commit_all, forget_id, message,
}

module _ (O : Os) (G : Gix) (config : Config) (digest : Bytes → Bytes)
    (commit_incremental : Text → List Text → Exec (Backend O G) Error Text) where
  -- A commit takes files out of the queue or leaves it alone.
  abbrev pub Drains : Type 0
  Drains =
      (message : Text) (files : List Text) (b : Backend O G)
      → length (commit_incremental message files b).1.dirty_files ≤ length b.dirty_files

  -- The number of files that wait after a write: none when there is no debounce, and fewer than a
  -- batch when there is a batch size.
  abbrev pub IsBelowBatch : Backend O G → Type 0
  IsBelowBatch b =
      (config.commit.debounce_ms ≡ 0 → length b.dirty_files ≡ 0)
      × (0 < config.commit.max_batch_size → length b.dirty_files < config.commit.max_batch_size)

  forget_id-state :
      (r : Result Error Text × Backend O G)
      → (forget_id O G config digest commit_incremental r).1 ≡ r.1
  forget_id-state (ok id, b) = refl
  forget_id-state (err e, b) = refl

  commit_all-IsBelowBatch :
      Drains
      → (label : Text) (b : Backend O G)
      → IsBelowBatch
          (forget_id O G config digest commit_incremental
            (commit_all O G config digest commit_incremental label b)).1
  commit_all-IsBelowBatch drains label b =
      let drained =
        drains (message O G config digest commit_incremental label b.dirty_files) b.dirty_files
          (with_dirty O G b []) in
      subst IsBelowBatch
        (sym (forget_id-state (commit_all O G config digest commit_incremental label b)))
        ((λ z. omega (arith, drained)), (λ z. omega (arith, drained)))

  commit_when_due-IsBelowBatch :
      Drains
      → (b : Backend O G) → IsBelowBatch (commit_when_due O G config digest commit_incremental b).1
  unfolding commit_when_due
  commit_when_due-IsBelowBatch drains b = elim (Bool-cases (nat_eqb config.commit.debounce_ms 0)) [
    | inl e ↦ rw e (commit_all-IsBelowBatch drains (codes "Auto-commit: ") b)
    | inr e ↦
        elim (Bool-cases (
          ltb 0 config.commit.max_batch_size
          && leb config.commit.max_batch_size (length b.dirty_files))) [
            | inl f ↦ rw (e, f) (commit_all-IsBelowBatch drains (codes "Auto-commit batch: ") b)
            | inr f ↦ rw (e, f) ((λ z. ground arith), (λ z. ground arith))
          ]
  ]

  auto_commit-IsBelowBatch :
      Drains
      → (path : Text) (b : Backend O G) → IsBelowBatch b
      → IsBelowBatch (auto_commit O G config digest commit_incremental path b).1
  unfolding auto_commit
  auto_commit-IsBelowBatch drains path b v = elim (Bool-cases (is_tracked O G config path b)) [
    | inl e ↦
        rw e (commit_when_due-IsBelowBatch drains (with_dirty O G b (b.dirty_files ++ path ∷ [])))
    | inr e ↦ rw e v
  ]

  continue-IsBelowBatch :
      Drains
      → (path : Text) (r : Result Error Unit) (b : Backend O G) → IsBelowBatch b
      → IsBelowBatch (continue r (λ _. auto_commit O G config digest commit_incremental path) b).1
  continue-IsBelowBatch drains path (ok _) b v = auto_commit-IsBelowBatch drains path b v
  continue-IsBelowBatch drains path (err e) b v = v

  -- `write_file` keeps the queue bounded, when `commit_incremental` adds nothing to it: no file waits
  -- afterwards when there is no debounce, and fewer files than `max_batch_size` wait when that is
  -- positive, if this was so before.
  pub write_file-IsBelowBatch :
      Drains
      → (path : Text) (content : Bytes) (b : Backend O G) → IsBelowBatch b
      → IsBelowBatch (write_file O G config digest commit_incremental path content b).1
  unfolding write_file
  write_file-IsBelowBatch drains path content b v =
      continue-IsBelowBatch drains path (write_content O config digest path content b.os).0
        (with_os O G b (write_content O config digest path content b.os).1) v
