-- ===== src/Mounts/Exclusive.antt =====
-- Mounting and unmounting of src/fs.rs, one after the other and interleaved: what becomes of the
-- table of active mounts.
use gitoxide_fs.Base.{◌≡◌, refl, arith, List, [], ◌∷◌, some, false, list_eq, nat_eq}
use gitoxide_fs.Base.Text.{Text}
use gitoxide_fs.Base.Dict.{lookup}
use gitoxide_fs.Error.{Error, IoError, io}
use gitoxide_fs.Error.Monad.{Result, ok, err, map_err, and_then, continue}
use gitoxide_fs.Error.Runs.{outcomes}
use gitoxide_fs.Os.{Os}
use gitoxide_fs.Gix.{Gix}
use gitoxide_fs.Mounts.{
  Host, GitFs, Process, MountOption, mount_options, options_with, prepare_mount, spawn, track,
  finish_mount, mount, mount_with_options, unmount, run_unmount, untrack, unmounted_key,
  check_unmounted, already_mounted,
}
use gitoxide_fs.Mounts.Table.{
  has_repo, IsExclusive, Change, unchanged, added, removed, Change-IsExclusive,
  has_repo-remove_self, check_unmounted-ok, has_repo-check, has_repo-lookup,
}

pub data Operation (O : Os) (G : Gix) : Type 0 where
  mount_at : GitFs O G → Text → Operation O G
  mount_at_with : GitFs O G → Text → List Text → Operation O G
  unmount_at : Text → Operation O G

module _ (O : Os) (G : Gix) (host : Host O G) where
  -- What an operation leaves, whether it succeeds or not
  unfoldable pub run : Operation O G → Process O → Process O
  run (mount_at fs mount_point) p = (mount O G host fs mount_point p).1
  run (mount_at_with fs mount_point extra) p =
      (mount_with_options O G host fs mount_point extra p).1
  run (unmount_at mount_point) p = (unmount O G host mount_point p).1

  unfoldable pub run_all : List (Operation O G) → Process O → Process O
  run_all [] p = p
  run_all (op ∷ rest) p = run_all rest (run op p)

  abbrev Changes : {A : Type 0} → Process O → Result Error A × Process O → Type 0
  Changes p r = Change p.active_mounts r.1.active_mounts

  -- What `prepare_mount` lets through is not mounted.
  prepare_mount-free :
      (fs : GitFs O G) (mount_point : Text) (p : Process O) (places : Text × Text)
      → prepare_mount O G host fs.config mount_point p ≡ ok places
      → has_repo places.1 p.active_mounts ≡ false
  unfolding prepare_mount
  prepare_mount-free fs mount_point p places h =
      split (host.canonicalize fs.config.repo_path p.os) (host.canonicalize mount_point p.os) h
    where
      split :
          (r m : Result IoError Text)
          → and_then (map_err io r) (λ repo_path. and_then (map_err io m) (λ mount_abs.
            and_then (check_unmounted repo_path p.active_mounts) (λ _. ok (mount_abs, repo_path))))
            ≡ ok places
          → has_repo places.1 p.active_mounts ≡ false
      split (ok r) (ok m) e = ground (arith, check_unmounted-ok r p.active_mounts)
      split (err x) m e = cc
      split (ok r) (err x) e = cc

  finish_mount-Change :
      (fs : GitFs O G) (mount_point : Text) (options : List MountOption) (p : Process O)
      (places : Text × Text)
      → has_repo places.1 p.active_mounts ≡ false
      → Changes p (finish_mount O G host fs mount_point options places p)
  unfolding finish_mount spawn track
  finish_mount-Change fs mount_point options p places free =
      outcomes _ (λ _. track O G host places) _ (Changes p)
        (λ _ _. added places.0 places.1 p.active_mounts free) (λ _ _. unchanged p.active_mounts)

  mount_by-Change :
      (fs : GitFs O G) (mount_point : Text) (options : List MountOption) (p : Process O)
      → Changes p (
          continue
            (prepare_mount O G host fs.config mount_point p)
            (finish_mount O G host fs mount_point options)
            p)
  mount_by-Change fs mount_point options p =
      outcomes (prepare_mount O G host fs.config mount_point p)
        (finish_mount O G host fs mount_point options) p (Changes p)
        (λ places e.
          finish_mount-Change fs mount_point options p places
            (prepare_mount-free fs mount_point p places e))
        (λ _ _. unchanged p.active_mounts)

  unmount-Change : (mount_point : Text) (p : Process O) → Changes p (unmount O G host mount_point p)
  unfolding unmount run_unmount untrack
  unmount-Change mount_point p =
      outcomes (run_unmount O G host mount_point p).0 _ (run_unmount O G host mount_point p).1
        (Changes p)
        (λ output _.
          outcomes _ (λ _. untrack O G host mount_point) (run_unmount O G host mount_point p).1
            (Changes p) (λ _ _. removed _ p.active_mounts) (λ _ _. unchanged p.active_mounts))
        (λ _ _. unchanged p.active_mounts)

  -- Every operation takes at most one step of the table: a repository that is not in it is added,
  -- or a mount point is removed.
  pub run-Change :
      (op : Operation O G) (p : Process O) → Change p.active_mounts (run op p).active_mounts
  unfolding run mount mount_with_options
  run-Change (mount_at fs mount_point) p =
      mount_by-Change fs mount_point (mount_options fs.config) p
  run-Change (mount_at_with fs mount_point extra) p =
      mount_by-Change fs mount_point (options_with fs.config extra) p
  run-Change (unmount_at mount_point) p = unmount-Change mount_point p

  -- Every sequence of mounts, with or without options, and unmounts, one after the other, keeps it
  -- so that no repository stands twice in the table of active mounts, whether they succeed or fail.
  pub run_all-IsExclusive :
      (ops : List (Operation O G)) (p : Process O)
      → IsExclusive p.active_mounts
      → IsExclusive (run_all ops p).active_mounts
  unfolding run_all
  run_all-IsExclusive [] p e = e
  run_all-IsExclusive (op ∷ rest) p e =
      run_all-IsExclusive rest (run op p) (Change-IsExclusive (run-Change op p) e)

  -- A mount of a repository that is mounted fails, with or without options, and changes nothing.
  pub mounted_twice :
      (fs : GitFs O G) (mount_point : Text) (extra : List Text) (p : Process O) (there : Text)
      {repo mount_abs : Text}
      → host.canonicalize fs.config.repo_path p.os ≡ ok repo
      → host.canonicalize mount_point p.os ≡ ok mount_abs
      → lookup there p.active_mounts ≡ some repo
      → (mount O G host fs mount_point p ≡ (err (already_mounted repo), p))
        × (mount_with_options O G host fs mount_point extra p ≡ (err (already_mounted repo), p))
  unfolding mount mount_with_options prepare_mount check_unmounted
  mounted_twice fs mount_point extra p there {repo} r m h =
      let found = has_repo-lookup there repo p.active_mounts h in
      (rw (r, m, found) refl, rw (r, m, found) refl)

  -- After an unmount that succeeded, of the mount point that the repository is listed under, the
  -- repository passes the test of `mount` again, provided that no repository stood twice in the
  -- table.
  pub check_unmounted-unmount :
      (mount_point repo : Text) (p : Process O)
      → IsExclusive p.active_mounts
      → (unmount O G host mount_point p).0 ≡ ok tt
      → lookup
          (unmounted_key O G host mount_point (unmount O G host mount_point p).1.os)
          p.active_mounts
        ≡ some repo
      → check_unmounted repo (unmount O G host mount_point p).1.active_mounts ≡ ok tt
  unfolding unmount run_unmount untrack
  check_unmounted-unmount mount_point repo p e =
      outcomes (run_unmount O G host mount_point p).0 _ (run_unmount O G host mount_point p).1
        (Frees p)
        (λ output _.
          outcomes _ (λ _. untrack O G host mount_point) (run_unmount O G host mount_point p).1
            (Frees p)
            (λ _ _ done h. has_repo-check repo _ (has_repo-remove_self _ repo p.active_mounts e h))
            (λ _ _ done h. cc))
        (λ _ _ done h. cc)
    where
      Frees : Process O → Result Error Unit × Process O → Type 0
      Frees p r =
          r.0 ≡ ok tt
          → lookup (unmounted_key O G host mount_point r.1.os) p.active_mounts ≡ some repo
          → check_unmounted repo r.1.active_mounts ≡ ok tt
