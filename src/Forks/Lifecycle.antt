-- ===== src/Forks/Lifecycle.antt =====
-- What the operations of the fork manager do to the map of forks.
use mathlib.Core.Path.{subst}
use gitoxide_fs.Base.{nat_eq, list_eq, ◌≡◌, refl, ap, sym, ◌∙◌, false, not, none, some, arith}
use gitoxide_fs.Base.Text.{Text, Bytes}
use gitoxide_fs.Base.Dict.{lookup, insert, contains_key, remove}
use gitoxide_fs.Error.{Error}
use gitoxide_fs.Error.Monad.{Result, ok, err, continue, and_then, ensure, ◌>>◌}
use gitoxide_fs.Config.{Config}
use gitoxide_fs.Os.{Os}
use gitoxide_fs.Gix.{Gix}
use gitoxide_fs.Backend.Refs.{
  current_branch, create_branch, create_branch_at, delete_branch, branch_commit_oid,
  head_commit_hex,
}
use gitoxide_fs.Forks.{
  Forks, ForkMetadata, Json, ForkManager, Manage, persist, track, create_fork, create_fork_at,
  create_nested_fork, abandon_fork, find_fork, refuse_known, known_fork, on_files, or_no_commits,
  unmerged_parent,
}
use gitoxide_fs.Forks.Registry.{Change, unchanged, added, dropped}

absent :
    (name : Text) (d : Forks) (e : Error)
    → ensure (not (contains_key name d)) e ≡ ok tt
    → lookup name d ≡ none
absent name d e h = ground arith

pub found :
    (name : Text) (d : Forks) (meta : ForkMetadata)
    → find_fork name d ≡ ok meta
    → lookup name d ≡ some meta
unfolding find_fork
found name d meta h = ground arith

module _ (O : Os) (G : Gix) (json : Json) (digest : Bytes → Bytes) (config : Config) where
  abbrev pub Changes : {A : Type 0} → Manage O G json digest config A → ForkManager O G → Type 0
  Changes m f = Change f.forks (m f).1.forks

  pub continue_Change :
      {A B : Type 0} (r : Result Error A) (k : A → Manage O G json digest config B) (d : Forks)
      (g : ForkManager O G)
      → Change d g.forks
      → ((a : A) → r ≡ ok a → Change d (k a g).1.forks)
      → Change d (continue r k g).1.forks
  continue_Change (ok a) k d g c h = h a refl
  continue_Change (err e) k d g c h = c

  pub persist_forks : (f : ForkManager O G) → (persist O G json digest config f).1.forks ≡ f.forks
  unfolding persist
  persist_forks f = ground arith

  abbrev fresh_meta : Text → Text → Text → ForkMetadata
  fresh_meta name parent_branch fork_point = record {
    branch = name;
    parent_branch = parent_branch;
    fork_point = fork_point;
    merged = false;
  }

  track_forks :
      (name parent_branch fork_point : Text) (f : ForkManager O G)
      → (track O G json digest config name parent_branch fork_point f).1.forks
        ≡ insert name (fresh_meta name parent_branch fork_point) f.forks
  unfolding track
  track_forks name parent_branch fork_point f = ground (
    arith,
    persist_forks
        (record f { forks = insert name (fresh_meta name parent_branch fork_point) f.forks }),
  )

  track_Change :
      (name parent_branch fork_point : Text) (f : ForkManager O G)
      → lookup name f.forks ≡ none
      → Changes (track O G json digest config name parent_branch fork_point) f
  track_Change name parent_branch fork_point f h =
      subst (Change f.forks) (sym (track_forks name parent_branch fork_point f))
        (added name (fresh_meta name parent_branch fork_point) f.forks h (refl, refl))

  -- A new fork, once its branch is to be made by `make`.
  create_Change :
      (name parent_branch fork_point : Text) (make : Manage O G json digest config Unit)
      (f : ForkManager O G)
      → ((g : ForkManager O G) → (make g).1.forks ≡ g.forks)
      → Changes
          (refuse_known O G json digest config name
            >> (make >> track O G json digest config name parent_branch fork_point))
          f
  create_Change name parent_branch fork_point make f keep =
      let rest = make >> track O G json digest config name parent_branch fork_point in
      let e = known_fork name in
      continue_Change (ensure (not (contains_key name f.forks)) e) (λ _. rest) f.forks f
        (unchanged f.forks)
        (λ _ free.
          continue_Change (make f).0
            (λ _. track O G json digest config name parent_branch fork_point) f.forks (make f).1
            (subst (Change f.forks) (sym (keep f)) (unchanged f.forks))
            (λ _ _.
              let there = keep f in
              subst
                (λ d.
                  Change d
                    (track O G json digest config name parent_branch fork_point (make f).1).1.forks)
                there
                (track_Change name parent_branch fork_point (make f).1
                  (ap (lookup name) there ∙ absent name f.forks e free))))

  pub create_fork_Change :
      (name : Text) (f : ForkManager O G) → Changes (create_fork O G json digest config name) f
  unfolding create_fork
  create_fork_Change name f =
      let branch = current_branch O config.repo_path f.backend.os in
      let point = or_no_commits (head_commit_hex O G config.repo_path f.backend.os) in
      let make = on_files O G json digest config (create_branch O G config.repo_path name) in
      continue_Change branch _ f.forks f (unchanged f.forks) (λ b _.
        continue_Change point _ f.forks f (unchanged f.forks)
          (λ p _. create_Change name b p make f (λ g. refl)))

  pub create_fork_at_Change :
      (name commit_id : Text) (f : ForkManager O G)
      → Changes (create_fork_at O G json digest config name commit_id) f
  unfolding create_fork_at
  create_fork_at_Change name commit_id f =
      let make =
        on_files O G json digest config (create_branch_at O G config.repo_path name commit_id) in
      continue_Change (current_branch O config.repo_path f.backend.os) _ f.forks f
        (unchanged f.forks) (λ b _. create_Change name b commit_id make f (λ g. refl))

  pub create_nested_fork_Change :
      (parent_fork name : Text) (f : ForkManager O G)
      → Changes (create_nested_fork O G json digest config parent_fork name) f
  unfolding create_nested_fork
  create_nested_fork_Change parent_fork name f =
      let parent = and_then (find_fork parent_fork f.forks) (unmerged_parent parent_fork) in
      continue_Change parent _ f.forks f (unchanged f.forks) (λ meta _.
        continue_Change (branch_commit_oid O config.repo_path meta.branch f.backend.os) _ f.forks f
          (unchanged f.forks)
          (λ c _.
            create_Change name parent_fork c
              (on_files O G json digest config (create_branch_at O G config.repo_path name c)) f
              (λ g. refl)))

  pub abandon_fork_Change :
      (name : Text) (f : ForkManager O G) → Changes (abandon_fork O G json digest config name) f
  unfolding abandon_fork
  abandon_fork_Change name f =
      continue_Change (find_fork name f.forks) _ f.forks f (unchanged f.forks) (λ meta e.
        let drop = on_files O G json digest config (delete_branch O config.repo_path meta.branch) in
        continue_Change (drop f).0 _ f.forks (drop f).1 (unchanged f.forks) (λ _ _.
          subst (Change f.forks)
            (sym (persist_forks (record (drop f).1 { forks = remove name f.forks })))
            (dropped name meta f.forks (found name f.forks meta e))))
