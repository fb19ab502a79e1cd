-- ===== src/Forks/Operations.antt =====
-- The operations of the fork manager of src/fork.rs, one after the other.
use gitoxide_fs.Base.{List, [], ◌∷◌, ℕ, nat_eq, list_eq}
use gitoxide_fs.Base.Text.{Text, Bytes}
use gitoxide_fs.Error.{Error}
use gitoxide_fs.Error.Monad.{Result, ok, err}
use gitoxide_fs.Config.{Config, MergeStrategy}
use gitoxide_fs.Os.{Os}
use gitoxide_fs.Gix.{Gix}
use gitoxide_fs.Forks.{
  Json, ForkManager, create_fork, create_fork_at, create_nested_fork, abandon_fork,
}
use gitoxide_fs.Forks.Merging.{merge_fork_with_strategy}
use gitoxide_fs.Forks.Merges.{merge_Change}
use gitoxide_fs.Forks.Registry.{Change, IsNamed, Change-IsNamed}
use gitoxide_fs.Forks.Lifecycle.{
  create_fork_Change, create_fork_at_Change, create_nested_fork_Change, abandon_fork_Change,
}

pub data Operation : Type 0 where
  create abandon : Text → Operation
  create_at create_nested : Text → Text → Operation
  merge : Text → MergeStrategy → Operation

abbrev pub done : {A : Type 0} → Result Error A → Result Error Unit
done (ok a) = ok tt
done (err e) = err e

module _ (O : Os) (G : Gix) (json : Json) (digest : Bytes → Bytes) (config : Config)
    (levels : ℕ) where
  -- What an operation leaves, whether it succeeds or not
  unfoldable pub run : Operation → ForkManager O G → ForkManager O G
  run (create name) f = (create_fork O G json digest config name f).1
  run (abandon name) f = (abandon_fork O G json digest config name f).1
  run (create_at name commit_id) f = (create_fork_at O G json digest config name commit_id f).1
  run (create_nested parent_fork name) f =
      (create_nested_fork O G json digest config parent_fork name f).1
  run (merge name strategy) f =
      (merge_fork_with_strategy O G json digest config levels name strategy f).1

  -- Whether an operation succeeds
  unfoldable pub result_of : Operation → ForkManager O G → Result Error Unit
  result_of (create name) f = done (create_fork O G json digest config name f).0
  result_of (abandon name) f = done (abandon_fork O G json digest config name f).0
  result_of (create_at name commit_id) f =
      done (create_fork_at O G json digest config name commit_id f).0
  result_of (create_nested parent_fork name) f =
      done (create_nested_fork O G json digest config parent_fork name f).0
  result_of (merge name strategy) f =
      done (merge_fork_with_strategy O G json digest config levels name strategy f).0

  unfoldable pub run_all : List Operation → ForkManager O G → ForkManager O G
  run_all [] f = f
  run_all (op ∷ rest) f = run_all rest (run op f)

  -- Every operation refines a step of the registry, whether it succeeds or fails, also half-way:
  -- the map of forks is as it was, or has a new unmerged fork under a name that was free, or lacks
  -- a fork that was there, or has a fork marked as merged that was not.
  pub run-Change : (op : Operation) (f : ForkManager O G) → Change f.forks (run op f).forks
  unfolding run
  run-Change (create name) f = create_fork_Change O G json digest config name f
  run-Change (abandon name) f = abandon_fork_Change O G json digest config name f
  run-Change (create_at name commit_id) f =
      create_fork_at_Change O G json digest config name commit_id f
  run-Change (create_nested parent_fork name) f =
      create_nested_fork_Change O G json digest config parent_fork name f
  run-Change (merge name strategy) f = merge_Change O G json digest config levels name strategy f

  -- Every sequence of operations keeps it so that each fork is on the branch of its name.
  pub run_all-IsNamed :
      (ops : List Operation) (f : ForkManager O G) → IsNamed f.forks → IsNamed (run_all ops f).forks
  unfolding run_all
  run_all-IsNamed [] f v = v
  run_all-IsNamed (op ∷ rest) f v =
      run_all-IsNamed rest (run op f) (Change-IsNamed (run-Change op f) v)
