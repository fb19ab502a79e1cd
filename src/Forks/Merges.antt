-- ===== src/Forks/Merges.antt =====
-- Merges of src/fork.rs: what a merge reports, and what it leaves to later ones.
use gitoxide_fs.Base.{
  nat_eq, list_eq, ◌≡◌, refl, ap, ◌∙◌, Bool, true, false, not, ◌&&◌, some, is_empty, arith, ℕ,
  ==_iff,
}
use gitoxide_fs.Base.Text.{Text, Bytes}
use gitoxide_fs.Base.Dict.{lookup, lookup-insert}
use gitoxide_fs.Error.{Error}
use gitoxide_fs.Error.Monad.{Result, ok, err}
use gitoxide_fs.Error.Runs.{outcomes}
use gitoxide_fs.Config.{Config, MergeStrategy, three_way}
use gitoxide_fs.Os.{Os}
use gitoxide_fs.Gix.{Gix}
use gitoxide_fs.Merge.{Merge}
use gitoxide_fs.Forks.{Forks, ForkMetadata, Json, ForkManager, find_fork, persist}
use gitoxide_fs.Forks.Registry.{Change, unchanged}
use gitoxide_fs.Forks.Settling.{IsPending, prepare-IsPending, conclude-Ends}
use gitoxide_fs.Forks.Merging.{
  MergeResult, Sides, mark, set_merged, unmerged, merged_fork, settle, prepare, conclude,
  merge_fork_with_strategy, can_merge, merge_sides, is_three_way, conflicting,
}

lookup-mark :
    (name : Text) (d : Forks)
    → IsPending name d
    → (meta : ForkMetadata) × (lookup name (mark name d) ≡ some meta) × (meta.merged ≡ true)
unfolding mark
lookup-mark name d p =
    let m = record p.0 { merged = true } in
    (
      m,
      ap (λ o. lookup name (set_merged name o d)) p.1
          ∙ ground (arith, lookup-insert name name m d, ==_iff name name),
      refl,
    )

agree : (b had : Bool) → had ≡ (not b && true) → b ≡ not had
agree b had h = ground arith

answered : (b c : Bool) (r : Result Error Bool) → r ≡ ok b → r ≡ ok c → b ≡ c
answered b c r h g = cc

module _ (O : Os) (G : Gix) (json : Json) (digest : Bytes → Bytes) (config : Config)
    (levels : ℕ) where
  abbrev Reports : MergeStrategy → Text → ForkManager O G → MergeResult → Type 0
  Reports strategy name f r =
      (s : Sides) × (prepare O G json digest config levels name f ≡ ok s)
      × (r.had_conflicts
          ≡ (not (is_empty (merge_sides s strategy).conflicts) && is_three_way strategy))

  pub merge_Change :
      (name : Text) (strategy : MergeStrategy) (f : ForkManager O G)
      → Change f.forks
          (merge_fork_with_strategy O G json digest config levels name strategy f).1.forks
  unfolding merge_fork_with_strategy
  merge_Change name strategy f =
      outcomes (prepare O G json digest config levels name f)
        (λ s. conclude O G json digest config levels name strategy s (merge_sides s strategy)) f
        (λ q. Change f.forks q.1.forks)
        (λ s e.
          (conclude-Ends O G json digest config levels name strategy s (merge_sides s strategy) f
            (prepare-IsPending O G json digest config levels name f s e)).0)
        (λ x e. unchanged f.forks)

  -- What a merge that succeeded looked at, reported and marked.
  merge_ends :
      (name : Text) (strategy : MergeStrategy) (f : ForkManager O G) (r : MergeResult)
      → let q = merge_fork_with_strategy O G json digest config levels name strategy f in
        q.0 ≡ ok r
        → Reports strategy name f r × IsPending name f.forks × (q.1.forks ≡ mark name f.forks)
  unfolding merge_fork_with_strategy
  merge_ends name strategy f r =
      outcomes (prepare O G json digest config levels name f)
        (λ s. conclude O G json digest config levels name strategy s (merge_sides s strategy)) f
        (λ q.
          q.0 ≡ ok r
          → Reports strategy name f r × IsPending name f.forks × (q.1.forks ≡ mark name f.forks))
        (λ s e done.
          let p = prepare-IsPending O G json digest config levels name f s e in
          let (forks, had) =
            (conclude-Ends O G json digest config levels name strategy s (merge_sides s strategy) f
                p).1
              r done in
          ((s, e, had), p, forks))
        (λ x e done. cc)

  -- What is left of a merge that succeeded: the fork is listed as merged.
  pub merge-lookup :
      (name : Text) (strategy : MergeStrategy) (f : ForkManager O G) (r : MergeResult)
      → let q = merge_fork_with_strategy O G json digest config levels name strategy f in
        q.0 ≡ ok r
        → (meta : ForkMetadata) × (lookup name q.1.forks ≡ some meta) × (meta.merged ≡ true)
  merge-lookup name strategy f r done =
      let (_, p, forks) = merge_ends name strategy f r done in
      let (m, there, t) = lookup-mark name f.forks p in (m, ap (lookup name) forks ∙ there, t)

  prepare_merged :
      (name : Text) (f : ForkManager O G) (meta : ForkMetadata)
      → lookup name f.forks ≡ some meta
      → meta.merged ≡ true
      → prepare O G json digest config levels name f ≡ err (merged_fork name)
  unfolding prepare find_fork unmerged
  prepare_merged name f meta h t = rw (h, t) refl

  -- A fork that is listed as merged is refused.
  pub merge_refused :
      (name : Text) (strategy : MergeStrategy) (f : ForkManager O G) (meta : ForkMetadata)
      → lookup name f.forks ≡ some meta
      → meta.merged ≡ true
      → merge_fork_with_strategy O G json digest config levels name strategy f
        ≡ (err (merged_fork name), f)
  unfolding merge_fork_with_strategy
  merge_refused name strategy f meta h t = rw (prepare_merged name f meta h t) refl

  -- After a merge that succeeded, with conflicts or without, the fork is refused by every further
  -- merge and by `can_merge`, with the error that it has already been merged, and nothing changes.
  pub merge_once :
      (name : Text) (strategy later : MergeStrategy) (f : ForkManager O G) (r : MergeResult)
      → let q = merge_fork_with_strategy O G json digest config levels name strategy f in
        q.0 ≡ ok r
        → (merge_fork_with_strategy O G json digest config levels name later q.1
            ≡ (err (merged_fork name), q.1))
          × (can_merge O G json digest config levels name q.1 ≡ (err (merged_fork name), q.1))
  unfolding can_merge
  merge_once name strategy later f r done =
      let g = (merge_fork_with_strategy O G json digest config levels name strategy f).1 in
      let (m, there, t) = merge-lookup name strategy f r done in
      (merge_refused name later g m there t, rw (prepare_merged name g m there t) refl)

  -- `can_merge` is right about `merge_fork`: when a merge with the default strategy succeeds,
  -- `can_merge` before it says whether it reports no conflicts, and changes nothing.
  pub can_merge_lem :
      (name : Text) (f : ForkManager O G) (r : MergeResult)
      → (merge_fork_with_strategy O G json digest config levels name three_way f).0 ≡ ok r
      → can_merge O G json digest config levels name f ≡ (ok (not r.had_conflicts), f)
  unfolding can_merge
  can_merge_lem name f r done =
      let ((s, e, had), _, _) = merge_ends name three_way f r done in
      rw e (
        ap (λ b. (ok b, f))
          (agree (is_empty (merge_sides s three_way).conflicts) r.had_conflicts had))

  settle_objects :
      (name : Text) (r : MergeResult) (f : ForkManager O G)
      → (settle O G json digest config levels name r f).1.backend.objects ≡ f.backend.objects
  unfolding settle persist
  settle_objects name r f = ground arith

  conclude_objects :
      (name : Text) (s : Sides) (m : Merge) (f : ForkManager O G)
      → is_empty m.conflicts ≡ false
      → (conclude O G json digest config levels name three_way s m f).1.backend.objects
        ≡ f.backend.objects
  unfolding conclude
  conclude_objects name s m f h =
      rw h (settle_objects name (conflicting O G json digest config levels s m) f)

  refused :
      (name : Text) (f : ForkManager O G) (s : Sides)
      → prepare O G json digest config levels name f ≡ ok s
      → (can_merge O G json digest config levels name f).0 ≡ ok false
      → is_empty (merge_sides s three_way).conflicts ≡ false
  unfolding can_merge
  refused name f s e =
      answered (is_empty (merge_sides s three_way).conflicts) false
        (can_merge O G json digest config levels name f).0 (rw e refl)

  -- A merge with the default strategy that `can_merge` refuses, because there are conflicts, writes
  -- no object to the repository, whether it succeeds or not.
  pub merge_objects :
      (name : Text) (f : ForkManager O G)
      → (can_merge O G json digest config levels name f).0 ≡ ok false
      → (merge_fork_with_strategy O G json digest config levels name three_way f).1.backend.objects
        ≡ f.backend.objects
  unfolding merge_fork_with_strategy
  merge_objects name f =
      outcomes (prepare O G json digest config levels name f)
        (λ s. conclude O G json digest config levels name three_way s (merge_sides s three_way)) f
        (λ q.
          (can_merge O G json digest config levels name f).0 ≡ ok false
          → q.1.backend.objects ≡ f.backend.objects)
        (λ s e h. conclude_objects name s (merge_sides s three_way) f (refused name f s e h))
        (λ x e h. refl)
