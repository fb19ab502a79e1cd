-- ===== src/Forks/Settling.antt =====
-- What a merge does to the map of forks, and what it reports.
use mathlib.Core.Path.{subst}
use gitoxide_fs.Base.{
  nat_eq, list_eq, ◌≡◌, refl, ap, sym, ◌∙◌, Bool, false, not, ◌&&◌, some, is_empty, arith, ℕ,
  Bool-cases, inl, inr,
}
use gitoxide_fs.Base.Text.{Text, Bytes}
use gitoxide_fs.Base.Dict.{lookup}
use gitoxide_fs.Error.{Error}
use gitoxide_fs.Error.Monad.{Result, ok, err, continue, and_then}
use gitoxide_fs.Config.{Config, MergeStrategy}
use gitoxide_fs.Os.{Os}
use gitoxide_fs.Gix.{Gix}
use gitoxide_fs.Merge.{Merge}
use gitoxide_fs.Error.Runs.{outcomes}
use gitoxide_fs.Forks.{Forks, ForkMetadata, Json, ForkManager, find_fork, persist}
use gitoxide_fs.Forks.Registry.{Change, unchanged, merged}
use gitoxide_fs.Forks.Lifecycle.{persist_forks, found}
use gitoxide_fs.Forks.Merging.{
  MergeResult, Sides, mark, set_merged, unmerged, settle, prepare, sides_of, apply_merge, conclude,
  is_three_way, write_merge, applied, conflicting,
}

-- A fork that is to be merged
abbrev pub IsPending : Text → Forks → Type 0
IsPending name d = (meta : ForkMetadata) × (lookup name d ≡ some meta) × (meta.merged ≡ false)

unmerged_pending :
    (name : Text) (meta m : ForkMetadata)
    → unmerged name meta ≡ ok m
    → (m ≡ meta) × (meta.merged ≡ false)
unfolding unmerged
unmerged_pending name meta m h = ground arith

Change-mark : (name : Text) (d : Forks) → IsPending name d → Change d (mark name d)
unfolding mark
Change-mark name d p =
    subst (λ o. Change d (set_merged name o d)) (sym p.1) (merged name p.0 d p.1 p.2)

pure_result :
    {S : Type 0} (r : Result Error Unit) (a b : MergeResult) (s : S)
    → (continue r (λ _ t. (ok a, t)) s).0 ≡ ok b
    → b ≡ a
pure_result (ok _) a b s h = cc
pure_result (err e) a b s h = cc

module _ (O : Os) (G : Gix) (json : Json) (digest : Bytes → Bytes) (config : Config)
    (levels : ℕ) where
  pub prepare-IsPending :
      (name : Text) (f : ForkManager O G) (s : Sides)
      → prepare O G json digest config levels name f ≡ ok s
      → IsPending name f.forks
  unfolding prepare unmerged
  prepare-IsPending name f s = pending (find_fork name f.forks) (found name f.forks)
    where
      pending :
          (r : Result Error ForkMetadata)
          → ((meta : ForkMetadata) → r ≡ ok meta → lookup name f.forks ≡ some meta)
          → and_then r (λ meta.
            and_then (unmerged name meta) (λ m. sides_of O G json digest config levels m f))
            ≡ ok s
          → IsPending name f.forks
      pending (ok meta) h e = elim (Bool-cases meta.merged) [
        | inl t ↦ ground (arith, t)
        | inr t ↦ (meta, h meta refl, t)
      ]
      pending (err x) h e = cc

  settle_forks :
      (name : Text) (r : MergeResult) (f : ForkManager O G)
      → (settle O G json digest config levels name r f).1.forks ≡ mark name f.forks
  unfolding settle
  settle_forks name r f =
      ground (arith, persist_forks O G json digest config (record f { forks = mark name f.forks }))

  settle_Change :
      (name : Text) (r : MergeResult) (f : ForkManager O G)
      → IsPending name f.forks
      → Change f.forks (settle O G json digest config levels name r f).1.forks
  settle_Change name r f p =
      subst (Change f.forks) (sym (settle_forks name r f)) (Change-mark name f.forks p)

  -- A merge that succeeds reports what it settled.
  settle_result :
      (name : Text) (r r' : MergeResult) (f : ForkManager O G)
      → (settle O G json digest config levels name r f).0 ≡ ok r'
      → r' ≡ r
  unfolding settle
  settle_result name r r' f =
      let g = record f { forks = mark name f.forks } in
      pure_result (persist O G json digest config g).0 r r' (persist O G json digest config g).1

  write_merge_forks :
      (name : Text) (s : Sides) (m : Merge) (f : ForkManager O G)
      → (write_merge O G json digest config levels name s m f).1.forks ≡ f.forks
  unfolding write_merge
  write_merge_forks name s m f = ground arith

  -- How a merge of a pending fork ends: it is settled with a result, or the map is as it was and
  -- an error is returned.
  abbrev pub Ends :
      Text → Bool → ForkManager O G → Result Error MergeResult × ForkManager O G → Type 0
  Ends name had f q =
      Change f.forks q.1.forks
      × ((r : MergeResult) → q.0 ≡ ok r → (q.1.forks ≡ mark name f.forks) × (r.had_conflicts ≡ had))

  settle-Ends :
      (name : Text) (r : MergeResult) (f g : ForkManager O G)
      → f.forks ≡ g.forks
      → IsPending name g.forks
      → Ends name r.had_conflicts g (settle O G json digest config levels name r f)
  settle-Ends name r f g e p = (
    subst (λ d. Change g.forks d) (ap (mark name) (sym e) ∙ sym (settle_forks name r f))
        (Change-mark name g.forks p),
    λ r' done. (
      settle_forks name r f ∙ ap (mark name) e,
      ap (λ x. x.had_conflicts) (settle_result name r r' f done),
    ),
  )

  apply_merge-Ends :
      (name : Text) (s : Sides) (m : Merge) (f : ForkManager O G)
      → IsPending name f.forks
      → Ends name false f (apply_merge O G json digest config levels name s m f)
  unfolding apply_merge
  apply_merge-Ends name s m f p =
      let w = write_merge O G json digest config levels name s m f in
      let e = write_merge_forks name s m f in
      outcomes w.0
        (λ id.
          settle O G json digest config levels name (applied O G json digest config levels m id))
        w.1 (Ends name false f)
        (λ id _. settle-Ends name (applied O G json digest config levels m id) w.1 f e p)
        (λ x _. (subst (Change f.forks) (sym e) (unchanged f.forks), λ r done. cc))

  pub conclude-Ends :
      (name : Text) (strategy : MergeStrategy) (s : Sides) (m : Merge) (f : ForkManager O G)
      → IsPending name f.forks
      → Ends name
          (not (is_empty m.conflicts) && is_three_way strategy)
          f
          (conclude O G json digest config levels name strategy s m f)
  unfolding conclude
  conclude-Ends name strategy s m f p =
      elim (Bool-cases (not (is_empty m.conflicts) && is_three_way strategy)) [
        | inl t ↦ rw t (settle-Ends name (conflicting O G json digest config levels s m) f f refl p)
        | inr t ↦ rw t (apply_merge-Ends name s m f p)
      ]
