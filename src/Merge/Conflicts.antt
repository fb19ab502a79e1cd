-- ===== src/Merge/Conflicts.antt =====
-- Which conflicts a merge reports.
use gitoxide_fs.Base.{
  ◌≡◌, refl, ◌∙◌, ap, ◌↔◌, ◌≢◌, Bool, true, false, not, ◌&&◌, Option, none, some, List, [], ◌∷◌,
  arith, is_empty, all, All, ◌==◌, ==_iff, list_eqb_iff, nat_eq, list_eq, option_eq, option_eqb,
  Bool-cases, inl, inr,
}
use gitoxide_fs.Base.Text.{Text, Bytes}
use gitoxide_fs.Base.Dict
use gitoxide_fs.Base.Dict.{member}
use gitoxide_fs.Config.{MergeStrategy, three_way}
use gitoxide_fs.Merge.{
  MergeConflict, Snapshot, Merge, merge_path, push_conflict, record_outcome, outcome_at,
  merge_paths, all_paths, three_way_merge,
}
use gitoxide_fs.Merge.Entries.{
  Clash, is_settled-Clash, Clash-is_settled, is_settled, reports, has_conflict, conflict-merge_path,
}
use gitoxide_fs.Merge.Contents.{outside}

is_empty-push_conflict :
    (c : Option MergeConflict) (cs : List MergeConflict)
    → is_empty (push_conflict c cs) ≡ (is_empty cs && not (has_conflict c))
is_empty-push_conflict none cs = ground arith
is_empty-push_conflict (some c) [] = refl
is_empty-push_conflict (some c) (d ∷ cs) = refl

is_empty_iff {ℓ} : {A : Type ℓ} (xs : List A) → (is_empty xs ≡ true) ↔ (xs ≡ [])
is_empty_iff [] = (λ h. refl, λ h. refl)
is_empty_iff (x ∷ xs) = (λ h. cc, λ h. cc)

all-member :
    (p : Text → Bool) (xs : List Text) (a : Text)
    → all p xs ≡ true
    → member xs a ≡ true
    → p a ≡ true
unfolding member
all-member p [] a h m = cc
all-member p (x ∷ xs) a h m = elim (Bool-cases (x == a)) [
  | inl e ↦ rw (← (==_iff x a).0 e) (ground arith)
  | inr n ↦ all-member p xs a (ground arith) (ground arith)
]

all_of : (p : Text → Bool) (xs : List Text) → ((a : Text) → p a ≡ true) → all p xs ≡ true
all_of p [] h = refl
all_of p (x ∷ xs) h = rw (h x) (all_of p xs h)

module _ (base_tree our_tree their_tree : Snapshot) where
  abbrev pub is_settled_at : Text → Bool
  is_settled_at p =
      is_settled (Dict.lookup p base_tree) (Dict.lookup p our_tree) (Dict.lookup p their_tree)

  abbrev pub Clashes : Text → Type 0
  Clashes p = Clash (Dict.lookup p base_tree) (Dict.lookup p our_tree) (Dict.lookup p their_tree)

  -- A conflict that shows the three versions of its path, which clash.
  pub record IsFaithful (c : MergeConflict) : Type 0 where
    pub same_base : c.base ≡ Dict.lookup c.path base_tree
    pub same_ours : c.ours ≡ Dict.lookup c.path our_tree
    pub same_theirs : c.theirs ≡ Dict.lookup c.path their_tree
    pub clash : Clashes c.path

settled_outside :
    (base_tree our_tree their_tree : Snapshot) (p : Text)
    → member (all_paths base_tree our_tree their_tree) p ≡ false
    → is_settled_at base_tree our_tree their_tree p ≡ true
unfolding option_eqb
settled_outside base_tree our_tree their_tree p n =
    let (b, o, t) = outside base_tree our_tree their_tree p n in rw (b, o) refl

module _ (base_tree our_tree their_tree : Snapshot) (strategy : MergeStrategy) where
  abbrev clean_at : Text → Bool
  clean_at p = not (has_conflict (outcome_at base_tree our_tree their_tree strategy p).conflict)

  clean_at-eq :
      (p : Text)
      → clean_at p ≡ not (reports strategy && not (is_settled_at base_tree our_tree their_tree p))
  unfolding outcome_at
  clean_at-eq p = ap not (
      conflict-merge_path strategy p (Dict.lookup p base_tree) (Dict.lookup p our_tree)
        (Dict.lookup p their_tree))

  is_empty-merge_paths :
      (paths : List Text) (m : Merge)
      → is_empty (merge_paths base_tree our_tree their_tree strategy paths m).conflicts
        ≡ (is_empty m.conflicts && all clean_at paths)
  unfolding merge_paths
  is_empty-merge_paths [] m = ground arith
  is_empty-merge_paths (p ∷ paths) m =
      let out = outcome_at base_tree our_tree their_tree strategy p in
      is_empty-merge_paths paths (record_outcome p out m)
      ∙ ground (arith, is_empty-push_conflict out.conflict m.conflicts)

  is_empty-three_way_merge :
      is_empty (three_way_merge base_tree our_tree their_tree strategy).conflicts
      ≡ all clean_at (all_paths base_tree our_tree their_tree)
  unfolding three_way_merge
  is_empty-three_way_merge = is_empty-merge_paths (all_paths base_tree our_tree their_tree) _

  settled_everywhere :
      all clean_at (all_paths base_tree our_tree their_tree) ≡ true → (p : Text) → clean_at p ≡ true
  settled_everywhere h p = elim (Bool-cases (member (all_paths base_tree our_tree their_tree) p)) [
    | inl e ↦ all-member clean_at (all_paths base_tree our_tree their_tree) p h e
    | inr n ↦ rw (clean_at-eq p, settled_outside base_tree our_tree their_tree p n) (ground arith)
  ]

  -- A merge that reports conflicts reports none exactly if all paths are settled.
  pub three_way_merge-settled_iff :
      reports strategy ≡ true
      → ((three_way_merge base_tree our_tree their_tree strategy).conflicts ≡ [])
        ↔ ((p : Text) → is_settled_at base_tree our_tree their_tree p ≡ true)
  three_way_merge-settled_iff h = (
    λ e p.
        let clean : clean_at p ≡ true =
          settled_everywhere (rw (← is_empty-three_way_merge) ((is_empty_iff _).1 e)) p in
        ground (arith, clean_at-eq p),
    λ agree. (is_empty_iff _).0 (
        is_empty-three_way_merge
        ∙ all_of clean_at (all_paths base_tree our_tree their_tree)
            (λ p. ground (arith, clean_at-eq p, agree p))),
  )

  -- A merge for the benefit of one side reports no conflict.
  pub three_way_merge-one_sided :
      reports strategy ≡ false
      → (three_way_merge base_tree our_tree their_tree strategy).conflicts ≡ []
  three_way_merge-one_sided h = (is_empty_iff _).0 (
      is_empty-three_way_merge
      ∙ all_of clean_at (all_paths base_tree our_tree their_tree)
          (λ p. ground (arith, clean_at-eq p)))

conflict_versions :
    (strategy : MergeStrategy) (path : Text) (b o t : Option Bytes) (c : MergeConflict)
    → (merge_path strategy path b o t).conflict ≡ some c
    → (c.path ≡ path) × (c.base ≡ b) × (c.ours ≡ o) × (c.theirs ≡ t)
unfolding merge_path
conflict_versions strategy path none none none c h = ground arith
conflict_versions strategy path none none (some t) c h = ground arith
conflict_versions strategy path none (some o) none c h = ground arith
conflict_versions strategy path none (some o) (some t) c h = ground arith
conflict_versions strategy path (some b) none none c h = ground arith
conflict_versions strategy path (some b) none (some t) c h = ground arith
conflict_versions strategy path (some b) (some o) none c h = ground arith
conflict_versions strategy path (some b) (some o) (some t) c h = ground arith

All-push_conflict :
    (P : MergeConflict → Type 0) (c : Option MergeConflict) (cs : List MergeConflict)
    → All P cs
    → ((d : MergeConflict) → c ≡ some d → P d)
    → All P (push_conflict c cs)
All-push_conflict P none cs a h = a
All-push_conflict P (some c) [] a h = (h c refl, tt)
All-push_conflict P (some c) (d ∷ cs) a h = (a.0, All-push_conflict P (some c) cs a.1 h)

module _ (base_tree our_tree their_tree : Snapshot) (strategy : MergeStrategy) where
  outcome_at-IsFaithful :
      (p : Text) (c : MergeConflict)
      → (outcome_at base_tree our_tree their_tree strategy p).conflict ≡ some c
      → IsFaithful base_tree our_tree their_tree c
  unfolding outcome_at
  outcome_at-IsFaithful p c h =
      let (at, b, o, t) =
        conflict_versions strategy p (Dict.lookup p base_tree) (Dict.lookup p our_tree)
          (Dict.lookup p their_tree) c h in
      let found =
        conflict-merge_path strategy p (Dict.lookup p base_tree) (Dict.lookup p our_tree)
          (Dict.lookup p their_tree) in
      record {
        same_base = rw at b;
        same_ours = rw at o;
        same_theirs = rw at t;
        clash = rw at (
            is_settled-Clash (Dict.lookup p base_tree) (Dict.lookup p our_tree)
              (Dict.lookup p their_tree) (ground (arith, found)));
      }

  merge_paths-IsFaithful :
      (paths : List Text) (m : Merge)
      → All (IsFaithful base_tree our_tree their_tree) m.conflicts
      → All
          (IsFaithful base_tree our_tree their_tree)
          (merge_paths base_tree our_tree their_tree strategy paths m).conflicts
  unfolding merge_paths
  merge_paths-IsFaithful [] m h = h
  merge_paths-IsFaithful (p ∷ paths) m h = merge_paths-IsFaithful paths _ (
      All-push_conflict (IsFaithful base_tree our_tree their_tree) _ m.conflicts h
        (outcome_at-IsFaithful p))

  -- Every conflict that a merge reports shows the three versions of its path as they stand in the
  -- three trees, and these clash.
  pub three_way_merge-IsFaithful :
      All
        (IsFaithful base_tree our_tree their_tree)
        (three_way_merge base_tree our_tree their_tree strategy).conflicts
  unfolding three_way_merge
  three_way_merge-IsFaithful = merge_paths-IsFaithful (all_paths base_tree our_tree their_tree) _ tt

module _ (base_tree our_tree their_tree : Snapshot) where
  -- With the default strategy `three_way_merge` reports no conflict exactly if there is no path at
  -- which both sides changed what the base has, be it to the same content, or both added a file and
  -- not the same, or one side deleted what the other changed. Every conflict that it reports is at
  -- such a path and shows its three versions as they stand in the three trees.
  pub three_way_merge-clean_iff :
      (((three_way_merge base_tree our_tree their_tree three_way).conflicts ≡ [])
        ↔ ((p : Text) → ¬ (Clashes base_tree our_tree their_tree p)))
      × All
          (IsFaithful base_tree our_tree their_tree)
          (three_way_merge base_tree our_tree their_tree three_way).conflicts
  three_way_merge-clean_iff =
      let settled = three_way_merge-settled_iff base_tree our_tree their_tree three_way refl in
      (
        (
          λ e p c. ground (arith, settled.0 e p, Clash-is_settled c),
          λ free. settled.1 (λ p.
              elim (Bool-cases (is_settled_at base_tree our_tree their_tree p)) [
                | inl s ↦ s
                | inr s ↦ absurd (
                    free p (
                      is_settled-Clash (Dict.lookup p base_tree) (Dict.lookup p our_tree)
                        (Dict.lookup p their_tree) s))
              ]),
        ),
        three_way_merge-IsFaithful base_tree our_tree their_tree three_way,
      )

module _ (base_tree our_tree their_tree : Snapshot) (strategy : MergeStrategy) where
  -- The same change on both sides of a file that the base has is a conflict for `three_way_merge`,
  -- with every strategy under which it reports conflicts.
  pub three_way_merge-same_change :
      (p : Text) (b o : Bytes)
      → reports strategy ≡ true
      → Dict.lookup p base_tree ≡ some b
      → Dict.lookup p our_tree ≡ some o
      → Dict.lookup p their_tree ≡ some o
      → (b == o) ≡ false
      → (three_way_merge base_tree our_tree their_tree strategy).conflicts ≢ []
  unfolding option_eqb
  three_way_merge-same_change p b o r in_base in_ours in_theirs differ e =
      let agree = (three_way_merge-settled_iff base_tree our_tree their_tree strategy r).0 e p in
      let stuck : is_settled (some b) (some o) (some o) ≡ true =
        rw (in_base, in_ours, in_theirs) at agree in
      ground (arith, list_eqb_iff b o, list_eqb_iff o b)
