-- ===== src/Merge/Contents.antt =====
-- The merged tree, path by path.
use gitoxide_fs.Base.{
  ◌≡◌, refl, ◌∙◌, false, ◌||◌, Option, none, some, List, [], ◌∷◌, ◌++◌, arith, if◌then◌else◌, ◌==◌,
  ==_iff, nat_eq, list_eq, option_eq, option_eqb, Bool-cases, inl, inr,
}
use gitoxide_fs.Base.Text.{Text, Bytes}
use gitoxide_fs.Base.Dict
use gitoxide_fs.Base.Dict.{keys, member, member-append, lookup-none, lookup-insert}
use gitoxide_fs.Base.Sort.{member-sort}
use gitoxide_fs.Config.{MergeStrategy}
use gitoxide_fs.Merge.{
  Snapshot, Merge, collect_paths, insert_content, record_outcome, outcome_at, merge_paths,
  all_paths, three_way_merge,
}
use gitoxide_fs.Merge.Entries.{three_versions, content-merge_path}

pub member-collect_paths :
    (found more : List Text) (p : Text)
    → member (collect_paths found more) p ≡ (member found p || member more p)
unfolding collect_paths member
member-collect_paths found [] p = ground arith
member-collect_paths found (k ∷ more) p = elim (Bool-cases (member found k)) [
  | inl e ↦ rw (e, member-collect_paths found more p) (ground (arith, ==_iff k p))
  | inr n ↦
      rw (n, member-collect_paths (found ++ (k ∷ [])) more p, member-append found (k ∷ []) p)
        (ground arith)
]

abbrev or_else : Option Bytes → Option Bytes → Option Bytes
or_else none d = d
or_else (some c) d = some c

or_else-none : (c : Option Bytes) → or_else c none ≡ c
or_else-none none = refl
or_else-none (some c) = refl

lookup-insert_content :
    (path p : Text) (c : Option Bytes) (m : Snapshot)
    → Dict.lookup p (insert_content path c m)
      ≡ (if path == p then or_else c (Dict.lookup p m) else Dict.lookup p m)
lookup-insert_content path p none m = ground arith
lookup-insert_content path p (some c) m = lookup-insert path p c m

module _ (base_tree our_tree their_tree : Snapshot) (strategy : MergeStrategy) where
  -- The loop over any list of paths, from any state.
  lookup-merge_paths :
      (paths : List Text) (m : Merge) (p : Text)
      → Dict.lookup p (merge_paths base_tree our_tree their_tree strategy paths m).merged ≡ (
          if member paths p
          then or_else
              (outcome_at base_tree our_tree their_tree strategy p).content
              (Dict.lookup p m.merged)
          else Dict.lookup p m.merged)
  unfolding merge_paths member
  lookup-merge_paths [] m p = refl
  lookup-merge_paths (path ∷ rest) m p =
      let out = outcome_at base_tree our_tree their_tree strategy path in
      rw
        (
          lookup-merge_paths rest (record_outcome path out m) p,
          lookup-insert_content path p out.content m.merged,
        )
        (ground (arith, ==_iff path p))

-- A path that the loop does not visit is in none of the trees.
pub outside :
    (base_tree our_tree their_tree : Snapshot) (p : Text)
    → member (all_paths base_tree our_tree their_tree) p ≡ false
    → (Dict.lookup p base_tree ≡ none)
      × (Dict.lookup p our_tree ≡ none)
      × (Dict.lookup p their_tree ≡ none)
unfolding all_paths member
outside base_tree our_tree their_tree p h =
    let chain = keys base_tree ++ (keys our_tree ++ keys their_tree) in
    let e : member chain p ≡ false =
      rw (← h, member-sort (collect_paths [] chain) p, member-collect_paths [] chain p) in
    let a = member-append (keys base_tree) (keys our_tree ++ keys their_tree) p in
    let b = member-append (keys our_tree) (keys their_tree) p in
    (
      lookup-none p base_tree (ground arith),
      lookup-none p our_tree (ground arith),
      lookup-none p their_tree (ground arith),
    )

module _ (base_tree our_tree their_tree : Snapshot) (strategy : MergeStrategy) where
  content-outcome_at :
      (p : Text)
      → (outcome_at base_tree our_tree their_tree strategy p).content
        ≡ three_versions strategy
            (Dict.lookup p base_tree)
            (Dict.lookup p our_tree)
            (Dict.lookup p their_tree)
  unfolding outcome_at
  content-outcome_at p =
      content-merge_path strategy p (Dict.lookup p base_tree) (Dict.lookup p our_tree)
        (Dict.lookup p their_tree)

  visited :
      (p : Text)
      → (if member (all_paths base_tree our_tree their_tree) p
          then or_else (outcome_at base_tree our_tree their_tree strategy p).content none
          else none)
        ≡ three_versions strategy
            (Dict.lookup p base_tree)
            (Dict.lookup p our_tree)
            (Dict.lookup p their_tree)
  unfolding option_eqb
  visited p = elim (Bool-cases (member (all_paths base_tree our_tree their_tree) p)) [
    | inl e ↦ rw e (or_else-none _ ∙ content-outcome_at p)
    | inr n ↦ let (b, o, t) = outside base_tree our_tree their_tree p n in rw (n, b, o, t) refl
  ]

  -- Every path of the merged tree holds what the rule of three versions gives for it: the side
  -- that changed it, or the choice of the strategy where both did.
  pub lookup-three_way_merge :
      (p : Text)
      → Dict.lookup p (three_way_merge base_tree our_tree their_tree strategy).merged
        ≡ three_versions strategy
            (Dict.lookup p base_tree)
            (Dict.lookup p our_tree)
            (Dict.lookup p their_tree)
  unfolding three_way_merge Dict.lookup
  lookup-three_way_merge p =
      lookup-merge_paths base_tree our_tree their_tree strategy
        (all_paths base_tree our_tree their_tree) _ p
      ∙ visited p
