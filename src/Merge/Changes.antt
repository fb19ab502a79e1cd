-- ===== src/Merge/Changes.antt =====
-- The count of changed files.
use gitoxide_fs.Base.{
  ℕ, ◌+◌, ◌≡◌, refl, ◌∙◌, ◌↔◌, Bool, true, false, not, ◌&&◌, List, [], ◌∷◌, arith, ◌==◌, ==_iff,
  option_eqb_iff, nat_eq, list_eq, option_eq, option_eqb, if◌then◌else◌, Bool-cases, inl, inr,
}
use gitoxide_fs.Base.Text.{Text}
use gitoxide_fs.Base.Dict
use gitoxide_fs.Base.Dict.{member}
use gitoxide_fs.Config.{MergeStrategy}
use gitoxide_fs.Merge.{Snapshot, Merge, outcome_at, merge_paths, all_paths, three_way_merge}
use gitoxide_fs.Merge.Entries.{changed-merge_path}
use gitoxide_fs.Merge.Contents.{outside}

abbrev pub count_if : (Text → Bool) → List Text → ℕ
count_if p [] = 0
count_if p (x ∷ xs) = if p x then count_if p xs + 1 else count_if p xs

count_if_zero :
    (p : Text → Bool) (xs : List Text) (a : Text)
    → count_if p xs ≡ 0
    → member xs a ≡ true
    → p a ≡ false
unfolding member
count_if_zero p [] a h m = cc
count_if_zero p (x ∷ xs) a h m = elim (Bool-cases (x == a)) [
  | inl e ↦ rw (← (==_iff x a).0 e) (ground arith)
  | inr n ↦ count_if_zero p xs a (ground arith) (ground arith)
]

count_if_none : (p : Text → Bool) (xs : List Text) → ((a : Text) → p a ≡ false) → count_if p xs ≡ 0
count_if_none p [] h = refl
count_if_none p (x ∷ xs) h = rw (h x) (count_if_none p xs h)

module _ (base_tree our_tree their_tree : Snapshot) where
  -- The three trees do not hold the same at the path.
  abbrev pub differs_at : Text → Bool
  differs_at p = not (
      Dict.lookup p base_tree == Dict.lookup p our_tree
      && Dict.lookup p base_tree == Dict.lookup p their_tree)

  differs_outside :
      (p : Text) → member (all_paths base_tree our_tree their_tree) p ≡ false → differs_at p ≡ false
  unfolding option_eqb
  differs_outside p n =
      let (b, o, t) = outside base_tree our_tree their_tree p n in rw (b, o, t) refl

module _ (base_tree our_tree their_tree : Snapshot) (strategy : MergeStrategy) where
  changed-outcome_at :
      (p : Text)
      → (outcome_at base_tree our_tree their_tree strategy p).changed
        ≡ differs_at base_tree our_tree their_tree p
  unfolding outcome_at
  changed-outcome_at p =
      changed-merge_path strategy p (Dict.lookup p base_tree) (Dict.lookup p our_tree)
        (Dict.lookup p their_tree)

  files_changed-merge_paths :
      (paths : List Text) (m : Merge)
      → (merge_paths base_tree our_tree their_tree strategy paths m).files_changed
        ≡ m.files_changed + count_if (differs_at base_tree our_tree their_tree) paths
  unfolding merge_paths
  files_changed-merge_paths [] m = omega arith
  files_changed-merge_paths (p ∷ paths) m =
      files_changed-merge_paths paths _ ∙ ground (arith, changed-outcome_at p)

  -- The count of changed files is the number of paths at which the three trees do not hold the
  -- same, among the paths that the merge visits.
  pub files_changed-three_way_merge :
      (three_way_merge base_tree our_tree their_tree strategy).files_changed
      ≡ count_if
          (differs_at base_tree our_tree their_tree)
          (all_paths base_tree our_tree their_tree)
  unfolding three_way_merge
  files_changed-three_way_merge =
      files_changed-merge_paths (all_paths base_tree our_tree their_tree) _ ∙ omega arith

  same_everywhere :
      count_if (differs_at base_tree our_tree their_tree) (all_paths base_tree our_tree their_tree)
        ≡ 0
      → (p : Text) → differs_at base_tree our_tree their_tree p ≡ false
  same_everywhere h p = elim (Bool-cases (member (all_paths base_tree our_tree their_tree) p)) [
    | inl e ↦
        count_if_zero (differs_at base_tree our_tree their_tree)
          (all_paths base_tree our_tree their_tree) p h e
    | inr n ↦ differs_outside base_tree our_tree their_tree p n
  ]

  -- A merge counts no changed file exactly if the three trees hold the same at every path.
  pub files_changed-eq-zero_iff :
      ((three_way_merge base_tree our_tree their_tree strategy).files_changed ≡ 0) ↔ (
        (p : Text)
        → (Dict.lookup p base_tree ≡ Dict.lookup p our_tree)
          × (Dict.lookup p base_tree ≡ Dict.lookup p their_tree))
  files_changed-eq-zero_iff = (
    λ e p.
        let same = same_everywhere (rw (← files_changed-three_way_merge) e) p in
        (
          ground (arith, option_eqb_iff (Dict.lookup p base_tree) (Dict.lookup p our_tree)),
          ground (arith, option_eqb_iff (Dict.lookup p base_tree) (Dict.lookup p their_tree)),
        ),
    λ h.
        files_changed-three_way_merge
        ∙ count_if_none (differs_at base_tree our_tree their_tree)
            (all_paths base_tree our_tree their_tree)
            (λ p. ground (
              arith,
              h p,
              option_eqb_iff (Dict.lookup p base_tree) (Dict.lookup p our_tree),
              option_eqb_iff (Dict.lookup p base_tree) (Dict.lookup p their_tree),
            )),
  )
