-- ===== src/Tests.antt =====
-- Runs of the program on concrete inputs: merges, paths, patterns, inodes and handles.
mod Storage
mod Mounted
mod Forked
mod Served
mod Sessions
use gitoxide_fs.Base.{
  ℕ, ◌≡◌, ◌≢◌, ◌↔◌, ◌<◌, refl, Bool, true, false, Option, none, some, List, [], ◌∷◌, ◌++◌, arith,
  All, inl, inr, list_eq, nat_eq, list_eqb, ◌==◌,
}
use gitoxide_fs.Base.Text.{
  Text, Bytes, codes, slash, split, starts_with, ends_with, lines, trim, has_char,
}
use gitoxide_fs.Base.Paths.{components, is_absolute, path_join}
use gitoxide_fs.Base.Dict
use gitoxide_fs.Base.Dict.{lookup}
use gitoxide_fs.Config.{MergeStrategy, three_way, ours, theirs}
use gitoxide_fs.Merge.{Snapshot, Merge, three_way_merge, all_paths}
use gitoxide_fs.Merge.Entries.{three_versions, reports}
use gitoxide_fs.Merge.Contents.{lookup-three_way_merge}
use gitoxide_fs.Merge.Conflicts.{
  Clashes, IsFaithful, three_way_merge-clean_iff, three_way_merge-one_sided,
  three_way_merge-IsFaithful, three_way_merge-same_change,
}
use gitoxide_fs.Merge.Changes.{
  differs_at, count_if, files_changed-three_way_merge, files_changed-eq-zero_iff,
}
use gitoxide_fs.Validate.{validate_path, abs_path}
use gitoxide_fs.Validate.Contained.{walk, validate_path-contained}
use gitoxide_fs.Ignore.Glob.{glob_match, Matches, slashes, glob_match_iff, glob_match-slashes}
use gitoxide_fs.Ignore.Rules.{gitignored, is_ignored_by_config}
use gitoxide_fs.Ignore.Order.{Stands, gitignored_iff}
use gitoxide_fs.Ignore.Components.{
  HasComponent, is_ignored_by_config-HasComponent, is_ignored_by_config-overmatch,
}
use gitoxide_fs.Inodes
use gitoxide_fs.Inodes.{InodeTable}
use gitoxide_fs.Inodes.Invariant as Invariant
use gitoxide_fs.Inodes.Invariant.{
  Reach, fresh, next, create, Reach-IsValid, path_to_inode-injective, IsCreated,
  get_or_create-IsCreated,
}
use gitoxide_fs.Inodes.Renames.{rename_lem, rename_over}
use gitoxide_fs.Handles
use gitoxide_fs.Handles.{HandleTable}
use gitoxide_fs.Handles.Laws as HandleLaws
use gitoxide_fs.Handles.Laws.{new-IsValid, open_handle-IsValid, close-IsValid}

abbrev readme : Text
readme = codes "README"

abbrev notes : Text
notes = codes "notes/a"

abbrev base_tree : Snapshot
base_tree = (readme, 1 ∷ []) ∷ []

abbrev our_tree : Snapshot
our_tree = (readme, 2 ∷ []) ∷ []

abbrev their_tree : Snapshot
their_tree = (readme, 2 ∷ []) ∷ (notes, 3 ∷ []) ∷ []

lookup-three_way_merge_example :
    lookup notes (three_way_merge base_tree our_tree their_tree three_way).merged
    ≡ three_versions three_way
        (lookup notes base_tree)
        (lookup notes our_tree)
        (lookup notes their_tree)
lookup-three_way_merge_example =
    lookup-three_way_merge base_tree our_tree their_tree three_way notes

three_way_merge-clean_iff_example :
    (((three_way_merge base_tree our_tree their_tree three_way).conflicts ≡ [])
      ↔ ((p : Text) → ¬ (Clashes base_tree our_tree their_tree p)))
    × All
        (IsFaithful base_tree our_tree their_tree)
        (three_way_merge base_tree our_tree their_tree three_way).conflicts
three_way_merge-clean_iff_example = three_way_merge-clean_iff base_tree our_tree their_tree

validate_path-contained_example :
    walk [] (split slash (abs_path (codes "/srv/repo") (codes "./a/b")))
    ≡ walk [] (split slash (codes "/srv/repo")) ++ components (codes "./a/b")
unfolding validate_path ends_with is_absolute path_join
validate_path-contained_example =
    validate_path-contained (codes "/srv/repo") (codes "./a/b") (λ h. cc) refl refl refl

glob_match_iff_example :
    (glob_match (codes "src/*.rs") (codes "src/lib.rs") ≡ true)
    ↔ Matches (codes "src/*.rs") (codes "src/lib.rs")
glob_match_iff_example = glob_match_iff (codes "src/*.rs") (codes "src/lib.rs")

abbrev rules : Text
rules = codes "*.log" ++ (10 ∷ codes "!keep.log")

gitignored_iff_example :
    (gitignored rules (codes "a.log") ≡ true) ↔ Stands (codes "a.log") (lines rules)
gitignored_iff_example = gitignored_iff rules (codes "a.log")

abbrev one_file : InodeTable
one_file = (Inodes.get_or_create readme Inodes.new).1

one_file_reached : Reach one_file
unfolding Inodes.new
one_file_reached = next fresh (create readme Inodes.new (ground arith))

-- The two files `README` and `notes/a`, with the inodes 2 and 3.
abbrev two_files : InodeTable
two_files = (Inodes.get_or_create notes one_file).1

two_files-IsValid : Invariant.IsValid two_files
unfolding Inodes.get_or_create Inodes.new lookup list_eqb
two_files-IsValid = Reach-IsValid (next one_file_reached (create notes one_file (ground arith)))

rename_over_example :
    let moved = Inodes.rename readme notes two_files in
    (lookup notes moved.path_to_inode ≡ some 2)
    × (lookup readme moved.path_to_inode ≡ none)
    × (Inodes.get_path 2 moved ≡ some notes)
    × (Inodes.get_path 3 moved ≡ some notes)
    × (◌≢◌ {A = ℕ} 3 2)
    × ((other : ℕ) → other ≢ 2 → Inodes.get_path other moved ≡ Inodes.get_path other two_files)
unfolding Inodes.get_or_create Inodes.get_path Inodes.new lookup list_eqb
rename_over_example = rename_over readme notes two_files 2 refl 3 two_files-IsValid refl refl
