-- ===== src/Merge.antt =====
-- `three_way_merge` of src/fork.rs, with the types of its result.
pub mod Entries
pub mod Contents
pub mod Conflicts
pub mod Changes
use gitoxide_fs.Base.{
  ℕ, ◌+◌, Bool, true, false, not, ◌&&◌, Option, none, some, List, [], ◌∷◌, ◌++◌, if◌then◌else◌,
  ◌==◌, nat_eq, list_eq, list_eqb,
}
use gitoxide_fs.Base.Text.{Text, Bytes}
use gitoxide_fs.Base.Dict
use gitoxide_fs.Base.Dict.{Dict, keys, member}
use gitoxide_fs.Base.Sort.{sort, sort_by}
use gitoxide_fs.Config.{MergeStrategy, three_way, ours, theirs, rebase}

pub data ConflictType : Type 0 where
  both_modified modify_delete both_added directory_file : ConflictType

pub record MergeConflict : Type 0 where
  pub path : Text
  pub conflict_type : ConflictType
  pub ours : Option Bytes
  pub theirs : Option Bytes
  pub base : Option Bytes

abbrev pub Snapshot : Type 0
Snapshot = Dict Text Bytes

-- The three variables of the loop.
pub record Merge : Type 0 where
  pub conflicts : List MergeConflict
  pub merged : Snapshot
  pub files_changed : ℕ

-- What one path adds to them.
pub record Outcome : Type 0 where
  pub content : Option Bytes
  pub conflict : Option MergeConflict
  pub changed : Bool

abbrev keep : Option Bytes → Outcome
keep c = record { content = c; conflict = none; changed = false }

abbrev change : Option Bytes → Outcome
change c = record { content = c; conflict = none; changed = true }

-- The `match strategy` of a conflict: the content for `Ours`, for `Theirs`, and otherwise.
by_strategy : MergeStrategy → Option Bytes → Option Bytes → Option Bytes → MergeConflict → Outcome
by_strategy ours o t other conflict = change o
by_strategy theirs o t other conflict = change t
by_strategy three_way o t other conflict = record {
  content = other;
  conflict = some conflict;
  changed = true;
}
by_strategy rebase o t other conflict = record {
  content = other;
  conflict = some conflict;
  changed = true;
}

-- One round of the loop: the arms of the `match`, in their order.
unfoldable pub merge_path :
    MergeStrategy → Text → Option Bytes → Option Bytes → Option Bytes → Outcome
unfolding by_strategy list_eqb
merge_path strategy path (some b) (some o) (some t) =
    if b == o && b == t
    then keep (some o)
    else if b == t && not (b == o)
    then change (some o)
    else if b == o && not (b == t)
    then change (some t)
    else by_strategy strategy (some o) (some t) (some o) (record {
      path = path;
      conflict_type = both_modified;
      ours = some o;
      theirs = some t;
      base = some b;
    })
merge_path strategy path none (some o) none = change (some o)
merge_path strategy path none none (some t) = change (some t)
merge_path strategy path none (some o) (some t) =
    if o == t
    then change (some o)
    else by_strategy strategy (some o) (some t) (some o) (record {
      path = path;
      conflict_type = both_added;
      ours = some o;
      theirs = some t;
      base = none;
    })
merge_path strategy path (some b) none (some t) =
    if b == t
    then change none
    else by_strategy strategy none (some t) none (record {
      path = path;
      conflict_type = modify_delete;
      ours = none;
      theirs = some t;
      base = some b;
    })
merge_path strategy path (some b) (some o) none =
    if b == o
    then change none
    else by_strategy strategy (some o) none none (record {
      path = path;
      conflict_type = modify_delete;
      ours = some o;
      theirs = none;
      base = some b;
    })
merge_path strategy path (some b) none none = change none
merge_path strategy path none none none = keep none

-- `if !all_paths.contains(key) { all_paths.push(key) }` over a chain of keys.
unfoldable pub collect_paths : List Text → List Text → List Text
unfolding member
collect_paths found [] = found
collect_paths found (key ∷ rest) =
    collect_paths (if member found key then found else found ++ (key ∷ [])) rest

abbrev pub insert_content : Text → Option Bytes → Snapshot → Snapshot
insert_content path none merged = merged
insert_content path (some c) merged = Dict.insert path c merged

abbrev pub push_conflict : Option MergeConflict → List MergeConflict → List MergeConflict
push_conflict none conflicts = conflicts
push_conflict (some c) conflicts = conflicts ++ (c ∷ [])

abbrev pub record_outcome : Text → Outcome → Merge → Merge
record_outcome path out m = record {
  conflicts = push_conflict out.conflict m.conflicts;
  merged = insert_content path out.content m.merged;
  files_changed = if out.changed then m.files_changed + 1 else m.files_changed;
}

-- The paths of the three trees, each once and in order.
module _ (base_tree our_tree their_tree : Snapshot) where
  unfoldable pub all_paths : List Text
  unfolding collect_paths sort_by
  all_paths = sort (collect_paths [] (keys base_tree ++ (keys our_tree ++ keys their_tree)))

module _ (base_tree our_tree their_tree : Snapshot) (strategy : MergeStrategy) where
  unfoldable pub outcome_at : Text → Outcome
  unfolding merge_path
  outcome_at path =
      merge_path strategy path (Dict.lookup path base_tree) (Dict.lookup path our_tree)
        (Dict.lookup path their_tree)

  -- The loop over the sorted paths.
  unfoldable pub merge_paths : List Text → Merge → Merge
  unfolding outcome_at
  merge_paths [] m = m
  merge_paths (path ∷ rest) m = merge_paths rest (record_outcome path (outcome_at path) m)

  unfoldable pub three_way_merge : Merge
  unfolding merge_paths all_paths
  three_way_merge =
      merge_paths (all_paths base_tree our_tree their_tree)
        (record { conflicts = []; merged = []; files_changed = 0 })
