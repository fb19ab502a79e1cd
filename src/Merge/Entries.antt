-- ===== src/Merge/Entries.antt =====
-- What one round of the merge does: the rule of three versions.
use gitoxide_fs.Base.{
  ◌≡◌, ◌≢◌, Bool, true, false, ◌&&◌, ◌||◌, not, Option, none, some, arith, if◌then◌else◌, ◌==◌,
  list_eqb_iff, nat_eq, list_eq, option_eq, option_eqb,
}
use gitoxide_fs.Base.Text.{Text, Bytes}
use gitoxide_fs.Config.{MergeStrategy, three_way, ours, theirs, rebase}
use gitoxide_fs.Merge.{MergeConflict, merge_path}

abbrev pub is_none : Option Bytes → Bool
is_none none = true
is_none (some c) = false

-- Where the two sides differ from the base and from one another.
abbrev pub resolved : MergeStrategy → Option Bytes → Option Bytes → Option Bytes
resolved ours o t = o
resolved theirs o t = t
resolved three_way o t = if is_none t then none else o
resolved rebase o t = if is_none t then none else o

-- The rule of three versions: a side that did not change yields to the other one.
abbrev pub three_versions :
    MergeStrategy → Option Bytes → Option Bytes → Option Bytes → Option Bytes
three_versions strategy b o t =
    if o == b then t else if t == b then o else if o == t then o else resolved strategy o t

-- What the loop of `three_way_merge` calls a conflict, by the versions of a path alone: both sides
-- changed what the base has, also when they changed it to the same; both added a file, and not the
-- same; or one deleted what the other changed.
pub data Clash : Option Bytes → Option Bytes → Option Bytes → Type 0 where
  both_changed : (b o t : Bytes) → b ≢ o → b ≢ t → Clash (some b) (some o) (some t)
  both_created : (o t : Bytes) → o ≢ t → Clash none (some o) (some t)
  ours_deleted : (b t : Bytes) → b ≢ t → Clash (some b) none (some t)
  theirs_deleted : (b o : Bytes) → b ≢ o → Clash (some b) (some o) none

-- The test for the absence of a clash
abbrev pub is_settled : Option Bytes → Option Bytes → Option Bytes → Bool
is_settled b o t = o == b || t == b || (o == t && (is_none b || is_none o))

pub is_settled-Clash : (b o t : Option Bytes) → is_settled b o t ≡ false → Clash b o t
unfolding option_eqb
is_settled-Clash none none t h = ground arith
is_settled-Clash none (some o) none h = ground arith
is_settled-Clash none (some o) (some t) h = both_created o t (λ e. ground (arith, list_eqb_iff o t))
is_settled-Clash (some b) none none h = ground arith
is_settled-Clash (some b) none (some t) h = ours_deleted b t (λ e. ground (arith, list_eqb_iff t b))
is_settled-Clash (some b) (some o) none h =
    theirs_deleted b o (λ e. ground (arith, list_eqb_iff o b))
is_settled-Clash (some b) (some o) (some t) h =
    both_changed b o t (λ e. ground (arith, list_eqb_iff o b))
      (λ e. ground (arith, list_eqb_iff t b))

pub Clash-is_settled : {b o t : Option Bytes} → Clash b o t → is_settled b o t ≡ false
unfolding option_eqb
Clash-is_settled (both_changed b o t m n) = ground (arith, list_eqb_iff o b, list_eqb_iff t b)
Clash-is_settled (both_created o t n) = ground (arith, list_eqb_iff o t)
Clash-is_settled (ours_deleted b t n) = ground (arith, list_eqb_iff t b)
Clash-is_settled (theirs_deleted b o n) = ground (arith, list_eqb_iff o b)

abbrev pub reports : MergeStrategy → Bool
reports ours = false
reports theirs = false
reports three_way = true
reports rebase = true

abbrev pub has_conflict : Option MergeConflict → Bool
has_conflict none = false
has_conflict (some c) = true

module _ (strategy : MergeStrategy) (path : Text) where
  pub content-merge_path :
      (b o t : Option Bytes)
      → (merge_path strategy path b o t).content ≡ three_versions strategy b o t
  unfolding merge_path option_eqb
  content-merge_path none none none = ground arith
  content-merge_path none none (some t) = ground arith
  content-merge_path none (some o) none = ground arith
  content-merge_path none (some o) (some t) = ground (arith, list_eqb_iff o t)
  content-merge_path (some b) none none = ground arith
  content-merge_path (some b) none (some t) = ground (arith, list_eqb_iff b t, list_eqb_iff t b)
  content-merge_path (some b) (some o) none = ground (arith, list_eqb_iff b o, list_eqb_iff o b)
  content-merge_path (some b) (some o) (some t) = ground (
    arith,
    list_eqb_iff b o,
    list_eqb_iff o b,
    list_eqb_iff b t,
    list_eqb_iff t b,
    list_eqb_iff o t,
  )

  pub conflict-merge_path :
      (b o t : Option Bytes)
      → has_conflict (merge_path strategy path b o t).conflict
        ≡ (reports strategy && not (is_settled b o t))
  unfolding merge_path option_eqb
  conflict-merge_path none none none = ground arith
  conflict-merge_path none none (some t) = ground arith
  conflict-merge_path none (some o) none = ground arith
  conflict-merge_path none (some o) (some t) = ground (arith, list_eqb_iff o t)
  conflict-merge_path (some b) none none = ground arith
  conflict-merge_path (some b) none (some t) = ground (arith, list_eqb_iff b t, list_eqb_iff t b)
  conflict-merge_path (some b) (some o) none = ground (arith, list_eqb_iff b o, list_eqb_iff o b)
  conflict-merge_path (some b) (some o) (some t) = ground (
    arith,
    list_eqb_iff b o,
    list_eqb_iff o b,
    list_eqb_iff b t,
    list_eqb_iff t b,
    list_eqb_iff o t,
  )

  pub changed-merge_path :
      (b o t : Option Bytes) → (merge_path strategy path b o t).changed ≡ not (b == o && b == t)
  unfolding merge_path option_eqb
  changed-merge_path none none none = ground arith
  changed-merge_path none none (some t) = ground arith
  changed-merge_path none (some o) none = ground arith
  changed-merge_path none (some o) (some t) = ground (arith, list_eqb_iff o t)
  changed-merge_path (some b) none none = ground arith
  changed-merge_path (some b) none (some t) = ground (arith, list_eqb_iff b t, list_eqb_iff t b)
  changed-merge_path (some b) (some o) none = ground (arith, list_eqb_iff b o, list_eqb_iff o b)
  changed-merge_path (some b) (some o) (some t) = ground (
    arith,
    list_eqb_iff b o,
    list_eqb_iff o b,
    list_eqb_iff b t,
    list_eqb_iff t b,
    list_eqb_iff o t,
  )
