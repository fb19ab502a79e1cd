-- ===== src/Forks/Registry.antt =====
-- The map of forks as a registry: what an operation of the manager may do to it.
use gitoxide_fs.Base.{◌≡◌, true, false, none, some, arith, nat_eq, list_eq, list_eqb_iff}
use gitoxide_fs.Base.Text.{Text}
use gitoxide_fs.Base.Dict.{lookup, insert, remove, lookup-insert, lookup-remove}
use gitoxide_fs.Forks.{Forks, ForkMetadata}
use gitoxide_fs.Forks.Merging.{}

-- A fork that was just made: it is on the branch of its name, and not merged.
abbrev pub IsFresh : Text → ForkMetadata → Type 0
IsFresh name meta = (meta.branch ≡ name) × (meta.merged ≡ false)

-- What may become of the registry in an operation.
pub data Change : Forks → Forks → Type 0 where
  unchanged : (d : Forks) → Change d d
  added :
      (name : Text) (meta : ForkMetadata) (d : Forks)
      → lookup name d ≡ none
      → IsFresh name meta
      → Change d (insert name meta d)
  dropped :
      (name : Text) (meta : ForkMetadata) (d : Forks)
      → lookup name d ≡ some meta
      → Change d (remove name d)
  merged :
      (name : Text) (meta : ForkMetadata) (d : Forks)
      → lookup name d ≡ some meta
      → meta.merged ≡ false
      → Change d (insert name (record meta { merged = true }) d)

-- Every fork is on the branch of its name.
abbrev pub IsNamed : Forks → Type 0
IsNamed d = (name : Text) (meta : ForkMetadata) → lookup name d ≡ some meta → meta.branch ≡ name

pub Change-IsNamed : {d e : Forks} → Change d e → IsNamed d → IsNamed e
Change-IsNamed (unchanged d) v = v
Change-IsNamed (added name meta d absent fresh) v =
    λ k m h. ground (arith, lookup-insert name k meta d, list_eqb_iff name k, v k m, fresh)
Change-IsNamed (dropped name meta d there) v =
    λ k m h. ground (arith, lookup-remove name k d, v k m)
Change-IsNamed (merged name meta d there pending) v = λ k m h. ground (
  arith,
  lookup-insert name k (record meta { merged = true }) d,
  list_eqb_iff name k,
  v k m,
  v name meta,
)

-- A merged fork stays merged until it is dropped.
abbrev pub StaysMerged : Text → Forks → Type 0
StaysMerged name d = (meta : ForkMetadata) → lookup name d ≡ some meta → meta.merged ≡ true

pub Change-StaysMerged :
    {d e : Forks} (name : Text) (m : ForkMetadata)
    → Change d e
    → lookup name d ≡ some m
    → m.merged ≡ true
    → StaysMerged name e
Change-StaysMerged name m (unchanged d) h t = λ k e. cc
Change-StaysMerged name m (added n meta d absent fresh) h t =
    λ k e. ground (arith, lookup-insert n name meta d, list_eqb_iff n name)
Change-StaysMerged name m (dropped n meta d there) h t =
    λ k e. ground (arith, lookup-remove n name d)
Change-StaysMerged name m (merged n meta d there pending) h t =
    λ k e. ground (arith, lookup-insert n name (record meta { merged = true }) d)
