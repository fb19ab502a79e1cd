-- ===== src/Mounts/Table.antt =====
-- The table of active mounts of src/fs.rs: that no repository stands in it twice, and the changes
-- that keep this.
use gitoxide_fs.Base.{
  ◌≡◌, refl, arith, Bool, true, false, some, [], ◌∷◌, any, ◌==◌, ==_iff, list_eq, nat_eq,
}
use gitoxide_fs.Base.Text.{Text}
use gitoxide_fs.Base.Dict.{lookup, insert, remove}
use gitoxide_fs.Error.Monad.{ok}
use gitoxide_fs.Mounts.{MountMap, values, check_unmounted}

abbrev pub has_repo : Text → MountMap → Bool
has_repo repo_path d = any (λ r. r == repo_path) (values d)

abbrev pub IsExclusive : MountMap → Type 0
IsExclusive [] = Unit
IsExclusive ((m, r) ∷ d) = (has_repo r d ≡ false) × IsExclusive d

-- A step of the table.
pub data Change : MountMap → MountMap → Type 0 where
  unchanged : (d : MountMap) → Change d d
  added : (m r : Text) (d : MountMap) → has_repo r d ≡ false → Change d (insert m r d)
  removed : (m : Text) (d : MountMap) → Change d (remove m d)

has_repo-insert :
    (m r x : Text) (d : MountMap)
    → has_repo x d ≡ false
    → (r == x) ≡ false
    → has_repo x (insert m r d) ≡ false
unfolding insert
has_repo-insert m r x [] h n = ground arith
has_repo-insert m r x ((j, v) ∷ d) h n = ground (arith, has_repo-insert m r x d)

has_repo-remove :
    (m x : Text) (d : MountMap) → has_repo x d ≡ false → has_repo x (remove m d) ≡ false
unfolding remove
has_repo-remove m x [] h = refl
has_repo-remove m x ((j, v) ∷ d) h = ground (arith, has_repo-remove m x d)

insert-IsExclusive :
    (m r : Text) (d : MountMap) → has_repo r d ≡ false → IsExclusive d → IsExclusive (insert m r d)
unfolding insert
insert-IsExclusive m r [] h e = (refl, tt)
insert-IsExclusive m r ((j, v) ∷ d) h e =
    ground (arith, insert-IsExclusive m r d, has_repo-insert m r v d, ==_iff r v, ==_iff v r)

remove-IsExclusive : (m : Text) (d : MountMap) → IsExclusive d → IsExclusive (remove m d)
unfolding remove
remove-IsExclusive m [] e = tt
remove-IsExclusive m ((j, v) ∷ d) e = ground (arith, remove-IsExclusive m d, has_repo-remove m v d)

pub Change-IsExclusive : {d d' : MountMap} → Change d d' → IsExclusive d → IsExclusive d'
Change-IsExclusive (unchanged d) e = e
Change-IsExclusive (added m r d h) e = insert-IsExclusive m r d h e
Change-IsExclusive (removed m d) e = remove-IsExclusive m d e

pub has_repo-lookup : (m r : Text) (d : MountMap) → lookup m d ≡ some r → has_repo r d ≡ true
unfolding lookup
has_repo-lookup m r [] h = cc
has_repo-lookup m r ((j, v) ∷ d) h = ground (arith, has_repo-lookup m r d, ==_iff v r)

-- Where a repository stands once, its mount point is all that has to be removed.
pub has_repo-remove_self :
    (m r : Text) (d : MountMap)
    → IsExclusive d
    → lookup m d ≡ some r
    → has_repo r (remove m d) ≡ false
unfolding lookup remove
has_repo-remove_self m r [] e h = cc
has_repo-remove_self m r ((j, v) ∷ d) e h =
    ground
      (arith, has_repo-remove_self m r d, has_repo-remove m r d, has_repo-lookup m r d, ==_iff v r)

-- The test of the code is the one of the table.
pub check_unmounted-ok :
    (r : Text) (d : MountMap) → check_unmounted r d ≡ ok tt → has_repo r d ≡ false
unfolding check_unmounted
check_unmounted-ok r d h = ground arith

pub has_repo-check : (r : Text) (d : MountMap) → has_repo r d ≡ false → check_unmounted r d ≡ ok tt
unfolding check_unmounted
has_repo-check r d h = ground arith

-- In such a table a repository has one mount point.
pub lookup_unique :
    (m n r : Text) (d : MountMap)
    → IsExclusive d
    → lookup m d ≡ some r
    → lookup n d ≡ some r
    → m ≡ n
unfolding lookup
lookup_unique m n r [] e h k = cc
lookup_unique m n r ((j, v) ∷ d) e h k = ground (
  arith,
  lookup_unique m n r d,
  has_repo-lookup m r d,
  has_repo-lookup n r d,
  ==_iff j m,
  ==_iff j n,
)
