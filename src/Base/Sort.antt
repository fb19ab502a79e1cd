-- ===== src/Base/Sort.antt =====
-- `Vec<String>::sort`: the order of texts by code points, which is that of their UTF-8 bytes, and
-- a sort that puts each item before the first one that is not smaller.
use mathlib.Core.Path.{◌≡◌, refl}
use mathlib.Core.Bool.{Bool, true, false, ◌||◌}
use mathlib.Core.List.{List, [], ◌∷◌}
use native.Mathlib.Omega.{arith}
use gitoxide_fs.Base.Tests.{if◌then◌else◌, ltb, nat_eqb}
use gitoxide_fs.Base.Equality.{◌==◌, nat_eq, list_eq}
use gitoxide_fs.Base.Text.{Text}
use gitoxide_fs.Base.Dict.{member}

unfoldable pub text_leb : Text → Text → Bool
text_leb [] t = true
text_leb (x ∷ s) [] = false
text_leb (x ∷ s) (y ∷ t) =
    let rest = text_leb s t in if ltb x y then true else if nat_eqb x y then rest else false

-- A sort by any order.
module _ {ℓ} {A : Type ℓ} (before : A → A → Bool) where
  unfoldable pub insert_with : A → List A → List A
  insert_with x [] = x ∷ []
  insert_with x (y ∷ ys) =
      let rest = insert_with x ys in if before x y then x ∷ y ∷ ys else y ∷ rest

  unfoldable pub sort_with : List A → List A
  sort_with [] = []
  sort_with (x ∷ xs) = insert_with x (sort_with xs)

module _ {ℓ} {A : Type ℓ} (key : A → Text) where
  unfoldable pub insert_sorted : A → List A → List A
  unfolding text_leb
  insert_sorted x [] = x ∷ []
  insert_sorted x (y ∷ ys) =
      let rest = insert_sorted x ys in if text_leb (key x) (key y) then x ∷ y ∷ ys else y ∷ rest

  unfoldable pub sort_by : List A → List A
  unfolding insert_sorted
  sort_by [] = []
  sort_by (x ∷ xs) = insert_sorted x (sort_by xs)

abbrev pub sort : List Text → List Text
sort = sort_by (λ s. s)

member-insert_sorted :
    (x : Text) (ys : List Text) (a : Text)
    → member (insert_sorted (λ s. s) x ys) a ≡ (x == a || member ys a)
unfolding insert_sorted member
member-insert_sorted x [] a = refl
member-insert_sorted x (y ∷ ys) a = ground (arith, member-insert_sorted x ys a)

-- Sorting keeps the items.
pub member-sort : (xs : List Text) (a : Text) → member (sort xs) a ≡ member xs a
unfolding sort_by member
member-sort [] a = refl
member-sort (x ∷ xs) a = ground (arith, member-insert_sorted x (sort xs) a, member-sort xs a)
