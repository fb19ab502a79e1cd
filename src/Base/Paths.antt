-- ===== src/Base/Paths.antt =====
-- `std::path::Path` on UTF-8 paths of Unix, as text.
use mathlib.Core.Bool.{Bool, not, ◌&&◌, ◌||◌}
use mathlib.Core.List.{List, [], ◌∷◌, ◌++◌}
use mathlib.Core.Option.{Option, none, some}
use gitoxide_fs.Base.Tests.{if◌then◌else◌}
use gitoxide_fs.Base.Lists.{is_empty, get_last?}
use gitoxide_fs.Base.Equality.{◌==◌, nat_eq, list_eq, list_eqb}
use gitoxide_fs.Base.Text.{Text, codes, slash, split, join, starts_with, ends_with}

-- `Path::is_absolute`
unfoldable pub is_absolute : Text → Bool
unfolding starts_with
is_absolute p = starts_with p (codes "/")

-- `Path::join`: an absolute path replaces the one that it is joined to.
unfoldable pub path_join : Text → Text → Text
unfolding is_absolute ends_with
path_join base p =
    if is_absolute p
    then p
    else if is_empty base || ends_with base (codes "/")
    then base ++ p
    else base ++ (slash ∷ p)

-- The components between separators that are neither empty nor `.`.
abbrev pub named_components : List Text → List Text
named_components [] = []
named_components (c ∷ cs) =
    let rest = named_components cs in if is_empty c || c == codes "." then rest else c ∷ rest

-- `Path::components`, without the root and a leading `.`
unfoldable pub components : Text → List Text
unfolding split list_eqb
components p = named_components (split slash p)

-- `Path::file_name`: the last component, unless it is `..`.
unfoldable pub file_name : Text → Option Text
unfolding components
file_name p = elim (get_last? (components p)) [
  | none ↦ none
  | some c ↦ if c == codes ".." then none else some c
]

abbrev drop_last : List Text → List Text
drop_last [] = []
drop_last (c ∷ []) = []
drop_last (c ∷ d ∷ cs) = c ∷ drop_last (d ∷ cs)

-- `Path::parent`, up to redundant separators.
unfoldable pub parent : Text → Option Text
unfolding components is_absolute join
parent p =
    let cs = components p in
    if is_empty cs
    then none
    else some ((if is_absolute p then codes "/" else []) ++ join (codes "/") (drop_last cs))

-- `==` of two paths, which compares roots and components.
unfoldable pub same_path : Text → Text → Bool
unfolding components is_absolute
same_path p q =
    (if is_absolute p then is_absolute q else not (is_absolute q)) && components p == components q
