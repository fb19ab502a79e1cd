-- ===== src/Backend/Xattrs.antt =====
-- The extended attributes of `GitBackend` in src/git.rs: kept in memory, by path and name.
pub mod Laws
use gitoxide_fs.Base.{
  Bool, true, false, Option, none, some, List, [], ◌∷◌, ◌++◌, if◌then◌else◌, list_eq, nat_eq,
}
use gitoxide_fs.Base.Text.{Text, Bytes, codes}
use gitoxide_fs.Base.Dict
use gitoxide_fs.Base.Dict.{Dict, lookup, insert, remove, keys}
use gitoxide_fs.Error.{Error, not_found}
use gitoxide_fs.Error.Monad.{Result, ok, err, Exec}
use gitoxide_fs.Config.{Config}
use gitoxide_fs.Os.{Os}
use gitoxide_fs.Backend.{full_path}

abbrev pub Xattrs : Type 0
Xattrs = Dict Text (Dict Text Bytes)

abbrev pub attrs_of : Option (Dict Text Bytes) → Dict Text Bytes
attrs_of none = []
attrs_of (some attrs) = attrs

abbrev no_xattr : Text → Text → Error
no_xattr path name =
    not_found (codes "xattr '" ++ (name ++ (codes "' not found on '" ++ (path ++ codes "'"))))

abbrev pub named : Text → Option (Dict Text Bytes) → Option Bytes
named name none = none
named name (some attrs) = lookup name attrs

-- The removal from the attributes of a path, if it has the attribute.
abbrev without :
    Text → Text → Option (Dict Text Bytes) → Option Bytes → Xattrs → Result Error Unit × Xattrs
without path name (some attrs) (some value) store = (ok tt, insert path (remove name attrs) store)
without path name (some attrs) none store = (err (no_xattr path name), store)
without path name none value store = (err (no_xattr path name), store)

module _ (O : Os) (config : Config) (s : O.State) where
  -- `GitBackend::get_xattr`
  unfoldable pub get_xattr : Text → Text → Xattrs → Result Error (Option Bytes)
  get_xattr path name store =
      if O.exists (full_path config path) s
      then ok (named name (lookup path store))
      else err (not_found path)

  -- `GitBackend::set_xattr`
  unfoldable pub set_xattr : Text → Text → Bytes → Exec Xattrs Error Unit
  set_xattr path name value store =
      if O.exists (full_path config path) s
      then (ok tt, insert path (insert name value (attrs_of (lookup path store))) store)
      else (err (not_found path), store)

  -- `GitBackend::list_xattr`, in some order
  unfoldable pub list_xattr : Text → Xattrs → Result Error (List Text)
  list_xattr path store =
      if O.exists (full_path config path) s
      then ok (keys (attrs_of (lookup path store)))
      else err (not_found path)

  -- `GitBackend::remove_xattr`
  unfoldable pub remove_xattr : Text → Text → Exec Xattrs Error Unit
  remove_xattr path name store =
      if O.exists (full_path config path) s
      then without path name (lookup path store) (named name (lookup path store)) store
      else (err (not_found path), store)
