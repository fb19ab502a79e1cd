-- ===== src/Inodes.antt =====
-- `InodeTable` of src/fs.rs: paths and inode numbers, both ways.
pub mod Invariant
pub mod Renames
pub mod Trails
use gitoxide_fs.Base.{ℕ, ◌+◌, Option, none, some, [], ◌∷◌, nat_eq, list_eq, list_eqb, next_u64}
use gitoxide_fs.Base.Text.{Text, codes}
use gitoxide_fs.Base.Dict
use gitoxide_fs.Base.Dict.{Dict}

abbrev pub fuse_root_id : ℕ
fuse_root_id = 1

pub record InodeTable : Type 0 where
  pub path_to_inode : Dict Text ℕ
  pub inode_to_path : Dict ℕ Text
  pub next_inode : ℕ

unfoldable pub new : InodeTable
unfolding Dict.insert
new = record {
  path_to_inode = Dict.insert (codes "") fuse_root_id [];
  inode_to_path = Dict.insert fuse_root_id (codes "") [];
  next_inode = 2;
}

abbrev get_or_create_at : Option ℕ → Text → InodeTable → ℕ × InodeTable
get_or_create_at (some ino) path t = (ino, t)
get_or_create_at none path t =
    let ino = t.next_inode in
    (
      ino,
      record {
        path_to_inode = Dict.insert path ino t.path_to_inode;
        inode_to_path = Dict.insert ino path t.inode_to_path;
        next_inode = next_u64 t.next_inode;
      },
    )

unfoldable pub get_or_create : Text → InodeTable → ℕ × InodeTable
get_or_create path t = get_or_create_at (Dict.lookup path t.path_to_inode) path t

unfoldable pub get_path : ℕ → InodeTable → Option Text
get_path ino t = Dict.lookup ino t.inode_to_path

abbrev remove_at : Option ℕ → Text → InodeTable → InodeTable
remove_at none path t = t
remove_at (some ino) path t = record t {
  path_to_inode = Dict.remove path t.path_to_inode;
  inode_to_path = Dict.remove ino t.inode_to_path;
}

unfoldable pub remove : Text → InodeTable → InodeTable
remove path t = remove_at (Dict.lookup path t.path_to_inode) path t

abbrev rename_at : Option ℕ → Text → Text → InodeTable → InodeTable
rename_at none from to t = t
rename_at (some ino) from to t = record t {
  path_to_inode = Dict.insert to ino (Dict.remove from t.path_to_inode);
  inode_to_path = Dict.insert ino to t.inode_to_path;
}

unfoldable pub rename : Text → Text → InodeTable → InodeTable
rename from to t = rename_at (Dict.lookup from t.path_to_inode) from to t
