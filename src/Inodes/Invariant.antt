-- ===== src/Inodes/Invariant.antt =====
-- What every operation on the inode table keeps: a path's inode leads back to the path, and no
-- inode is handed out twice.
use gitoxide_fs.Base.{
  ℕ, ◌+◌, ◌<◌, ◌^◌, ◌≡◌, ◌≢◌, refl, false, Option, none, some, [], arith, ◌==◌, ==_iff,
  list_eqb_iff, nat_eq, list_eq, list_eqb,
}
use gitoxide_fs.Base.Text.{Text}
use gitoxide_fs.Base.Dict
use gitoxide_fs.Base.Dict.{lookup, lookup-insert, lookup-remove}
use gitoxide_fs.Inodes
use gitoxide_fs.Inodes.{InodeTable, get_or_create_at, remove_at, rename_at}

pub record IsValid (t : InodeTable) : Type 0 where
  pub back :
      (p : Text) (i : ℕ) → lookup p t.path_to_inode ≡ some i → lookup i t.inode_to_path ≡ some p
  pub given : (p : Text) (i : ℕ) → lookup i t.inode_to_path ≡ some p → i < t.next_inode

-- There is a next number.
abbrev pub HasRoom : InodeTable → Type 0
HasRoom t = t.next_inode + 1 < 2 ^ 64

get_or_create_at-IsValid :
    (o : Option ℕ) (path : Text) (t : InodeTable)
    → IsValid t
    → HasRoom t
    → lookup path t.path_to_inode ≡ o
    → IsValid (get_or_create_at o path t).1
get_or_create_at-IsValid (some ino) path t v room e = v
get_or_create_at-IsValid none path t v room e = record {
  back = λ p i h. ground (
    arith,
    lookup-insert path p t.next_inode t.path_to_inode,
    lookup-insert t.next_inode i path t.inode_to_path,
    list_eqb_iff path p,
    v.back p i,
    v.given p i,
  );
  given = λ p i h. ground (arith, lookup-insert t.next_inode i path t.inode_to_path, v.given p i);
}

remove_at-IsValid :
    (o : Option ℕ) (path : Text) (t : InodeTable)
    → IsValid t
    → lookup path t.path_to_inode ≡ o
    → IsValid (remove_at o path t)
remove_at-IsValid none path t v e = v
remove_at-IsValid (some ino) path t v e = record {
  back = λ p i h. ground (
    arith,
    lookup-remove path p t.path_to_inode,
    lookup-remove ino i t.inode_to_path,
    list_eqb_iff path p,
    v.back p i,
    v.back path ino,
  );
  given = λ p i h. ground (arith, lookup-remove ino i t.inode_to_path, v.given p i);
}

rename_at-IsValid :
    (o : Option ℕ) (from to : Text) (t : InodeTable)
    → IsValid t
    → lookup from t.path_to_inode ≡ o
    → IsValid (rename_at o from to t)
rename_at-IsValid none from to t v e = v
rename_at-IsValid (some ino) from to t v e = record {
  back = λ p i h. ground (
    arith,
    lookup-insert to p ino (Dict.remove from t.path_to_inode),
    lookup-remove from p t.path_to_inode,
    lookup-insert ino i to t.inode_to_path,
    list_eqb_iff to p,
    list_eqb_iff from p,
    v.back p i,
    v.back from ino,
  );
  given = λ p i h. ground (
    arith,
    lookup-insert ino i to t.inode_to_path,
    v.given p i,
    v.given from ino,
    v.back from ino,
  );
}

pub new-IsValid : IsValid Inodes.new
unfolding Inodes.new lookup list_eqb
new-IsValid = record {
  back = λ p i h. ground (arith, list_eqb_iff [] p);
  given = λ p i h. ground arith;
}

-- One call of the table's operations; `get_path` changes nothing.
pub data Step : InodeTable → InodeTable → Type 0 where
  create : (path : Text) (t : InodeTable) → HasRoom t → Step t (Inodes.get_or_create path t).1
  forget : (path : Text) (t : InodeTable) → Step t (Inodes.remove path t)
  move : (from to : Text) (t : InodeTable) → Step t (Inodes.rename from to t)

pub data Reach : InodeTable → Type 0 where
  fresh : Reach Inodes.new
  next : {t u : InodeTable} → Reach t → Step t u → Reach u

pub Step-IsValid : {t u : InodeTable} → Step t u → IsValid t → IsValid u
unfolding Inodes.get_or_create Inodes.remove Inodes.rename
Step-IsValid (create path t room) v =
    get_or_create_at-IsValid (lookup path t.path_to_inode) path t v room refl
Step-IsValid (forget path t) v = remove_at-IsValid (lookup path t.path_to_inode) path t v refl
Step-IsValid (move from to t) v = rename_at-IsValid (lookup from t.path_to_inode) from to t v refl

-- Every table that the operations reach, while numbers are left, is valid: the inode of a path
-- leads back to the path, and every inode in use is below the next one.
pub Reach-IsValid : {t : InodeTable} → Reach t → IsValid t
Reach-IsValid fresh = new-IsValid
Reach-IsValid (next r s) = Step-IsValid s (Reach-IsValid r)

-- In a valid table two paths never share an inode.
pub path_to_inode-injective :
    (t : InodeTable) (p q : Text) (i : ℕ)
    → IsValid t
    → lookup p t.path_to_inode ≡ some i
    → lookup q t.path_to_inode ≡ some i
    → p ≡ q
path_to_inode-injective t p q i v hp hq = ground (arith, v.back p i, v.back q i)

-- What a call of `get_or_create` has to do.
pub record IsCreated (path : Text) (t : InodeTable) (ino : ℕ) (t' : InodeTable) : Type 0 where
  pub found : Inodes.get_path ino t' ≡ some path
  pub listed : lookup path t'.path_to_inode ≡ some ino
  pub others :
      (q : Text) → (path == q) ≡ false → lookup q t'.path_to_inode ≡ lookup q t.path_to_inode
  pub unused : lookup path t.path_to_inode ≡ none → (q : Text) → lookup ino t.inode_to_path ≢ some q

get_or_create_at-IsCreated :
    (o : Option ℕ) (path : Text) (t : InodeTable)
    → IsValid t
    → lookup path t.path_to_inode ≡ o
    → let r = get_or_create_at o path t in IsCreated path t r.0 r.1
unfolding Inodes.get_path
get_or_create_at-IsCreated (some ino) path t v e = record {
  found = v.back path ino e;
  listed = e;
  others = λ q n. refl;
  unused = λ absent. cc;
}
get_or_create_at-IsCreated none path t v e = record {
  found = ground (arith, lookup-insert t.next_inode t.next_inode path t.inode_to_path);
  listed = ground (arith, lookup-insert path path t.next_inode t.path_to_inode, ==_iff path path);
  others = λ q n. ground (arith, lookup-insert path q t.next_inode t.path_to_inode);
  unused = λ absent q h. ground (arith, v.given q t.next_inode);
}

-- `get_or_create` on a valid table returns an inode that then leads to the path; all other paths
-- keep theirs, and an inode that is new was not in use.
pub get_or_create-IsCreated :
    (path : Text) (t : InodeTable)
    → IsValid t
    → let r = Inodes.get_or_create path t in IsCreated path t r.0 r.1
unfolding Inodes.get_or_create
get_or_create-IsCreated path t v =
    get_or_create_at-IsCreated (lookup path t.path_to_inode) path t v refl
