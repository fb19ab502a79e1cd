-- ===== src/Inodes/Trails.antt =====
-- What the operations on the inode table of src/fs.rs do to a valid table, and the numbers that they take.
use gitoxide_fs.Base.{ℕ, ◌+◌, ◌≤◌, ◌<◌, ◌^◌, arith, Option, some, none, list_eq, nat_eq}
use gitoxide_fs.Base.Text.{Text}
use gitoxide_fs.Base.Dict.{lookup}
use gitoxide_fs.Inodes
use gitoxide_fs.Inodes.{InodeTable, get_or_create_at, remove_at, rename_at}
use gitoxide_fs.Inodes.Invariant.{IsValid, create, forget, move, Step-IsValid}

-- With at least `n` numbers left, a valid table stays valid, and at most `n` of them are taken.
pub record Within (n : ℕ) (t u : InodeTable) : Type 0 where
  pub keeps : IsValid t → t.next_inode + n < 2 ^ 64 → IsValid u × (u.next_inode ≤ t.next_inode + n)

pub here : {n : ℕ} (t : InodeTable) → Within n t t
here t = record { keeps = λ v room. (v, omega arith) }

get_or_create_at-next :
    (o : Option ℕ) (path : Text) (t : InodeTable)
    → t.next_inode + 1 < 2 ^ 64
    → (get_or_create_at o path t).1.next_inode ≤ t.next_inode + 1
get_or_create_at-next none path t room = ground arith
get_or_create_at-next (some ino) path t room = omega arith

remove_at-next :
    (o : Option ℕ) (path : Text) (t : InodeTable) → (remove_at o path t).next_inode ≤ t.next_inode
remove_at-next none path t = omega arith
remove_at-next (some ino) path t = omega arith

rename_at-next :
    (o : Option ℕ) (from to : Text) (t : InodeTable)
    → (rename_at o from to t).next_inode ≤ t.next_inode
rename_at-next none from to t = omega arith
rename_at-next (some ino) from to t = omega arith

pub created : (path : Text) (t : InodeTable) → Within 1 t (Inodes.get_or_create path t).1
unfolding Inodes.get_or_create
created path t = record {
  keeps = λ v room. (
    Step-IsValid (create path t room) v,
    get_or_create_at-next (lookup path t.path_to_inode) path t room,
  );
}

pub removed : {n : ℕ} (path : Text) (t : InodeTable) → Within n t (Inodes.remove path t)
unfolding Inodes.remove
removed path t = record {
  keeps = λ v room. (
    Step-IsValid (forget path t) v,
    omega (arith, remove_at-next (lookup path t.path_to_inode) path t),
  );
}

pub renamed : {n : ℕ} (from to : Text) (t : InodeTable) → Within n t (Inodes.rename from to t)
unfolding Inodes.rename
renamed from to t = record {
  keeps = λ v room. (
    Step-IsValid (move from to t) v,
    omega (arith, rename_at-next (lookup from t.path_to_inode) from to t),
  );
}

-- The numbers that two parts take add up.
pub both : (m n : ℕ) {t u v : InodeTable} → Within m t u → Within n u v → Within (m + n) t v
both m n f g = record {
  keeps = λ valid room.
      let (w, b) = f.keeps valid (omega arith) in
      let (x, c) = g.keeps w (omega (arith, b)) in (x, omega (arith, b, c));
}

-- A part that takes none, and the rest.
pub after : {n : ℕ} {t u v : InodeTable} → Within 0 t u → Within n u v → Within n t v
after f g = record {
  keeps = λ valid room.
      let (w, b) = f.keeps valid (omega arith) in
      let (x, c) = g.keeps w (omega (arith, b)) in (x, omega (arith, b, c));
}

-- A part, and a rest that takes none.
pub before : {n : ℕ} {t u v : InodeTable} → Within n t u → Within 0 u v → Within n t v
before f g = record {
  keeps = λ valid room.
      let (w, b) = f.keeps valid room in
      let (x, c) = g.keeps w (omega (arith, b)) in (x, omega (arith, b, c));
}
