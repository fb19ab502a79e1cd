-- ===== src/Inodes/Renames.antt =====
-- What a rename does to the inodes: the moved one follows, and some others go stale.
use gitoxide_fs.Base.{
  ℕ, ◌≡◌, ◌≢◌, ◌∙◌, false, none, some, arith, ◌==◌, ==_iff, list_eqb_iff, nat_eq, list_eq,
}
use gitoxide_fs.Base.Text.{Text}
use gitoxide_fs.Base.Dict
use gitoxide_fs.Base.Dict.{lookup, lookup-insert, lookup-remove}
use gitoxide_fs.Inodes
use gitoxide_fs.Inodes.{InodeTable, rename_at}
use gitoxide_fs.Inodes.Invariant.{IsValid}

module _ (from to : Text) (t : InodeTable) (ino : ℕ)
    (listed : lookup from t.path_to_inode ≡ some ino) where
  -- A rename of a listed path to another one carries its inode along: the inode leads to the new
  -- path, the new path has the inode, and the old path has none.
  pub rename_lem :
      (from == to) ≡ false
      → (Inodes.get_path ino (Inodes.rename from to t) ≡ some to)
        × (lookup to (Inodes.rename from to t).path_to_inode ≡ some ino)
        × (lookup from (Inodes.rename from to t).path_to_inode ≡ none)
  unfolding Inodes.rename Inodes.get_path
  rename_lem differ = rw listed (
    ground (arith, lookup-insert ino ino to t.inode_to_path),
    ground (arith, lookup-insert to to ino (Dict.remove from t.path_to_inode), ==_iff to to),
    ground (
      arith,
      lookup-insert to from ino (Dict.remove from t.path_to_inode),
      lookup-remove from from t.path_to_inode,
      list_eqb_iff from from,
      list_eqb_iff to from,
      list_eqb_iff from to,
    ),
  )

  -- Any other inode still leads where it led before the rename.
  rename_others :
      (other : ℕ)
      → other ≢ ino
      → Inodes.get_path other (Inodes.rename from to t) ≡ Inodes.get_path other t
  unfolding Inodes.rename Inodes.get_path
  rename_others other differ =
      rw listed (ground (arith, lookup-insert ino other to t.inode_to_path))

  -- In a valid table, after a rename of one listed path over another: the path that was replaced has
  -- the inode of the one that moved, which has none; this inode leads to the new path, but so does
  -- the inode of the file that was replaced, another one; and every other inode leads where it led
  -- before, those of the paths below a directory that moved included.
  pub rename_over :
      (replaced : ℕ)
      → IsValid t
      → (from == to) ≡ false
      → lookup to t.path_to_inode ≡ some replaced
      → let t' = Inodes.rename from to t in
        (lookup to t'.path_to_inode ≡ some ino)
        × (lookup from t'.path_to_inode ≡ none)
        × (Inodes.get_path ino t' ≡ some to)
        × (Inodes.get_path replaced t' ≡ some to)
        × (replaced ≢ ino)
        × ((other : ℕ) → other ≢ ino → Inodes.get_path other t' ≡ Inodes.get_path other t)
  unfolding Inodes.get_path
  rename_over replaced v differ there =
      let (leads, has, gone) = rename_lem differ in
      let apart : replaced ≢ ino = λ e.
        ground (arith, v.back from ino listed, v.back to replaced there, list_eqb_iff from to) in
      (
        has,
        gone,
        leads,
        rename_others replaced apart ∙ v.back to replaced there,
        apart,
        rename_others,
      )
