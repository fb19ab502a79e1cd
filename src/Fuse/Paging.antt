-- ===== src/Fuse/Paging.antt =====
-- How `readdir` of src/fs.rs continues where an earlier call stopped.
pub mod Lines
use gitoxide_fs.Base.{
  ℕ, zero, suc, ◌+◌, ◌≡◌, refl, ap, sym, ◌∙◌, Bool, false, Bool-cases, inl, inr, some, List, [],
  ◌∷◌, ◌++◌, arith, length, drop, get_elem?, Option, none, ==_iff, ◌==◌, nat_eq, list_eq,
}
use gitoxide_fs.Base.Text.{Text, Bytes, codes}
use gitoxide_fs.Base.Paths.{parent}
use gitoxide_fs.Base.Dict.{lookup, lookup-insert}
use gitoxide_fs.Error.Monad.{ok, map_err}
use gitoxide_fs.Error.{enoent, to_errno}
use gitoxide_fs.Error.Runs.{outcomes, map_err_ok}
use gitoxide_fs.Backend.Reading.{list_dir_unchanged}
use gitoxide_fs.Config.{Config}
use gitoxide_fs.Os.{Os}
use gitoxide_fs.Gix.{Gix}
use gitoxide_fs.Inodes
use gitoxide_fs.Inodes.{InodeTable, fuse_root_id}
use gitoxide_fs.Backend.Directories.{DirEntry, list_dir}
use gitoxide_fs.Fuse.{on_files, or_errno, FuseFileType, fuse_directory, FuseHandler, join_child}
use gitoxide_fs.Fuse.Looking.{
  Listed, add_lines, numbered, directory_lines, dotdot, child_lines, parent_inode, readdir,
}
use gitoxide_fs.Fuse.Paging.Lines.{
  never_full, add_lines-never_full, numbered-offset, page_rest, page-get_elem?,
}

-- The paths of the first table keep their numbers in the second.
abbrev Keeps : InodeTable → InodeTable → Type 0
Keeps t u =
    (q : Text) (i : ℕ) → lookup q t.path_to_inode ≡ some i → lookup q u.path_to_inode ≡ some i

get_or_create-Keeps : (path : Text) (t : InodeTable) → Keeps t (Inodes.get_or_create path t).1
unfolding Inodes.get_or_create
get_or_create-Keeps path t q i h =
    ground (arith, lookup-insert path q t.next_inode t.path_to_inode, ==_iff path q)

get_or_create-lookup :
    (path : Text) (t : InodeTable)
    → let r = Inodes.get_or_create path t in lookup path r.1.path_to_inode ≡ some r.0
unfolding Inodes.get_or_create
get_or_create-lookup path t =
    ground (arith, lookup-insert path path t.next_inode t.path_to_inode, ==_iff path path)

get_or_create_known :
    (path : Text) (t : InodeTable) (i : ℕ)
    → lookup path t.path_to_inode ≡ some i
    → Inodes.get_or_create path t ≡ (i, t)
unfolding Inodes.get_or_create
get_or_create_known path t i h = rw h refl

child_lines-Keeps :
    (path : Text) (entries : List DirEntry) (t : InodeTable)
    → Keeps t (child_lines path entries t).1
unfolding child_lines
child_lines-Keeps path [] t q i h = h
child_lines-Keeps path (entry ∷ rest) t q i h =
    let name = join_child path entry.name in
    child_lines-Keeps path rest (Inodes.get_or_create name t).1 q i
      (get_or_create-Keeps name t q i h)

-- In a table that has the numbers of a listing, the listing is the same, and so is the table.
child_lines_again :
    (path : Text) (entries : List DirEntry) (t u : InodeTable)
    → Keeps (child_lines path entries t).1 u
    → child_lines path entries u ≡ ((child_lines path entries t).0, u)
unfolding child_lines
child_lines_again path [] t u k = refl
child_lines_again path (entry ∷ rest) t u k =
    let name = join_child path entry.name in
    let first = Inodes.get_or_create name t in
    let known =
      k name first.0
        (child_lines-Keeps path rest first.1 name first.0 (get_or_create-lookup name t)) in
    rw (get_or_create_known name u first.0 known, child_lines_again path rest first.1 u k) refl

parent_inode_again :
    (p : Option Text) (t u : InodeTable)
    → Keeps (parent_inode p t).1 u
    → parent_inode p u ≡ ((parent_inode p t).0, u)
parent_inode_again none t u k = refl
parent_inode_again (some path) t u k =
    get_or_create_known path u (Inodes.get_or_create path t).0
      (k path (Inodes.get_or_create path t).0 (get_or_create-lookup path t))

dotdot_again :
    (ino : ℕ) (path : Text) (t u : InodeTable)
    → Keeps (dotdot ino path t).1 u
    → dotdot ino path u ≡ ((dotdot ino path t).0, u)
unfolding dotdot
dotdot_again ino path t u = elim (Bool-cases (ino == fuse_root_id)) [
  | inl root ↦ rw root (λ k. refl)
  | inr below ↦ rw below (parent_inode_again (parent path) t u)
]

directory_lines_again :
    (ino : ℕ) (path : Text) (entries : List DirEntry) (t : InodeTable)
    → let r = directory_lines ino path entries t in (directory_lines ino path entries r.1).0 ≡ r.0
unfolding directory_lines
directory_lines_again ino path entries t =
    let up = dotdot ino path t in
    let below = child_lines path entries up.1 in
    rw
      (
        dotdot_again ino path t below.1 (child_lines-Keeps path entries up.1),
        child_lines_again path entries up.1 below.1 (λ q i h. h),
      )
      refl

directory_lines-offset :
    (ino : ℕ) (path : Text) (entries : List DirEntry) (t : InodeTable) (i : ℕ) (l : Listed)
    → get_elem? (directory_lines ino path entries t).0 i ≡ some l
    → l.offset ≡ i + 1
unfolding directory_lines
directory_lines-offset ino path entries t i l h =
    let up = dotdot ino path t in
    let all : List (ℕ × FuseFileType × Text) =
      (ino, fuse_directory, codes ".")
      ∷ (up.0, fuse_directory, codes "..")
      ∷ (child_lines path entries up.1).0 in
    omega (arith, numbered-offset 0 all i l h)

or_errno_ok : (o : Option Text) (path : Text) → or_errno enoent o ≡ ok path → o ≡ some path
or_errno_ok none path h = cc
or_errno_ok (some q) path h = cc

module _ (O : Os) (G : Gix) (digest : Bytes → Bytes) (config : Config) where
  -- What a listing that succeeds lists
  record IsListing (ino : ℕ) (h : FuseHandler O G) : Type 0 where
    path : Text
    entries : List DirEntry
    leads : Inodes.get_path ino h.inodes ≡ some path
    lists : (list_dir O config path h.backend.os).0 ≡ ok entries

  readdir-IsListing :
      (is_full : List Listed → Listed → Bool) (ino offset : ℕ) (h : FuseHandler O G)
      (p : List Listed)
      → (readdir O G digest config is_full ino offset h).0 ≡ ok p
      → IsListing ino h
  unfolding readdir
  readdir-IsListing is_full ino offset h p =
      outcomes (or_errno enoent (Inodes.get_path ino h.inodes)) _ h
        (λ r. r.0 ≡ ok p → IsListing ino h)
        (λ path leads.
          outcomes (map_err to_errno (list_dir O config path h.backend.os).0) _
            (on_files O G (list_dir O config path) h).1 (λ r. r.0 ≡ ok p → IsListing ino h)
            (λ entries lists _. record {
              path = path;
              entries = entries;
              leads = or_errno_ok (Inodes.get_path ino h.inodes) path leads;
              lists = map_err_ok to_errno (list_dir O config path h.backend.os).0 entries lists;
            })
            (λ _ _ failed. cc))
        (λ _ _ failed. cc)

  readdir_from :
      (is_full : List Listed → Listed → Bool) (ino offset : ℕ) (h : FuseHandler O G)
      (d : IsListing ino h)
      → let all = directory_lines ino d.path d.entries h.inodes in
        let r = readdir O G digest config is_full ino offset h in
        (r.0 ≡ ok (add_lines is_full [] (drop offset all.0)))
        × (r.1.inodes ≡ all.1)
        × (r.1.backend.os ≡ h.backend.os)
  unfolding readdir
  readdir_from is_full ino offset h d =
      rw (d.leads, d.lists) (refl, refl, list_dir_unchanged O config d.path h.backend.os)

  -- After a `readdir` that succeeded, from any offset and with any buffer: a further call from the
  -- offset behind its last line, with room for all, succeeds too, and gives the lines that a call
  -- from the first offset would have given behind those of the first reply, so that no line is
  -- repeated or left out; and each line of the first reply carries the offset at which a call goes
  -- on behind it. The inode of the directory has to lead to its path still.
  pub readdir_continues :
      (is_full : List Listed → Listed → Bool) (ino offset : ℕ) (h : FuseHandler O G)
      (p : List Listed)
      → let r = readdir O G digest config is_full ino offset h in
        r.0 ≡ ok p
        → Inodes.get_path ino r.1.inodes ≡ Inodes.get_path ino h.inodes
        → (rest : List Listed) × ((readdir O G digest config never_full ino
              (offset + length p)
              r.1).0
            ≡ ok rest)
          × ((readdir O G digest config never_full ino offset h).0 ≡ ok (p ++ rest))
          × ((i : ℕ) (l : Listed) → get_elem? p i ≡ some l → l.offset ≡ offset + i + 1)
  readdir_continues is_full ino offset h p replied still =
      let d = readdir-IsListing is_full ino offset h p replied in
      let r = readdir O G digest config is_full ino offset h in
      let (page, table, files) = readdir_from is_full ino offset h d in
      let all = (directory_lines ino d.path d.entries h.inodes).0 in
      let same : p ≡ add_lines is_full [] (drop offset all) = cc in
      let e : IsListing ino r.1 = record {
        path = d.path;
        entries = d.entries;
        leads = still ∙ d.leads;
        lists = ap (λ s. (list_dir O config d.path s).0) files ∙ d.lists;
      } in
      let again : (directory_lines ino d.path d.entries r.1.inodes).0 ≡ all =
        ap (λ t. (directory_lines ino d.path d.entries t).0) table
        ∙ directory_lines_again ino d.path d.entries h.inodes in
      let rest = drop (offset + length p) all in
      (
        rest,
        (readdir_from never_full ino (offset + length p) r.1 e).0
            ∙ ap (λ ls. ok (add_lines never_full [] (drop (offset + length p) ls))) again
            ∙ ap ok (add_lines-never_full [] rest),
        (readdir_from never_full ino offset h d).0
            ∙ ap ok (
                add_lines-never_full [] (drop offset all)
                ∙ sym (page_rest is_full offset all)
                ∙ ap (λ q. q ++ drop (offset + length q) all) (sym same)),
        λ i l found.
            let there =
              page-get_elem? is_full offset all i l (ap (λ q. get_elem? q i) (sym same) ∙ found) in
            directory_lines-offset ino d.path d.entries h.inodes (offset + i) l there,
      )
