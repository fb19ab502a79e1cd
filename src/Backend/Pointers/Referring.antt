-- ===== src/Backend/Pointers/Referring.antt =====
-- What it means in src/git.rs that a file of the working tree refers to a blob.
pub mod Searching
use mathlib.Core.Path.{subst}
use gitoxide_fs.Base.{
  ℕ, zero, suc, ◌+◌, ◌<◌, ◌≡◌, ◌≢◌, ◌↔◌, ◌⊎◌, refl, sym, ap, ◌∙◌, Bool, true, false, Bool-cases,
  Option, none, some, List, [], ◌∷◌, arith, All, length, length-append, is_empty, inl, inr,
  if◌then◌else◌, ◌==◌, ◌||◌, ==_iff, nat_eq, list_eq,
}
use gitoxide_fs.Config.{Config}
use gitoxide_fs.Base.Text.{Text, Bytes, codes, slash, ends_with}
use gitoxide_fs.Base.Paths.{path_join, is_absolute}
use gitoxide_fs.BlobStore.Pointer.{PointerFile, parse_pointer}
use gitoxide_fs.BlobStore.Store.{delete_blob}
use gitoxide_fs.Error.{Error, io, IoError}
use gitoxide_fs.Error.Monad.{Result, ok, err, map_err}
use gitoxide_fs.Error.Runs.{map_err_ok}
use gitoxide_fs.Os.{Os, DirItem, EntryType, dir_type, file_type, symlink_type}
use gitoxide_fs.Backend.Pointers.{
  points_to, visit, references_found, references_read, references_in_dir, skips, content_points_to,
  path_max, repo_references_blob, cleanup_blob_if_orphaned,
}

-- An entry of a directory has a name, which is no path from the root.
abbrev pub IsNamed : Result IoError DirItem → Type 0
IsNamed (err e) = Unit
IsNamed (ok entry) = (is_empty entry.file_name ≡ false) × (is_absolute entry.file_name ≡ false)

abbrev pub AreNamed : Result IoError (List (Result IoError DirItem)) → Type 0
AreNamed (err e) = Unit
AreNamed (ok items) = All IsNamed items

path_join-length :
    (dir name : Text)
    → is_empty name ≡ false
    → is_absolute name ≡ false
    → length dir < length (path_join dir name)
unfolding path_join
path_join-length dir [] e a = cc
path_join-length dir (c ∷ name) e a =
    elim (Bool-cases (is_empty dir || ends_with dir (codes "/"))) [
      | inl f ↦ rw (a, f) (omega (arith, length-append dir (c ∷ name)))
      | inr f ↦ rw (a, f) (omega (arith, length-append dir (slash ∷ c ∷ name)))
    ]

is_empty-length : (s : Text) → is_empty s ≡ false → 0 < length s
is_empty-length [] h = cc
is_empty-length (c ∷ s) h = omega arith

-- The entry stands in the listing.
pub data Lists (entry : DirItem) : List (Result IoError DirItem) → Type 0 where
  first : (rest : List (Result IoError DirItem)) → Lists entry (ok entry ∷ rest)
  later :
      (r : Result IoError DirItem) (rest : List (Result IoError DirItem))
      → Lists entry rest
      → Lists entry (r ∷ rest)

Lists-IsNamed :
    {entry : DirItem} {items : List (Result IoError DirItem)}
    → Lists entry items
    → All IsNamed items
    → IsNamed (ok entry)
Lists-IsNamed (first rest) a = a.0
Lists-IsNamed (later r rest l) a = Lists-IsNamed l a.1

-- What was read is a pointer to the blob.
pub record IsPointerTo (sha256 : Text) (r : Result IoError Bytes) : Type 0 where
  pub content : Bytes
  pub pointer : PointerFile
  pub reads : r ≡ ok content
  pub parses : parse_pointer content ≡ some pointer
  pub names : pointer.sha256 ≡ sha256

module _ (O : Os) (sha256 : Text) (skip : Option Text) (s : O.State) where
  -- The entry of a directory that is neither called `.git` nor the file to skip.
  pub record IsSearched (dir : Text) (entry : DirItem) : Type 0 where
    pub items : List (Result IoError DirItem)
    pub there : O.exists dir s ≡ true
    pub listing : O.read_dir dir s ≡ ok items
    pub lists : Lists entry items
    pub outside_git : (entry.file_name == codes ".git") ≡ false
    pub kept : skips skip (path_join dir entry.file_name) ≡ false

  -- A file below the directory is a pointer to the blob: one of its own, or one further down.
  pub data Refers : Text → Type 0 where
    file :
        (dir : Text) (entry : DirItem)
        → IsSearched dir entry
        → entry.entry_type ≡ ok file_type
        → IsPointerTo sha256 (O.read (path_join dir entry.file_name) s)
        → Refers dir
    below :
        (dir : Text) (entry : DirItem)
        → IsSearched dir entry
        → entry.entry_type ≡ ok dir_type
        → Refers (path_join dir entry.file_name)
        → Refers dir

  points_to-IsPointerTo :
      (r : Result IoError Bytes) → content_points_to O sha256 r ≡ true → IsPointerTo sha256 r
  unfolding points_to
  points_to-IsPointerTo (err e) h = cc
  points_to-IsPointerTo (ok content) h = split (parse_pointer content) refl h
    where
      split :
          (o : Option PointerFile)
          → parse_pointer content ≡ o
          → points_to sha256 o ≡ true
          → IsPointerTo sha256 (ok content)
      split none e p = cc
      split (some pointer) e p = record {
        content = content;
        pointer = pointer;
        reads = refl;
        parses = e;
        names = ground (arith, ==_iff pointer.sha256 sha256);
      }

  IsPointerTo-points_to :
      (r : Result IoError Bytes) → IsPointerTo sha256 r → content_points_to O sha256 r ≡ true
  unfolding points_to
  IsPointerTo-points_to r p =
      rw (p.reads, p.parses) (ground (arith, ==_iff p.pointer.sha256 sha256, p.names))
