-- ===== src/Os/Memory.antt =====
-- A small file system without links, by path: a file, or a directory.
use gitoxide_fs.Base.{
  ℕ, ◌≡◌, ◌==◌, refl, ap, Bool, true, false, Option, none, some, [], arith, length, nat_eq, list_eq,
  ==_iff, replicate, take, ◌++◌, ◌-◌,
}
use gitoxide_fs.Base.Text.{Text, Bytes}
use gitoxide_fs.Base.Dict.{Dict, lookup, insert, remove, lookup-insert, lookup-remove}
use gitoxide_fs.Error.{IoError, IoErrorKind, not_found_kind, other_kind}
use gitoxide_fs.Error.Monad.{Result, ok, err}
use gitoxide_fs.Os.{Os, EntryType, dir_type, file_type, Metadata}
use gitoxide_fs.Os.Laws.{IsLawful}

pub data Node : Type 0 where
  file : Bytes → Node
  dir : Node

abbrev pub Files : Type 0
Files = Dict Text Node

abbrev failure : IoErrorKind → IoError
failure k = record { kind = k; raw_os_error = none }

abbrev holds : Option Node → Bool
holds none = false
holds (some n) = true

abbrev holds_dir : Option Node → Bool
holds_dir (some dir) = true
holds_dir (some (file b)) = false
holds_dir none = false

abbrev holds_file : Option Node → Bool
holds_file (some (file b)) = true
holds_file (some dir) = false
holds_file none = false

abbrev content : Option Node → Result IoError Bytes
content none = err (failure not_found_kind)
content (some dir) = err (failure other_kind)
content (some (file b)) = ok b

abbrev put : Option Node → Text → Bytes → Files → Result IoError Unit × Files
put (some dir) p b s = (err (failure other_kind), s)
put (some (file a)) p b s = (ok tt, insert p (file b) s)
put none p b s = (ok tt, insert p (file b) s)

abbrev make : Option Node → Text → Files → Result IoError Unit × Files
make (some (file b)) p s = (err (failure other_kind), s)
make (some dir) p s = (ok tt, s)
make none p s = (ok tt, insert p dir s)

abbrev drop_file : Option Node → Text → Files → Result IoError Unit × Files
drop_file (some (file b)) p s = (ok tt, remove p s)
drop_file (some dir) p s = (err (failure other_kind), s)
drop_file none p s = (err (failure not_found_kind), s)

abbrev node_type : Node → EntryType
node_type dir = dir_type
node_type (file b) = file_type

abbrev node_len : Node → ℕ
node_len dir = 0
node_len (file b) = length b

abbrev node_metadata : Option Node → Result IoError Metadata
node_metadata none = err (failure not_found_kind)
node_metadata (some n) = ok (record {
  entry_type = node_type n;
  len = node_len n;
  mode = 0o644;
  ino = 1;
  nlink = 1;
  uid = 0;
  gid = 0;
  modified = none;
  accessed = none;
  ctime = none;
})

abbrev unsupported : Files → Result IoError Unit × Files
unsupported s = (err (failure other_kind), s)

abbrev move : Option Node → Text → Text → Files → Result IoError Unit × Files
move none from to s = (err (failure not_found_kind), s)
move (some n) from to s = (ok tt, insert to n (remove from s))

abbrev resize : Option Node → Text → ℕ → Files → Result IoError Unit × Files
resize (some (file b)) p n s = (ok tt, insert p (file (take n (b ++ replicate (n - length b) 0))) s)
resize (some dir) p n s = (err (failure other_kind), s)
resize none p n s = (err (failure not_found_kind), s)

abbrev pub memory : Os
memory = record {
  State = Files;
  now = λ s. 0;
  exists = λ p s. holds (lookup p s);
  is_dir = λ p s. holds_dir (lookup p s);
  is_file = λ p s. holds_file (lookup p s);
  read = λ p s. content (lookup p s);
  read_dir = λ p s. ok [];
  read_link = λ p s. err (failure other_kind);
  metadata = λ p s. node_metadata (lookup p s);
  symlink_metadata = λ p s. node_metadata (lookup p s);
  write = λ p b s. put (lookup p s) p b s;
  create_dir_all = λ p s. make (lookup p s) p s;
  remove_file = λ p s. drop_file (lookup p s) p s;
  remove_dir = λ p s. unsupported s;
  remove_dir_all = λ p s. (ok tt, remove p s);
  rename = λ from to s. move (lookup from s) from to s;
  symlink = λ target link s. unsupported s;
  hard_link = λ target link s. unsupported s;
  set_permissions = λ p m s. (ok tt, s);
  set_len = λ p n s. resize (lookup p s) p n s;
}

module _ (p : Text) (b : Bytes) (s : Files) where
  put-content :
      (o : Option Node) → (put o p b s).0 ≡ ok tt → lookup p (put o p b s).1 ≡ some (file b)
  put-content none h = ground (arith, lookup-insert p p (file b) s, ==_iff p p)
  put-content (some dir) h = cc
  put-content (some (file a)) h = ground (arith, lookup-insert p p (file b) s, ==_iff p p)

-- Writing a file leaves the content of another one alone.
pub put-apart :
    (o : Option Node) (p q : Text) (b c : Bytes) (s : Files)
    → (p == q) ≡ false
    → content (lookup q s) ≡ ok c
    → content (lookup q (put o p b s).1) ≡ ok c
put-apart none p q b c s n h = rw (lookup-insert p q (file b) s, n) h
put-apart (some dir) p q b c s n h = h
put-apart (some (file a)) p q b c s n h = rw (lookup-insert p q (file b) s, n) h

drop_file-gone :
    (o : Option Node) (p : Text) (s : Files)
    → (drop_file o p s).0 ≡ ok tt
    → lookup p (drop_file o p s).1 ≡ none
drop_file-gone none p s h = cc
drop_file-gone (some dir) p s h = cc
drop_file-gone (some (file a)) p s h = ground (arith, lookup-remove p p s, ==_iff p p)

content-file : (o : Option Node) (b : Bytes) → content o ≡ ok b → o ≡ some (file b)
content-file none b h = cc
content-file (some dir) b h = cc
content-file (some (file a)) b h = ground arith

make-keeps :
    (o : Option Node) (d p : Text) (b : Bytes) (s : Files)
    → lookup d s ≡ o
    → lookup p s ≡ some (file b)
    → lookup p (make o d s).1 ≡ some (file b)
make-keeps none d p b s e h = ground (arith, lookup-insert d p dir s, ==_iff d p)
make-keeps (some dir) d p b s e h = h
make-keeps (some (file a)) d p b s e h = h

pub memory-IsLawful : IsLawful memory
memory-IsLawful = record {
  read-write = λ p b s h. ap content (put-content p b s (lookup p s) h);
  exists-write = λ p b s h. ap holds (put-content p b s (lookup p s) h);
  is_dir-write = λ p b s h. ap holds_dir (put-content p b s (lookup p s) h);
  exists-remove_file = λ p s h. ap holds (drop_file-gone (lookup p s) p s h);
  read-create_dir_all = λ d p b s h.
      ap content (make-keeps (lookup d s) d p b s refl (content-file (lookup p s) b h));
  exists-read = λ p b s h. ap holds (content-file (lookup p s) b h);
}
