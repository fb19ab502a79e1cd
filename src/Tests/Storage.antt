-- ===== src/Tests/Storage.antt =====
-- Runs of the blob store and of the backend on a small file system.
use gitoxide_fs.Base.{
  ◌≡◌, ◌<◌, ◌%◌, ◌↔◌, ◌==◌, ◌||◌, Bool, Bool-cases, inl, inr, ap, ==_iff, ◌^◌, refl, true, false,
  none, some, List, [], ◌∷◌, ◌++◌, arith, length, replicate, list_eq, nat_eq, list_eqb,
}
use gitoxide_fs.Base.Text.{Text, Bytes, codes, trim, strip_prefix}
use gitoxide_fs.Base.Decimal.{show_u64, parse_u64}
use gitoxide_fs.Base.Paths.{is_absolute, path_join, parent, file_name}
use gitoxide_fs.Base.Utf8.{encode, decode}
use gitoxide_fs.Base.Dict.{lookup, insert}
use gitoxide_fs.Error.{IoError, other_kind}
use gitoxide_fs.Error.Monad.{Result, ok, err}
use gitoxide_fs.Config.{Config, new_config}
use gitoxide_fs.Os.{Os, EntryType, dir_type, file_type, DirItem}
use gitoxide_fs.Os.Memory.{memory, memory-IsLawful, Files, file, dir, put-apart}
use gitoxide_fs.BlobStore.Pointer.{PointerFile, parse_pointer, to_bytes}
use gitoxide_fs.BlobStore.RoundTrip.{IsPointer, parse_pointer-to_bytes}
use gitoxide_fs.BlobStore.Store.{
  hash_bytes, store_bytes, read_blob, blob_path, create_parent, write_new,
}
use gitoxide_fs.BlobStore.Addressing.{store_bytes-read_blob}
use gitoxide_fs.Validate.{abs_path, validate_file_path, is_git_internal}
use gitoxide_fs.Backend.Pointers.{
  repo_references_blob, cleanup_blob_if_orphaned, references_in_dir, references_read,
  references_found, visit, path_max, points_to,
}
use gitoxide_fs.Backend.Pointers.Referring.{AreNamed, Refers}
use gitoxide_fs.Backend.Pointers.Referring.Searching.{
  repo_references_blob_iff, cleanup_blob_if_orphaned_kept,
}
use gitoxide_fs.Backend.Pointers.{maybe_pointerize_content, stored_form, pointerize}
use gitoxide_fs.Backend.Files.{read_file, write_content, write_full, store_content, drop_previous}
use gitoxide_fs.Backend.Files.WriteRead.{read_file-write_content}
use gitoxide_fs.Backend.Refs.{git_dir, current_branch, checkout_branch}
use gitoxide_fs.Backend.Refs.Branches.{current_branch-checkout_branch}
use gitoxide_fs.Backend.State.{Backend}
use gitoxide_fs.Backend.AutoCommit.{write_file}
use gitoxide_fs.Backend.AutoCommit.Queue.{IsBelowBatch}
use gitoxide_fs.Backend.AutoCommit.Committing.{write_file-IsBounded}
use gitoxide_fs.Backend.Commits.{commit_incremental}
use gitoxide_fs.Gix.Memory.{memory_gix}

-- A digest of 32 bytes.
abbrev digest : Bytes → Bytes
digest content = replicate 32 (length content % 256)

abbrev hello : Bytes
hello = codes "hello, world"

abbrev hello_pointer : PointerFile
hello_pointer = record {
  sha256 = codes "0c0c0c0c0c0c0c0c0c0c0c0c0c0c0c0c0c0c0c0c0c0c0c0c0c0c0c0c0c0c0c0c";
  size = 12;
  original = codes "hello.txt";
}

hello_pointer-IsPointer : IsPointer hello_pointer
hello_pointer-IsPointer = record {
  hash = record { long = refl; hex = refl };
  small = ground arith;
  characters = ground arith;
  one_line = refl;
  no_return = refl;
}

parse_pointer-to_bytes_example : parse_pointer (to_bytes hello_pointer) ≡ some hello_pointer
parse_pointer-to_bytes_example = parse_pointer-to_bytes hello_pointer hello_pointer-IsPointer

abbrev disk : Files
disk = (codes "/r", dir) ∷ []

store_bytes-read_blob_example :
    (read_blob memory
        (codes "/b")
        hello_pointer.sha256
        (store_bytes memory digest (codes "/b") (codes "hello.txt") hello disk).1
      ≡ ok hello)
    × (hello_pointer.sha256 ≡ hash_bytes digest hello)
    × (hello_pointer.size ≡ length hello % 2 ^ 64)
    × (hello_pointer.original ≡ codes "hello.txt")
unfolding store_bytes hash_bytes blob_path create_parent write_new parent lookup insert list_eqb
store_bytes-read_blob_example =
    store_bytes-read_blob memory memory-IsLawful digest (codes "/b") (codes "hello.txt") hello disk
      hello_pointer (λ h. cc) refl

abbrev config : Config
config = record (new_config (codes "/r") (codes "/m")) {
  performance = record {
    cache_size_bytes = 0;
    worker_threads = 1;
    large_file_threshold = 4;
    blob_store_path = codes "/b";
  };
}

abbrev hello_path : Text
hello_path = codes "hello.txt"

read_file-write_content_example :
    (read_file memory config hello_path
      (write_content memory config digest hello_path hello disk).1).0
    ≡ ok hello
unfolding write_content write_full store_content maybe_pointerize_content stored_form pointerize
    drop_previous store_bytes hash_bytes blob_path create_parent write_new parent lookup insert
    list_eqb abs_path validate_file_path is_git_internal to_bytes parse_pointer file_name decode
read_file-write_content_example =
    read_file-write_content memory memory-IsLawful config digest hello_path hello disk (λ h. cc)
      (λ b t h.
        put-apart (lookup (codes "/r/hello.txt") t) (codes "/r/hello.txt")
          (blob_path (codes "/b") (hash_bytes digest hello)) b hello t refl h)
      hello_pointer-IsPointer refl refl refl

-- A repository with the branch `main` at the commit `abc`.
abbrev repository : Files
repository =
    (codes "/r/.git/HEAD", file (codes "ref: refs/heads/main" ++ 10 ∷ []))
    ∷ (codes "/r/.git/refs/heads/main", file (codes "abc" ++ 10 ∷ []))
    ∷ []

current_branch-checkout_branch_example :
    current_branch memory
      (codes "/r")
      (checkout_branch memory (codes "/r") (codes "main") repository).1
    ≡ ok (codes "main")
unfolding checkout_branch git_dir path_join lookup list_eqb encode trim
current_branch-checkout_branch_example =
    current_branch-checkout_branch memory memory-IsLawful (codes "/r") (codes "main") repository
      (ground arith) refl refl

abbrev backend : Backend memory memory_gix
backend = record {
  os = disk;
  objects = [];
  xattrs = [];
  dirty_files = [];
  commit_in_progress = false;
}

-- Every write is committed at once.
abbrev eager : Config
eager = record config { commit = record config.commit { auto_commit = true; debounce_ms = 0 } }

write_file-IsBounded_example :
    let commit = commit_incremental memory memory_gix digest eager in
    IsBelowBatch memory memory_gix eager digest commit
      (write_file memory memory_gix eager digest commit hello_path hello backend).1
write_file-IsBounded_example =
    write_file-IsBounded memory memory_gix digest eager hello_path hello backend
      ((λ z. refl), (λ z. omega arith))

-- A working tree with the file `d/p`, which is a pointer.
abbrev item : Text → EntryType → Result IoError DirItem
item name t = ok (record {
  file_name = name;
  entry_type = ok t;
  metadata = err (record { kind = other_kind; raw_os_error = none });
})

abbrev tree_items : Bool → Bool → List (Result IoError DirItem)
tree_items true deep = item (codes ".git") dir_type ∷ item (codes "d") dir_type ∷ []
tree_items false true = item (codes "p") file_type ∷ []
tree_items false false = []

abbrev tree_os : Os
tree_os = record memory {
  exists = λ p s. p == codes "/r" || p == codes "/r/d";
  read_dir = λ p s. ok (tree_items (p == codes "/r") (p == codes "/r/d"));
}

abbrev tree : Files
tree = (codes "/r/d/p", file (to_bytes hello_pointer)) ∷ []

tree_os-short : (p : Text) → path_max < length p → tree_os.exists p tree ≡ false
tree_os-short p h = elim (Bool-cases (p == codes "/r")) [
  | inl e ↦ absurd (omega (arith, ap length ((==_iff p (codes "/r")).0 e), h))
  | inr n ↦ elim (Bool-cases (p == codes "/r/d")) [
    | inl e ↦ absurd (omega (arith, ap length ((==_iff p (codes "/r/d")).0 e), h))
    | inr m ↦ rw (n, m) refl
  ]
]

tree_items-AreNamed : (a b : Bool) → AreNamed (ok (tree_items a b))
unfolding is_absolute
tree_items-AreNamed true b = ((refl, refl), ((refl, refl), tt))
tree_items-AreNamed false true = ((refl, refl), tt)
tree_items-AreNamed false false = tt

tree_os-AreNamed : (p : Text) → AreNamed (tree_os.read_dir p tree)
tree_os-AreNamed p = tree_items-AreNamed (p == codes "/r") (p == codes "/r/d")

tree_answer : repo_references_blob tree_os digest config hello_pointer.sha256 none tree ≡ ok true
unfolding repo_references_blob references_in_dir references_read references_found visit list_eqb
    path_join lookup points_to parse_pointer decode to_bytes encode show_u64 strip_prefix parse_u64
tree_answer = refl

repo_references_blob_iff_example :
    (true ≡ true) ↔ Refers tree_os hello_pointer.sha256 none tree (codes "/r")
repo_references_blob_iff_example =
    repo_references_blob_iff tree_os hello_pointer.sha256 none tree tree_os-short tree_os-AreNamed
      digest config refl true tree_answer

tree-Refers : Refers tree_os hello_pointer.sha256 none tree (codes "/r")
tree-Refers =
    (repo_references_blob_iff tree_os hello_pointer.sha256 none tree tree_os-short tree_os-AreNamed
        digest config refl true tree_answer).0
      refl

cleanup_blob_if_orphaned_kept_example :
    (cleanup_blob_if_orphaned tree_os digest config hello_pointer.sha256 none tree).1 ≡ tree
cleanup_blob_if_orphaned_kept_example =
    cleanup_blob_if_orphaned_kept tree_os hello_pointer.sha256 none tree tree_os-short
      tree_os-AreNamed digest config refl tree-Refers
