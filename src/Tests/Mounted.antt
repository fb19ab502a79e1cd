-- ===== src/Tests/Mounted.antt =====
-- Runs of the FUSE handler and of commits on a small file system.
use gitoxide_fs.Fuse.Looking.{dotdot}
use gitoxide_fs.Base.Sort.{sort_by}
use gitoxide_fs.Fuse.Looking.{child_lines}
use gitoxide_fs.Fuse.Looking.{directory_lines}
use gitoxide_fs.Fuse.Looking.{add_lines}
use gitoxide_fs.Validate.{validate_path}
use gitoxide_fs.Backend.Directories.{list_dir}
use gitoxide_fs.Inodes.Invariant.{IsValid, new-IsValid}
use gitoxide_fs.Fuse.Numbering.Serving.{all_numbers, serve_all-IsValid}
use gitoxide_fs.Backend.Trees.{write_entry}
use gitoxide_fs.Backend.Trees.{stored_entry}
use gitoxide_fs.Backend.Trees.{file_entry}
use gitoxide_fs.Backend.Trees.{leaf_entry}
use gitoxide_fs.Ignore.Rules.{is_ignored_by_config}
use gitoxide_fs.Backend.State.{is_ignored}
use gitoxide_fs.Backend.Trees.{unignored_entry}
use gitoxide_fs.Backend.Trees.{typed_entry}
use gitoxide_fs.Ignore.Rules.{run_rules}
use gitoxide_fs.Backend.Refs.{create_parent_dirs}
use gitoxide_fs.Backend.Refs.{update_head_to}
use gitoxide_fs.Backend.Commits.{advance}
use gitoxide_fs.Backend.Commits.{write_commit_inner}
use gitoxide_fs.Backend.Commits.{commit_tree}
use gitoxide_fs.Backend.Trees.Clean.{IsCleanTree, build_tree_levels-IsCleanTree}
use gitoxide_fs.Os.{Os, DirItem, EntryType, dir_type, file_type}
use gitoxide_fs.Error.{IoError}
use gitoxide_fs.Error.Monad.{Result}
use gitoxide_fs.Backend.Trees.{build_tree_levels, build_items}
use gitoxide_fs.Validate.{abs_path}
use gitoxide_fs.Backend.Trees.{scan_dir}
use gitoxide_fs.Backend.Trees.{build_tree_levels}
use gitoxide_fs.Backend.AutoCommit.{is_tracked}
use gitoxide_fs.Backend.AutoCommit.{auto_commit}
use gitoxide_fs.Backend.AutoCommit.{write_file}
use gitoxide_fs.Backend.Files.{drop_previous}
use gitoxide_fs.Backend.Files.{resolve}
use gitoxide_fs.BlobStore.Pointer.{parse_pointer}
use gitoxide_fs.Backend.Pointers.{stored_form}
use gitoxide_fs.Backend.Pointers.{maybe_pointerize_content}
use gitoxide_fs.Backend.Files.{store_content}
use gitoxide_fs.Base.Paths.{parent}
use gitoxide_fs.Backend.Files.{write_full}
use gitoxide_fs.Backend.Files.{write_content}
use gitoxide_fs.Validate.{is_git_internal}
use gitoxide_fs.Validate.{validate_file_path}
use gitoxide_fs.Backend.Files.{read_file}
use gitoxide_fs.Backend.Commits.{info_of}
use gitoxide_fs.Backend.Commits.{commit_of}
use gitoxide_fs.Backend.Commits.{parse_commit_inner}
use gitoxide_fs.Base.Text.{trim}
use gitoxide_fs.Base.Text.{strip_prefix}
use gitoxide_fs.Backend.Refs.{head_target}
use gitoxide_fs.Backend.Refs.{git_dir}
use gitoxide_fs.Backend.Refs.{text_of}
use gitoxide_fs.Backend.Refs.{read_to_string}
use gitoxide_fs.Backend.Refs.{head_commit_oid}
use gitoxide_fs.Backend.Commits.{log_loop}
use gitoxide_fs.Base.{
  ◌+◌, ltb, ◌++◌, ◌≡◌, ◌≤◌, refl, true, false, some, List, [], ◌∷◌, arith, length, replicate, take,
  get_elem?, list_eq, nat_eq, ℕ,
}
use gitoxide_fs.Base.Text.{Text, Bytes, codes}
use gitoxide_fs.Base.Dict.{lookup, insert}
use gitoxide_fs.Base.Utf8.{encode, decode}
use gitoxide_fs.Error.Monad.{ok}
use gitoxide_fs.Config.{Config, new_config}
use gitoxide_fs.Os.Memory.{memory, Files, file, dir}
use gitoxide_fs.Gix.{since, commit_object, tree_object, Signature}
use gitoxide_fs.Gix.Memory.{memory_gix, memory_gix-IsLawful}
use gitoxide_fs.Handles
use gitoxide_fs.Backend.State.{Backend}
use gitoxide_fs.Backend.Commits.{commit, log, CommitInfo, guarded_build, parents_of}
use gitoxide_fs.Backend.Trees.{build_tree_from_workdir}
use gitoxide_fs.Backend.Commits.Heads.{IsRecorded, commit-IsRecorded}
use gitoxide_fs.Backend.Commits.Logs.{log-take}
use gitoxide_fs.Fuse
use gitoxide_fs.Fuse.{FuseHandler}
use gitoxide_fs.Fuse.Contents.{splice, read, write}
use gitoxide_fs.Fuse.Splice.{get_elem?-splice}
use gitoxide_fs.Base.{Bool}
use gitoxide_fs.Inodes
use gitoxide_fs.Fuse.Looking.{Listed}
use gitoxide_fs.Fuse.{fuse_directory}
use gitoxide_fs.Fuse.Looking.{readdir}
use gitoxide_fs.Fuse.Paging.Lines.{never_full}
use gitoxide_fs.Fuse.Paging.{readdir_continues}
use gitoxide_fs.Fuse.WriteRead.{read-write}
use gitoxide_fs.Fuse.Requests.{
  Request, serve_all, lookup_request, write_request, setattr_request, flush_request,
  destroy_request,
}
use gitoxide_fs.Fuse.Keeping.{lasting}
use gitoxide_fs.Fuse.ReadOnly.{serve_all_kept}

abbrev digest : Bytes → Bytes
digest content = replicate 32 0

abbrev disk : Files
disk =
    (codes "/r", dir)
    ∷ (codes "/r/a", file (1 ∷ 2 ∷ 3 ∷ []))
    ∷ (codes "/r/.git/HEAD", file (codes "ref: refs/heads/main"))
    ∷ []

abbrev backend : Backend memory memory_gix
backend = record {
  os = disk;
  objects = [];
  xattrs = [];
  dirty_files = [];
  commit_in_progress = false;
}

abbrev config : Config
config = new_config (codes "/r") (codes "/m")

abbrev read_only : Config
read_only = record config { read_only = true }

abbrev mounted : FuseHandler memory memory_gix
mounted = Fuse.new memory memory_gix backend

abbrev requests : List Request
requests =
    lookup_request 1 (some (codes "a"))
    ∷ setattr_request 2 (some 0o600) (some 0)
    ∷ write_request 1 0 (7 ∷ [])
    ∷ flush_request
    ∷ destroy_request
    ∷ []

serve_all_kept_example :
    lasting memory memory_gix digest read_only
      (serve_all memory memory_gix digest read_only requests mounted)
    ≡ lasting memory memory_gix digest read_only mounted
unfolding Fuse.new
serve_all_kept_example =
    serve_all_kept memory memory_gix digest read_only requests mounted refl (refl, refl)

get_elem?-splice_example : get_elem? (splice 5 (7 ∷ []) (1 ∷ 2 ∷ 3 ∷ [])) 4 ≡ some 0
get_elem?-splice_example = get_elem?-splice 5 (7 ∷ []) (1 ∷ 2 ∷ 3 ∷ []) 4

abbrev dots : List Listed
dots =
    record { ino = 1; offset = 1; kind = fuse_directory; name = codes "." }
    ∷ record { ino = 1; offset = 2; kind = fuse_directory; name = codes ".." }
    ∷ []

-- A buffer for two lines
abbrev two_lines : List Listed → Listed → Bool
two_lines added l = ltb 1 (length added)

-- A mount that does not commit by itself, with `a` open for writing.
abbrev manual : Config
manual = record config { commit = record config.commit { auto_commit = false } }

abbrev opened : FuseHandler memory memory_gix
opened = record mounted {
  file_handles = record {
    handles = (1, record { path = codes "a"; writable = true }) ∷ [];
    next_fh = 2;
  };
}

read-write_example :
    (read memory memory_gix digest manual 1 2 2
      (write memory memory_gix digest manual 1 2 (8 ∷ 9 ∷ []) opened).1).0
    ≡ ok (8 ∷ 9 ∷ [])
unfolding Handles.get lookup read_file validate_file_path is_git_internal write_content write_full
    Fuse.new parent store_content maybe_pointerize_content stored_form parse_pointer decode splice
    resolve drop_previous insert write write_file auto_commit is_tracked
read-write_example =
    read-write memory memory_gix digest manual refl 1 2 (8 ∷ 9 ∷ []) opened
      (record { path = codes "a"; writable = true }) refl refl 2 (λ _. refl) refl

-- The first commit of `/r`.
abbrev first : Text
first = codes "first"

commit-IsRecorded_example :
    let built =
      guarded_build memory memory_gix digest config
        (build_tree_from_workdir memory memory_gix digest config [])
        backend in
    (tree : ℕ) × (built.0 ≡ ok tree)
    × IsRecorded memory memory_gix memory_gix-IsLawful digest config
        (97 ∷ 97 ∷ [])
        tree
        (parents_of memory memory_gix digest config built.1)
        first
        built.1
        (commit memory memory_gix digest config first backend).1.objects
unfolding commit build_tree_from_workdir build_tree_levels scan_dir lookup abs_path build_items
    commit_tree write_commit_inner advance update_head_to read_to_string text_of git_dir decode
    create_parent_dirs parent run_rules insert
commit-IsRecorded_example =
    commit-IsRecorded memory memory_gix memory_gix-IsLawful digest config first (97 ∷ 97 ∷ [])
      backend refl

-- The same, with a directory that lists `.git` and `a`.
abbrev item : Text → EntryType → Result IoError DirItem
item name t =
    ok (record {
      file_name = name;
      entry_type = ok t;
      metadata = memory.metadata (codes "/r/a") disk;
    })

abbrev listing : Os
listing = record memory {
  read_dir = λ p s. ok (item (codes ".git") dir_type ∷ item (codes "a") file_type ∷ []);
}

abbrev listed : Backend listing memory_gix
listed = record {
  os = disk;
  objects = [];
  xattrs = [];
  dirty_files = [];
  commit_in_progress = false;
}

build_tree_levels-IsCleanTree_example :
    IsCleanTree listing memory_gix digest config 1
      (build_tree_levels listing memory_gix digest config 2 [] listed).1.objects
unfolding build_tree_levels scan_dir lookup abs_path build_items typed_entry unignored_entry
    is_ignored is_ignored_by_config leaf_entry file_entry maybe_pointerize_content stored_form
    parse_pointer decode stored_entry write_entry
build_tree_levels-IsCleanTree_example =
    build_tree_levels-IsCleanTree listing memory_gix digest config memory_gix-IsLawful 2 [] listed 1
      refl

abbrev signature : Signature
signature = record { name = codes "a"; email = codes "b"; seconds = some (since 1) }

-- A history of two commits, the second at the head.
abbrev history : Backend memory memory_gix
history = record backend {
  os = (codes "/r/.git/HEAD", file (97 ∷ 97 ∷ 97 ∷ [])) ∷ [];
  objects =
      tree_object []
      ∷ commit_object (record {
        tree = 0;
        parents = [];
        author = signature;
        committer = signature;
        message = first;
      })
      ∷ commit_object (record {
        tree = 0;
        parents = 1 ∷ [];
        author = signature;
        committer = signature;
        message = codes "second";
      })
      ∷ [];
}

abbrev infos : List CommitInfo
infos =
    record {
      id = 97 ∷ 97 ∷ 97 ∷ [];
      message = codes "second";
      author = codes "a <b>";
      timestamp = since 1;
      parent_ids = (97 ∷ 97 ∷ []) ∷ [];
    }
    ∷ record {
      id = 97 ∷ 97 ∷ [];
      message = first;
      author = codes "a <b>";
      timestamp = since 1;
      parent_ids = [];
    }
    ∷ []

log-take_example :
    (log memory memory_gix digest config 5 (some 1) history ≡ ok (take 1 infos))
    × (length (take 1 infos) ≤ 1)
unfolding log log_loop head_commit_oid read_to_string text_of lookup git_dir decode head_target
    strip_prefix trim encode parse_commit_inner commit_of info_of
log-take_example = log-take memory memory_gix digest config 5 1 history infos (ground arith) refl

serve_all-IsValid_example :
    IsValid (serve_all memory memory_gix digest config requests mounted).inodes
    × ((serve_all memory memory_gix digest config requests mounted).inodes.next_inode
        ≤ mounted.inodes.next_inode + all_numbers memory memory_gix digest config requests mounted)
unfolding Fuse.new Inodes.new all_numbers
serve_all-IsValid_example =
    serve_all-IsValid memory memory_gix digest config requests mounted new-IsValid (omega arith)

-- The first two lines of the root, and its entries with a full reply
readdir_continues_example :
    let r =
      readdir listing memory_gix digest config two_lines 1 0 (Fuse.new listing memory_gix listed) in
    (rest : List Listed) × ((readdir listing memory_gix digest config never_full 1 2 r.1).0
      ≡ ok rest)
    × ((readdir listing memory_gix digest config never_full 1 0
          (Fuse.new listing memory_gix listed)).0
        ≡ ok (dots ++ rest))
    × ((i : ℕ) (l : Listed) → get_elem? dots i ≡ some l → l.offset ≡ 0 + i + 1)
unfolding readdir Fuse.new Inodes.new Inodes.get_path lookup list_dir validate_path add_lines
    directory_lines child_lines sort_by dotdot Inodes.get_or_create
readdir_continues_example =
    readdir_continues listing memory_gix digest config two_lines 1 0
      (Fuse.new listing memory_gix listed) dots refl refl
