-- ===== src/Lib.antt =====
-- gitoxide-fs: a git repository as a file system. `GitBackend` (src/git.rs) turns paths into
-- files of the working tree and of `.git`, keeps large files in the blob store (src/blobstore.rs)
-- and commits what was written; `ForkManager` (src/fork.rs) works on branches of it and merges
-- them; the FUSE handler (src/fs.rs) numbers paths and open files, calls the backend for each
-- request of the kernel, and commits what was written; `GitFs` (src/fs.rs) mounts it, a health
-- server (src/health.rs) reports on the mount, and `gofs` (src/main.rs) runs all of these as
-- commands; src/error.rs and src/config.rs are shared by all.
-- The files and the code they model:
-- - Base: what the parts share: lists, texts, paths, UTF-8, decimals, dictionaries and sorting. A
--   `str` is the list of its code points, a `PathBuf` its text, a `HashMap` an association list
--   whose order stands for the unspecified order of iteration, a `u64` a number kept below 2 ^
--   64.
-- - Error, Error/Monad, Error/Runs: `Error`, `to_errno` and `hint` of src/error.rs; results, code
--   that changes a state, and what a run that succeeds went through.
-- - Config: the records and default values of src/config.rs; `Config/Loading` is `from_file`,
--   with the parser of `toml` as a parameter.
-- - Validate: `abs_path`, `is_git_internal`, `validate_path` and `validate_file_path` of
--   src/git.rs.
-- - Ignore: `glob_match`, `is_ignored` and `is_ignored_by_config` of src/git.rs.
-- - Merge: `three_way_merge` of src/fork.rs. The loop over the paths is `merge_paths`, the arms
--   of its `match` are `merge_path`.
-- - Inodes, Handles: `InodeTable` and `HandleTable` of src/fs.rs; `HandleTable::open` is
--   `open_handle`.
-- - Os: the calls of `std::fs`, as a record of operations on an unknown state: `Os/Laws` states
--   what is assumed of it, `Os/Memory` is an instance that satisfies it. `set_len` opens the file
--   as well.
-- - BlobStore: `PointerFile` and `BlobStore` of src/blobstore.rs. SHA-256 is the parameter
--   `digest`, the field `root` an argument.
-- - Backend: `GitBackend` of src/git.rs: `State` is what it keeps, `Refs` has `HEAD` and the
--   branches, `Pointers` the large files, `Files`, `Directories` and `Links` the operations on
--   the working tree, `Xattrs` the attributes, `Trees` and `Incremental` the trees of the working
--   directory, `Commits` the commits and the log, `History` what is read of a commit,
--   `AutoCommit` the end of `write_file` that commits, with `commit_incremental` as a parameter;
--   `AutoCommit/Committing` puts the modelled one in. `write_content` is `write_file` up to that
--   point. Each operation takes the configuration and the state that it reads or changes.
--   `Opening` has the constructors; opening and making a repository are the parameter
--   `Repositories`, and `Disk` has the objects of each repository by its path.
-- - Gix: the object store of the crate `gix`, as a record of operations on an unknown state:
--   `Gix/Laws` states what is assumed of it, `Gix/Memory` is an instance.
-- - Forks: `ForkManager` of src/fork.rs: `Forks` itself creates, lists and abandons forks,
--   `Forks/Merging` merges them. `Forks/Registry` is the map of forks as an abstract registry,
--   `Forks/Operations` a sequence of operations. Between the merge on disk (`write_merge`) and
--   its end (`settle`) nothing else happens. `Forks/Persistence` and `Forks/Reloading` are about
--   what a later process loads.
-- - Fuse: `FuseHandler` of src/fs.rs: `Fuse` itself has its state, attributes and commits,
--   `Looking`, `Contents`, `Names` and `Attributes` the methods of `Filesystem`, and `Requests`
--   all of them as one function; `Fuse/Numbering` follows the inode table through them. `open` is
--   `open_file`. A handler returns the reply or the number of the error.
-- - Mounts: `GitFs` of src/fs.rs and its table of active mounts: `Mounts` itself has the
--   operations, `Mounts/Table` the table, `Mounts/Exclusive` sequences of operations, one after
--   the other. `fuser`, `canonicalize` and `Command` are the parameter `Host`.
-- - Health: src/health.rs: `serve_loop` runs over the rounds that come, each with what it meets
--   (`Round`). Sockets and threads are the parameter `Net`.
-- - CommandLine: src/main.rs: `CommandLine` itself has the arguments and what they make of the
--   configuration, `CommandLine/Running` `run` and `main`. A `Session` is one process; what it
--   leaves on disk is where the next one starts.
-- - Tests: the theorems applied to concrete inputs.
-- Bounds and fuel: `repo_references_blob_in_dir`, `build_tree_from_workdir` and
-- `build_tree_incremental` recurse over the directories below the repository; they are given
-- `path_max` (4096) levels, more than a path of the operating system can have, as each level
-- makes the path longer, and `collect_refs_recursive` the same number. The levels of a stored
-- tree and the length of a history have no such bound: `flatten_tree_inner` takes the levels as
-- an argument, and `log` without a limit the number of rounds. `prune_empty_parents` recurses
-- over the finite list of the parents of a path, and all else over its data. An offset of FUSE is
-- given as `offset as usize` reads it, flags by their bits; the sum of an offset and a length is
-- taken to fit into a `usize`, and memory to suffice.
-- Not modelled: the parsing of arguments by `clap`, the layout and the colours of what is
-- printed, logging, and the threads themselves: a lock is taken and released within one
-- operation, so that an operation is one step here, and so is `mount`, although it takes its lock
-- twice (`prepare_mount` and `finish_mount`); a lock that a panic poisoned is left out. The
-- examples of src only call what is modelled.
pub mod Base
pub mod Backend
pub mod Error
pub mod Config
pub mod Validate
pub mod Merge
pub mod Inodes
pub mod Handles
pub mod BlobStore
pub mod Os
pub mod Gix
pub mod Ignore
pub mod Forks
pub mod Fuse
pub mod Mounts
pub mod Health
pub mod CommandLine
mod Tests
