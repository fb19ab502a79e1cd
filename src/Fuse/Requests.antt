-- ===== src/Fuse/Requests.antt =====
-- The `Filesystem` trait of src/fs.rs as one function: a request of the kernel, and the reply.
use gitoxide_fs.Base.{ℕ, Bool, Option, List, [], ◌∷◌}
use gitoxide_fs.Base.Text.{Text, Bytes}
use gitoxide_fs.Error.Monad.{pure, ◌>>=◌}
use gitoxide_fs.Config.{Config}
use gitoxide_fs.Os.{Os}
use gitoxide_fs.Gix.{Gix}
use gitoxide_fs.Fuse.{FuseHandler, Serve, FileAttr, destroy}
use gitoxide_fs.Fuse.Looking.{
  Listed, Statistics, lookup, getattr, setattr, readdir, readlink, opendir, releasedir, statfs,
}
use gitoxide_fs.Fuse.Contents.{open_file, read, write, create, flush, release}
use gitoxide_fs.Fuse.Names.{mkdir, unlink, rmdir, rename, symlink, link, mknod}
use gitoxide_fs.Fuse.Attributes.{XattrReply, setxattr, getxattr, listxattr, removexattr}

pub data Request : Type 0 where
  lookup_request : ℕ → Option Text → Request
  getattr_request : ℕ → Request
  setattr_request : ℕ → Option ℕ → Option ℕ → Request
  readdir_request : (List Listed → Listed → Bool) → ℕ → ℕ → Request
  readlink_request opendir_request releasedir_request release_request : ℕ → Request
  statfs_request flush_request mknod_request destroy_request : Request
  open_request : ℕ → ℕ → Request
  read_request : ℕ → ℕ → ℕ → Request
  write_request : ℕ → ℕ → Bytes → Request
  create_request : ℕ → Option Text → ℕ → Request
  mkdir_request unlink_request rmdir_request : ℕ → Option Text → Request
  rename_request : ℕ → Option Text → ℕ → Option Text → Request
  symlink_request : ℕ → Option Text → Text → Request
  link_request : ℕ → ℕ → Option Text → Request
  setxattr_request : ℕ → Option Text → Bytes → Request
  getxattr_request : ℕ → Option Text → ℕ → Request
  listxattr_request : ℕ → ℕ → Request
  removexattr_request : ℕ → Option Text → Request

pub data Reply : Type 0 where
  attr_reply : FileAttr → Reply
  created_reply : FileAttr × ℕ → Reply
  number_reply : ℕ → Reply
  bytes_reply : Bytes → Reply
  lines_reply : List Listed → Reply
  xattr_reply : XattrReply → Reply
  statistics_reply : Statistics → Reply
  done_reply : Reply

module _ (O : Os) (G : Gix) (digest : Bytes → Bytes) (config : Config) where
  abbrev pub replied : {A : Type 0} → (A → Reply) → Serve O G A → Serve O G Reply
  replied c m = m >>= (λ a. pure (c a))

  -- The calls of the trait
  unfoldable pub serve : Request → Serve O G Reply
  serve (lookup_request parent name) = replied attr_reply (lookup O G digest config parent name)
  serve (getattr_request ino) = replied attr_reply (getattr O G digest config ino)
  serve (setattr_request ino mode size) =
      replied attr_reply (setattr O G digest config ino mode size)
  serve (readdir_request is_full ino offset) =
      replied lines_reply (readdir O G digest config is_full ino offset)
  serve (readlink_request ino) = replied bytes_reply (readlink O G digest config ino)
  serve (opendir_request ino) = replied number_reply (opendir O G digest config ino)
  serve (releasedir_request fh) = replied (λ _. done_reply) (releasedir O G digest config fh)
  serve (release_request fh) = replied (λ _. done_reply) (release O G digest config fh)
  serve statfs_request = replied statistics_reply (statfs O G digest config)
  serve flush_request = replied (λ _. done_reply) (flush O G digest config)
  serve mknod_request = replied attr_reply (mknod O G digest config)
  serve destroy_request = replied (λ _. done_reply) (destroy O G config digest)
  serve (open_request ino flags) = replied number_reply (open_file O G digest config ino flags)
  serve (read_request fh offset size) = replied bytes_reply (read O G digest config fh offset size)
  serve (write_request fh offset bytes) =
      replied number_reply (write O G digest config fh offset bytes)
  serve (create_request parent name flags) =
      replied created_reply (create O G digest config parent name flags)
  serve (mkdir_request parent name) = replied attr_reply (mkdir O G digest config parent name)
  serve (unlink_request parent name) =
      replied (λ _. done_reply) (unlink O G digest config parent name)
  serve (rmdir_request parent name) =
      replied (λ _. done_reply) (rmdir O G digest config parent name)
  serve (rename_request parent name newparent newname) =
      replied (λ _. done_reply) (rename O G digest config parent name newparent newname)
  serve (symlink_request parent name target) =
      replied attr_reply (symlink O G digest config parent name target)
  serve (link_request ino newparent newname) =
      replied attr_reply (link O G digest config ino newparent newname)
  serve (setxattr_request ino name value) =
      replied (λ _. done_reply) (setxattr O G config ino name value)
  serve (getxattr_request ino name size) = replied xattr_reply (getxattr O G config ino name size)
  serve (listxattr_request ino size) = replied xattr_reply (listxattr O G config ino size)
  serve (removexattr_request ino name) = replied (λ _. done_reply) (removexattr O G config ino name)

  -- Requests one after the other, whatever is replied
  unfoldable pub serve_all : List Request → FuseHandler O G → FuseHandler O G
  serve_all [] h = h
  serve_all (r ∷ rest) h = serve_all rest (serve r h).1
