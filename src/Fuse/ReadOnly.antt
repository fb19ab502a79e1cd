-- ===== src/Fuse/ReadOnly.antt =====
-- A read-only mount.
use gitoxide_fs.Base.{
  ℕ, ◌≡◌, refl, ap, ◌∙◌, true, Option, none, some, List, [], ◌∷◌, list_eq, nat_eq,
}
use gitoxide_fs.Base.Text.{Text, Bytes}
use gitoxide_fs.Error.Monad.{pure, ◌>>◌}
use gitoxide_fs.Config.{Config}
use gitoxide_fs.Os.{Os}
use gitoxide_fs.Gix.{Gix}
use gitoxide_fs.Fuse.{FuseHandler, FileAttr, Serve, attr_for_path, path_of}
use gitoxide_fs.Fuse.Looking.{setattr, set_size, set_mode, releasedir, statfs}
use gitoxide_fs.Fuse.Contents.{write, create, flush}
use gitoxide_fs.Fuse.Names.{mkdir, unlink, rmdir, rename, symlink, link, mknod}
use gitoxide_fs.Fuse.Requests.{
  Request, Reply, serve, serve_all, replied, done_reply, attr_reply, lines_reply, bytes_reply,
  number_reply, xattr_reply, lookup_request, getattr_request, setattr_request, readdir_request,
  readlink_request, opendir_request, releasedir_request, release_request, statfs_request,
  flush_request, mknod_request, destroy_request, open_request, read_request, write_request,
  create_request, mkdir_request, unlink_request, rmdir_request, rename_request, symlink_request,
  link_request, setxattr_request, getxattr_request, listxattr_request, removexattr_request,
}
use gitoxide_fs.Fuse.Keeping.{
  lasting, Keeps, IsIdle, bind_kept, attr_for_path_kept, getattr_kept, lookup_kept, read_kept,
  readlink_kept, readdir_kept, opendir_kept, open_file_kept, getxattr_kept, setxattr_kept,
  listxattr_kept, removexattr_kept, flush_kept, release_kept, destroy_kept,
}
use gitoxide_fs.Fuse.Looking.{lookup, getattr, readdir, readlink, opendir}
use gitoxide_fs.Fuse.Contents.{open_file, read, release}
use gitoxide_fs.Fuse.Attributes.{getxattr, setxattr, listxattr, removexattr}
use gitoxide_fs.Fuse.{destroy}

module _ (O : Os) (G : Gix) (digest : Bytes → Bytes) (config : Config) where
  set_size_kept :
      (path : Text) (size : Option ℕ) (h : FuseHandler O G)
      → config.read_only ≡ true
      → Keeps O G digest config (set_size O G digest config path size) h
  unfolding set_size
  set_size_kept path none h w = refl
  set_size_kept path (some size) h w = rw w refl

  set_mode_kept :
      (path : Text) (mode : Option ℕ) (h : FuseHandler O G)
      → config.read_only ≡ true
      → Keeps O G digest config (set_mode O G digest config path mode) h
  unfolding set_mode
  set_mode_kept path none h w = refl
  set_mode_kept path (some mode) h w = rw w refl

  setattr_kept :
      (ino : ℕ) (mode size : Option ℕ) (h : FuseHandler O G)
      → config.read_only ≡ true
      → Keeps O G digest config (setattr O G digest config ino mode size) h
  unfolding setattr
  setattr_kept ino mode size h w =
      let last : Text → Serve O G FileAttr =
        λ path. set_mode O G digest config path mode >> attr_for_path O G config path in
      bind_kept O G digest config (path_of O G ino)
        (λ path. set_size O G digest config path size >> last path) h refl
        (λ path g.
          bind_kept O G digest config (set_size O G digest config path size) (λ _. last path) g
            (set_size_kept path size g w)
            (λ _ k.
              bind_kept O G digest config (set_mode O G digest config path mode)
                (λ _. attr_for_path O G config path) k (set_mode_kept path mode k w)
                (λ _. attr_for_path_kept O G digest config path)))

  replied_kept :
      {A : Type 0} (c : A → Reply) (m : Serve O G A) (h : FuseHandler O G)
      → Keeps O G digest config m h
      → Keeps O G digest config (replied O G digest config c m) h
  replied_kept c m h e = bind_kept O G digest config m (λ a. pure (c a)) h e (λ a g. refl)

  serve_kept :
      (r : Request) (h : FuseHandler O G)
      → config.read_only ≡ true
      → IsIdle O G digest config h
      → Keeps O G digest config (serve O G digest config r) h
  unfolding serve statfs releasedir mknod flush write create mkdir unlink rmdir rename symlink link
  serve_kept (lookup_request parent name) h w idle =
      replied_kept attr_reply (lookup O G digest config parent name) h
        (lookup_kept O G digest config parent name h)
  serve_kept (getattr_request ino) h w idle =
      replied_kept attr_reply (getattr O G digest config ino) h
        (getattr_kept O G digest config ino h)
  serve_kept (setattr_request ino mode size) h w idle =
      replied_kept attr_reply (setattr O G digest config ino mode size) h
        (setattr_kept ino mode size h w)
  serve_kept (readdir_request is_full ino offset) h w idle =
      replied_kept lines_reply (readdir O G digest config is_full ino offset) h
        (readdir_kept O G digest config is_full ino offset h)
  serve_kept (readlink_request ino) h w idle =
      replied_kept bytes_reply (readlink O G digest config ino) h
        (readlink_kept O G digest config ino h)
  serve_kept (opendir_request ino) h w idle =
      replied_kept number_reply (opendir O G digest config ino) h
        (opendir_kept O G digest config ino h)
  serve_kept (releasedir_request fh) h w idle = refl
  serve_kept (release_request fh) h w idle =
      replied_kept (λ _. done_reply) (release O G digest config fh) h
        (release_kept O G digest config fh h idle)
  serve_kept statfs_request h w idle = refl
  serve_kept flush_request h w idle =
      replied_kept (λ _. done_reply) (flush O G digest config) h
        (flush_kept O G digest config h idle)
  serve_kept mknod_request h w idle = refl
  serve_kept destroy_request h w idle =
      replied_kept (λ _. done_reply) (destroy O G config digest) h
        (destroy_kept O G digest config h idle)
  serve_kept (open_request ino flags) h w idle =
      replied_kept number_reply (open_file O G digest config ino flags) h
        (open_file_kept O G digest config ino flags h)
  serve_kept (read_request fh offset size) h w idle =
      replied_kept bytes_reply (read O G digest config fh offset size) h
        (read_kept O G digest config fh offset size h)
  serve_kept (write_request fh offset bytes) h w idle = rw w refl
  serve_kept (create_request parent name flags) h w idle = rw w refl
  serve_kept (mkdir_request parent name) h w idle = rw w refl
  serve_kept (unlink_request parent name) h w idle = rw w refl
  serve_kept (rmdir_request parent name) h w idle = rw w refl
  serve_kept (rename_request parent name newparent newname) h w idle = rw w refl
  serve_kept (symlink_request parent name target) h w idle = rw w refl
  serve_kept (link_request ino newparent newname) h w idle = rw w refl
  serve_kept (setxattr_request ino name value) h w idle =
      replied_kept (λ _. done_reply) (setxattr O G config ino name value) h
        (setxattr_kept O G digest config ino name value h)
  serve_kept (getxattr_request ino name size) h w idle =
      replied_kept xattr_reply (getxattr O G config ino name size) h
        (getxattr_kept O G digest config ino name size h)
  serve_kept (listxattr_request ino size) h w idle =
      replied_kept xattr_reply (listxattr O G config ino size) h
        (listxattr_kept O G digest config ino size h)
  serve_kept (removexattr_request ino name) h w idle =
      replied_kept (λ _. done_reply) (removexattr O G config ino name) h
        (removexattr_kept O G digest config ino name h)

  -- In a read-only mount in which nothing waits for a commit, no sequence of requests, the final
  -- `destroy` included, changes the files on disk, the objects of the repository, or what waits
  -- for a commit.
  pub serve_all_kept :
      (rs : List Request) (h : FuseHandler O G)
      → config.read_only ≡ true
      → IsIdle O G digest config h
      → lasting O G digest config (serve_all O G digest config rs h) ≡ lasting O G digest config h
  unfolding serve_all
  serve_all_kept [] h w idle = refl
  serve_all_kept (r ∷ rs) h w idle =
      let k = serve_kept r h w idle in
      serve_all_kept rs (serve O G digest config r h).1 w
        (ap (λ l. l.2) k ∙ idle.0, ap (λ l. l.3) k ∙ idle.1)
      ∙ k
