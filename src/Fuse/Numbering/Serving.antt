-- ===== src/Fuse/Numbering/Serving.antt =====
-- What any sequence of requests to src/fs.rs does to the inode table.
use gitoxide_fs.Base.{ℕ, ◌+◌, ◌<◌, ◌≤◌, ◌^◌, List, [], ◌∷◌}
use gitoxide_fs.Base.Text.{Bytes}
use gitoxide_fs.Config.{Config}
use gitoxide_fs.Os.{Os}
use gitoxide_fs.Gix.{Gix}
use gitoxide_fs.Inodes
use gitoxide_fs.Inodes.Invariant.{IsValid}
use gitoxide_fs.Inodes.Trails.{Within, here, both}
use gitoxide_fs.Fuse.{FuseHandler, Serve}
use gitoxide_fs.Fuse.Requests.{
  created_reply, statistics_reply, Request, Reply, serve, serve_all, replied, done_reply,
  attr_reply, lines_reply, bytes_reply, number_reply, xattr_reply, lookup_request, getattr_request,
  setattr_request, readdir_request, readlink_request, opendir_request, releasedir_request,
  release_request, statfs_request, flush_request, mknod_request, destroy_request, open_request,
  read_request, write_request, create_request, mkdir_request, unlink_request, rmdir_request,
  rename_request, symlink_request, link_request, setxattr_request, getxattr_request,
  listxattr_request, removexattr_request,
}
use gitoxide_fs.Fuse.{destroy}
use gitoxide_fs.Fuse.Looking.{
  lookup, getattr, setattr, readdir, readlink, opendir, releasedir, statfs,
}
use gitoxide_fs.Fuse.Contents.{open_file, read, write, create, release, flush}
use gitoxide_fs.Fuse.Attributes.{setxattr, getxattr, listxattr, removexattr}
use gitoxide_fs.Fuse.Names.{mkdir, unlink, rmdir, rename, symlink, link, mknod}
use gitoxide_fs.Fuse.Numbering.{
  Goes, finish, same, maybe_commit_inodes, getattr-Goes, lookup-Goes, mkdir-Goes, symlink-Goes,
  link-Goes, unlink-Goes, rmdir-Goes, rename-Goes,
}
use gitoxide_fs.Fuse.Numbering.Handlers.{
  setattr-Goes, numbers_at, readdir-Within, open_file-Goes, read-Goes, write-Goes, create-Goes,
  release-Goes, destroy-Goes, readlink-Goes, opendir-Goes, setxattr-Goes, getxattr-Goes,
  listxattr-Goes, removexattr-Goes,
}

module _ (O : Os) (G : Gix) (digest : Bytes → Bytes) (config : Config) where
  -- The numbers that a request may need: one, or for a listing one for each entry and one more.
  abbrev pub numbers : Request → FuseHandler O G → ℕ
  numbers (readdir_request is_full ino offset) h =
      numbers_at O G digest config (Inodes.get_path ino h.inodes) h
  numbers _ h = 1

  -- The numbers that a sequence of requests may need.
  unfoldable pub all_numbers : List Request → FuseHandler O G → ℕ
  all_numbers [] h = 0
  all_numbers (r ∷ rest) h = numbers r h + all_numbers rest (serve O G digest config r h).1

  replied-Within :
      {A : Type 0} {n : ℕ} (c : A → Reply) (m : Serve O G A) (h : FuseHandler O G)
      → Within n h.inodes (m h).1.inodes
      → Within n h.inodes (replied O G digest config c m h).1.inodes
  replied-Within c m h e = finish O G digest config m _ h e (λ _ g. here g.inodes)

  replied-Goes :
      {A : Type 0} (c : A → Reply) (m : Serve O G A)
      → Goes O G digest config 1 m
      → Goes O G digest config 1 (replied O G digest config c m)
  replied-Goes c m e h = replied-Within c m h (e h)

  -- Every request keeps to these numbers.
  pub serve-Within :
      (r : Request) (h : FuseHandler O G)
      → Within (numbers r h) h.inodes (serve O G digest config r h).1.inodes
  unfolding serve releasedir statfs flush mknod
  serve-Within (lookup_request parent name) h =
      replied-Goes attr_reply (lookup O G digest config parent name)
        (lookup-Goes O G digest config parent name) h
  serve-Within (getattr_request ino) h =
      replied-Goes attr_reply (getattr O G digest config ino) (getattr-Goes O G digest config ino) h
  serve-Within (setattr_request ino mode size) h =
      replied-Goes attr_reply (setattr O G digest config ino mode size)
        (setattr-Goes O G digest config ino mode size) h
  serve-Within (readdir_request is_full ino offset) h =
      replied-Within lines_reply (readdir O G digest config is_full ino offset) h
        (readdir-Within O G digest config is_full ino offset h)
  serve-Within (readlink_request ino) h =
      replied-Goes bytes_reply (readlink O G digest config ino)
        (readlink-Goes O G digest config ino) h
  serve-Within (opendir_request ino) h =
      replied-Goes number_reply (opendir O G digest config ino) (opendir-Goes O G digest config ino)
        h
  serve-Within (releasedir_request fh) h =
      replied-Goes (λ _. done_reply) (releasedir O G digest config fh) (λ h. here h.inodes) h
  serve-Within (release_request fh) h =
      replied-Goes (λ _. done_reply) (release O G digest config fh)
        (release-Goes O G digest config fh) h
  serve-Within statfs_request h =
      replied-Goes statistics_reply (statfs O G digest config) (λ h. here h.inodes) h
  serve-Within flush_request h =
      replied-Goes (λ _. done_reply) (flush O G digest config)
        (λ h. same O G digest config (maybe_commit_inodes O G digest config h)) h
  serve-Within mknod_request h =
      replied-Goes attr_reply (mknod O G digest config) (λ h. here h.inodes) h
  serve-Within destroy_request h =
      replied-Goes (λ _. done_reply) (destroy O G config digest) (destroy-Goes O G digest config) h
  serve-Within (open_request ino flags) h =
      replied-Goes number_reply (open_file O G digest config ino flags)
        (open_file-Goes O G digest config ino flags) h
  serve-Within (read_request fh offset size) h =
      replied-Goes bytes_reply (read O G digest config fh offset size)
        (read-Goes O G digest config fh offset size) h
  serve-Within (write_request fh offset bytes) h =
      replied-Goes number_reply (write O G digest config fh offset bytes)
        (write-Goes O G digest config fh offset bytes) h
  serve-Within (create_request parent name flags) h =
      replied-Goes created_reply (create O G digest config parent name flags)
        (create-Goes O G digest config parent name flags) h
  serve-Within (mkdir_request parent name) h =
      replied-Goes attr_reply (mkdir O G digest config parent name)
        (mkdir-Goes O G digest config parent name) h
  serve-Within (unlink_request parent name) h =
      replied-Goes (λ _. done_reply) (unlink O G digest config parent name)
        (unlink-Goes O G digest config parent name) h
  serve-Within (rmdir_request parent name) h =
      replied-Goes (λ _. done_reply) (rmdir O G digest config parent name)
        (rmdir-Goes O G digest config parent name) h
  serve-Within (rename_request parent name newparent newname) h =
      replied-Goes (λ _. done_reply) (rename O G digest config parent name newparent newname)
        (rename-Goes O G digest config parent name newparent newname) h
  serve-Within (symlink_request parent name target) h =
      replied-Goes attr_reply (symlink O G digest config parent name target)
        (symlink-Goes O G digest config parent name target) h
  serve-Within (link_request ino newparent newname) h =
      replied-Goes attr_reply (link O G digest config ino newparent newname)
        (link-Goes O G digest config ino newparent newname) h
  serve-Within (setxattr_request ino name value) h =
      replied-Goes (λ _. done_reply) (setxattr O G config ino name value)
        (setxattr-Goes O G digest config ino name value) h
  serve-Within (getxattr_request ino name size) h =
      replied-Goes xattr_reply (getxattr O G config ino name size)
        (getxattr-Goes O G digest config ino name size) h
  serve-Within (listxattr_request ino size) h =
      replied-Goes xattr_reply (listxattr O G config ino size)
        (listxattr-Goes O G digest config ino size) h
  serve-Within (removexattr_request ino name) h =
      replied-Goes (λ _. done_reply) (removexattr O G config ino name)
        (removexattr-Goes O G digest config ino name) h

  pub serve_all-Within :
      (rs : List Request) (h : FuseHandler O G)
      → Within (all_numbers rs h) h.inodes (serve_all O G digest config rs h).inodes
  unfolding serve_all all_numbers
  serve_all-Within [] h = here h.inodes
  serve_all-Within (r ∷ rest) h =
      both (numbers r h) (all_numbers rest (serve O G digest config r h).1) (serve-Within r h)
        (serve_all-Within rest (serve O G digest config r h).1)

  -- Every sequence of requests to a mount keeps the inode table valid, whether they succeed or fail:
  -- the inode of a path leads back to the path, and every inode in use is below the next one. It
  -- takes at most one new number for each request, except that a listing takes at most one for each
  -- entry of the directory and one more. As many numbers as that must be left below 2^64.
  pub serve_all-IsValid :
      (rs : List Request) (h : FuseHandler O G)
      → IsValid h.inodes
      → h.inodes.next_inode + all_numbers rs h < 2 ^ 64
      → IsValid (serve_all O G digest config rs h).inodes
        × ((serve_all O G digest config rs h).inodes.next_inode
            ≤ h.inodes.next_inode + all_numbers rs h)
  serve_all-IsValid rs h v room = (serve_all-Within rs h).keeps v room
