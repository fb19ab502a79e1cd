-- ===== src/Fuse/Contents.antt =====
-- The handlers of src/fs.rs on open files: `open`, `read`, `write`, `create`, `flush`, `release`,
-- `fsync` and `fsyncdir`. Offsets are given as `offset as usize`, flags by their bits.
use gitoxide_fs.Base.{
  ℕ, ◌+◌, ◌-◌, ◌%◌, ◌^◌, Bool, not, ◌&&◌, Option, none, some, [], ◌++◌, length, take, drop, resize,
  ltb, leb, if◌then◌else◌,
}
use gitoxide_fs.Base.Text.{Text, Bytes}
use gitoxide_fs.Error.{Error, Errno, erofs, ebadf, einval}
use gitoxide_fs.Error.Monad.{Result, ok, err, pure, ensure, ◌>>=◌, ◌>>◌}
use gitoxide_fs.Config.{Config}
use gitoxide_fs.Os.{Os}
use gitoxide_fs.Gix.{Gix}
use gitoxide_fs.Handles
use gitoxide_fs.Handles.{OpenFile}
use gitoxide_fs.Backend.Files.{read_file}
use gitoxide_fs.Backend.Commits.{commit_incremental}
use gitoxide_fs.Backend.AutoCommit.{write_file}
use gitoxide_fs.Fuse.{
  FuseHandler, FileAttr, Serve, tells, path_of, child, on_files, on_backend, change,
  refuse_read_only, is_writable, attr_for_path, mark_dirty, maybe_commit,
}

-- What `read` replies of the content
unfoldable pub slice : ℕ → ℕ → Bytes → Bytes
slice offset size content =
    if leb (length content) offset
    then []
    else let end = if ltb (offset + size) (length content) then offset + size else length content in
      take (end - offset) (drop offset content)

abbrev pub extend_to : ℕ → Bytes → Bytes
extend_to n content = if ltb (length content) n then resize n 0 content else content

-- `content[offset..end].copy_from_slice(data)`
abbrev pub overwrite : ℕ → Bytes → Bytes → Bytes
overwrite offset bytes content =
    take offset content ++ (bytes ++ drop (offset + length bytes) content)

-- The content that `write` stores
unfoldable pub splice : ℕ → Bytes → Bytes → Bytes
splice offset bytes content =
    overwrite offset bytes (extend_to (offset + length bytes) (extend_to offset content))

-- `unwrap_or_default`
abbrev or_default : Result Error Bytes → Bytes
or_default (ok content) = content
or_default (err e) = []

module _ (O : Os) (G : Gix) where
  abbrev or_ebadf : Option OpenFile → Result Errno Text
  or_ebadf none = err ebadf
  or_ebadf (some file) = ok file.path

  -- The path of an open file
  abbrev pub handle_path : ℕ → Serve O G Text
  handle_path fh h = (or_ebadf (Handles.get fh h.file_handles), h)

  abbrev pub open_at : Text → Bool → Serve O G ℕ
  open_at path writable h =
      let (fh, t) = Handles.open_handle path writable h.file_handles in
      (ok fh, record h { file_handles = t })

  module _ (digest : Bytes → Bytes) (config : Config) where
    -- `open`
    unfoldable pub open_file : ℕ → ℕ → Serve O G ℕ
    open_file ino flags = do
      path ← path_of O G ino
      λ h. (ensure (not (is_writable flags && config.read_only)) erofs, h)
      open_at path (is_writable flags)

    -- `read`
    unfoldable pub read : ℕ → ℕ → ℕ → Serve O G Bytes
    read fh offset size = do
      path ← handle_path fh
      content ← on_files O G (read_file O config path)
      pure (slice offset size content)

    -- The content before a write, none for a file that cannot be read
    abbrev pub content_before : Text → FuseHandler O G → Bytes
    content_before path h = or_default (read_file O config path h.backend.os).0

    abbrev pub store : Text → Bytes → Serve O G Unit
    store path content = do
      on_backend O G
          (write_file O G config digest (commit_incremental O G digest config) path content)
      change O G (mark_dirty O G config digest path)

    -- `write`
    unfoldable pub write : ℕ → ℕ → Bytes → Serve O G ℕ
    write fh offset bytes = do
      refuse_read_only O G config
      path ← handle_path fh
      content ← tells O G (λ h. ok (content_before path h))
      store path (splice offset bytes content)
      pure (length bytes % 2 ^ 32)

    -- `create`
    unfoldable pub create : ℕ → Option Text → ℕ → Serve O G (FileAttr × ℕ)
    create parent name flags = do
      refuse_read_only O G config
      path ← child O G einval parent name
      store path []
      attr ← attr_for_path O G config path
      fh ← open_at path (is_writable flags)
      pure (attr, fh)

    -- `flush`, `fsync` and `fsyncdir`
    unfoldable pub flush : Serve O G Unit
    flush = change O G (maybe_commit O G config digest)

    abbrev after_close : Option OpenFile → FuseHandler O G → FuseHandler O G
    after_close none h = h
    after_close (some file) h = if file.writable then maybe_commit O G config digest h else h

    -- `release`
    unfoldable pub release : ℕ → Serve O G Unit
    release fh h =
        let (file, t) = Handles.close fh h.file_handles in
        (ok tt, after_close file (record h { file_handles = t }))
