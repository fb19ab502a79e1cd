-- ===== src/Fuse/Attributes.antt =====
-- The handlers of src/fs.rs for extended attributes, on Linux.
use gitoxide_fs.Base.{
  ℕ, ◌%◌, ◌^◌, Option, none, some, List, [], ◌∷◌, ◌++◌, length, ltb, if◌then◌else◌, ◌==◌, nat_eq,
}
use gitoxide_fs.Base.Text.{Text, Bytes}
use gitoxide_fs.Base.Utf8.{encode}
use gitoxide_fs.Error.{Errno, erange, raw}
use gitoxide_fs.Error.Monad.{Result, ok, err, ◌>>=◌}
use gitoxide_fs.Config.{Config}
use gitoxide_fs.Os.{Os}
use gitoxide_fs.Gix.{Gix}
use gitoxide_fs.Backend.State.{on_xattrs}
use gitoxide_fs.Backend.Xattrs.{get_xattr, set_xattr, list_xattr, remove_xattr}
use gitoxide_fs.Fuse.{Serve, path_of, utf8_name, on_backend}

-- `reply.size` or `reply.data`
pub data XattrReply : Type 0 where
  size_reply : ℕ → XattrReply
  data_reply : Bytes → XattrReply

-- What is replied to a caller with a buffer of `size` bytes
unfoldable pub sized : ℕ → Bytes → Result Errno XattrReply
sized size bytes =
    if size == 0
    then ok (size_reply (length bytes % 2 ^ 32))
    else if ltb size (length bytes % 2 ^ 32)
    then err erange
    else ok (data_reply bytes)

abbrev pub sized_value : ℕ → Option Bytes → Result Errno XattrReply
sized_value size none = err (raw 61)
sized_value size (some bytes) = sized size bytes

-- Names with a null byte behind each
unfoldable pub terminated : List Text → Bytes
terminated [] = []
terminated (name ∷ rest) = encode name ++ (0 ∷ terminated rest)

module _ (O : Os) (G : Gix) (config : Config) where
  -- `setxattr`
  unfoldable pub setxattr : ℕ → Option Text → Bytes → Serve O G Unit
  setxattr ino name value = do
    path ← path_of O G ino
    n ← utf8_name O G name
    on_backend O G (on_xattrs O G (λ s. set_xattr O config s path n value))

  -- `getxattr`
  unfoldable pub getxattr : ℕ → Option Text → ℕ → Serve O G XattrReply
  getxattr ino name size = do
    path ← path_of O G ino
    n ← utf8_name O G name
    value ← on_backend O G (on_xattrs O G (λ s x. (get_xattr O config s path n x, x)))
    λ h. (sized_value size value, h)

  -- `listxattr`
  unfoldable pub listxattr : ℕ → ℕ → Serve O G XattrReply
  listxattr ino size = do
    path ← path_of O G ino
    names ← on_backend O G (on_xattrs O G (λ s x. (list_xattr O config s path x, x)))
    λ h. (sized size (terminated names), h)

  -- `removexattr`
  unfoldable pub removexattr : ℕ → Option Text → Serve O G Unit
  removexattr ino name = do
    path ← path_of O G ino
    n ← utf8_name O G name
    on_backend O G (on_xattrs O G (λ s. remove_xattr O config s path n))
