-- ===== src/Os.antt =====
-- The operating system behind `std::fs`, as the program uses it: an unknown state, read by some
-- calls and changed by others. `Os/Laws` states what the theorems assume of it, `Os/Memory` is an
-- instance.
pub mod Laws
pub mod Memory
use gitoxide_fs.Base.{ℕ, Bool, Option, List}
use gitoxide_fs.Base.Text.{Text, Bytes}
use gitoxide_fs.Error.{IoError}
use gitoxide_fs.Error.Monad.{Result, Exec}

-- `std::fs::FileType`: the three that `is_dir`, `is_symlink` and `is_file` tell apart.
pub data EntryType : Type 0 where
  dir_type symlink_type file_type : EntryType

-- `std::fs::Metadata`. Times are seconds and nanoseconds since the epoch; `ctime` may lie before.
pub record Metadata : Type 0 where
  pub entry_type : EntryType
  pub len : ℕ
  pub mode : ℕ
  pub ino : ℕ
  pub nlink : ℕ
  pub uid : ℕ
  pub gid : ℕ
  pub modified : Option (ℕ × ℕ)
  pub accessed : Option (ℕ × ℕ)
  pub ctime : Option (ℕ × ℕ)

-- `std::fs::DirEntry`
pub record DirItem : Type 0 where
  pub file_name : Text
  pub entry_type : Result IoError EntryType
  pub metadata : Result IoError Metadata

pub record Os : Type 1 where
  pub State : Type 0
  pub exists : Text → State → Bool
  -- `SystemTime::now`, in seconds since the epoch
  pub now : State → ℕ
  pub is_dir : Text → State → Bool
  pub is_file : Text → State → Bool
  pub read : Text → State → Result IoError Bytes
  pub read_dir : Text → State → Result IoError (List (Result IoError DirItem))
  pub read_link : Text → State → Result IoError Text
  pub metadata : Text → State → Result IoError Metadata
  pub symlink_metadata : Text → State → Result IoError Metadata
  pub write : Text → Bytes → Exec State IoError Unit
  pub create_dir_all : Text → Exec State IoError Unit
  pub remove_file : Text → Exec State IoError Unit
  pub remove_dir : Text → Exec State IoError Unit
  pub remove_dir_all : Text → Exec State IoError Unit
  pub rename : Text → Text → Exec State IoError Unit
  pub symlink : Text → Text → Exec State IoError Unit
  pub hard_link : Text → Text → Exec State IoError Unit
  pub set_permissions : Text → ℕ → Exec State IoError Unit
  pub set_len : Text → ℕ → Exec State IoError Unit
