-- ===== src/Gix.antt =====
-- The crate `gix` behind src/git.rs, as the program uses it: object ids and a store of objects,
-- which are parameters. `Gix/Laws` states what the theorems assume of them, `Gix/Memory` is an
-- instance.
pub mod Laws
pub mod Memory
use gitoxide_fs.Base.{ℕ, Bool, Option, List}
use gitoxide_fs.Base.Text.{Text, Bytes}
use gitoxide_fs.Error.Monad.{Result, Exec}

-- `gix::objs::tree::EntryKind`
pub data EntryKind : Type 0 where
  tree_kind blob_kind executable_kind link_kind commit_kind : EntryKind

-- `gix::date::Time::seconds`, from the epoch on or before it
pub data Seconds : Type 0 where
  since before : ℕ → Seconds

pub record Signature : Type 0 where
  pub name : Text
  pub email : Text
  pub seconds : Option Seconds

-- An entry of a tree, with its name as text.
pub record TreeEntry (O : Type 0) : Type 0 where
  pub kind : EntryKind
  pub filename : Text
  pub oid : O

pub record Commit (O : Type 0) : Type 0 where
  pub tree : O
  pub parents : List O
  pub author : Signature
  pub committer : Signature
  pub message : Text

pub data Object (O : Type 0) : Type 0 where
  blob_object : Bytes → Object O
  tree_object : List (TreeEntry O) → Object O
  commit_object : Commit O → Object O

-- Errors are the texts that `to_string` gives.
pub record Gix : Type 1 where
  pub ObjectId : Type 0
  pub id_eqb : ObjectId → ObjectId → Bool
  pub from_hex : Bytes → Option ObjectId
  pub to_hex : ObjectId → Text
  -- why a text is no object id
  pub invalid_hex : Text → Text
  pub Store : Type 0
  pub find_object : ObjectId → Store → Result Text (Object ObjectId)
  pub write_object : Object ObjectId → Exec Store Text ObjectId
  -- the bytes of an object, `Object::data`
  pub data_of : Object ObjectId → Bytes
  pub not_a_tree : Text
  pub not_a_commit : Text
  -- the order of the entries of a tree
  pub entry_leb : TreeEntry ObjectId → TreeEntry ObjectId → Bool
  -- `Tree::lookup_entry_by_path`
  pub lookup_entry_by_path :
      List (TreeEntry ObjectId) → Text → Store → Result Text (Option (TreeEntry ObjectId))
