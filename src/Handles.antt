-- ===== src/Handles.antt =====
-- `OpenFile` and `HandleTable` of src/fs.rs.
pub mod Laws
use gitoxide_fs.Base.{ℕ, Bool, Option, [], nat_eq, next_u64}
use gitoxide_fs.Base.Text.{Text}
use gitoxide_fs.Base.Dict
use gitoxide_fs.Base.Dict.{Dict}

pub record OpenFile : Type 0 where
  pub path : Text
  pub writable : Bool

pub record HandleTable : Type 0 where
  pub handles : Dict ℕ OpenFile
  pub next_fh : ℕ

abbrev pub new : HandleTable
new = record { handles = []; next_fh = 1 }

unfoldable pub open_handle : Text → Bool → HandleTable → ℕ × HandleTable
open_handle path writable t =
    let fh = t.next_fh in
    (
      fh,
      record {
        handles = Dict.insert fh (record { path = path; writable = writable }) t.handles;
        next_fh = next_u64 t.next_fh;
      },
    )

unfoldable pub get : ℕ → HandleTable → Option OpenFile
get fh t = Dict.lookup fh t.handles

unfoldable pub close : ℕ → HandleTable → Option OpenFile × HandleTable
close fh t = (Dict.lookup fh t.handles, record t { handles = Dict.remove fh t.handles })
