-- ===== src/Handles/Laws.antt =====
-- Handles are fresh when they are given out, and gone when they are closed.
use gitoxide_fs.Base.{
  ℕ, ◌+◌, ◌<◌, ◌^◌, ◌≡◌, ◌≢◌, refl, Bool, none, some, arith, nat_eq, Option-cases, inl, inr,
}
use gitoxide_fs.Base.Text.{Text}
use gitoxide_fs.Base.Dict.{lookup, lookup-insert, lookup-remove}
use gitoxide_fs.Handles
use gitoxide_fs.Handles.{OpenFile, HandleTable}

-- Every handle in use is below the next one.
pub record IsValid (t : HandleTable) : Type 0 where
  pub given : (fh : ℕ) (f : OpenFile) → Handles.get fh t ≡ some f → fh < t.next_fh

pub new-IsValid : IsValid Handles.new
unfolding Handles.get lookup
new-IsValid = record { given = λ fh f h. ground arith }

next-unused : (t : HandleTable) → IsValid t → Handles.get t.next_fh t ≡ none
next-unused t v = elim (Option-cases (Handles.get t.next_fh t)) [
  | inl e ↦ e
  | inr (f, e) ↦ absurd (omega (arith, v.given t.next_fh f e))
]

-- Opening a file on a valid table, while numbers are left, keeps the table valid and gives a
-- handle that was not in use, leads to the file, and disturbs no other handle.
pub open_handle-IsValid :
    (path : Text) (writable : Bool) (t : HandleTable)
    → IsValid t
    → t.next_fh + 1 < 2 ^ 64
    → let r = Handles.open_handle path writable t in
      IsValid r.1
      × (Handles.get r.0 t ≡ none)
      × (Handles.get r.0 r.1 ≡ some (record { path = path; writable = writable }))
      × ((fh : ℕ) → fh ≢ r.0 → Handles.get fh r.1 ≡ Handles.get fh t)
unfolding Handles.open_handle Handles.get
open_handle-IsValid path writable t v room =
    let file : OpenFile = record { path = path; writable = writable } in
    (
      record {
        given = λ fh f h. ground (arith, lookup-insert t.next_fh fh file t.handles, v.given fh f);
      },
      next-unused t v,
      ground (arith, lookup-insert t.next_fh t.next_fh file t.handles),
      λ fh n. ground (arith, lookup-insert t.next_fh fh file t.handles),
    )

-- Closing a handle keeps the table valid, returns the file of the handle, and leaves every handle
-- but this one as it was.
pub close-IsValid :
    (fh : ℕ) (t : HandleTable)
    → IsValid t
    → let r = Handles.close fh t in
      IsValid r.1
      × (r.0 ≡ Handles.get fh t)
      × (Handles.get fh r.1 ≡ none)
      × ((other : ℕ) → other ≢ fh → Handles.get other r.1 ≡ Handles.get other t)
unfolding Handles.close Handles.get
close-IsValid fh t v = (
  record { given = λ j f h. ground (arith, lookup-remove fh j t.handles, v.given j f) },
  refl,
  ground (arith, lookup-remove fh fh t.handles),
  λ other n. ground (arith, lookup-remove fh other t.handles),
)
