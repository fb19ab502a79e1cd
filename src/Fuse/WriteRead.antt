-- ===== src/Fuse/WriteRead.antt =====
-- A write through a handle and a read through it.
use gitoxide_fs.Base.{ℕ, ◌≡◌, refl, ap, sym, ◌∙◌, false, some, arith, length, ◌%◌, ◌^◌}
use gitoxide_fs.Base.Text.{Text, Bytes}
use gitoxide_fs.Error.{Error, to_errno}
use gitoxide_fs.Error.Monad.{Result, ok, err, map_err, continue, Exec}
use gitoxide_fs.Config.{Config}
use gitoxide_fs.Os.{Os}
use gitoxide_fs.Gix.{Gix}
use gitoxide_fs.Handles
use gitoxide_fs.Handles.{OpenFile}
use gitoxide_fs.Backend.Files.{read_file, write_content}
use gitoxide_fs.Backend.AutoCommit.{write_file, auto_commit, is_tracked}
use gitoxide_fs.Backend.State.{Backend, with_os}
use gitoxide_fs.Backend.Commits.{commit_incremental}
use gitoxide_fs.Fuse.{FuseHandler, change, mark_dirty, maybe_commit}
use gitoxide_fs.Fuse.Contents.{slice, read, write, store, content_before, splice}
use gitoxide_fs.Fuse.Splice.{slice-splice}

continue_id :
    {S E : Type 0} (r : Result E Unit) (f : Unit → Exec S E Unit) (s : S)
    → ((t : S) → f tt t ≡ (ok tt, t))
    → continue r f s ≡ (r, s)
continue_id (ok _) f s k = k s
continue_id (err e) f s k = refl

-- What cannot fail came after what did not.
change_done :
    {S : Type 0} (r : Result Error Unit) (u : S → S) (s : S)
    → let run = continue (map_err to_errno r) (λ _ t. (ok tt, u t)) s in
      (run.0 ≡ ok tt) → (r ≡ ok tt) × (run.1 ≡ u s)
change_done (ok _) u s h = (refl, refl)
change_done (err e) u s h = cc

pure_done :
    {S E B : Type 0} (r : Result E Unit) (s : S) (b c : B)
    → let run = continue r (λ _ t. (ok b, t)) s in (run.0 ≡ ok c) → (r ≡ ok tt) × (run.1 ≡ s)
pure_done (ok _) s b c h = (refl, refl)
pure_done (err e) s b c h = cc

module _ (O : Os) (G : Gix) (digest : Bytes → Bytes) (config : Config)
    (manual : config.commit.auto_commit ≡ false) where
  mark_dirty_manual :
      (path : Text) (h : FuseHandler O G)
      → let g = mark_dirty O G config digest path h in
        (g.backend ≡ h.backend) × (g.file_handles ≡ h.file_handles)
  unfolding mark_dirty maybe_commit
  mark_dirty_manual path h = ground (arith, manual)

  auto_commit_manual :
      (path : Text) (b : Backend O G)
      → auto_commit O G config digest (commit_incremental O G digest config) path b ≡ (ok tt, b)
  unfolding auto_commit is_tracked
  auto_commit_manual path b = rw manual refl

  abbrev written : Text → Bytes → O.State → Result Error Unit × O.State
  written path content s = write_content O config digest path content s

  write_file_manual :
      (path : Text) (content : Bytes) (b : Backend O G)
      → write_file O G config digest (commit_incremental O G digest config) path content b
        ≡ ((written path content b.os).0, with_os O G b (written path content b.os).1)
  unfolding write_file
  write_file_manual path content b =
      continue_id (written path content b.os).0
        (λ _. auto_commit O G config digest (commit_incremental O G digest config) path)
        (with_os O G b (written path content b.os).1) (auto_commit_manual path)

  -- A write that succeeded did what `write_content` does.
  store_manual :
      (path : Text) (content : Bytes) (h : FuseHandler O G)
      → (store O G digest config path content h).0 ≡ ok tt
      → let w = written path content h.backend.os in
        let g = (store O G digest config path content h).1 in
        (w.0 ≡ ok tt) × (g.backend.os ≡ w.1) × (g.file_handles ≡ h.file_handles)
  store_manual path content h e =
      let w = written path content h.backend.os in
      let b = with_os O G h.backend w.1 in
      let same : store O G digest config path content h
          ≡ continue (map_err to_errno w.0) (λ _. change O G (mark_dirty O G config digest path))
              (record h { backend = b }) =
        ap
          (λ (r : Result Error Unit × Backend O G).
            continue (map_err to_errno r.0) (λ _. change O G (mark_dirty O G config digest path))
              (record h { backend = r.1 }))
          (write_file_manual path content h.backend) in
      let (done, at) =
        change_done w.0 (mark_dirty O G config digest path) (record h { backend = b })
          (sym (ap (λ r. r.0) same) ∙ e) in
      let (backend, handles) = mark_dirty_manual path (record h { backend = b }) in
      let at' = ap (λ r. r.1) same ∙ at in
      (
        done,
        ap (λ g. g.backend.os) at' ∙ ap (λ c. c.os) backend,
        ap (λ g. g.file_handles) at' ∙ handles,
      )

  -- What `read_file-write_content` shows of a write to the working tree.
  abbrev pub IsReadBack : Text → Bytes → O.State → Type 0
  IsReadBack path content s =
      (written path content s).0 ≡ ok tt
      → (read_file O config path (written path content s).1).0 ≡ ok content

  module _ (fh offset : ℕ) (bytes : Bytes) (h : FuseHandler O G) (file : OpenFile)
      (writable : config.read_only ≡ false)
      (opened : Handles.get fh h.file_handles ≡ some file) where
    abbrev new_content : Bytes
    new_content = splice offset bytes (content_before O G digest config file.path h)

    write_lem :
        (n : ℕ)
        → (write O G digest config fh offset bytes h).0 ≡ ok n
        → ((store O G digest config file.path new_content h).0 ≡ ok tt)
          × ((write O G digest config fh offset bytes h).1
              ≡ (store O G digest config file.path new_content h).1)
    unfolding write
    write_lem n e =
        let run = store O G digest config file.path new_content h in
        let same : write O G digest config fh offset bytes h
            ≡ continue run.0 (λ _ g. (ok (length bytes % 2 ^ 32), g)) run.1 =
          rw (writable, opened) refl in
        let (done, at) =
          pure_done run.0 run.1 (length bytes % 2 ^ 32) n (sym (ap (λ r. r.0) same) ∙ e) in
        (done, ap (λ r. r.1) same ∙ at)

    read_lem :
        (size : ℕ) (content : Bytes) (g : FuseHandler O G)
        → Handles.get fh g.file_handles ≡ some file
        → (read_file O config file.path g.backend.os).0 ≡ ok content
        → (read O G digest config fh offset size g).0 ≡ ok (slice offset size content)
    unfolding read
    read_lem size content g there e = rw (there, e) refl

    -- In a mount that is not read-only and does not commit by itself: after a write through an open
    -- handle that succeeded, a read through the handle of as many bytes at the same offset gives
    -- them back, when the backend reads back the content that the write stores.
    pub read-write :
        (n : ℕ)
        → IsReadBack file.path new_content h.backend.os
        → (write O G digest config fh offset bytes h).0 ≡ ok n
        → (read O G digest config fh offset
            (length bytes)
            (write O G digest config fh offset bytes h).1).0
          ≡ ok bytes
    read-write n back e =
        let (done, at) = write_lem n e in
        let (stored, os, handles) = store_manual file.path new_content h done in
        let g = (write O G digest config fh offset bytes h).1 in
        let there : Handles.get fh g.file_handles ≡ some file =
          ap (λ k. Handles.get fh k.file_handles) at ∙ ap (Handles.get fh) handles ∙ opened in
        let found : (read_file O config file.path g.backend.os).0 ≡ ok new_content =
          ap (λ k. (read_file O config file.path k.backend.os).0) at
          ∙ ap (λ t. (read_file O config file.path t).0) os
          ∙ back stored in
        read_lem (length bytes) new_content g there found
        ∙ ap ok (slice-splice offset bytes (content_before O G digest config file.path h))
