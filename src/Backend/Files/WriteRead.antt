-- ===== src/Backend/Files/WriteRead.antt =====
-- What `write_file` stored is what `read_file` returns.
use gitoxide_fs.Base.{◌≡◌, refl, ap, sym, ◌∙◌, Bool, true, false, none, ◌++◌, if◌then◌else◌, not}
use mathlib.Core.Path.{subst}
use gitoxide_fs.Base.Text.{Text, Bytes, codes}
use gitoxide_fs.Base.Paths.{parent, file_name}
use gitoxide_fs.Error.{Error, io, is_a_directory, permission_denied, IoError}
use gitoxide_fs.Error.Monad.{Result, ok, err, map_err, pure, ensure, continue, ◌>>◌}
use gitoxide_fs.Error.Runs.{two_checks, three_checks}
use gitoxide_fs.Config.{Config}
use gitoxide_fs.Os.{Os}
use gitoxide_fs.Os.Laws.{IsLawful}
use gitoxide_fs.Validate.{validate_file_path, is_git_internal}
use gitoxide_fs.BlobStore.Pointer.{parse_pointer, to_bytes}
use gitoxide_fs.BlobStore.RoundTrip.{IsPointer, parse_pointer-to_bytes}
use gitoxide_fs.BlobStore.Store.{
  not_found_or_io, store_bytes, read_blob, blob_path, hash_bytes, create_parent,
}
use gitoxide_fs.BlobStore.Addressing.{store_bytes-stored, stored_pointer}
use gitoxide_fs.Backend.{call, full_path, check_writable, check_file_path, check_not_git}
use gitoxide_fs.Backend.Pointers.{maybe_pointerize_content, pointerize, stored_form, name_or, stays}
use gitoxide_fs.Backend.Files.{
  read_file, read_full, write_full, refuse_dir, refuse_orphan, resolve, resolve_read, write_content,
  store_content, drop_previous, previous_pointer,
}

ensured : (b : Bool) (e : Error) → ensure b e ≡ ok tt → b ≡ true
ensured true e h = refl
ensured false e h = cc

ok_inj : {A : Type 0} (a b : A) → ◌≡◌ {A = Result Error A} (ok a) (ok b) → a ≡ b
ok_inj a b h = cc

map_err-ok_inv :
    (f : IoError → Error) (r : Result IoError Bytes) (b : Bytes) → map_err f r ≡ ok b → r ≡ ok b
map_err-ok_inv f (ok a) b h = ap ok (ok_inj a b h)
map_err-ok_inv f (err e) b h = cc

-- A call of `std::fs` at the end.
last_call :
    {S : Type 0} (w : Result IoError Unit × S)
    → (continue (map_err io w.0) (λ _ u. (ok tt, u)) w.1).0 ≡ ok tt
    → (w.0 ≡ ok tt) × ((continue {E = Error} (map_err io w.0) (λ _ u. (ok tt, u)) w.1).1 ≡ w.1)
last_call (ok _, s) h = (refl, refl)
last_call (err e, s) h = cc

-- A value that is computed behind a step.
last_value :
    {S A B : Type 0} (g : A → B) (b : B) (r : Result Error A × S)
    → (continue r.0 (λ a. pure (g a)) r.1).0 ≡ ok b
    → (a : A) × (r.0 ≡ ok a)
      × (g a ≡ b)
      × ((continue {E = Error} r.0 (λ a. pure (g a)) r.1).1 ≡ r.1)
last_value g b (ok a, s) h = (a, refl, ok_inj (g a) b h, refl)
last_value g b (err e, s) h = cc

module _ (O : Os) (lawful : IsLawful O) (config : Config) (digest : Bytes → Bytes) (path : Text)
    (content : Bytes) (s : O.State) where
  -- A write that succeeds passed the checks and stored the content.
  write_content-stored :
      (write_content O config digest path content s).0 ≡ ok tt
      → (validate_file_path config.repo_path path ≡ ok tt)
        × (not (is_git_internal path) ≡ true)
        × (write_content O config digest path content s
            ≡ store_content O config digest path content
                (previous_pointer O config (full_path config path) s)
                s)
  unfolding write_content write_full
  write_content-stored h =
      let full = full_path config path in
      let store = store_content O config digest path content (previous_pointer O config full s) in
      let checked =
        three_checks tt (λ t. (check_writable config t).0) (λ t. (check_file_path config path t).0)
          (λ t. (check_not_git config path t).0) (write_full O config digest path content full) s
          h in
      let placed =
        two_checks tt (λ t. (refuse_dir O config path full t).0)
          (λ t. (refuse_orphan O config path (parent full) t).0) store s
          (sym (ap (λ r. r.0) checked.3) ∙ h) in
      (checked.1, ensured (not (is_git_internal path)) _ checked.2, checked.3 ∙ placed.2)

  abbrev full : Text
  full = full_path config path

  abbrev hash : Text
  hash = hash_bytes digest content

  abbrev store : Text
  store = config.performance.blob_store_path

  written :
      (m : Result Error Bytes × O.State)
      → (continue m.0 (λ b. call (O.write full b) >> drop_previous O config digest none b) m.1).0
        ≡ ok tt
      → (b : Bytes) × (m.0 ≡ ok b)
        × ((O.write full b m.1).0 ≡ ok tt)
        × ((continue m.0 (λ b. call (O.write full b) >> drop_previous O config digest none b) m.1).1
            ≡ (O.write full b m.1).1)
  unfolding drop_previous
  written (ok b, t) h = let (w, at) = last_call (O.write full b t) h in (b, refl, w, at)
  written (err e, t) h = cc

  module _
      (intact : (let blob = blob_path store hash in
        let s' = (create_parent O (parent blob) s).1 in
        O.exists blob s' ≡ true → O.read blob s' ≡ ok content))
      (apart : (b : Bytes) (t : O.State)
        → O.read (blob_path store hash) t ≡ ok content
        → O.read (blob_path store hash) (O.write full b t).1 ≡ ok content)
      (named : IsPointer (stored_pointer digest (name_or path (file_name path)) content)) where
    -- The pointer to content that was moved to the blob store is resolved to the content.
    pointerize-resolve :
        (b : Bytes)
        → (pointerize O digest config path content s).0 ≡ ok b
        → resolve O config
            (parse_pointer b)
            b
            (O.write full b (pointerize O digest config path content s).1).1
          ≡ ok content
    unfolding pointerize resolve read_blob
    pointerize-resolve b h =
        let run = store_bytes O digest store (name_or path (file_name path)) content s in
        let (p, stored, e, s_eq) = last_value (λ q. to_bytes q) b run h in
        let kept =
          store_bytes-stored O lawful digest store (name_or path (file_name path)) content s p
            intact stored in
        let v = stored_pointer digest (name_or path (file_name path)) content in
        let t = (pointerize O digest config path content s).1 in
        let message = codes "blob '" ++ (hash ++ codes "' not found") in
        ap (λ o. resolve O config o b (O.write full b t).1)
          (ap parse_pointer (sym e)
            ∙ ap (λ q. parse_pointer (to_bytes q)) (sym kept.1)
            ∙ parse_pointer-to_bytes v named)
        ∙ ap (map_err (not_found_or_io message))
            (apart b t (ap (O.read (blob_path store hash)) s_eq ∙ kept.0))

    -- What stands for the content when it is stored: the bytes themselves, or a pointer to them
    -- that is resolved once the file is written.
    stored_form-resolve :
        (small : Bool) (b : Bytes)
        → parse_pointer content ≡ none
        → (stored_form O digest config none small path content s).0 ≡ ok b
        → resolve O config
            (parse_pointer b)
            b
            (O.write full b (stored_form O digest config none small path content s).1).1
          ≡ ok content
    unfolding stored_form resolve
    stored_form-resolve true b e h =
        let same = ok_inj content b h in
        subst (λ c. resolve O config (parse_pointer c) c (O.write full c s).1 ≡ ok content) same
          (ap (λ o. resolve O config o content (O.write full content s).1) e)
    stored_form-resolve false b e h = pointerize-resolve b h

    maybe_pointerize_content-resolve :
        (b : Bytes)
        → parse_pointer content ≡ none
        → (maybe_pointerize_content O digest config path content s).0 ≡ ok b
        → resolve O config
            (parse_pointer b)
            b
            (O.write full b (maybe_pointerize_content O digest config path content s).1).1
          ≡ ok content
    unfolding maybe_pointerize_content
    maybe_pointerize_content-resolve b e =
        subst
          (λ o.
            (stored_form O digest config o (stays O digest config content) path content s).0 ≡ ok b
            → resolve O config (parse_pointer b) b
                (O.write full b
                  (stored_form O digest config o (stays O digest config content) path content
                    s).1).1
              ≡ ok content)
          (sym e) (stored_form-resolve (stays O digest config content) b e)

    -- Behind the checks: the file holds what stands for the content.
    store_content-read_full :
        parse_pointer content ≡ none
        → (store_content O config digest path content none s).0 ≡ ok tt
        → (read_full O config path full (store_content O config digest path content none s).1).0
          ≡ ok content
    unfolding store_content read_full drop_previous resolve_read
    store_content-read_full e h =
        let m = maybe_pointerize_content O digest config path content s in
        let (b, formed, wrote, at) = written m h in
        let t = (O.write full b m.1).1 in
        ap (λ u. (read_full O config path full u).0) at
        ∙ ap
            (λ d.
              if d then err (is_a_directory path) else resolve_read O config path (O.read full t) t)
            (lawful.is_dir-write full b m.1 wrote)
        ∙ ap (λ r. resolve_read O config path r t) (lawful.read-write full b m.1 wrote)
        ∙ maybe_pointerize_content-resolve b e formed

    -- On a lawful operating system: content that is not itself the text of a pointer, and that is
    -- written to a path which held no pointer before, is returned by `read_file` once the write
    -- succeeded, whether it was stored in the file or as a pointer to the blob store. It is
    -- assumed that the name on the pointer has no line break and the hash 64 digits, that a blob
    -- already stored under the hash has this content, and that writing the file does not change
    -- that blob.
    pub read_file-write_content :
        parse_pointer content ≡ none
        → previous_pointer O config full s ≡ none
        → (write_content O config digest path content s).0 ≡ ok tt
        → (read_file O config path (write_content O config digest path content s).1).0 ≡ ok content
    unfolding read_file
    read_file-write_content e fresh h =
        let (valid, not_git, run) = write_content-stored h in
        let run' = run ∙ ap (λ o. store_content O config digest path content o s) fresh in
        let u = (write_content O config digest path content s).1 in
        ap
          (λ c.
            (continue c
              (λ _ v.
                continue (check_not_git config path v).0 (λ _. read_full O config path full) v)
              u).0)
          valid
        ∙ ap
            (λ g.
              (continue (ensure g (permission_denied (codes ".git access denied")))
                (λ _. read_full O config path full) u).0)
            not_git
        ∙ ap (λ r. (read_full O config path full r.1).0) run'
        ∙ store_content-read_full e (sym (ap (λ r. r.0) run') ∙ h)
