-- ===== src/BlobStore/Addressing.antt =====
-- Content addressing: what `store_bytes` stored is read under the hash it returned.
use gitoxide_fs.Base.{
  ◌≡◌, refl, ap, true, false, ◌∙◌, sym, Bool-cases, ◌++◌, inl, inr, arith, length, ◌%◌, ◌^◌,
}
use mathlib.Core.Path.{subst}
use gitoxide_fs.Base.Text.{Text, Bytes, codes}
use gitoxide_fs.Base.Paths.{parent}
use gitoxide_fs.Error.{Error, io}
use gitoxide_fs.Error.Monad.{Exec, continue, pure, ◌>>◌, Result, ok, err, map_err}
use gitoxide_fs.Os.{Os}
use gitoxide_fs.Os.Laws.{IsLawful, map_err-ok}
use gitoxide_fs.BlobStore.Pointer.{PointerFile}
use gitoxide_fs.BlobStore.Store.{
  hash_bytes, blob_path, create_parent, write_new, store_bytes, read_blob, not_found_or_io,
}

-- A call that only fails or goes on, and a value behind it.
module _ {S A : Type 0} (v p : A) where
  last_step :
      (r : Result Error Unit × S)
      → (continue r.0 (λ _. pure v) r.1).0 ≡ ok p
      → (r.0 ≡ ok tt) × (v ≡ p) × ((continue {E = Error} r.0 (λ _. pure v) r.1).1 ≡ r.1)
  last_step (ok _, s) h = (refl, ground arith, refl)
  last_step (err e, s) h = cc

  two_steps :
      (n : Exec S Error Unit) (r : Result Error Unit × S)
      → (continue r.0 (λ _. n >> pure v) r.1).0 ≡ ok p
      → ((n r.1).0 ≡ ok tt) × (v ≡ p) × ((continue r.0 (λ _. n >> pure v) r.1).1 ≡ (n r.1).1)
  two_steps n (ok _, s) h = last_step (n s) h
  two_steps n (err e, s) h = cc

-- The pointer that stands for the content.
abbrev pub stored_pointer : (Bytes → Bytes) → Text → Bytes → PointerFile
stored_pointer digest name content = record {
  sha256 = hash_bytes digest content;
  size = length content % 2 ^ 64;
  original = name;
}

module _ (O : Os) (lawful : IsLawful O) where
  write_new_present :
      (path : Text) (content : Bytes) (s : O.State)
      → O.exists path s ≡ true
      → write_new O path content s ≡ (ok tt, s)
  unfolding write_new
  write_new_present path content s e = rw e

  write_new_absent :
      (path : Text) (content : Bytes) (s : O.State)
      → O.exists path s ≡ false
      → write_new O path content s
        ≡ (map_err io (O.write path content s).0, (O.write path content s).1)
  unfolding write_new
  write_new_absent path content s e = rw e

  -- The bytes at the path are the content, whether they were written now or stood there before.
  write_new-read :
      (path : Text) (content : Bytes) (s : O.State)
      → (O.exists path s ≡ true → O.read path s ≡ ok content)
      → (write_new O path content s).0 ≡ ok tt
      → O.read path (write_new O path content s).1 ≡ ok content
  write_new-read path content s there h = elim (Bool-cases (O.exists path s)) [
    | inl e ↦ rw (write_new_present path content s e, there e)
    | inr e ↦
        ap (λ x. O.read path x.1) (write_new_absent path content s e)
        ∙ lawful.read-write path content s (
            map_err-ok (O.write path content s).0
              (sym (ap (λ x. x.0) (write_new_absent path content s e)) ∙ h))
  ]

  module _ (digest : Bytes → Bytes) (root name : Text) (content : Bytes) (s : O.State)
      (p : PointerFile)
      (intact : (let path = blob_path root (hash_bytes digest content) in
        let s' = (create_parent O (parent path) s).1 in
        O.exists path s' ≡ true → O.read path s' ≡ ok content))
      (h : (store_bytes O digest root name content s).0 ≡ ok p) where
    pub store_bytes-stored :
        (O.read
            (blob_path root (hash_bytes digest content))
            (store_bytes O digest root name content s).1
          ≡ ok content)
        × (stored_pointer digest name content ≡ p)
    unfolding store_bytes
    store_bytes-stored =
        let path = blob_path root (hash_bytes digest content) in
        let made = create_parent O (parent path) s in
        let stored =
          two_steps (stored_pointer digest name content) p (write_new O path content) made h in
        (ap (O.read path) stored.2 ∙ write_new-read path content made.1 intact stored.0, stored.1)

    -- On a lawful operating system: when `store_bytes` succeeds, and a file that already stood at
    -- the path of the blob held the same content, the pointer it returns names the content's
    -- hash, its length as a `u64` and the given name, and `read_blob` of that hash returns the
    -- content.
    pub store_bytes-read_blob :
        (read_blob O root p.sha256 (store_bytes O digest root name content s).1 ≡ ok content)
        × (p.sha256 ≡ hash_bytes digest content)
        × (p.size ≡ length content % 2 ^ 64)
        × (p.original ≡ name)
    unfolding read_blob
    store_bytes-read_blob =
        let s' = (store_bytes O digest root name content s).1 in
        let message = codes "blob '" ++ (hash_bytes digest content ++ codes "' not found") in
        (
          subst (λ q. read_blob O root q.sha256 s' ≡ ok content) store_bytes-stored.1
              (ap (map_err (not_found_or_io message)) store_bytes-stored.0),
          sym (ap (λ q. q.sha256) store_bytes-stored.1),
          sym (ap (λ q. q.size) store_bytes-stored.1),
          sym (ap (λ q. q.original) store_bytes-stored.1),
        )
