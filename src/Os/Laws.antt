-- ===== src/Os/Laws.antt =====
-- What the theorems assume of the operating system: a file that was written is there and is read
-- back, and what was removed is gone.
use gitoxide_fs.Base.{◌≡◌, refl, true, false}
use gitoxide_fs.Base.Text.{Text, Bytes}
use gitoxide_fs.Error.{io, IoError}
use gitoxide_fs.Error.Monad.{Result, ok, err, map_err}
use gitoxide_fs.Os.{Os}

pub record IsLawful (O : Os) : Type 0 where
  pub read-write :
      (p : Text) (b : Bytes) (s : O.State)
      → (O.write p b s).0 ≡ ok tt
      → O.read p (O.write p b s).1 ≡ ok b
  pub exists-write :
      (p : Text) (b : Bytes) (s : O.State)
      → (O.write p b s).0 ≡ ok tt
      → O.exists p (O.write p b s).1 ≡ true
  pub is_dir-write :
      (p : Text) (b : Bytes) (s : O.State)
      → (O.write p b s).0 ≡ ok tt
      → O.is_dir p (O.write p b s).1 ≡ false
  pub exists-remove_file :
      (p : Text) (s : O.State)
      → (O.remove_file p s).0 ≡ ok tt
      → O.exists p (O.remove_file p s).1 ≡ false
  -- Making a directory leaves the content of every file alone.
  pub read-create_dir_all :
      (d p : Text) (b : Bytes) (s : O.State)
      → O.read p s ≡ ok b
      → O.read p (O.create_dir_all d s).1 ≡ ok b
  pub exists-read : (p : Text) (b : Bytes) (s : O.State) → O.read p s ≡ ok b → O.exists p s ≡ true

pub map_err-ok : (r : Result IoError Unit) → map_err io r ≡ ok tt → r ≡ ok tt
map_err-ok (ok _) h = refl
map_err-ok (err e) h = cc
