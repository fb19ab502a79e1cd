-- ===== src/Gix/Laws.antt =====
-- What the theorems assume of the object store: what was written is found, and what was there
-- stays.
use gitoxide_fs.Base.{◌≡◌, some}
use gitoxide_fs.Base.Utf8.{encode}
use gitoxide_fs.Error.Monad.{ok}
use gitoxide_fs.Gix.{Gix, Object}

pub record IsLawful (G : Gix) : Type 0 where
  pub find_object-write_object :
      (x : Object G.ObjectId) (s : G.Store) (id : G.ObjectId)
      → (G.write_object x s).0 ≡ ok id
      → G.find_object id (G.write_object x s).1 ≡ ok x
  pub find_object-kept :
      (x y : Object G.ObjectId) (s : G.Store) (id : G.ObjectId)
      → G.find_object id s ≡ ok y
      → G.find_object id (G.write_object x s).1 ≡ ok y
  pub from_hex-to_hex : (id : G.ObjectId) → G.from_hex (encode (G.to_hex id)) ≡ some id
