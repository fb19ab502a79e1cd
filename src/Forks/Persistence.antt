-- ===== src/Forks/Persistence.antt =====
-- The map of forks of src/fork.rs on disk: what `persist` writes is what `ForkManager::new` loads,
-- so that a manager in another process goes on where the last one ended.
use gitoxide_fs.Base.{nat_eq, list_eq, ◌≡◌, refl, some, All, arith}
use gitoxide_fs.Base.Text.{Text, Bytes}
use gitoxide_fs.Base.Utf8.{IsScalar, encode, decode-encode}
use gitoxide_fs.Base.Paths.{parent}
use gitoxide_fs.Base.Dict.{lookup}
use gitoxide_fs.Error.{Error}
use gitoxide_fs.Error.Monad.{Result, ok, err, map_err, continue, pure}
use gitoxide_fs.Error.Runs.{outcomes, map_err_ok}
use gitoxide_fs.Config.{Config}
use gitoxide_fs.Os.{Os}
use gitoxide_fs.Os.Laws
use gitoxide_fs.Gix.{Gix}
use gitoxide_fs.Backend.Refs.{read_to_string, text_of, create_parent_dirs, write_file_of}
use gitoxide_fs.Forks.{
  Forks, Json, ForkManager, Manage, metadata_path, load_from_disk, new, persist, on_files,
}
use gitoxide_fs.Forks.Merging.{}

-- What `serde_json` documents: the text of a map is read back as a map with the same entries.
pub record IsLawful (json : Json) : Type 0 where
  pub loaded : Forks → Text → Forks
  pub from_str-to_string_pretty :
      (d : Forks) (text : Text)
      → json.to_string_pretty d ≡ ok text
      → json.from_str text ≡ some (loaded d text)
  pub lookup-loaded :
      (d : Forks) (text name : Text)
      → json.to_string_pretty d ≡ ok text
      → lookup name (loaded d text) ≡ lookup name d
  pub to_string_pretty-IsScalar :
      (d : Forks) (text : Text) → json.to_string_pretty d ≡ ok text → All IsScalar text

module _ (O : Os) (G : Gix) (json : Json) (digest : Bytes → Bytes) (config : Config)
    (disk : Laws.IsLawful O) (lawful : IsLawful json) where
  -- A new manager on the same disk has the same forks.
  abbrev pub IsSaved : ForkManager O G → Type 0
  IsSaved f =
      (name : Text) → lookup name (new O G json digest config f.backend).forks ≡ lookup name f.forks

  abbrev pub Saves : {A : Type 0} → Manage O G json digest config A → Type 0
  Saves {A} m = (f : ForkManager O G) (a : A) → (m f).0 ≡ ok a → IsSaved (m f).1

  read-written :
      (d : Forks) (path text : Text) (s : O.State)
      → json.to_string_pretty d ≡ ok text
      → (O.write path (encode text) s).0 ≡ ok tt
      → read_to_string O path (O.write path (encode text) s).1 ≡ ok text
  unfolding read_to_string text_of
  read-written d path text s printed written =
      rw
        (
          disk.read-write path (encode text) s written,
          decode-encode text (lawful.to_string_pretty-IsScalar d text printed),
        )
        refl

  load-written :
      (d : Forks) (text : Text) (s : O.State)
      → json.to_string_pretty d ≡ ok text
      → (O.write (metadata_path config.repo_path) (encode text) s).0 ≡ ok tt
      → load_from_disk O G json digest config
          (O.write (metadata_path config.repo_path) (encode text) s).1
        ≡ some (lawful.loaded d text)
  unfolding load_from_disk
  load-written d text s printed written = ground (
    arith,
    read-written d (metadata_path config.repo_path) text s printed written,
    lawful.from_str-to_string_pretty d text printed,
  )

  pub persist-IsSaved : Saves (persist O G json digest config)
  unfolding persist new
  persist-IsSaved f a =
      outcomes (dirs f).0 _ (dirs f).1 Saved
        (λ _ _.
          outcomes (map_err _ (json.to_string_pretty f.forks)) write (dirs f).1 Saved
            (λ text printed done name.
              let e = map_err_ok _ (json.to_string_pretty f.forks) text printed in
              let s = (dirs f).1.backend.os in
              rw (load-written f.forks text s e (Laws.map_err-ok _ done))
                (lawful.lookup-loaded f.forks text name e))
            (λ _ _ h. cc))
        (λ _ _ h. cc)
    where
      dirs : Manage O G json digest config Unit
      dirs =
          on_files O G json digest config
            (create_parent_dirs O (parent (metadata_path config.repo_path)))

      write : Text → Manage O G json digest config Unit
      write text =
          on_files O G json digest config
            (write_file_of O (metadata_path config.repo_path) (encode text))

      Saved : Result Error Unit × ForkManager O G → Type 0
      Saved r = r.0 ≡ ok a → IsSaved r.1

  -- A step of a run that saves in the end.
  pub then-IsSaved :
      {A B : Type 0} (r : Result Error A) (k : A → Manage O G json digest config B)
      (g : ForkManager O G) (b : B)
      → ((x : A) → r ≡ ok x → (k x g).0 ≡ ok b → IsSaved (k x g).1)
      → (continue r k g).0 ≡ ok b
      → IsSaved (continue r k g).1
  then-IsSaved (ok x) k g b h done = h x refl done
  then-IsSaved (err e) k g b h done = cc

  -- The last step, and its result.
  pub last-IsSaved :
      {B : Type 0} (g : ForkManager O G) (b c : B)
      → (continue
          (persist O G json digest config g).0
          (λ _. pure c)
          (persist O G json digest config g).1).0
        ≡ ok b
      → IsSaved
          (continue
            (persist O G json digest config g).0
            (λ _. pure c)
            (persist O G json digest config g).1).1
  last-IsSaved g b c =
      then-IsSaved (persist O G json digest config g).0 (λ _. pure c)
        (persist O G json digest config g).1 b (λ _ done _. persist-IsSaved g tt done)
