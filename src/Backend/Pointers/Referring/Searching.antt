-- ===== src/Backend/Pointers/Referring/Searching.antt =====
-- The search for references to a blob in src/git.rs: what it finds, and that a blob that is referred
-- to is not deleted.
use mathlib.Core.Path.{subst}
use gitoxide_fs.Base.{
  ℕ, zero, suc, ◌+◌, ◌<◌, ◌≡◌, ◌≢◌, ◌↔◌, ◌⊎◌, refl, Bool, true, false, Bool-cases, Option, List, [],
  ◌∷◌, arith, All, length, is_empty, inl, inr, ◌==◌, ◌||◌, nat_eq, list_eq,
}
use gitoxide_fs.Config.{Config}
use gitoxide_fs.Base.Text.{Text, Bytes, codes}
use gitoxide_fs.Base.Paths.{path_join}
use gitoxide_fs.Error.{Error, io, IoError}
use gitoxide_fs.Error.Monad.{Result, ok, err, map_err}
use gitoxide_fs.Error.Runs.{map_err_ok}
use gitoxide_fs.Os.{Os, DirItem, EntryType, dir_type, file_type, symlink_type}
use gitoxide_fs.Backend.Pointers.{
  visit, references_found, references_read, references_in_dir, skips, content_points_to, path_max,
  repo_references_blob, cleanup_blob_if_orphaned,
}
use gitoxide_fs.Backend.Pointers.Referring.{
  IsNamed, AreNamed, path_join-length, is_empty-length, Lists, first, later, Lists-IsNamed,
  IsSearched, Refers, file, below, points_to-IsPointerTo, IsPointerTo-points_to,
}

module _ (O : Os) (sha256 : Text) (skip : Option Text) (s : O.State) where
  -- The entry is searched, and is of the kind.
  record IsHit (skipped : Bool) (t : Result Error EntryType) (kind : EntryType) (found : Type 0)
      : Type 0 where
    searched : skipped ≡ false
    type : t ≡ ok kind
    hit : found

  -- Where the search of an entry says yes, it is for the entry or for what is behind it.
  visit_yes :
      (skipped : Bool) (t : Result Error EntryType) (deep : Result Error Bool) (refers : Bool)
      (others : Result Error Bool)
      → visit O skipped t deep refers others ≡ ok true
      → (others ≡ ok true)
        ⊎ (IsHit skipped t dir_type (deep ≡ ok true) ⊎ IsHit skipped t file_type (refers ≡ true))
  unfolding visit
  visit_yes true t deep refers others h = inl h
  visit_yes false (err e) deep refers others h = cc
  visit_yes false (ok dir_type) (err e) refers others h = cc
  visit_yes false (ok dir_type) (ok true) refers others h =
      inr (inl (record { searched = refl; type = refl; hit = refl }))
  visit_yes false (ok dir_type) (ok false) refers others h = inl h
  visit_yes false (ok symlink_type) deep refers others h = inl h
  visit_yes false (ok file_type) deep true others h =
      inr (inr (record { searched = refl; type = refl; hit = refl }))
  visit_yes false (ok file_type) deep false others h = inl h

  -- Where it says no, it does so of everything.
  visit_no :
      (skipped : Bool) (t : Result Error EntryType) (deep : Result Error Bool) (refers : Bool)
      (others : Result Error Bool)
      → visit O skipped t deep refers others ≡ ok false
      → (others ≡ ok false)
        × (IsHit skipped t dir_type Unit → deep ≡ ok false)
        × (IsHit skipped t file_type Unit → refers ≡ false)
  unfolding visit
  visit_no true t deep refers others h =
      (h, (λ k. let e = k.searched in cc), λ k. let e = k.searched in cc)
  visit_no false (err e) deep refers others h = cc
  visit_no false (ok dir_type) (err e) refers others h = cc
  visit_no false (ok dir_type) (ok true) refers others h = cc
  visit_no false (ok dir_type) (ok false) refers others h =
      (h, (λ k. refl), λ k. let e = k.type in ground arith)
  visit_no false (ok symlink_type) deep refers others h =
      (h, (λ k. let e = k.type in ground arith), λ k. let e = k.type in ground arith)
  visit_no false (ok file_type) deep true others h = cc
  visit_no false (ok file_type) deep false others h =
      (h, (λ k. let e = k.type in ground arith), λ k. refl)

  skipped_iff : (a b : Bool) → (a || b) ≡ false → (a ≡ false) × (b ≡ false)
  skipped_iff a b h = ground arith

  module _ (f : Text → Result Error Bool) (dir : Text) (items : List (Result IoError DirItem))
      (there : O.exists dir s ≡ true) (listing : O.read_dir dir s ≡ ok items) where
    listed-IsSearched :
        (entry : DirItem)
        → Lists entry items
        → (entry.file_name == codes ".git" || skips skip (path_join dir entry.file_name)) ≡ false
        → IsSearched O sha256 skip s dir entry
    listed-IsSearched entry l h =
        let (outside, keeps) = skipped_iff (entry.file_name == codes ".git") _ h in
        record {
          items = items;
          there = there;
          listing = listing;
          lists = l;
          outside_git = outside;
          kept = keeps;
        }

    -- What the loop over the entries finds is there.
    references_found-Refers :
        ((p : Text) → f p ≡ ok true → Refers O sha256 skip s p)
        → (rest : List (Result IoError DirItem))
        → ((entry : DirItem) → Lists entry rest → Lists entry items)
        → references_found O f sha256 skip dir s rest ≡ ok true
        → Refers O sha256 skip s dir
    unfolding references_found
    references_found-Refers sound [] inside h = cc
    references_found-Refers sound (err e ∷ rest) inside h = cc
    references_found-Refers sound (ok entry ∷ rest) inside h =
        let path = path_join dir entry.file_name in
        let here = inside entry (first rest) in
        elim (visit_yes (entry.file_name == codes ".git" || skips skip path)
          (map_err io entry.entry_type) (f path) (content_points_to O sha256 (O.read path s))
          (references_found O f sha256 skip dir s rest) h) [
            | inl more ↦
                references_found-Refers sound rest (λ e l. inside e (later (ok entry) rest l)) more
            | inr (inl k) ↦
                below dir entry (listed-IsSearched entry here k.searched)
                  (map_err_ok io entry.entry_type dir_type k.type) (sound path k.hit)
            | inr (inr k) ↦
                file dir entry (listed-IsSearched entry here k.searched)
                  (map_err_ok io entry.entry_type file_type k.type)
                  (points_to-IsPointerTo O sha256 skip s (O.read path s) k.hit)
          ]

  -- What the loop does not find is not there.
  references_found-no :
      (f : Text → Result Error Bool) (dir : Text) (entry : DirItem)
      (rest : List (Result IoError DirItem))
      → Lists entry rest
      → references_found O f sha256 skip dir s rest ≡ ok false
      → let path = path_join dir entry.file_name in
        let skipped = entry.file_name == codes ".git" || skips skip path in
        (IsHit skipped (map_err io entry.entry_type) dir_type Unit → f path ≡ ok false)
        × (IsHit skipped (map_err io entry.entry_type) file_type Unit
            → content_points_to O sha256 (O.read path s) ≡ false)
  unfolding references_found
  references_found-no f dir entry rest (first others) h =
      let path = path_join dir entry.file_name in
      let (more, deep, own) =
        visit_no (entry.file_name == codes ".git" || skips skip path) (map_err io entry.entry_type)
          (f path) (content_points_to O sha256 (O.read path s))
          (references_found O f sha256 skip dir s others) h in
      (deep, own)
  references_found-no f dir entry rest (later (err e) others l) h = cc
  references_found-no f dir entry rest (later (ok x) others l) h =
      let path = path_join dir x.file_name in
      references_found-no f dir entry others l
        (visit_no (x.file_name == codes ".git" || skips skip path) (map_err io x.entry_type)
          (f path) (content_points_to O sha256 (O.read path s))
          (references_found O f sha256 skip dir s others) h).0

  references_read-Refers :
      (f : Text → Result Error Bool) (dir : Text)
      → O.exists dir s ≡ true
      → ((p : Text) → f p ≡ ok true → Refers O sha256 skip s p)
      → (r : Result IoError (List (Result IoError DirItem))) → O.read_dir dir s ≡ r
      → references_read O f sha256 skip dir s r ≡ ok true
      → Refers O sha256 skip s dir
  unfolding references_read
  references_read-Refers f dir there sound (err e) listing h = cc
  references_read-Refers f dir there sound (ok items) listing h =
      references_found-Refers f dir items there listing sound items (λ entry l. l) h

  references_in_dir-Refers :
      (fuel : ℕ) (dir : Text)
      → references_in_dir O fuel sha256 skip dir s ≡ ok true
      → Refers O sha256 skip s dir
  unfolding references_in_dir
  references_in_dir-Refers zero dir h = cc
  references_in_dir-Refers (suc fuel) dir h = elim (Bool-cases (O.exists dir s)) [
    | inl there ↦
        references_read-Refers (λ p. references_in_dir O fuel sha256 skip p s) dir there
          (references_in_dir-Refers fuel) (O.read_dir dir s) refl (rw there at h)
    | inr missing ↦ let no : ok false ≡ ok true = rw missing at h in cc
  ]

  module _ (short : (p : Text) → path_max < length p → O.exists p s ≡ false)
      (named : (p : Text) → AreNamed (O.read_dir p s)) where
    -- The path of an entry is longer than that of its directory.
    longer :
        (dir : Text) (entry : DirItem)
        → IsSearched O sha256 skip s dir entry
        → length dir < length (path_join dir entry.file_name)
    longer dir entry q =
        let all : All IsNamed q.items = subst AreNamed q.listing (named dir) in
        let (a, b) = Lists-IsNamed q.lists all in path_join-length dir entry.file_name a b

    step_no :
        (fuel : ℕ) (dir : Text) (entry : DirItem) (q : IsSearched O sha256 skip s dir entry)
        → references_in_dir O (suc fuel) sha256 skip dir s ≡ ok false
        → references_found O
            (λ p. references_in_dir O fuel sha256 skip p s)
            sha256
            skip
            dir
            s
            q.items
          ≡ ok false
    unfolding references_in_dir references_read
    step_no fuel dir entry q h = rw (q.there, q.listing) at h

    hit_at :
        (dir : Text) (entry : DirItem) (q : IsSearched O sha256 skip s dir entry) (kind : EntryType)
        → entry.entry_type ≡ ok kind
        → IsHit
            (entry.file_name == codes ".git" || skips skip (path_join dir entry.file_name))
            (map_err io entry.entry_type)
            kind
            Unit
    hit_at dir entry q kind e = record {
      searched = rw (q.outside_git, q.kept) refl;
      type = rw e refl;
      hit = tt;
    }

    -- With enough levels a search does not miss what is there.
    references_in_dir-no :
        (fuel : ℕ) {dir : Text}
        → Refers O sha256 skip s dir
        → path_max < fuel + length dir
        → references_in_dir O fuel sha256 skip dir s ≢ ok false
    references_in_dir-no zero (file dir entry q e p) enough h =
        let no : O.exists dir s ≡ false = short dir (omega (arith, enough)) in
        let yes = q.there in cc
    references_in_dir-no zero (below dir entry q e r) enough h =
        let no : O.exists dir s ≡ false = short dir (omega (arith, enough)) in
        let yes = q.there in cc
    references_in_dir-no (suc fuel) (file dir entry q e p) enough h =
        let found =
          references_found-no (λ p. references_in_dir O fuel sha256 skip p s) dir entry q.items
            q.lists (step_no fuel dir entry q h) in
        let no = found.1 (hit_at dir entry q file_type e) in
        let yes =
          IsPointerTo-points_to O sha256 skip s (O.read (path_join dir entry.file_name) s) p in
        cc
    references_in_dir-no (suc fuel) (below dir entry q e r) enough h =
        let found =
          references_found-no (λ p. references_in_dir O fuel sha256 skip p s) dir entry q.items
            q.lists (step_no fuel dir entry q h) in
        references_in_dir-no fuel r (omega (arith, enough, longer dir entry q))
          (found.0 (hit_at dir entry q dir_type e))

    module _ (digest : Bytes → Bytes) (config : Config)
        (rooted : is_empty config.repo_path ≡ false) where
      enough_levels : path_max < path_max + length config.repo_path
      enough_levels = omega (arith, is_empty-length config.repo_path rooted)

      -- When `repo_references_blob` answers, it is right: it says yes exactly if some file of the
      -- working tree, at any depth, is a pointer to the blob, those called `.git`, those below a
      -- directory called `.git`, and the file to skip aside. It is assumed that the path of the
      -- repository is not empty, that no path longer than `path_max` exists, and that the entries
      -- of a directory have names.
      pub repo_references_blob_iff :
          (answer : Bool)
          → repo_references_blob O digest config sha256 skip s ≡ ok answer
          → (answer ≡ true) ↔ Refers O sha256 skip s config.repo_path
      unfolding repo_references_blob
      repo_references_blob_iff true h =
          ((λ e. references_in_dir-Refers path_max config.repo_path h), λ r. refl)
      repo_references_blob_iff false h =
          ((λ e. cc), λ r. absurd (references_in_dir-no path_max r enough_levels h))

      -- A blob that some file of the working tree points to, which is not the file to skip, stays:
      -- `cleanup_blob_if_orphaned` leaves the disk as it is, whether the search for the pointer
      -- comes to its end or fails on the way. The assumptions are those of the search.
      pub cleanup_blob_if_orphaned_kept :
          Refers O sha256 skip s config.repo_path
          → (cleanup_blob_if_orphaned O digest config sha256 skip s).1 ≡ s
      unfolding cleanup_blob_if_orphaned
      cleanup_blob_if_orphaned_kept r =
          split (repo_references_blob O digest config sha256 skip s) refl
        where
          split :
              (a : Result Error Bool)
              → repo_references_blob O digest config sha256 skip s ≡ a
              → (cleanup_blob_if_orphaned O digest config sha256 skip s).1 ≡ s
          split (err e) h = rw (h, cleanup_blob_if_orphaned) refl
          split (ok true) h = rw (h, cleanup_blob_if_orphaned) refl
          split (ok false) h = let no = (repo_references_blob_iff false h).1 r in cc
