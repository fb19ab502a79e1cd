-- ===== src/Backend/Refs/Branches.antt =====
-- What the references of a repository hold after they were written.
use gitoxide_fs.Base.{
  ℕ, ◌≡◌, refl, ap, sym, ◌∙◌, Bool, true, Bool-cases, Option, none, some, [], ◌∷◌, ◌++◌, arith, All,
  inl, inr,
}
use gitoxide_fs.Base.Text.{
  Text, codes, newline, trim, is_whitespace, drop_while, drop_end_while, strip_prefix,
}
use gitoxide_fs.Base.Paths.{path_join, parent}
use gitoxide_fs.Base.Utf8.{encode, IsScalar, decode-encode}
use gitoxide_fs.Error.{Error, git, not_found, already_exists}
use gitoxide_fs.Error.Runs.{taken, taken_else, second_step}
use gitoxide_fs.Error.Monad.{ok, ◌>>◌}
use gitoxide_fs.Os.{Os}
use gitoxide_fs.Os.Laws.{IsLawful, map_err-ok}
use gitoxide_fs.Gix.{Gix}
use gitoxide_fs.Backend.Refs.{
  invalid_commit_id, git_dir, branch_path, ref_line, read_to_string, write_file_of, current_branch,
  checkout_branch, branch_commit_oid, update_branch, create_branch_at, create_ref,
  create_parent_dirs, text_of, from_utf8, trimmed, branch_of, branch_in, short_name, create_from,
  create_branch, head_commit_oid,
}

module _ (p : ℕ → Bool) (x : ℕ) (h : p x ≡ true) where
  drop_end_while-append : (s : Text) → drop_end_while p (s ++ x ∷ []) ≡ drop_end_while p s
  unfolding drop_end_while
  drop_end_while-append [] = rw h
  drop_end_while-append (a ∷ s) = rw (drop_end_while-append s)

  drop_both-append :
      (s : Text) → drop_end_while p (drop_while p (s ++ x ∷ [])) ≡ drop_end_while p (drop_while p s)
  unfolding drop_while drop_end_while
  drop_both-append [] = rw h
  drop_both-append (a ∷ s) = elim (Bool-cases (p a)) [
    | inl e ↦ rw (e, drop_both-append s)
    | inr e ↦ rw (e, drop_end_while-append s)
  ]

trim_line : (t : Text) → trim (t ++ newline ∷ []) ≡ trim t
unfolding trim is_whitespace
trim_line t = drop_both-append is_whitespace newline refl t

All-append : (s t : Text) → All IsScalar s → All IsScalar t → All IsScalar (s ++ t)
All-append [] t h k = k
All-append (c ∷ s) t h k = (h.0, All-append s t h.1 k)

strip_prefix-append : (p s : Text) → strip_prefix (p ++ s) p ≡ some s
unfolding strip_prefix
strip_prefix-append [] s = refl
strip_prefix-append (c ∷ p) s = ground (arith, strip_prefix-append p s)

branch_of_lem : (name : Text) → branch_of (some (codes "refs/heads/" ++ name)) ≡ ok name
unfolding branch_of
branch_of_lem name =
    ap (λ o. ok (short_name (codes "refs/heads/" ++ name) o))
      (strip_prefix-append (codes "refs/heads/") name)

branch_in_line :
    (name : Text)
    → trim (codes "ref: refs/heads/" ++ name) ≡ codes "ref: refs/heads/" ++ name
    → branch_in (ok ((codes "ref: refs/heads/" ++ name) ++ newline ∷ [])) ≡ ok name
unfolding branch_in branch_of
branch_in_line name plain =
    ap (λ t. branch_of (strip_prefix t (codes "ref: ")))
      (trim_line (codes "ref: refs/heads/" ++ name) ∙ plain)
    ∙ ap branch_of (strip_prefix-append (codes "ref: ") (codes "refs/heads/" ++ name))
    ∙ branch_of_lem name

module _ (O : Os) (lawful : IsLawful O) where
  -- A line of text that was written is read back.
  read_to_string-write :
      (path t : Text) (s : O.State)
      → All IsScalar t
      → (write_file_of O path (ref_line t) s).0 ≡ ok tt
      → read_to_string O path (write_file_of O path (ref_line t) s).1 ≡ ok (t ++ newline ∷ [])
  unfolding read_to_string text_of
  read_to_string-write path t s scalars h =
      ap text_of
        (lawful.read-write path (ref_line t) s (map_err-ok (O.write path (ref_line t) s).0 h))
      ∙ ap from_utf8
          (decode-encode (t ++ newline ∷ []) (All-append t (newline ∷ []) scalars (ground arith)))

  -- A commit that was written to the reference of a branch is the branch's commit.
  branch_commit_oid-write :
      (repo_path name t : Text) (s : O.State)
      → All IsScalar t
      → (write_file_of O (branch_path repo_path name) (ref_line t) s).0 ≡ ok tt
      → branch_commit_oid O repo_path name
          (write_file_of O (branch_path repo_path name) (ref_line t) s).1
        ≡ ok (trim t)
  unfolding branch_commit_oid
  branch_commit_oid-write repo_path name t s scalars h =
      let path = branch_path repo_path name in
      rw (lawful.exists-write path (ref_line t) s (map_err-ok (O.write path (ref_line t) s).0 h))
        (ap trimmed (read_to_string-write path t s scalars h) ∙ ap ok (trim_line t))

  -- On a lawful operating system, for an id of Unicode characters: when `update_branch` succeeds,
  -- `branch_commit_oid` of that branch returns the new id, with white space at its ends dropped.
  pub update_branch_lem :
      (repo_path name commit_hex : Text) (s : O.State)
      → All IsScalar commit_hex
      → (update_branch O repo_path name commit_hex s).0 ≡ ok tt
      → branch_commit_oid O repo_path name (update_branch O repo_path name commit_hex s).1
        ≡ ok (trim commit_hex)
  unfolding update_branch
  update_branch_lem repo_path name commit_hex s scalars h =
      let path = branch_path repo_path name in
      let wrote =
        taken tt (not_found (codes "branch '" ++ (name ++ codes "' not found"))) s
          (write_file_of O path (ref_line commit_hex) s) (O.exists path s) h in
      ap (λ r. branch_commit_oid O repo_path name r.1) wrote
      ∙ branch_commit_oid-write repo_path name commit_hex s scalars (sym (ap (λ r. r.0) wrote) ∙ h)

  -- On a lawful operating system, for a name of Unicode characters: when `checkout_branch`
  -- succeeds, `current_branch` returns the name that was checked out, provided that `trim` leaves
  -- the line of `HEAD` as it is.
  pub current_branch-checkout_branch :
      (repo_path name : Text) (s : O.State)
      → All IsScalar name
      → trim (codes "ref: refs/heads/" ++ name) ≡ codes "ref: refs/heads/" ++ name
      → (checkout_branch O repo_path name s).0 ≡ ok tt
      → current_branch O repo_path (checkout_branch O repo_path name s).1 ≡ ok name
  unfolding checkout_branch current_branch
  current_branch-checkout_branch repo_path name s scalars plain h =
      let line = codes "ref: refs/heads/" ++ name in
      let head = path_join (git_dir repo_path) (codes "HEAD") in
      let wrote =
        taken tt (not_found (codes "branch '" ++ (name ++ codes "' not found"))) s
          (write_file_of O head (ref_line line) s) (O.exists (branch_path repo_path name) s) h in
      ap (λ r. branch_in (read_to_string O head r.1)) wrote
      ∙ ap branch_in (
          read_to_string-write head line s
            (All-append (codes "ref: refs/heads/") name (ground arith) scalars)
            (sym (ap (λ r. r.0) wrote) ∙ h))
      ∙ branch_in_line name plain

  module _ (G : Gix) (scalars : (oid : G.ObjectId) → All IsScalar (G.to_hex oid))
      (plain : (oid : G.ObjectId) → trim (G.to_hex oid) ≡ G.to_hex oid) where
    create_ref_lem :
        (repo_path name : Text) (oid : G.ObjectId) (s : O.State)
        → (create_ref O G repo_path name oid s).0 ≡ ok tt
        → branch_commit_oid O repo_path name (create_ref O G repo_path name oid s).1
          ≡ ok (G.to_hex oid)
    unfolding create_ref
    create_ref_lem repo_path name oid s h =
        let path = branch_path repo_path name in
        let line = ref_line (G.to_hex oid) in
        let made = create_parent_dirs O (parent path) s in
        let went =
          taken_else tt (already_exists (codes "branch '" ++ (name ++ codes "'"))) s
            ((create_parent_dirs O (parent path) >> write_file_of O path line) s) (O.exists path s)
            h in
        let wrote =
          second_step tt (write_file_of O path line) made (sym (ap (λ r. r.0) went) ∙ h) in
        ap (λ r. branch_commit_oid O repo_path name r.1) (went ∙ wrote)
        ∙ branch_commit_oid-write repo_path name (G.to_hex oid) made.1 (scalars oid)
            (sym (ap (λ r. r.0) (went ∙ wrote)) ∙ h)
        ∙ ap ok (plain oid)

    create_from_lem :
        (e : Error) (repo_path name : Text) (o : Option G.ObjectId) (s : O.State)
        → (create_from O G e repo_path name o s).0 ≡ ok tt
        → (oid : G.ObjectId) × (o ≡ some oid)
          × (branch_commit_oid O repo_path name (create_from O G e repo_path name o s).1
              ≡ ok (G.to_hex oid))
    unfolding create_from
    create_from_lem e repo_path name none s h = cc
    create_from_lem e repo_path name (some oid) s h =
        (oid, refl, create_ref_lem repo_path name oid s h)

    -- On a lawful operating system, where the hexadecimal form of an object id is text that
    -- `trim` leaves as it is: when `create_branch_at` succeeds, the commit id that it was given
    -- parses, and `branch_commit_oid` of the new branch returns the hexadecimal form of that id.
    pub branch_commit_oid-create_branch_at :
        (repo_path name commit_hex : Text) (s : O.State)
        → (create_branch_at O G repo_path name commit_hex s).0 ≡ ok tt
        → (oid : G.ObjectId) × (G.from_hex (encode commit_hex) ≡ some oid)
          × (branch_commit_oid O repo_path name (create_branch_at O G repo_path name commit_hex s).1
              ≡ ok (G.to_hex oid))
    unfolding create_branch_at
    branch_commit_oid-create_branch_at repo_path name commit_hex s h =
        create_from_lem (invalid_commit_id G commit_hex) repo_path name
          (G.from_hex (encode commit_hex)) s h

    -- On a lawful operating system, where the hexadecimal form of an object id is text that
    -- `trim` leaves as it is: when `create_branch` succeeds, `HEAD` had a commit, and
    -- `branch_commit_oid` of the new branch returns that commit.
    pub branch_commit_oid-create_branch :
        (repo_path name : Text) (s : O.State)
        → (create_branch O G repo_path name s).0 ≡ ok tt
        → (oid : G.ObjectId) × (head_commit_oid O G repo_path s ≡ some oid)
          × (branch_commit_oid O repo_path name (create_branch O G repo_path name s).1
              ≡ ok (G.to_hex oid))
    unfolding create_branch
    branch_commit_oid-create_branch repo_path name s h =
        create_from_lem (git (codes "no commits yet, cannot create branch")) repo_path name
          (head_commit_oid O G repo_path s) s h
