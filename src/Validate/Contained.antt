-- ===== src/Validate/Contained.antt =====
-- An accepted relative path names a place below the repository.
use mathlib.Core.List.{append-nil, append_assoc}
use gitoxide_fs.Base.{
  ℕ, ◌≡◌, refl, ◌∙◌, ◌≢◌, false, ◌||◌, List, [], ◌∷◌, ◌++◌, arith, is_empty, ltb, All,
  if◌then◌else◌, ◌==◌, nat_eq, list_eq, Bool-cases, inl, inr,
}
use gitoxide_fs.Base.Text.{Text, codes, slash, split, ends_with, utf8_len}
use gitoxide_fs.Base.Splits.{split-append}
use gitoxide_fs.Base.Paths.{is_absolute, named_components, components}
use gitoxide_fs.Error.Monad.{ok}
use gitoxide_fs.Validate.{abs_path, validate_components, validate_path}

-- The last directory left.
abbrev up : List Text → List Text
up [] = []
up (d ∷ []) = []
up (d ∷ e ∷ ds) = d ∷ up (e ∷ ds)

-- Where the components lead from a directory, without symbolic links: `.` and empty ones stay,
-- `..` goes up, any other goes down.
abbrev pub enter : List Text → Text → List Text
enter dir c =
    if is_empty c || c == codes "."
    then dir
    else if c == codes ".."
    then up dir
    else dir ++ (c ∷ [])

abbrev pub walk : List Text → List Text → List Text
walk dir [] = dir
walk dir (c ∷ cs) = walk (enter dir c) cs

walk-append : (dir cs ds : List Text) → walk dir (cs ++ ds) ≡ walk (walk dir cs) ds
walk-append dir [] ds = refl
walk-append dir (c ∷ cs) ds = walk-append (enter dir c) cs ds

abbrev NoDots : List Text → Type 0
NoDots = All (λ c. (c == codes "..") ≡ false)

walk-NoDots : (dir cs : List Text) → NoDots cs → walk dir cs ≡ dir ++ named_components cs
walk-NoDots dir [] h = rw append-nil
walk-NoDots dir (c ∷ cs) h = elim (Bool-cases (is_empty c || c == codes ".")) [
  | inl e ↦ rw e (walk-NoDots dir cs h.1)
  | inr n ↦
      rw (n, h.0)
        (walk-NoDots (dir ++ (c ∷ [])) cs h.1 ∙ append_assoc dir (c ∷ []) (named_components cs))
]

validate_components-NoDots : (cs : List Text) → validate_components cs ≡ ok tt → NoDots cs
unfolding validate_components
validate_components-NoDots [] h = tt
validate_components-NoDots (c ∷ cs) h = elim (Bool-cases (c == codes "..")) [
  | inl e ↦ cc (rw e at h)
  | inr n ↦ elim (Bool-cases (ltb 255 (utf8_len c))) [
    | inl e ↦ cc (rw (n, e) at h)
    | inr m ↦ (n, validate_components-NoDots cs (rw (n, m) at h))
  ]
]

validate_path-NoDots :
    (repo_path path : Text) → validate_path repo_path path ≡ ok tt → NoDots (split slash path)
unfolding validate_path
validate_path-NoDots repo_path path h = validate_components-NoDots (split slash path) (ground arith)

abs_path-relative :
    (repo_path : Text) (x : ℕ) (path : Text)
    → is_absolute (x ∷ path) ≡ false
    → repo_path ≢ []
    → ends_with repo_path (codes "/") ≡ false
    → abs_path repo_path (x ∷ path) ≡ repo_path ++ (slash ∷ x ∷ path)
unfolding abs_path
abs_path-relative [] x path relative named open_end = absurd (named refl)
abs_path-relative (r ∷ repo_path) x path relative named open_end = rw relative (rw open_end)

-- An accepted path that is not absolute leads to a place below the repository, namely down
-- through the components of the path, if the repository's path is not empty and does not end with `/`.
pub validate_path-contained :
    (repo_path path : Text)
    → repo_path ≢ []
    → ends_with repo_path (codes "/") ≡ false
    → is_absolute path ≡ false
    → validate_path repo_path path ≡ ok tt
    → walk [] (split slash (abs_path repo_path path))
      ≡ walk [] (split slash repo_path) ++ components path
validate_path-contained repo_path [] named open_end relative h =
    unfold abs_path components split in rw append-nil
validate_path-contained repo_path (x ∷ path) named open_end relative h =
    rw
      (
        abs_path-relative repo_path x path relative named open_end,
        split-append slash repo_path (x ∷ path),
        walk-append [] (split slash repo_path) (split slash (x ∷ path)),
      )
      (unfold components in
        walk-NoDots (walk [] (split slash repo_path)) (split slash (x ∷ path))
          (validate_path-NoDots repo_path (x ∷ path) h))
