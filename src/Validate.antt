-- ===== src/Validate.antt =====
-- `abs_path`, `is_git_internal`, `validate_path` and `validate_file_path` of src/git.rs.
pub mod Contained
use gitoxide_fs.Base.{
  ℕ, Bool, true, false, not, ◌&&◌, ◌||◌, List, [], ◌∷◌, ◌++◌, is_empty, ltb, if◌then◌else◌, ◌==◌,
  nat_eq, list_eq, list_eqb,
}
use gitoxide_fs.Base.Text.{
  Text, codes, slash, has_char, starts_with, split, trim, trim_matches, utf8_len,
}
use gitoxide_fs.Base.Paths.{path_join}
use gitoxide_fs.Error.{Error, invalid_argument, permission_denied, name_too_long}
use gitoxide_fs.Error.Monad.{Result, ok, err}

-- `GitBackend::abs_path`, at the path of the repository
unfoldable pub abs_path : Text → Text → Text
unfolding path_join
abs_path repo_path path = if is_empty path then repo_path else path_join repo_path path

unfoldable pub is_git_internal : Text → Bool
unfolding starts_with list_eqb
is_git_internal path =
    path == codes ".git" || starts_with path (codes ".git/") || starts_with path (codes ".git\\")

-- The loop over the components.
unfoldable pub validate_components : List Text → Result Error Unit
unfolding list_eqb
validate_components [] = ok tt
validate_components (component ∷ rest) =
    let others = validate_components rest in
    if component == codes ".."
    then err (permission_denied (codes "path traversal not allowed"))
    else if ltb 255 (utf8_len component)
    then err (name_too_long (codes "component exceeds 255 bytes"))
    else others

-- The tests behind the loop.
unfoldable pub validate_whole : Text → Text → Result Error Unit
unfolding trim_matches trim abs_path list_eqb
validate_whole repo_path path =
    let trimmed = trim_matches slash path in
    if trimmed == codes "." || trimmed == codes ".."
    then err (invalid_argument (codes "'" ++ (path ++ codes "' is not a valid file path")))
    else if not (is_empty path) && is_empty (trim path)
    then err (invalid_argument (codes "whitespace-only path"))
    else if ltb 4096 (utf8_len (abs_path repo_path path))
    then err (name_too_long (codes "path exceeds maximum length"))
    else ok tt

abbrev and_then : Result Error Unit → Result Error Unit → Result Error Unit
and_then (ok _) r = r
and_then (err e) r = err e

unfoldable pub validate_path : Text → Text → Result Error Unit
unfolding validate_components validate_whole split
validate_path repo_path path =
    if has_char 0 path
    then err (invalid_argument (codes "path contains null bytes"))
    else and_then (validate_components (split slash path)) (validate_whole repo_path path)

unfoldable pub validate_file_path : Text → Text → Result Error Unit
unfolding validate_path
validate_file_path repo_path path =
    if is_empty path
    then err (invalid_argument (codes "empty path"))
    else validate_path repo_path path
