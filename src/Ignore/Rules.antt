-- ===== src/Ignore/Rules.antt =====
-- The rules of a `.gitignore` file and of the configuration: the pure parts of `is_ignored` and
-- `is_ignored_by_config` of src/git.rs.
use mathlib.Core.Option.{get_or}
use gitoxide_fs.Base.{
  Bool, true, false, not, ◌&&◌, ◌||◌, Option, none, some, List, [], ◌∷◌, ◌++◌, is_empty, any,
  if◌then◌else◌, ◌==◌, nat_eq, list_eq, list_eqb, nat_eqb,
}
use gitoxide_fs.Base.Text.{
  Text, codes, slash, has_char, starts_with, strip_prefix, strip_suffix, contains, ends_with, trim,
  lines,
}
use gitoxide_fs.Base.Paths.{file_name}
use gitoxide_fs.Ignore.Glob.{glob_match}

-- `Path::new(path).file_name()`, or the path itself
unfoldable pub filename_of : Text → Text
unfolding file_name
filename_of path = get_or (file_name path) path

at_or_below : Option Text → Bool
at_or_below none = false
at_or_below (some []) = true
at_or_below (some (c ∷ rest)) = nat_eqb c slash

-- The `matches` of one pattern.
unfoldable pub rule_matches : Text → Text → Bool
unfolding strip_suffix strip_prefix at_or_below glob_match filename_of
rule_matches pattern path = elim (strip_suffix pattern (codes "/")) [
  | some dir_pattern ↦ at_or_below (strip_prefix path dir_pattern)
  | none ↦
      if has_char slash pattern
      then glob_match pattern path
      else glob_match pattern (filename_of path)
]

-- A line of the file: nothing, or a pattern and whether it is negated.
pub data Rule : Type 0 where
  skip : Rule
  rule : Bool → Text → Rule

unfoldable pub parse_rule : Text → Rule
unfolding trim starts_with strip_prefix list_eqb
parse_rule text =
    let line = trim text in
    if is_empty line || starts_with line (codes "#")
    then skip
    else elim (strip_prefix line (codes "!")) [
      | some rest ↦ rule true rest
      | none ↦ rule false line
    ]

unfoldable pub apply_rule : Text → Rule → Bool → Bool
unfolding rule_matches
apply_rule path skip ignored = ignored
apply_rule path (rule negated pattern) ignored =
    if rule_matches pattern path then not negated else ignored

-- The loop over the lines.
unfoldable pub run_rules : Text → List Text → Bool → Bool
unfolding apply_rule parse_rule
run_rules path [] ignored = ignored
run_rules path (line ∷ rest) ignored =
    run_rules path rest (apply_rule path (parse_rule line) ignored)

-- What the text of a `.gitignore` says of a path.
unfoldable pub gitignored : Text → Text → Bool
unfolding run_rules lines
gitignored content path = run_rules path (lines content) false

abbrev pub is_glob : Text → Bool
is_glob pat = has_char b'*' pat || has_char b'?' pat || has_char b'[' pat

-- One configured pattern without glob characters.
unfoldable pub plain_matches : Text → Text → Bool
unfolding filename_of starts_with contains ends_with list_eqb
plain_matches pat path =
    filename_of path == pat
    || (path == pat
        || (starts_with path (pat ++ codes "/")
            || (contains path (codes "/" ++ (pat ++ codes "/"))
                || (contains path (codes "/" ++ pat) && ends_with path pat))))

unfoldable pub config_matches : Text → Text → Bool
unfolding glob_match plain_matches
config_matches path pat =
    if is_glob pat then glob_match pat (filename_of path) else plain_matches pat path

-- `is_ignored_by_config`
unfoldable pub is_ignored_by_config : List Text → Text → Bool
unfolding config_matches
is_ignored_by_config patterns path = any (config_matches path) patterns
