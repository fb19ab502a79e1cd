-- ===== src/CommandLine/Strategies.antt =====
-- The names of the merge strategies in src/main.rs.
use mathlib.Core.Path.{subst}
use gitoxide_fs.Base.{
  ◌≡◌, ◌↔◌, refl, sym, arith, Bool, true, List, [], ◌∷◌, any, ◌==◌, ==_iff, list_eq, nat_eq,
  list_eqb,
}
use gitoxide_fs.Base.Text.{Text, codes}
use gitoxide_fs.Error.Monad.{ok}
use gitoxide_fs.Config.{MergeStrategy, three_way, ours, theirs, rebase}
use gitoxide_fs.CommandLine.{parse_merge_strategy}

-- What a strategy is called
unfoldable pub names : MergeStrategy → List Text
names three_way = codes "three-way" ∷ codes "threeway" ∷ codes "3way" ∷ []
names ours = codes "ours" ∷ []
names theirs = codes "theirs" ∷ []
names rebase = codes "rebase" ∷ []

abbrev pub is_name : MergeStrategy → Text → Bool
is_name m s = any (λ n. s == n) (names m)

only_name : (s n : Text) → any (λ m. s == m) (n ∷ []) ≡ true → s ≡ n
only_name s n h = ground (arith, ==_iff s n)

-- A text is read as a strategy exactly if it is one of its names.
pub parse_merge_strategy_iff :
    (s : Text) (m : MergeStrategy) → (parse_merge_strategy s ≡ ok m) ↔ (is_name m s ≡ true)
unfolding parse_merge_strategy names list_eqb
parse_merge_strategy_iff s three_way = ground arith
parse_merge_strategy_iff s ours = (
  λ h. ground arith,
  λ h. subst (λ t. parse_merge_strategy t ≡ ok ours) (sym (only_name s (codes "ours") h)) refl,
)
parse_merge_strategy_iff s theirs = (
  λ h. ground arith,
  λ h. subst (λ t. parse_merge_strategy t ≡ ok theirs) (sym (only_name s (codes "theirs") h)) refl,
)
parse_merge_strategy_iff s rebase = (
  λ h. ground arith,
  λ h. subst (λ t. parse_merge_strategy t ≡ ok rebase) (sym (only_name s (codes "rebase") h)) refl,
)
