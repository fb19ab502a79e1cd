-- ===== src/Ignore/Components.antt =====
-- A configured name without glob characters ignores every path that has it as a component, and
-- some other paths.
use mathlib.Core.List.{append_assoc, append-nil}
use gitoxide_fs.Base.{
  ◌≡◌, refl, ◌⊎◌, inl, inr, true, false, ◌&&◌, ◌||◌, List, [], ◌∷◌, ◌++◌, arith, any-append, ◌==◌,
  ==_refl, nat_eq, list_eq, nat_eqb_iff,
}
use gitoxide_fs.Base.Text.{Text, codes, starts_with, contains, ends_with}
use gitoxide_fs.Ignore.Rules.{is_glob, plain_matches, config_matches, is_ignored_by_config}

starts_with-append : (p s : Text) → starts_with (p ++ s) p ≡ true
unfolding starts_with
starts_with-append [] [] = refl
starts_with-append [] (x ∷ s) = refl
starts_with-append (c ∷ p) s = ground (arith, nat_eqb_iff c c, starts_with-append p s)

starts_with_self : (p : Text) → starts_with p p ≡ true
unfolding starts_with
starts_with_self [] = refl
starts_with_self (c ∷ p) = ground (arith, nat_eqb_iff c c, starts_with_self p)

contains_prefix : (p s : Text) → contains (p ++ s) p ≡ true
unfolding contains
contains_prefix [] [] = refl
contains_prefix [] (x ∷ s) = refl
contains_prefix (c ∷ p) s = rw (starts_with-append (c ∷ p) s)

contains-append : (u p s : Text) → contains (u ++ (p ++ s)) p ≡ true
unfolding contains
contains-append [] p s = contains_prefix p s
contains-append (x ∷ u) p s = ground (arith, contains-append u p s)

ends_with-append : (u p : Text) → ends_with (u ++ p) p ≡ true
unfolding ends_with
ends_with-append [] [] = refl
ends_with-append [] (c ∷ p) = rw (==_refl (c ∷ p))
ends_with-append (x ∷ u) p = ground (arith, ends_with-append u p)

-- `pat` stands in the path as a whole component.
abbrev pub HasComponent : Text → Text → Type 0
HasComponent pat path =
    (path ≡ pat)
    ⊎ ((v : Text) × (path ≡ (pat ++ codes "/") ++ v))
    ⊎ ((u : Text) × (v : Text) × (path ≡ u ++ ((codes "/" ++ (pat ++ codes "/")) ++ v)))
    ⊎ ((u : Text) × (path ≡ u ++ (codes "/" ++ pat)))

plain_introduce :
    (pat path : Text)
    → (path == pat
        || (starts_with path (pat ++ codes "/")
            || (contains path (codes "/" ++ (pat ++ codes "/"))
                || (contains path (codes "/" ++ pat) && ends_with path pat))))
      ≡ true
    → plain_matches pat path ≡ true
unfolding plain_matches
plain_introduce pat path h = ground arith

-- A name at the end of the path, behind a `/` and the same name.
ends_apart : (pat u m : Text) → plain_matches pat (u ++ ((codes "/" ++ pat) ++ (m ++ pat))) ≡ true
ends_apart pat u m =
    let path = u ++ ((codes "/" ++ pat) ++ (m ++ pat)) in
    let inside : contains path (codes "/" ++ pat) ≡ true =
      contains-append u (codes "/" ++ pat) (m ++ pat) in
    let whole : (u ++ ((codes "/" ++ pat) ++ m)) ++ pat ≡ path = simp append_assoc in
    let last : ends_with path pat ≡ true =
      rw whole at (ends_with-append (u ++ ((codes "/" ++ pat) ++ m)) pat) in
    plain_introduce pat path (ground arith)

plain_matches-HasComponent :
    (pat path : Text) → HasComponent pat path → plain_matches pat path ≡ true
plain_matches-HasComponent pat path (inl e) =
    let h : (path == pat) ≡ true = rw e (==_refl pat) in plain_introduce pat path (ground arith)
plain_matches-HasComponent pat path (inr (inl (v, e))) =
    let h : starts_with path (pat ++ codes "/") ≡ true =
      rw e (starts_with-append (pat ++ codes "/") v) in
    plain_introduce pat path (ground arith)
plain_matches-HasComponent pat path (inr (inr (inl (u, v, e)))) =
    let h : contains path (codes "/" ++ (pat ++ codes "/")) ≡ true =
      rw e (contains-append u (codes "/" ++ (pat ++ codes "/")) v) in
    plain_introduce pat path (ground arith)
plain_matches-HasComponent pat path (inr (inr (inr (u, e)))) =
    let h : contains path (codes "/" ++ pat) ≡ true =
      rw (e, ← append-nil (u ++ (codes "/" ++ pat)), append_assoc)
        (contains-append u (codes "/" ++ pat) []) in
    let k : ends_with path pat ≡ true =
      rw (e, ← append_assoc) (ends_with-append (u ++ codes "/") pat) in
    plain_introduce pat path (ground arith)

module _ (before after : List Text) (pat path : Text) where
  config_matches_plain :
      is_glob pat ≡ false
      → plain_matches pat path ≡ true
      → is_ignored_by_config (before ++ (pat ∷ after)) path ≡ true
  unfolding is_ignored_by_config
  config_matches_plain plain h =
      rw (any-append (config_matches path) before (pat ∷ after)) (ground arith)

  -- A configured name without glob characters ignores every path of which it is a component,
  -- whatever the other patterns are.
  pub is_ignored_by_config-HasComponent :
      is_glob pat ≡ false
      → HasComponent pat path
      → is_ignored_by_config (before ++ (pat ∷ after)) path ≡ true
  is_ignored_by_config-HasComponent plain h =
      config_matches_plain plain (plain_matches-HasComponent pat path h)

-- A configured name without glob characters also ignores every path that has a component which
-- only begins with the name and a last component which only ends with it.
pub is_ignored_by_config-overmatch :
    (before after : List Text) (pat u m : Text)
    → is_glob pat ≡ false
    → is_ignored_by_config (before ++ (pat ∷ after)) (u ++ ((codes "/" ++ pat) ++ (m ++ pat)))
      ≡ true
is_ignored_by_config-overmatch before after pat u m plain =
    config_matches_plain before after pat (u ++ ((codes "/" ++ pat) ++ (m ++ pat))) plain
      (ends_apart pat u m)
