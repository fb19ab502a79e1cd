-- ===== src/Ignore/Order.antt =====
-- In a `.gitignore` the last rule that matches decides.
use gitoxide_fs.Base.{
  ◌≡◌, refl, ap, ◌∙◌, ◌↔◌, ◌⊎◌, inl, inr, Bool, true, false, List, [], ◌∷◌, ◌++◌, arith, All,
  Bool-cases,
}
use gitoxide_fs.Base.Text.{Text, lines}
use gitoxide_fs.Ignore.Rules.{
  rule_matches, Rule, skip, rule, parse_rule, apply_rule, run_rules, gitignored,
}

-- The rule matches the path, and is negated (`true`) or not.
abbrev pub Hits : Bool → Text → Rule → Type 0
Hits b path skip = ⊥
Hits b path (rule negated pattern) = (negated ≡ b) × (rule_matches pattern path ≡ true)

-- No line of the list un-ignores the path.
abbrev pub Keeps : Text → List Text → Type 0
Keeps path = All (λ line. ¬ Hits true path (parse_rule line))

-- Some line ignores the path, and no line behind it un-ignores it.
abbrev pub Stands : Text → List Text → Type 0
Stands path all =
    (before : List Text) × (line : Text) × (after : List Text) × (all ≡ before ++ (line ∷ after))
    × Hits false path (parse_rule line)
    × Keeps path after

module _ (path : Text) where
  apply_rule_hit : (r : Rule) (b : Bool) → Hits false path r → apply_rule path r b ≡ true
  unfolding apply_rule
  apply_rule_hit skip b h = absurd h
  apply_rule_hit (rule negated pattern) b h = ground arith

  apply_rule_kept : (r : Rule) → ¬ Hits true path r → apply_rule path r true ≡ true
  unfolding apply_rule
  apply_rule_kept skip h = refl
  apply_rule_kept (rule true pattern) h = elim (Bool-cases (rule_matches pattern path)) [
    | inl m ↦ absurd (h (refl, m))
    | inr n ↦ rw n
  ]
  apply_rule_kept (rule false pattern) h = ground arith

  -- Where a positive answer comes from.
  apply_rule-true :
      (r : Rule) (b : Bool)
      → apply_rule path r b ≡ true
      → Hits false path r ⊎ ((b ≡ true) × (¬ Hits true path r))
  unfolding apply_rule
  apply_rule-true skip b h = inr (h, λ k. k)
  apply_rule-true (rule true pattern) b h = inr (ground arith, λ k. ground arith)
  apply_rule-true (rule false pattern) b h = elim (Bool-cases (rule_matches pattern path)) [
    | inl m ↦ inl (refl, m)
    | inr n ↦ inr (rw n at h, λ k. cc k.0)
  ]

  run_rules-true :
      (all : List Text) (b : Bool)
      → run_rules path all b ≡ true
      → ((b ≡ true) × Keeps path all) ⊎ Stands path all
  unfolding run_rules
  run_rules-true [] b h = inl (h, tt)
  run_rules-true (l ∷ ls) b h = elim (run_rules-true ls (apply_rule path (parse_rule l) b) h) [
    | inr (before, line, after, e, hit, keep) ↦ inr (l ∷ before, line, after, rw e, hit, keep)
    | inl (on, keep) ↦ elim (apply_rule-true (parse_rule l) b on) [
      | inl hit ↦ inr ([], l, ls, refl, hit, keep)
      | inr (was, no_hit) ↦ inl (was, (no_hit, keep))
    ]
  ]

  run_rules_kept : (all : List Text) → Keeps path all → run_rules path all true ≡ true
  unfolding run_rules
  run_rules_kept [] k = refl
  run_rules_kept (l ∷ ls) k = rw (apply_rule_kept (parse_rule l) k.0) (run_rules_kept ls k.1)

  run_rules_stands :
      (before : List Text) (line : Text) (after : List Text) (b : Bool)
      → Hits false path (parse_rule line)
      → Keeps path after
      → run_rules path (before ++ (line ∷ after)) b ≡ true
  unfolding run_rules
  run_rules_stands [] line after b hit keep =
      ap (run_rules path after) (apply_rule_hit (parse_rule line) b hit) ∙ run_rules_kept after keep
  run_rules_stands (l ∷ before) line after b hit keep =
      run_rules_stands before line after _ hit keep

-- A `.gitignore` ignores a path exactly if a line of it that is not negated matches the path and
-- no negated line behind that one does.
pub gitignored_iff :
    (content path : Text) → (gitignored content path ≡ true) ↔ Stands path (lines content)
unfolding gitignored
gitignored_iff content path = (
  λ h. elim (run_rules-true path (lines content) false h) [ inl p ↦ cc p.0 | inr s ↦ s ],
  λ (before, line, after, e, hit, keep).
      rw e (run_rules_stands path before line after false hit keep),
)
