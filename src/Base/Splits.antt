-- ===== src/Base/Splits.antt =====
-- Laws of `split`.
use mathlib.Core.Path.{◌≡◌, refl, ap, ◌∙◌}
use mathlib.Core.Logic.{◌≢◌, inl, inr}
use mathlib.Core.Bool.{false}
use mathlib.Core.List.{List, [], ◌∷◌, ◌++◌}
use native.Mathlib.Omega.{arith}
use Prim.Native.Nat.{ℕ}
use gitoxide_fs.Base.Tests.{nat_eqb, nat_eqb_iff, Bool-cases}
use gitoxide_fs.Base.Text.{Text, has_char, cons_first, split}

cons_first-append :
    (x : ℕ) (ws vs : List Text) → ws ≢ [] → cons_first x (ws ++ vs) ≡ cons_first x ws ++ vs
cons_first-append x [] vs h = absurd (h refl)
cons_first-append x (w ∷ ws) vs h = refl

cons_first-ne-nil : (x : ℕ) (ws : List Text) → cons_first x ws ≢ []
cons_first-ne-nil x [] = λ h. cc
cons_first-ne-nil x (w ∷ ws) = λ h. cc

split-ne-nil : (c : ℕ) (s : Text) → split c s ≢ []
unfolding split
split-ne-nil c [] = λ h. cc
split-ne-nil c (x ∷ s) = elim (Bool-cases (nat_eqb x c)) [
  | inl e ↦ rw e (λ h. cc)
  | inr n ↦ rw n (cons_first-ne-nil x (split c s))
]

-- Splitting at a separator splits what stands on either side.
pub split-append : (c : ℕ) (s t : Text) → split c (s ++ (c ∷ t)) ≡ split c s ++ split c t
unfolding split
split-append c [] t = ground (arith, nat_eqb_iff c c)
split-append c (x ∷ s) t = elim (Bool-cases (nat_eqb x c)) [
  | inl e ↦ rw e (ap (◌∷◌ []) (split-append c s t))
  | inr n ↦ rw n (
      ap (cons_first x) (split-append c s t)
      ∙ cons_first-append x (split c s) (split c t) (split-ne-nil c s))
]

-- A text without the separator is one piece.
pub split_none : (c : ℕ) (s : Text) → has_char c s ≡ false → split c s ≡ s ∷ []
unfolding split
split_none c [] h = refl
split_none c (x ∷ s) h = ground (arith, split_none c s)

-- The first piece ends at the first separator.
pub split_first :
    (c : ℕ) (s t : Text) → has_char c s ≡ false → split c (s ++ (c ∷ t)) ≡ s ∷ split c t
split_first c s t h = rw (split-append, split_none c s h)
