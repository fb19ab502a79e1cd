-- ===== src/Base/Equality.antt =====
-- `==` as an interface, with its instances for numbers and for lists.
use Prim.Native.Nat.{ℕ}
use mathlib.Core.Path.{◌≡◌, refl}
use mathlib.Core.Logic.{◌↔◌}
use mathlib.Core.Bool.{Bool, true, false, ◌&&◌}
use mathlib.Core.List.{List, [], ◌∷◌}
use mathlib.Core.Option.{Option, none, some}
use native.Mathlib.Omega.{arith}
use gitoxide_fs.Base.Tests.{nat_eqb, nat_eqb_iff}

pub record Eq {ℓ} (A : Type ℓ) : Type ℓ where
  pub beq : A → A → Bool
  -- `eq` of the trait decides equality.
  pub beq_iff : (x y : A) → (beq x y ≡ true) ↔ (x ≡ y)

infix 50 ◌==◌
abbrev pub ◌==◌ {ℓ} : {A : Type ℓ} ⦃e : Eq A⦄ → A → A → Bool
◌==◌ ⦃e⦄ = e.beq

pub ==_iff {ℓ} : {A : Type ℓ} ⦃e : Eq A⦄ (a b : A) → ((a == b) ≡ true) ↔ (a ≡ b)
==_iff ⦃e⦄ a b = e.beq_iff a b

pub ==_refl {ℓ} : {A : Type ℓ} ⦃e : Eq A⦄ (a : A) → (a == a) ≡ true
==_refl ⦃e⦄ a = (e.beq_iff a a).1 refl

instance abbrev pub nat_eq : Eq ℕ
nat_eq = record { beq = nat_eqb; beq_iff = nat_eqb_iff }

module _ {ℓ} {A : Type ℓ} ⦃e : Eq A⦄ where
  unfoldable pub list_eqb : List A → List A → Bool
  list_eqb [] [] = true
  list_eqb (x ∷ xs) (y ∷ ys) = e.beq x y && list_eqb xs ys
  list_eqb _ _ = false

  pub list_eqb_iff : (xs ys : List A) → (list_eqb xs ys ≡ true) ↔ (xs ≡ ys)
  unfolding list_eqb
  list_eqb_iff [] [] = (λ h. refl, λ h. refl)
  list_eqb_iff [] (y ∷ ys) = (λ h. cc, λ h. cc)
  list_eqb_iff (x ∷ xs) [] = (λ h. cc, λ h. cc)
  list_eqb_iff (x ∷ xs) (y ∷ ys) = ground (arith, e.beq_iff x y, list_eqb_iff xs ys)

  unfoldable pub option_eqb : Option A → Option A → Bool
  option_eqb none none = true
  option_eqb (some x) (some y) = e.beq x y
  option_eqb _ _ = false

  pub option_eqb_iff : (a b : Option A) → (option_eqb a b ≡ true) ↔ (a ≡ b)
  unfolding option_eqb
  option_eqb_iff none none = (λ h. refl, λ h. refl)
  option_eqb_iff none (some y) = (λ h. cc, λ h. cc)
  option_eqb_iff (some x) none = (λ h. cc, λ h. cc)
  option_eqb_iff (some x) (some y) = ground (arith, e.beq_iff x y)

instance abbrev pub list_eq {ℓ} : {A : Type ℓ} ⦃e : Eq A⦄ → Eq (List A)
list_eq = record { beq = list_eqb; beq_iff = list_eqb_iff }

instance abbrev pub option_eq {ℓ} : {A : Type ℓ} ⦃e : Eq A⦄ → Eq (Option A)
option_eq = record { beq = option_eqb; beq_iff = option_eqb_iff }
