-- ===== src/Base/Decimal.antt =====
-- `{}` and `parse::<u64>` of a u64.
use Prim.Native.Nat.{ℕ, zero, suc, ◌+◌, ◌-◌, ◌*◌, ◌/◌, ◌%◌, ◌^◌, ◌<◌}
use mathlib.Core.Path.{◌≡◌, refl, ap, ◌∙◌}
use mathlib.Core.Logic.{inl, inr}
use mathlib.Core.Bool.{Bool, true, false, ◌&&◌}
use mathlib.Core.List.{[], ◌∷◌}
use mathlib.Core.Option.{Option, none, some}
use native.Mathlib.Omega.{arith}
use native.Mathlib.Nat.{pow-suc}
use gitoxide_fs.Base.Tests.{if◌then◌else◌, leb, ltb, nat_eqb, Bool-cases}
use gitoxide_fs.Base.Lists.{is_empty, All}
use gitoxide_fs.Base.Text.{Text}

-- The digits of a number below 10 ^ fuel, before those that are there.
digits_onto : ℕ → ℕ → Text → Text
digits_onto zero n after = after
digits_onto (suc f) n after =
    let rest = digits_onto f (n / 10) ((b'0' + n % 10) ∷ after) in
    if ltb n 10 then (b'0' + n) ∷ after else rest

-- A u64 has at most 20 digits.
unfoldable pub show_u64 : ℕ → Text
unfolding digits_onto
show_u64 n = digits_onto 20 n []

abbrev pub is_digit : ℕ → Bool
is_digit c = leb b'0' c && leb c b'9'

parse_digits : ℕ → Text → Option ℕ
parse_digits v [] = some v
parse_digits v (c ∷ s) =
    let rest = parse_digits (v * 10 + (c - b'0')) s in if is_digit c then rest else none

abbrev strip_plus : Text → Text
strip_plus [] = []
strip_plus (c ∷ s) = if nat_eqb c b'+' then s else c ∷ s

in_range : Option ℕ → Option ℕ
in_range none = none
in_range (some n) = if ltb n (2 ^ 64) then some n else none

-- s.parse::<u64>().ok()
unfoldable pub parse_u64 : Text → Option ℕ
unfolding parse_digits in_range
parse_u64 s =
    let digits = strip_plus s in if is_empty digits then none else in_range (parse_digits 0 digits)

abbrev pub AllDigits : Text → Type 0
AllDigits = All (λ c. is_digit c ≡ true)

digit_test : (d : ℕ) → d < 10 → is_digit (b'0' + d) ≡ true
digit_test d h = ground arith

digits_onto-AllDigits :
    (f n : ℕ) (after : Text) → AllDigits after → AllDigits (digits_onto f n after)
unfolding digits_onto
digits_onto-AllDigits zero n after h = h
digits_onto-AllDigits (suc f) n after h = elim (Bool-cases (ltb n 10)) [
  | inl e ↦ rw e (digit_test n (ground arith), h)
  | inr m ↦ rw m (digits_onto-AllDigits f (n / 10) _ (digit_test (n % 10) (omega arith), h))
]

parse_step :
    (v d : ℕ) (after : Text)
    → d < 10
    → parse_digits v ((b'0' + d) ∷ after) ≡ parse_digits (v * 10 + d) after
unfolding parse_digits
parse_step v d after h = rw (digit_test d h) (ap (λ k. parse_digits k after) (omega arith))

parse_digits-digits_onto :
    (f n : ℕ) (after : Text)
    → n < 10 ^ f
    → parse_digits 0 (digits_onto f n after) ≡ parse_digits n after
unfolding digits_onto
parse_digits-digits_onto zero n after h = ap (λ k. parse_digits k after) (omega arith)
parse_digits-digits_onto (suc f) n after h = elim (Bool-cases (ltb n 10)) [
  | inl e ↦
      rw e (parse_step 0 n after (ground arith) ∙ ap (λ k. parse_digits k after) (omega arith))
  | inr m ↦ rw m (
      parse_digits-digits_onto f (n / 10) ((b'0' + n % 10) ∷ after) (omega (arith, pow-suc 10 f))
      ∙ parse_step (n / 10) (n % 10) after (omega arith)
      ∙ ap (λ k. parse_digits k after) (omega arith))
]

digits_onto-ne-nil : (f n c : ℕ) (after : Text) → is_empty (digits_onto f n (c ∷ after)) ≡ false
unfolding digits_onto
digits_onto-ne-nil zero n c after = refl
digits_onto-ne-nil (suc f) n c after = elim (Bool-cases (ltb n 10)) [
  | inl e ↦ rw e
  | inr m ↦ rw m (digits_onto-ne-nil f (n / 10) (b'0' + n % 10) (c ∷ after))
]

show_u64-ne-nil : (n : ℕ) → is_empty (show_u64 n) ≡ false
unfolding show_u64
show_u64-ne-nil n = elim (Bool-cases (ltb n 10)) [
  | inl e ↦ rw e
  | inr m ↦ rw m (digits_onto-ne-nil 19 (n / 10) (b'0' + n % 10) [])
]

pub show_u64-AllDigits : (n : ℕ) → AllDigits (show_u64 n)
unfolding show_u64
show_u64-AllDigits n = digits_onto-AllDigits 20 n [] tt

strip_plus_digits : (s : Text) → AllDigits s → strip_plus s ≡ s
strip_plus_digits [] h = refl
strip_plus_digits (c ∷ s) h = ground arith

-- A u64 is read back from its decimal form.
pub parse_u64-show_u64 : (n : ℕ) → n < 2 ^ 64 → parse_u64 (show_u64 n) ≡ some n
unfolding parse_u64
parse_u64-show_u64 n h =
    let read : parse_digits 0 (show_u64 n) ≡ some n =
      unfold show_u64 in parse_digits-digits_onto 20 n [] (omega arith) in
    rw (strip_plus_digits (show_u64 n) (show_u64-AllDigits n), show_u64-ne-nil n, read)
      (ground arith)

in_range-lt : (o : Option ℕ) (n : ℕ) → in_range o ≡ some n → n < 2 ^ 64
unfolding in_range
in_range-lt none n h = ground arith
in_range-lt (some m) n h = ground arith

-- What is read fits into a u64.
pub parse_u64-lt : (s : Text) (n : ℕ) → parse_u64 s ≡ some n → n < 2 ^ 64
unfolding parse_u64
parse_u64-lt s n h = elim (Bool-cases (is_empty (strip_plus s))) [
  | inl e ↦ cc (rw e at h)
  | inr m ↦ in_range-lt (parse_digits 0 (strip_plus s)) n (rw m at h)
]
