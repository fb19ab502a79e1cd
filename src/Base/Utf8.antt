-- ===== src/Base/Utf8.antt =====
-- UTF-8: `str::as_bytes` and `str::from_utf8`.
use Prim.Native.Nat.{ℕ, suc, ◌+◌, ◌-◌, ◌*◌, ◌/◌, ◌%◌, ◌<◌, ◌≤◌}
use mathlib.Core.Path.{◌≡◌, refl, ap, ◌∙◌}
use mathlib.Core.Logic.{◌⊎◌, inl, inr}
use mathlib.Core.Bool.{false, ◌&&◌}
use mathlib.Core.List.{[], ◌∷◌, ◌++◌}
use mathlib.Core.Option.{Option, none, some}
use native.Mathlib.Omega.{arith}
use gitoxide_fs.Base.Tests.{if◌then◌else◌, leb, ltb, nat_eqb, Bool-cases}
use gitoxide_fs.Base.Lists.{All}
use gitoxide_fs.Base.Text.{Text, Bytes}

unfoldable pub encode_char : ℕ → Bytes
encode_char c =
    if ltb c 0x80
    then c ∷ []
    else if ltb c 0x800
    then (0xc0 + c / 64) ∷ (0x80 + c % 64) ∷ []
    else if ltb c 0x10000
    then (0xe0 + c / 4096) ∷ (0x80 + c / 64 % 64) ∷ (0x80 + c % 64) ∷ []
    else (0xf0 + c / 262144) ∷ (0x80 + c / 4096 % 64) ∷ (0x80 + c / 64 % 64) ∷ (0x80 + c % 64) ∷ []

-- s.as_bytes()
unfoldable pub encode : Text → Bytes
unfolding encode_char
encode [] = []
encode (c ∷ s) = encode_char c ++ encode s

-- Between characters; or inside one, with the continuation bytes still to come, the range of the
-- next one and the value so far; or after an error.
pub data Mode : Type 0 where
  start : Mode
  more : ℕ → ℕ → ℕ → ℕ → Mode
  bad : Mode

-- The mode behind a first byte. The ranges keep out overlong forms, surrogates and what lies
-- above U+10FFFF.
lead : ℕ → Mode
lead b =
    if ltb b 0xc2
    then bad
    else if ltb b 0xe0
    then more 1 0x80 0xbf (b - 0xc0)
    else if nat_eqb b 0xe0
    then more 2 0xa0 0xbf (b - 0xe0)
    else if nat_eqb b 0xed
    then more 2 0x80 0x9f (b - 0xe0)
    else if ltb b 0xf0
    then more 2 0x80 0xbf (b - 0xe0)
    else if nat_eqb b 0xf0
    then more 3 0x90 0xbf (b - 0xf0)
    else if ltb b 0xf4
    then more 3 0x80 0xbf (b - 0xf0)
    else if nat_eqb b 0xf4
    then more 3 0x80 0x8f (b - 0xf0)
    else bad

-- The new mode and a character that is complete.
step : Mode → ℕ → Mode × Option ℕ
unfolding lead
step start b = if ltb b 0x80 then (start, some b) else (lead b, none)
step (more n lo hi v) b =
    if leb lo b && leb b hi
    then (if nat_eqb n 1
        then (start, some (v * 64 + (b - 0x80)))
        else (more (n - 1) 0x80 0xbf (v * 64 + (b - 0x80)), none))
    else (bad, none)
step bad b = (bad, none)

emit : Option ℕ → Option Text → Option Text
emit none rest = rest
emit (some c) none = none
emit (some c) (some s) = some (c ∷ s)

decode_from : Mode → Bytes → Option Text
unfolding emit
decode_from start [] = some []
decode_from (more _ _ _ _) [] = none
decode_from bad [] = none
decode_from m (b ∷ s) = let (m', c) = step m b in emit c (decode_from m' s)

-- str::from_utf8
unfoldable pub decode : Bytes → Option Text
unfolding decode_from step
decode s = decode_from start s

-- A Unicode scalar value: what a Rust `char` can be.
abbrev pub IsScalar : ℕ → Type 0
IsScalar c = (c < 0xd800) ⊎ ((0xe000 ≤ c) × (c < 0x110000))

step-lead : (b : ℕ) → ltb b 0x80 ≡ false → step start b ≡ (lead b, none)
unfolding step
step-lead b h = rw h

step_last :
    (lo hi v b : ℕ)
    → lo ≤ b
    → b ≤ hi
    → step (more 1 lo hi v) b ≡ (start, some (v * 64 + (b - 0x80)))
unfolding step
step_last lo hi v b h k = ground arith

step_more :
    (n lo hi v b : ℕ)
    → lo ≤ b
    → b ≤ hi
    → step (more (suc (suc n)) lo hi v) b ≡ (more (suc n) 0x80 0xbf (v * 64 + (b - 0x80)), none)
unfolding step
step_more n lo hi v b h k = ground arith

module _ (v lo hi a b : ℕ) (h : lo ≤ b) (k : b ≤ hi) where
  decode_two :
      (s : Bytes)
      → step start a ≡ (more 1 lo hi v, none)
      → decode_from start (a ∷ b ∷ s) ≡ emit (some (v * 64 + (b - 0x80))) (decode_from start s)
  unfolding decode_from emit
  decode_two s e = rw (e, step_last lo hi v b h k)

  module _ (c : ℕ) (hc : 0x80 ≤ c) (kc : c ≤ 0xbf) where
    decode_three :
        (s : Bytes)
        → step start a ≡ (more 2 lo hi v, none)
        → decode_from start (a ∷ b ∷ c ∷ s)
          ≡ emit (some ((v * 64 + (b - 0x80)) * 64 + (c - 0x80))) (decode_from start s)
    unfolding decode_from emit
    decode_three s e =
        rw (e, step_more 0 lo hi v b h k, step_last 0x80 0xbf (v * 64 + (b - 0x80)) c hc kc)

    decode_four :
        (d : ℕ) (s : Bytes)
        → 0x80 ≤ d
        → d ≤ 0xbf
        → step start a ≡ (more 3 lo hi v, none)
        → decode_from start (a ∷ b ∷ c ∷ d ∷ s)
          ≡ emit
              (some (((v * 64 + (b - 0x80)) * 64 + (c - 0x80)) * 64 + (d - 0x80)))
              (decode_from start s)
    unfolding decode_from emit
    decode_four d s hd kd e = rw (
      e,
      step_more 1 lo hi v b h k,
      step_more 0 0x80 0xbf (v * 64 + (b - 0x80)) c hc kc,
      step_last 0x80 0xbf ((v * 64 + (b - 0x80)) * 64 + (c - 0x80)) d hd kd,
    )

-- The range of the second byte behind a first byte.
low_second : ℕ → ℕ
low_second b = if nat_eqb b 0xe0 then 0xa0 else if nat_eqb b 0xf0 then 0x90 else 0x80

high_second : ℕ → ℕ
high_second b = if nat_eqb b 0xed then 0x9f else if nat_eqb b 0xf4 then 0x8f else 0xbf

step_two : (b : ℕ) → 0xc2 ≤ b → b < 0xe0 → step start b ≡ (more 1 0x80 0xbf (b - 0xc0), none)
unfolding step
step_two b h k = ground arith

step_three :
    (b : ℕ)
    → 0xe0 ≤ b
    → b < 0xf0
    → step start b ≡ (more 2 (low_second b) (high_second b) (b - 0xe0), none)
unfolding step low_second high_second
step_three b h k = ground arith

step_four :
    (b : ℕ)
    → 0xf0 ≤ b
    → b ≤ 0xf4
    → step start b ≡ (more 3 (low_second b) (high_second b) (b - 0xf0), none)
unfolding step low_second high_second
step_four b h k = ground arith

emit_eq : (c d : ℕ) (r : Option Text) → c ≡ d → emit (some c) r ≡ emit (some d) r
emit_eq c d r e = rw e

-- The second bytes of the forms of three and of four bytes lie in their ranges.
second_of_three :
    (c : ℕ)
    → 0x800 ≤ c
    → c < 0x10000
    → IsScalar c
    → (low_second (0xe0 + c / 4096) ≤ 0x80 + c / 64 % 64)
      × (0x80 + c / 64 % 64 ≤ high_second (0xe0 + c / 4096))
unfolding low_second high_second
second_of_three c h k sc = ground arith

second_of_four :
    (c : ℕ)
    → 0x10000 ≤ c
    → c < 0x110000
    → (low_second (0xf0 + c / 262144) ≤ 0x80 + c / 4096 % 64)
      × (0x80 + c / 4096 % 64 ≤ high_second (0xf0 + c / 262144))
unfolding low_second high_second
second_of_four c h k = ground arith

decode_short :
    (c : ℕ) (s : Bytes)
    → 0x80 ≤ c
    → c < 0x800
    → decode ((0xc0 + c / 64) ∷ (0x80 + c % 64) ∷ s) ≡ emit (some c) (decode s)
decode_short c s h k =
    let e : step start (0xc0 + c / 64) ≡ (more 1 0x80 0xbf (0xc0 + c / 64 - 0xc0), none) =
      step_two (0xc0 + c / 64) (omega arith) (omega arith) in
    unfold decode in
    decode_two (0xc0 + c / 64 - 0xc0) 0x80 0xbf (0xc0 + c / 64) (0x80 + c % 64) (omega arith)
      (omega arith) s e
    ∙ emit_eq _ c _ (omega arith)

decode_medium :
    (c : ℕ) (s : Bytes)
    → 0x800 ≤ c
    → c < 0x10000
    → IsScalar c
    → decode ((0xe0 + c / 4096) ∷ (0x80 + c / 64 % 64) ∷ (0x80 + c % 64) ∷ s)
      ≡ emit (some c) (decode s)
decode_medium c s h k sc =
    let a = 0xe0 + c / 4096 in
    let (low, high) = second_of_three c h k sc in
    unfold decode in
    decode_three (a - 0xe0) (low_second a) (high_second a) a (0x80 + c / 64 % 64) low high
      (0x80 + c % 64) (omega arith) (omega arith) s (step_three a (omega arith) (omega arith))
    ∙ emit_eq _ c _ (omega arith)

decode_long :
    (c : ℕ) (s : Bytes)
    → 0x10000 ≤ c
    → c < 0x110000
    → decode
        ((0xf0 + c / 262144) ∷ (0x80 + c / 4096 % 64) ∷ (0x80 + c / 64 % 64) ∷ (0x80 + c % 64) ∷ s)
      ≡ emit (some c) (decode s)
decode_long c s h k =
    let a = 0xf0 + c / 262144 in
    let (low, high) = second_of_four c h k in
    unfold decode in
    decode_four (a - 0xf0) (low_second a) (high_second a) a (0x80 + c / 4096 % 64) low high
      (0x80 + c / 64 % 64) (omega arith) (omega arith) (0x80 + c % 64) s (omega arith) (omega arith)
      (step_four a (omega arith) (omega arith))
    ∙ emit_eq _ c _ (omega arith)

decode-encode_char :
    (c : ℕ) (s : Bytes) → IsScalar c → decode (encode_char c ++ s) ≡ emit (some c) (decode s)
unfolding encode_char
decode-encode_char c s h = elim (Bool-cases (ltb c 0x80)) [
  | inl e ↦ rw e (unfold decode emit in rw e)
  | inr n ↦ elim (Bool-cases (ltb c 0x800)) [
    | inl e ↦ rw (n, e) (decode_short c s (ground arith) (ground arith))
    | inr n2 ↦ elim (Bool-cases (ltb c 0x10000)) [
      | inl e ↦ rw (n, n2, e) (decode_medium c s (ground arith) (ground arith) h)
      | inr n3 ↦ rw (n, n2, n3) (decode_long c s (ground arith) (ground arith))
    ]
  ]
]

-- Decoding gives back what was encoded.
pub decode-encode : (s : Text) → All IsScalar s → decode (encode s) ≡ some s
unfolding encode emit
decode-encode [] h = unfold decode in refl
decode-encode (c ∷ s) h =
    decode-encode_char c (encode s) h.0 ∙ ap (emit (some c)) (decode-encode s h.1)
