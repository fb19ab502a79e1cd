-- ===== src/Base/Text.antt =====
-- Rust's `str` as the list of its characters, by code point, and the operations of the standard
-- library on it that the program calls.
use Prim.Native.Char.{code}
use Prim.Native.Nat.{ℕ, ◌+◌}
use Prim.Native.String.{String}
use mathlib.Core.Bool.{Bool, true, false, ◌&&◌, ◌||◌}
use mathlib.Core.List.{List, [], ◌∷◌, ◌++◌}
use mathlib.Core.Option.{Option, none, some}
use gitoxide_fs.Base.Tests.{if◌then◌else◌, leb, ltb, nat_eqb}
use gitoxide_fs.Base.Lists.{is_empty, any}
use gitoxide_fs.Base.Equality.{◌==◌, nat_eq, list_eq, list_eqb}

abbrev pub Text : Type 0
Text = List ℕ

abbrev pub Bytes : Type 0
Bytes = List ℕ

-- A literal of the source; all of them are ASCII.
abbrev pub codes : String → Text
codes String.[] = []
codes (String.◌∷◌ c s) = code c ∷ codes s

abbrev pub slash : ℕ
slash = b'/'

abbrev pub newline : ℕ
newline = 10

-- s.contains(c)
abbrev pub has_char : ℕ → Text → Bool
has_char c s = any (λ x. nat_eqb x c) s

-- s.starts_with(p)
unfoldable pub starts_with : Text → Text → Bool
starts_with s [] = true
starts_with [] (c ∷ p) = false
starts_with (x ∷ s) (c ∷ p) = nat_eqb x c && starts_with s p

-- s.strip_prefix(p)
unfoldable pub strip_prefix : Text → Text → Option Text
strip_prefix s [] = some s
strip_prefix [] (c ∷ p) = none
strip_prefix (x ∷ s) (c ∷ p) = let rest = strip_prefix s p in if nat_eqb x c then rest else none

-- s.contains(p) for a text p
unfoldable pub contains : Text → Text → Bool
unfolding starts_with
contains [] p = is_empty p
contains (x ∷ s) p = starts_with (x ∷ s) p || contains s p

-- s.ends_with(p)
unfoldable pub ends_with : Text → Text → Bool
unfolding list_eqb
ends_with [] p = is_empty p
ends_with (x ∷ s) p = (x ∷ s) == p || ends_with s p

abbrev pub cons_first : ℕ → List Text → List Text
cons_first c [] = (c ∷ []) ∷ []
cons_first c (w ∷ ws) = (c ∷ w) ∷ ws

-- s.split(c)
unfoldable pub split : ℕ → Text → List Text
split c [] = [] ∷ []
split c (x ∷ s) = let rest = split c s in if nat_eqb x c then [] ∷ rest else cons_first x rest

-- items.join(sep)
unfoldable pub join : Text → List Text → Text
join sep [] = []
join sep (w ∷ []) = w
join sep (w ∷ v ∷ ws) = w ++ (sep ++ join sep (v ∷ ws))

-- Drops leading items that pass the test.
unfoldable pub drop_while : (ℕ → Bool) → Text → Text
drop_while p [] = []
drop_while p (x ∷ s) = let rest = drop_while p s in if p x then rest else x ∷ s

-- Drops trailing items that pass the test.
unfoldable pub drop_end_while : (ℕ → Bool) → Text → Text
drop_end_while p [] = []
drop_end_while p (x ∷ s) =
    let rest = drop_end_while p s in if is_empty rest && p x then [] else x ∷ rest

-- s.trim_matches(c)
unfoldable pub trim_matches : ℕ → Text → Text
unfolding drop_while drop_end_while
trim_matches c s = drop_end_while (λ x. nat_eqb x c) (drop_while (λ x. nat_eqb x c) s)

-- s.len(): the bytes of the UTF-8 form
abbrev char_len : ℕ → ℕ
char_len c = if ltb c 0x80 then 1 else if ltb c 0x800 then 2 else if ltb c 0x10000 then 3 else 4

abbrev pub utf8_len : Text → ℕ
utf8_len [] = 0
utf8_len (c ∷ s) = char_len c + utf8_len s

-- char::is_whitespace, the Unicode property White_Space
unfoldable pub is_whitespace : ℕ → Bool
is_whitespace c =
    leb 9 c && leb c 13
    || nat_eqb c 32
    || nat_eqb c 133
    || nat_eqb c 160
    || nat_eqb c 0x1680
    || leb 0x2000 c && leb c 0x200a
    || nat_eqb c 0x2028
    || nat_eqb c 0x2029
    || nat_eqb c 0x202f
    || nat_eqb c 0x205f
    || nat_eqb c 0x3000

-- s.trim()
unfoldable pub trim : Text → Text
unfolding drop_while drop_end_while is_whitespace
trim s = drop_end_while is_whitespace (drop_while is_whitespace s)

-- s.strip_suffix(p)
unfoldable pub strip_suffix : Text → Text → Option Text
unfolding list_eqb
strip_suffix [] p = if is_empty p then some [] else none
strip_suffix (x ∷ s) p =
    let rest = strip_suffix s p in
    if (x ∷ s) == p then some [] else elim rest [ none ↦ none | some front ↦ some (x ∷ front) ]

abbrev pub strip_return : Text → Text
strip_return [] = []
strip_return (c ∷ []) = if nat_eqb c 13 then [] else c ∷ []
strip_return (c ∷ d ∷ s) = c ∷ strip_return (d ∷ s)

-- Ends of lines dropped, and no line after the last one.
unfoldable pub line_list : List Text → List Text
line_list [] = []
line_list (w ∷ []) = if is_empty w then [] else strip_return w ∷ []
line_list (w ∷ v ∷ ws) = strip_return w ∷ line_list (v ∷ ws)

-- s.lines()
unfoldable pub lines : Text → List Text
unfolding split line_list
lines s = line_list (split newline s)
