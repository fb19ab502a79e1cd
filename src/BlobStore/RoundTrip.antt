-- ===== src/BlobStore/RoundTrip.antt =====
-- A pointer file is read back as it was written.
use gitoxide_fs.Base.{
  ℕ, ◌≡◌, ◌<◌, ◌^◌, refl, ap, ◌∙◌, Bool, true, false, ◌&&◌, some, List, [], ◌∷◌, ◌++◌, arith, all,
  All, ◌==◌, ==_refl, leb, nat_eqb_iff, nat_eq, list_eq,
}
use gitoxide_fs.Base.Text.{
  Text, Bytes, codes, newline, has_char, strip_prefix, split, lines, line_list, strip_return,
}
use gitoxide_fs.Base.Splits.{split_first}
use gitoxide_fs.Base.Utf8.{decode, IsScalar, decode-encode}
use gitoxide_fs.Base.Decimal.{show_u64, parse_u64-show_u64, show_u64-AllDigits, AllDigits}
use gitoxide_fs.BlobStore.Pointer.{
  PointerFile, pointer_magic, pointer_text, to_bytes, is_hexdigit, IsHash, parse_fields,
  parse_lines, parse_pointer,
}

-- What a pointer of the program is: a hash, a u64, and a name on one line.
pub record IsPointer (p : PointerFile) : Type 0 where
  pub hash : IsHash p.sha256
  pub small : p.size < 2 ^ 64
  pub characters : All IsScalar p.original
  pub one_line : has_char newline p.original ≡ false
  pub no_return : has_char 13 p.original ≡ false

strip_prefix-append : (p s : Text) → strip_prefix (p ++ s) p ≡ some s
unfolding strip_prefix
strip_prefix-append [] [] = refl
strip_prefix-append [] (x ∷ s) = refl
strip_prefix-append (c ∷ p) s = ground (arith, nat_eqb_iff c c, strip_prefix-append p s)

strip_return_none : (s : Text) → has_char 13 s ≡ false → strip_return s ≡ s
strip_return_none [] h = refl
strip_return_none (c ∷ []) h = ground arith
strip_return_none (c ∷ d ∷ s) h = ap (◌∷◌ c) (strip_return_none (d ∷ s) (ground arith))

-- Printable ASCII characters.
abbrev plain : ℕ → Bool
plain c = leb 32 c && leb c 126

abbrev AllPlain : Text → Type 0
AllPlain = All (λ c. plain c ≡ true)

has_char-plain : (c : ℕ) (s : Text) → plain c ≡ false → AllPlain s → has_char c s ≡ false
has_char-plain c [] h a = refl
has_char-plain c (x ∷ s) h a = ground (arith, has_char-plain c s h a.1)

hex-AllPlain : (s : Text) → all is_hexdigit s ≡ true → AllPlain s
hex-AllPlain [] h = tt
hex-AllPlain (c ∷ s) h = (ground arith, hex-AllPlain s (ground arith))

digits-AllPlain : (s : Text) → AllDigits s → AllPlain s
digits-AllPlain [] h = tt
digits-AllPlain (c ∷ s) h = (ground arith, digits-AllPlain s h.1)

AllPlain-IsScalar : (s : Text) → AllPlain s → All IsScalar s
AllPlain-IsScalar [] h = tt
AllPlain-IsScalar (c ∷ s) h = (ground arith, AllPlain-IsScalar s h.1)

All-append {κ} :
    {A : Type 0} (P : A → Type κ) (xs ys : List A) → All P xs → All P ys → All P (xs ++ ys)
All-append P [] ys a b = b
All-append P (x ∷ xs) ys a b = (a.0, All-append P xs ys a.1 b)

line-IsScalar :
    (line rest : Text)
    → All IsScalar line
    → All IsScalar rest
    → All IsScalar (line ++ (newline ∷ rest))
line-IsScalar line rest a b = All-append IsScalar line (newline ∷ rest) a (omega arith, b)

lines_lem : (s : Text) → lines s ≡ line_list (split newline s)
unfolding lines
lines_lem s = refl

four_lines :
    (a b c d : Text)
    → has_char 13 a ≡ false
    → has_char 13 b ≡ false
    → has_char 13 c ≡ false
    → has_char 13 d ≡ false
    → line_list (a ∷ b ∷ c ∷ d ∷ split newline []) ≡ a ∷ b ∷ c ∷ d ∷ []
unfolding line_list split
four_lines a b c d ha hb hc hd =
    rw (
      strip_return_none a ha,
      strip_return_none b hb,
      strip_return_none c hc,
      strip_return_none d hd,
    )

parse_lines_lem :
    (m a b c : Text) (rest : List Text)
    → (m == pointer_magic) ≡ true
    → parse_lines (m ∷ a ∷ b ∷ c ∷ rest) ≡ parse_fields a b c
unfolding parse_lines
parse_lines_lem m a b c rest h = rw h

parse_pointer_lem :
    (content : Bytes) (text : Text)
    → decode content ≡ some text
    → parse_pointer content ≡ parse_lines (lines text)
unfolding parse_pointer
parse_pointer_lem content text h = rw h

abbrev sha_line : PointerFile → Text
sha_line p = codes "sha256:" ++ p.sha256

abbrev size_line : PointerFile → Text
size_line p = codes "size:" ++ show_u64 p.size

abbrev original_line : PointerFile → Text
original_line p = codes "original:" ++ p.original

abbrev original_rest : PointerFile → Text
original_rest p = original_line p ++ (newline ∷ [])

abbrev size_rest : PointerFile → Text
size_rest p = size_line p ++ (newline ∷ original_rest p)

abbrev sha_rest : PointerFile → Text
sha_rest p = sha_line p ++ (newline ∷ size_rest p)

module _ (p : PointerFile) (v : IsPointer p) where
  sha_plain : AllPlain (sha_line p)
  sha_plain =
      All-append (λ c. plain c ≡ true) (codes "sha256:") p.sha256 (ground arith)
        (hex-AllPlain p.sha256 v.hash.hex)

  size_plain : AllPlain (size_line p)
  size_plain =
      All-append (λ c. plain c ≡ true) (codes "size:") (show_u64 p.size) (ground arith)
        (digits-AllPlain (show_u64 p.size) (show_u64-AllDigits p.size))

  split-pointer_text :
      split newline (pointer_text p)
      ≡ pointer_magic ∷ sha_line p ∷ size_line p ∷ original_line p ∷ split newline []
  unfolding pointer_text
  split-pointer_text =
      split_first newline pointer_magic _ refl
      ∙ ap (◌∷◌ pointer_magic) (
          split_first newline (sha_line p) _ (has_char-plain newline (sha_line p) refl sha_plain)
          ∙ ap (◌∷◌ (sha_line p)) (
              split_first newline (size_line p) _
                (has_char-plain newline (size_line p) refl size_plain)
              ∙ ap (◌∷◌ (size_line p)) (split_first newline (original_line p) [] v.one_line)))

  lines-pointer_text :
      lines (pointer_text p) ≡ pointer_magic ∷ sha_line p ∷ size_line p ∷ original_line p ∷ []
  lines-pointer_text =
      lines_lem (pointer_text p)
      ∙ ap line_list split-pointer_text
      ∙ four_lines pointer_magic (sha_line p) (size_line p) (original_line p) refl
          (has_char-plain 13 (sha_line p) refl sha_plain)
          (has_char-plain 13 (size_line p) refl size_plain) v.no_return

  parse_fields-lines : parse_fields (sha_line p) (size_line p) (original_line p) ≡ some p
  unfolding parse_fields
  parse_fields-lines =
      rw
        (
          strip_prefix-append (codes "sha256:") p.sha256,
          strip_prefix-append (codes "size:") (show_u64 p.size),
          parse_u64-show_u64 p.size v.small,
          strip_prefix-append (codes "original:") p.original,
        )
        (ground (arith, v.hash.long, v.hash.hex))

  parse_lines-lines :
      parse_lines (pointer_magic ∷ sha_line p ∷ size_line p ∷ original_line p ∷ []) ≡ some p
  parse_lines-lines =
      parse_lines_lem pointer_magic (sha_line p) (size_line p) (original_line p) []
        (==_refl pointer_magic)
      ∙ parse_fields-lines

  pointer_text-IsScalar : All IsScalar (pointer_text p)
  unfolding pointer_text
  pointer_text-IsScalar =
      line-IsScalar pointer_magic (sha_rest p) (AllPlain-IsScalar pointer_magic (ground arith)) (
        line-IsScalar (sha_line p) _ (AllPlain-IsScalar (sha_line p) sha_plain) (
          line-IsScalar (size_line p) _ (AllPlain-IsScalar (size_line p) size_plain) (
            line-IsScalar (original_line p) []
              (All-append IsScalar (codes "original:") p.original
                (AllPlain-IsScalar (codes "original:") (ground arith)) v.characters)
              tt)))

  -- The bytes of a pointer are read back as the pointer: its hash is 64 hexadecimal digits, its
  -- size a u64, and its name has no line break.
  pub parse_pointer-to_bytes : parse_pointer (to_bytes p) ≡ some p
  parse_pointer-to_bytes =
      parse_pointer_lem (to_bytes p) (pointer_text p)
        (unfold to_bytes in decode-encode (pointer_text p) pointer_text-IsScalar)
      ∙ ap parse_lines lines-pointer_text
      ∙ parse_lines-lines
