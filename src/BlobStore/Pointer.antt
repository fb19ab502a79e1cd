-- ===== src/BlobStore/Pointer.antt =====
-- `PointerFile` of src/blobstore.rs, its text form and `BlobStore::parse_pointer`.
use gitoxide_fs.Base.{
  ℕ, ◌≡◌, ◌<◌, ◌^◌, Bool, true, not, ◌&&◌, ◌||◌, Option, none, some, List, [], ◌∷◌, ◌++◌, arith,
  all, if◌then◌else◌, ◌==◌, leb, nat_eqb, nat_eq, list_eq, Option-cases, Bool-cases, inl, inr,
}
use gitoxide_fs.Base.Text.{Text, Bytes, codes, newline, strip_prefix, lines, utf8_len}
use gitoxide_fs.Base.Utf8.{encode, decode}
use gitoxide_fs.Base.Decimal.{show_u64, parse_u64, parse_u64-lt}

abbrev pub pointer_magic : Text
pointer_magic = codes "gitoxide-fs-pointer v1"

pub record PointerFile : Type 0 where
  pub sha256 : Text
  pub size : ℕ
  pub original : Text

-- The text of `PointerFile::to_bytes`, line by line.
unfoldable pub pointer_text : PointerFile → Text
pointer_text p =
    pointer_magic
    ++ (newline
        ∷ ((codes "sha256:" ++ p.sha256)
            ++ (newline
                ∷ ((codes "size:" ++ show_u64 p.size)
                    ++ (newline ∷ ((codes "original:" ++ p.original) ++ (newline ∷ [])))))))

unfoldable pub to_bytes : PointerFile → Bytes
unfolding pointer_text
to_bytes p = encode (pointer_text p)

-- u8::is_ascii_hexdigit
abbrev pub is_hexdigit : ℕ → Bool
is_hexdigit c = leb b'0' c && leb c b'9' || leb b'a' c && leb c b'f' || leb b'A' c && leb c b'F'

-- `?` on an `Option`
infixl 5 ◌>>=◌
abbrev pub ◌>>=◌ {ℓ κ} : {A : Type ℓ} {B : Type κ} → Option A → (A → Option B) → Option B
none >>= f = none
some a >>= f = f a

abbrev check_pointer : PointerFile → Option PointerFile
check_pointer p =
    if not (nat_eqb (utf8_len p.sha256) 64) || not (all is_hexdigit p.sha256) then none else some p

unfoldable pub parse_fields : Text → Text → Text → Option PointerFile
parse_fields a b c = do
  sha256 ← strip_prefix a (codes "sha256:")
  digits ← strip_prefix b (codes "size:")
  size ← parse_u64 digits
  original ← strip_prefix c (codes "original:")
  check_pointer (record { sha256 = sha256; size = size; original = original })

unfoldable pub parse_lines : List Text → Option PointerFile
unfolding parse_fields
parse_lines (magic ∷ a ∷ b ∷ c ∷ rest) = if magic == pointer_magic then parse_fields a b c else none
parse_lines _ = none

-- `BlobStore::parse_pointer`
unfoldable pub parse_pointer : Bytes → Option PointerFile
unfolding parse_lines lines
parse_pointer content = do text ← decode content; parse_lines (lines text)

-- The hash is 64 hexadecimal digits.
pub record IsHash (sha256 : Text) : Type 0 where
  pub long : utf8_len sha256 ≡ 64
  pub hex : all is_hexdigit sha256 ≡ true

parse_fields-IsHash :
    (a b c : Text) (p : PointerFile)
    → parse_fields a b c ≡ some p
    → IsHash p.sha256 × (p.size < 2 ^ 64)
unfolding parse_fields
parse_fields-IsHash a b c p h = elim (Option-cases (strip_prefix a (codes "sha256:"))) [
  | inl e ↦ cc (rw e at h)
  | inr (sha256, e) ↦ elim (Option-cases (strip_prefix b (codes "size:"))) [
    | inl f ↦ cc (rw (e, f) at h)
    | inr (digits, f) ↦ elim (Option-cases (parse_u64 digits)) [
      | inl g ↦ cc (rw (e, f, g) at h)
      | inr (size, g) ↦ elim (Option-cases (strip_prefix c (codes "original:"))) [
        | inl k ↦ cc (rw (e, f, g, k) at h)
        | inr (original, k) ↦
            let small = parse_u64-lt digits size g in
            let found = rw (e, f, g, k) at h in
            (record { long = ground arith; hex = ground arith }, ground arith)
      ]
    ]
  ]
]

parse_lines-IsHash :
    (ls : List Text) (p : PointerFile)
    → parse_lines ls ≡ some p
    → IsHash p.sha256 × (p.size < 2 ^ 64)
unfolding parse_lines
parse_lines-IsHash (m ∷ a ∷ b ∷ c ∷ rest) p h = elim (Bool-cases (m == pointer_magic)) [
  | inl e ↦ parse_fields-IsHash a b c p (rw e at h)
  | inr n ↦ cc (rw n at h)
]
parse_lines-IsHash _ p h = cc

-- A content that is read as a pointer names a blob by 64 hexadecimal digits, so that the path of
-- the blob can be cut out of them, and a size that fits into a u64.
pub parse_pointer-IsHash :
    (content : Bytes) (p : PointerFile)
    → parse_pointer content ≡ some p
    → IsHash p.sha256 × (p.size < 2 ^ 64)
unfolding parse_pointer
parse_pointer-IsHash content p h = elim (Option-cases (decode content)) [
  | inl e ↦ cc (rw e at h)
  | inr (text, e) ↦ parse_lines-IsHash (lines text) p (rw e at h)
]
