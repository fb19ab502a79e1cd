-- ===== src/Fuse/Splice.antt =====
-- The bytes that a write of src/fs.rs leaves in the content of a file.
use gitoxide_fs.Base.{
  ℕ, ◌+◌, ◌-◌, ◌≤◌, ◌<◌, ◌≡◌, ◌∙◌, ap, refl, zero, suc, Option, none, some, [], ◌∷◌, ◌++◌, arith,
  ltb, length, take, drop, replicate, get_elem?, length-append, length-take, length-drop,
  length-replicate, if◌then◌else◌,
}
use gitoxide_fs.Base.Text.{Bytes}
use gitoxide_fs.Fuse.Contents.{slice, splice, overwrite, extend_to}

get_elem?-append :
    (xs ys : Bytes) (i : ℕ)
    → get_elem? (xs ++ ys) i
      ≡ (if ltb i (length xs) then get_elem? xs i else get_elem? ys (i - length xs))
get_elem?-append [] ys i = ground arith
get_elem?-append (x ∷ xs) ys zero = ground arith
get_elem?-append (x ∷ xs) ys (suc i) = ground (arith, get_elem?-append xs ys i)

get_elem?-take : (n : ℕ) (xs : Bytes) (i : ℕ) → i < n → get_elem? (take n xs) i ≡ get_elem? xs i
get_elem?-take zero xs i h = ground arith
get_elem?-take (suc n) [] i h = refl
get_elem?-take (suc n) (x ∷ xs) zero h = refl
get_elem?-take (suc n) (x ∷ xs) (suc i) h = get_elem?-take n xs i (omega arith)

get_elem?-drop : (n : ℕ) (xs : Bytes) (i : ℕ) → get_elem? (drop n xs) i ≡ get_elem? xs (n + i)
get_elem?-drop zero xs i = ground arith
get_elem?-drop (suc n) [] i = ground arith
get_elem?-drop (suc n) (x ∷ xs) i =
    let e : suc (n + i) ≡ suc n + i = omega arith in
    get_elem?-drop n xs i ∙ ap (get_elem? (x ∷ xs)) e

get_elem?-replicate : (n a i : ℕ) → i < n → get_elem? (replicate n a) i ≡ some a
get_elem?-replicate zero a i h = ground arith
get_elem?-replicate (suc n) a zero h = refl
get_elem?-replicate (suc n) a (suc i) h = get_elem?-replicate n a i (omega arith)

get_elem?-past : (xs : Bytes) (i : ℕ) → length xs ≤ i → get_elem? xs i ≡ none
get_elem?-past [] i h = refl
get_elem?-past (x ∷ xs) zero h = ground arith
get_elem?-past (x ∷ xs) (suc i) h = get_elem?-past xs i (omega arith)

length-extend_to :
    (n : ℕ) (c : Bytes) → length (extend_to n c) ≡ (if ltb (length c) n then n else length c)
length-extend_to n c = ground (
  arith,
  length-take n (c ++ replicate (n - length c) 0),
  length-append c (replicate (n - length c) 0),
  length-replicate {A = ℕ} (n - length c) 0,
)

get_elem?-extend_to :
    (n : ℕ) (c : Bytes) (i : ℕ)
    → get_elem? (extend_to n c) i
      ≡ (if ltb i (length c) then get_elem? c i else if ltb i n then some 0 else none)
get_elem?-extend_to n c i = ground (
  arith,
  get_elem?-take n (c ++ replicate (n - length c) 0) i,
  get_elem?-append c (replicate (n - length c) 0) i,
  get_elem?-replicate (n - length c) 0 (i - length c),
  get_elem?-past (extend_to n c) i,
  length-extend_to n c,
)

-- The byte at an index after a write: the written one within the write, the one that was there
-- elsewhere, and a zero between the old end and the write.
abbrev pub byte_at : ℕ → Bytes → Bytes → ℕ → Option ℕ
byte_at offset bytes content i =
    if ltb i offset
    then (if ltb i (length content) then get_elem? content i else some 0)
    else if ltb i (offset + length bytes)
    then get_elem? bytes (i - offset)
    else get_elem? content i

length-overwrite :
    (offset : ℕ) (bytes c : Bytes)
    → offset + length bytes ≤ length c
    → length (overwrite offset bytes c) ≡ length c
length-overwrite offset bytes c h = ground (
  arith,
  length-append (take offset c) (bytes ++ drop (offset + length bytes) c),
  length-append bytes (drop (offset + length bytes) c),
  length-take offset c,
  length-drop (offset + length bytes) c,
)

get_elem?-overwrite :
    (offset : ℕ) (bytes c : Bytes) (i : ℕ)
    → offset + length bytes ≤ length c
    → get_elem? (overwrite offset bytes c) i ≡ (
        if ltb i offset
        then get_elem? c i
        else if ltb i (offset + length bytes)
        then get_elem? bytes (i - offset)
        else get_elem? c i)
get_elem?-overwrite offset bytes c i h =
    let n : offset + length bytes ≤ i
        → (offset + length bytes) + ((i - offset) - length bytes) ≡ i =
      λ g. omega arith in
    ground (
      arith,
      get_elem?-append (take offset c) (bytes ++ drop (offset + length bytes) c) i,
      get_elem?-append bytes (drop (offset + length bytes) c) (i - offset),
      get_elem?-take offset c i,
      get_elem?-drop (offset + length bytes) c ((i - offset) - length bytes),
      length-take offset c,
      n,
    )

length-extended :
    (offset : ℕ) (bytes content : Bytes)
    → length (extend_to (offset + length bytes) (extend_to offset content)) ≡ (
        if ltb (length content) (offset + length bytes)
        then offset + length bytes
        else length content)
length-extended offset bytes content = ground (
  arith,
  length-extend_to offset content,
  length-extend_to (offset + length bytes) (extend_to offset content),
)

get_elem?-extended :
    (offset : ℕ) (bytes content : Bytes) (i : ℕ)
    → let c = extend_to (offset + length bytes) (extend_to offset content) in
      (if ltb i offset
        then get_elem? c i
        else if ltb i (offset + length bytes)
        then get_elem? bytes (i - offset)
        else get_elem? c i)
      ≡ byte_at offset bytes content i
get_elem?-extended offset bytes content i =
    let inner = extend_to offset content in
    rw (get_elem?-extend_to (offset + length bytes) inner i) (
      ground (
        arith,
        get_elem?-extend_to offset content i,
        length-extend_to offset content,
        get_elem?-past content i,
      ))

-- A write leaves the file as long as it was, or as long as the end of what was written if that is
-- more.
pub length-splice :
    (offset : ℕ) (bytes content : Bytes)
    → length (splice offset bytes content) ≡ (
        if ltb (length content) (offset + length bytes)
        then offset + length bytes
        else length content)
unfolding splice
length-splice offset bytes content =
    let l = length-extended offset bytes content in
    length-overwrite offset bytes (extend_to (offset + length bytes) (extend_to offset content))
      (ground (arith, l))
    ∙ l

-- After a write every byte is the written one within the write, the one that was there elsewhere,
-- and a zero between the old end of the file and the write.
pub get_elem?-splice :
    (offset : ℕ) (bytes content : Bytes) (i : ℕ)
    → get_elem? (splice offset bytes content) i ≡ byte_at offset bytes content i
unfolding splice
get_elem?-splice offset bytes content i =
    let l = length-extended offset bytes content in
    get_elem?-overwrite offset bytes (extend_to (offset + length bytes) (extend_to offset content))
      i (ground (arith, l))
    ∙ get_elem?-extended offset bytes content i

list_ext : (xs ys : Bytes) → ((i : ℕ) → get_elem? xs i ≡ get_elem? ys i) → xs ≡ ys
list_ext [] [] h = refl
list_ext [] (y ∷ ys) h = ground (arith, h 0)
list_ext (x ∷ xs) [] h = ground (arith, h 0)
list_ext (x ∷ xs) (y ∷ ys) h = ground (arith, h 0, list_ext xs ys (λ i. h (suc i)))

get_elem?-slice :
    (offset size : ℕ) (c : Bytes) (i : ℕ)
    → offset + size ≤ length c
    → i < size
    → get_elem? (slice offset size c) i ≡ get_elem? c (offset + i)
unfolding slice
get_elem?-slice offset size c i h lt =
    ground (arith, get_elem?-take size (drop offset c) i, get_elem?-drop offset c i)

length-slice :
    (offset size : ℕ) (c : Bytes) → offset + size ≤ length c → length (slice offset size c) ≡ size
unfolding slice
length-slice offset size c h =
    ground (arith, length-take size (drop offset c), length-drop offset c)

-- Reading what was written, at the offset at which it was written, gives it back.
pub slice-splice :
    (offset : ℕ) (bytes content : Bytes)
    → slice offset (length bytes) (splice offset bytes content) ≡ bytes
slice-splice offset bytes content =
    let c = splice offset bytes content in
    let long : offset + length bytes ≤ length c =
      ground (arith, length-splice offset bytes content) in
    list_ext (slice offset (length bytes) c) bytes (λ i. ground (
      arith,
      length-slice offset (length bytes) c long,
      get_elem?-slice offset (length bytes) c i long,
      get_elem?-splice offset bytes content (offset + i),
      get_elem?-past bytes i,
      get_elem?-past (slice offset (length bytes) c) i,
    ))
