-- ===== src/Fuse/Paging/Lines.antt =====
-- The lines of a reply to `readdir` in src/fs.rs, as a part of those of the whole directory.
use gitoxide_fs.Base.{
  ℕ, zero, suc, ◌+◌, ◌≡◌, refl, ap, sym, ◌∙◌, Bool, false, Bool-cases, inl, inr, some, List, [],
  ◌∷◌, ◌++◌, arith, length, drop, get_elem?, nat_eq, list_eq,
}
use gitoxide_fs.Base.Text.{Text}
use gitoxide_fs.Fuse.{FuseFileType}
use gitoxide_fs.Fuse.Looking.{Listed, add_lines, numbered}

abbrev no_lines : List Listed
no_lines = []

pub append_assoc :
    (xs : List Listed) (l : Listed) (ys : List Listed) → (xs ++ l ∷ []) ++ ys ≡ xs ++ l ∷ ys
append_assoc [] l ys = refl
append_assoc (x ∷ xs) l ys = ap (λ zs. x ∷ zs) (append_assoc xs l ys)

-- What was not added
add_lines-rest :
    (is_full : List Listed → Listed → Bool) (added lines : List Listed)
    → (rest : List Listed) × (add_lines is_full added lines ++ rest ≡ added ++ lines)
unfolding add_lines
add_lines-rest is_full added [] = ([], refl)
add_lines-rest is_full added (l ∷ lines) = elim (Bool-cases (is_full added l)) [
  | inl t ↦ rw t (l ∷ lines, refl)
  | inr t ↦
      let (rest, e) = add_lines-rest is_full (added ++ l ∷ []) lines in
      rw t (rest, e ∙ append_assoc added l lines)
]

drop-append : (xs ys : List Listed) → drop (length xs) (xs ++ ys) ≡ ys
drop-append [] ys = refl
drop-append (x ∷ xs) ys = drop-append xs ys

drop_nil : (n : ℕ) → drop n no_lines ≡ no_lines
drop_nil zero = refl
drop_nil (suc n) = refl

drop-drop : (k n : ℕ) (ls : List Listed) → drop n (drop k ls) ≡ drop (k + n) ls
drop-drop zero n ls = ap (λ m. drop m ls) (omega arith)
drop-drop (suc k) n [] = drop_nil n ∙ sym (drop_nil (suc k + n))
drop-drop (suc k) n (l ∷ ls) =
    let e : suc (k + n) ≡ suc k + n = omega arith in drop-drop k n ls ∙ ap (λ m. drop m (l ∷ ls)) e

get_elem?-append :
    (xs ys : List Listed) (i : ℕ) (l : Listed)
    → get_elem? xs i ≡ some l
    → get_elem? (xs ++ ys) i ≡ some l
get_elem?-append [] ys i l h = cc
get_elem?-append (x ∷ xs) ys zero l h = h
get_elem?-append (x ∷ xs) ys (suc i) l h = get_elem?-append xs ys i l h

get_elem?-drop :
    (k : ℕ) (ls : List Listed) (i : ℕ) (l : Listed)
    → get_elem? (drop k ls) i ≡ some l
    → get_elem? ls (k + i) ≡ some l
get_elem?-drop zero ls i l h = ap (get_elem? ls) (omega arith) ∙ h
get_elem?-drop (suc k) [] i l h = cc
get_elem?-drop (suc k) (x ∷ ls) i l h =
    let e : suc k + i ≡ suc (k + i) = omega arith in
    ap (get_elem? (x ∷ ls)) e ∙ get_elem?-drop k ls i l h

pub numbered-offset :
    (n : ℕ) (es : List (ℕ × FuseFileType × Text)) (i : ℕ) (l : Listed)
    → get_elem? (numbered n es) i ≡ some l
    → l.offset ≡ n + i + 1
numbered-offset n [] i l h = cc
numbered-offset n (e ∷ es) zero l h =
    let first : n + 1 ≡ l.offset = ground (arith, h) in sym first ∙ omega arith
numbered-offset n (e ∷ es) (suc i) l h = omega (arith, numbered-offset (n + 1) es i l h)

-- A buffer that takes every line.
abbrev pub never_full : List Listed → Listed → Bool
never_full added line = false

pub add_lines-never_full :
    (added lines : List Listed) → add_lines never_full added lines ≡ added ++ lines
unfolding add_lines
add_lines-never_full [] [] = refl
add_lines-never_full (x ∷ added) [] = ap (λ xs. x ∷ xs) (add_lines-never_full added [])
add_lines-never_full added (l ∷ lines) =
    add_lines-never_full (added ++ l ∷ []) lines ∙ append_assoc added l lines

-- What follows a page of the lines is what starts behind its last line.
pub page_rest :
    (is_full : List Listed → Listed → Bool) (offset : ℕ) (lines : List Listed)
    → let page = add_lines is_full [] (drop offset lines) in
      page ++ drop (offset + length page) lines ≡ drop offset lines
page_rest is_full offset lines =
    let (rest, e) = add_lines-rest is_full [] (drop offset lines) in
    let page = add_lines is_full [] (drop offset lines) in
    let left : drop (offset + length page) lines ≡ rest =
      sym (drop-drop offset (length page) lines)
      ∙ ap (drop (length page)) (sym e)
      ∙ drop-append page rest in
    ap (λ r. page ++ r) left ∙ e

pub page-get_elem? :
    (is_full : List Listed → Listed → Bool) (offset : ℕ) (lines : List Listed) (i : ℕ) (l : Listed)
    → get_elem? (add_lines is_full [] (drop offset lines)) i ≡ some l
    → get_elem? lines (offset + i) ≡ some l
page-get_elem? is_full offset lines i l h =
    let (rest, e) = add_lines-rest is_full [] (drop offset lines) in
    get_elem?-drop offset lines i l (
      ap (λ xs. get_elem? xs i) (sym e)
      ∙ get_elem?-append (add_lines is_full [] (drop offset lines)) rest i l h)
