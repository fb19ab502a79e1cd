-- ===== src/Ignore/Glob.antt =====
-- `glob_match` and `do_glob` of src/git.rs, with the relation that they decide.
use gitoxide_fs.Base.{
  ℕ, suc, ◌≡◌, refl, ◌≢◌, ◌↔◌, inl, inr, Bool, true, false, List, [], ◌∷◌, arith, is_empty,
  if◌then◌else◌, nat_eqb, nat_eqb_iff, Bool-cases,
}
use gitoxide_fs.Base.Text.{Text, slash}

abbrev pub star : ℕ
star = b'*'

abbrev pub question : ℕ
question = b'?'

-- The loop over `0..=txt.len()`: `rest` is the match of `pat[1..]`.
unfoldable pub star_loop : (List ℕ → Bool) → List ℕ → Bool
star_loop rest [] = rest []
star_loop rest (x ∷ txt) =
    let more = star_loop rest txt in
    if rest (x ∷ txt) then true else if nat_eqb x slash then false else more

abbrev any_char : (List ℕ → Bool) → List ℕ → Bool
any_char rest [] = false
any_char rest (x ∷ txt) = if nat_eqb x slash then false else rest txt

abbrev same_char : ℕ → (List ℕ → Bool) → List ℕ → Bool
same_char c rest [] = false
same_char c rest (x ∷ txt) = if nat_eqb x c then rest txt else false

unfoldable pub do_glob : List ℕ → List ℕ → Bool
unfolding star_loop
do_glob [] txt = is_empty txt
do_glob (c ∷ pat) txt =
    let rest = do_glob pat in
    if nat_eqb c star
    then star_loop rest txt
    else if nat_eqb c question
    then any_char rest txt
    else same_char c rest txt

unfoldable pub glob_match : Text → Text → Bool
unfolding do_glob
glob_match pattern text = do_glob pattern text

-- What a pattern stands for, with no order of search in it.
pub data Matches : List ℕ → List ℕ → Type 0 where
  done : Matches [] []
  leave : {c : ℕ} {p t : List ℕ} → c ≡ star → Matches p t → Matches (c ∷ p) t
  take :
      {c x : ℕ} {p t : List ℕ} → c ≡ star → x ≢ slash → Matches (c ∷ p) t → Matches (c ∷ p) (x ∷ t)
  wild : {c x : ℕ} {p t : List ℕ} → c ≡ question → x ≢ slash → Matches p t → Matches (c ∷ p) (x ∷ t)
  same :
      {c x : ℕ} {p t : List ℕ}
      → c ≢ star
      → c ≢ question
      → x ≡ c
      → Matches p t
      → Matches (c ∷ p) (x ∷ t)

star_loop_sound :
    {c : ℕ} {p : List ℕ} (rest : List ℕ → Bool) (t : List ℕ)
    → c ≡ star
    → ((s : List ℕ) → rest s ≡ true → Matches p s)
    → star_loop rest t ≡ true
    → Matches (c ∷ p) t
unfolding star_loop
star_loop_sound rest [] e sound h = leave e (sound [] h)
star_loop_sound rest (x ∷ t) e sound h = elim (Bool-cases (rest (x ∷ t))) [
  | inl now ↦ leave e (sound (x ∷ t) now)
  | inr later ↦
      take e (ground (arith, nat_eqb_iff x slash))
        (star_loop_sound rest t e sound (ground (arith, nat_eqb_iff x slash)))
]

char_sound :
    (c : ℕ) {p : List ℕ} (rest : List ℕ → Bool) (t : List ℕ)
    → ((s : List ℕ) → rest s ≡ true → Matches p s)
    → nat_eqb c star ≡ false
    → (if nat_eqb c question then any_char rest t else same_char c rest t) ≡ true
    → Matches (c ∷ p) t
char_sound c rest [] sound n h = ground arith
char_sound c rest (x ∷ t) sound n h = elim (Bool-cases (nat_eqb c question)) [
  | inl e ↦
      wild ((nat_eqb_iff c question).0 e) (ground (arith, nat_eqb_iff x slash))
        (sound t (ground arith))
  | inr m ↦
      same (ground (arith, nat_eqb_iff c star)) (ground (arith, nat_eqb_iff c question))
        (ground (arith, nat_eqb_iff x c)) (sound t (ground arith))
]

do_glob_sound : (p t : List ℕ) → do_glob p t ≡ true → Matches p t
unfolding do_glob
do_glob_sound [] [] h = done
do_glob_sound [] (x ∷ t) h = cc
do_glob_sound (c ∷ p) t h = elim (Bool-cases (nat_eqb c star)) [
  | inl e ↦ star_loop_sound (do_glob p) t ((nat_eqb_iff c star).0 e) (do_glob_sound p) (rw e at h)
  | inr n ↦ char_sound c (do_glob p) t (do_glob_sound p) n (rw n at h)
]

star_loop_nil : (rest : List ℕ → Bool) (t : List ℕ) → rest t ≡ true → star_loop rest t ≡ true
unfolding star_loop
star_loop_nil rest [] h = h
star_loop_nil rest (x ∷ t) h = rw h

star_loop_cons :
    (rest : List ℕ → Bool) (x : ℕ) (t : List ℕ)
    → x ≢ slash
    → star_loop rest t ≡ true
    → star_loop rest (x ∷ t) ≡ true
unfolding star_loop
star_loop_cons rest x t n h = ground (arith, nat_eqb_iff x slash)

do_glob_complete : {p t : List ℕ} → Matches p t → do_glob p t ≡ true
unfolding do_glob
do_glob_complete done = refl
do_glob_complete (leave {p = p} {t = t} e m) =
    rw e (star_loop_nil (do_glob p) t (do_glob_complete m))
do_glob_complete (take {x = x} {p = p} {t = t} e n m) =
    let ih = do_glob_complete m in rw e (star_loop_cons (do_glob p) x t n (rw e at ih))
do_glob_complete (wild {x = x} e n m) =
    let ih = do_glob_complete m in rw e (ground (arith, nat_eqb_iff x slash))
do_glob_complete (same {c = c} {x = x} a b e m) =
    let ih = do_glob_complete m in
    ground (arith, nat_eqb_iff x c, nat_eqb_iff c star, nat_eqb_iff c question)

-- `glob_match` answers true exactly where the pattern stands for the text: `*` for any run of
-- characters without `/`, `?` for one character that is no `/`, any other for itself.
pub glob_match_iff : (p t : Text) → (glob_match p t ≡ true) ↔ Matches p t
unfolding glob_match
glob_match_iff p t = (do_glob_sound p t, do_glob_complete)

-- The number of `/` in a text.
abbrev pub slashes : Text → ℕ
slashes [] = 0
slashes (c ∷ s) = if nat_eqb c slash then suc (slashes s) else slashes s

slashes-Matches : {p t : List ℕ} → Matches p t → slashes t ≡ slashes p
slashes-Matches done = refl
slashes-Matches (leave {c = c} e m) =
    let ih = slashes-Matches m in ground (arith, nat_eqb_iff c slash)
slashes-Matches (take {c = c} {x = x} e n m) =
    let ih = slashes-Matches m in ground (arith, nat_eqb_iff c slash, nat_eqb_iff x slash)
slashes-Matches (wild {c = c} {x = x} e n m) =
    let ih = slashes-Matches m in ground (arith, nat_eqb_iff c slash, nat_eqb_iff x slash)
slashes-Matches (same {c = c} {x = x} a b e m) = let ih = slashes-Matches m in ground arith

-- A text that `glob_match` accepts has as many `/` as the pattern: no wildcard crosses a
-- directory.
pub glob_match-slashes : (p t : Text) → glob_match p t ≡ true → slashes t ≡ slashes p
glob_match-slashes p t h = slashes-Matches ((glob_match_iff p t).0 h)
