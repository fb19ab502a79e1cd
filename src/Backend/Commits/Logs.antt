-- ===== src/Backend/Commits/Logs.antt =====
-- The history that `log` of src/git.rs walks.
use gitoxide_fs.Base.{
  ◌∙◌, sym, ℕ, zero, suc, ◌≡◌, ◌≤◌, refl, ap, Option, none, some, List, [], ◌∷◌, arith, length,
  take,
}
use gitoxide_fs.Base.Text.{Bytes}
use gitoxide_fs.Error.{Error}
use gitoxide_fs.Error.Monad.{Result, ok, err, and_then}
use gitoxide_fs.Config.{Config}
use gitoxide_fs.Os.{Os}
use gitoxide_fs.Gix.{Gix}
use gitoxide_fs.Backend.State.{Backend}
use gitoxide_fs.Backend.Refs.{head_commit_oid}
use gitoxide_fs.Backend.Commits.{CommitInfo, parse_commit_inner, next_commit, log_loop, log}

and_then_ok :
    {A B : Type 0} (r : Result Error A) (k : A → Result Error B) (b : B)
    → and_then r k ≡ ok b
    → (a : A) × (r ≡ ok a) × (k a ≡ ok b)
and_then_ok (ok a) k b h = (a, refl, h)
and_then_ok (err e) k b h = cc

cons_ok :
    {A : Type 0} (a : A) (r : Result Error (List A)) (xs : List A)
    → and_then r (λ rest. ok (a ∷ rest)) ≡ ok xs
    → (rest : List A) × (r ≡ ok rest) × (xs ≡ a ∷ rest)
cons_ok a (ok rest) xs h = (rest, refl, cc)
cons_ok a (err e) xs h = cc

module _ (O : Os) (G : Gix) where
  -- One round that succeeded
  round_ok :
      (m : ℕ) (oid : G.ObjectId) (s : G.Store) (infos : List CommitInfo)
      → log_loop O G (suc m) (some oid) s ≡ ok infos
      → (info : CommitInfo) × (rest : List CommitInfo) × (parse_commit_inner O G oid s ≡ ok info)
        × (log_loop O G m (next_commit O G info.parent_ids) s ≡ ok rest)
        × (infos ≡ info ∷ rest)
  unfolding log_loop
  round_ok m oid s infos h =
      let (info, parsed, more) =
        and_then_ok (parse_commit_inner O G oid s)
          (λ i. and_then (log_loop O G m (next_commit O G i.parent_ids) s) (λ l. ok (i ∷ l))) infos
          h in
      let (rest, logged, e) =
        cons_ok info (log_loop O G m (next_commit O G info.parent_ids) s) infos more in
      (info, rest, parsed, logged, e)

  log_loop-take :
      (n m : ℕ) (o : Option G.ObjectId) (s : G.Store) (infos : List CommitInfo)
      → n ≤ m
      → log_loop O G m o s ≡ ok infos
      → log_loop O G n o s ≡ ok (take n infos)
  unfolding log_loop
  log_loop-take zero m o s infos h e = refl
  log_loop-take (suc n) zero o s infos h e = absurd (omega (arith, h))
  log_loop-take (suc n) (suc m) none s [] h e = refl
  log_loop-take (suc n) (suc m) none s (i ∷ infos) h e = cc
  log_loop-take (suc n) (suc m) (some oid) s infos h e =
      let (info, rest, parsed, logged, split) = round_ok m oid s infos e in
      let again =
        log_loop-take n m (next_commit O G info.parent_ids) s rest (omega (arith, h)) logged in
      let first : log_loop O G (suc n) (some oid) s ≡ ok (info ∷ take n rest) =
        rw (parsed, again) refl in
      first ∙ ap (λ xs. ok (take (suc n) xs)) (sym split)

  length-log_loop :
      (m : ℕ) (o : Option G.ObjectId) (s : G.Store) (infos : List CommitInfo)
      → log_loop O G m o s ≡ ok infos
      → length infos ≤ m
  unfolding log_loop
  length-log_loop zero o s [] e = omega arith
  length-log_loop zero o s (i ∷ infos) e = cc
  length-log_loop (suc m) none s [] e = omega arith
  length-log_loop (suc m) none s (i ∷ infos) e = cc
  length-log_loop (suc m) (some oid) s infos e =
      let (info, rest, parsed, logged, split) = round_ok m oid s infos e in
      let short = length-log_loop m (next_commit O G info.parent_ids) s rest logged in
      ground (arith, short, ap length split)

  module _ (digest : Bytes → Bytes) (config : Config) where
    -- When the whole history of the head can be read within `all` rounds, `log` with a limit up to
    -- that succeeds and gives its first commits, as many as the limit allows.
    pub log-take :
        (all limit : ℕ) (b : Backend O G) (infos : List CommitInfo)
        → limit ≤ all
        → log O G digest config all none b ≡ ok infos
        → (log O G digest config all (some limit) b ≡ ok (take limit infos))
          × (length (take limit infos) ≤ limit)
    unfolding log
    log-take all limit b infos h e =
        let head = head_commit_oid O G config.repo_path b.os in
        let short = log_loop-take limit all head b.objects infos h e in
        (short, length-log_loop limit head b.objects (take limit infos) short)
