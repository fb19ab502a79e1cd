-- ===== src/Error/Runs.antt =====
-- Runs that succeeded: the branch they took and the steps they went through.
use gitoxide_fs.Base.{◌≡◌, refl, ap, sym, ◌∙◌, Bool, true, false, if◌then◌else◌}
use gitoxide_fs.Error.Monad.{Result, ok, err, map_err, Exec, continue}

module _ {S E A : Type 0} (a : A) (e : E) (s : S) (r : Result E A × S) where
  pub taken :
      (b : Bool) → (if b then r else (err e, s)).0 ≡ ok a → (if b then r else (err e, s)) ≡ r
  taken true h = refl
  taken false h = cc

  pub taken_else :
      (b : Bool) → (if b then (err e, s) else r).0 ≡ ok a → (if b then (err e, s) else r) ≡ r
  taken_else false h = refl
  taken_else true h = cc

pub second_step {ℓ} :
    {S E A B : Type ℓ} (b : B) (n : Exec S E B) (r : Result E A × S)
    → (continue r.0 (λ _. n) r.1).0 ≡ ok b
    → continue r.0 (λ _. n) r.1 ≡ n r.1
second_step b n (ok _, s) h = refl
second_step b n (err e, s) h = cc

-- A run that succeeds passed the checks before it, which read the state and leave it alone.
module _ {S E B : Type 0} (b : B) where
  pub one_check :
      (c : Result E Unit) (m : Exec S E B) (s : S)
      → (continue c (λ _. m) s).0 ≡ ok b
      → (c ≡ ok tt) × (continue c (λ _. m) s ≡ m s)
  one_check (ok _) m s h = (refl, refl)
  one_check (err e) m s h = cc

  pub two_checks :
      (c d : S → Result E Unit) (m : Exec S E B) (s : S)
      → (continue (c s) (λ _ t. continue (d t) (λ _. m) t) s).0 ≡ ok b
      → (c s ≡ ok tt) × (d s ≡ ok tt) × (continue (c s) (λ _ t. continue (d t) (λ _. m) t) s ≡ m s)
  two_checks c d m s h =
      let p = one_check (c s) (λ t. continue (d t) (λ _. m) t) s h in
      let q = one_check (d s) m s (sym (ap (λ r. r.0) p.1) ∙ h) in (p.0, q.0, p.1 ∙ q.1)

  pub three_checks :
      (c d f : S → Result E Unit) (m : Exec S E B) (s : S)
      → (continue (c s) (λ _ t. continue (d t) (λ _ u. continue (f u) (λ _. m) u) t) s).0 ≡ ok b
      → (c s ≡ ok tt)
        × (d s ≡ ok tt)
        × (f s ≡ ok tt)
        × (continue (c s) (λ _ t. continue (d t) (λ _ u. continue (f u) (λ _. m) u) t) s ≡ m s)
  three_checks c d f m s h =
      let p = one_check (c s) (λ t. continue (d t) (λ _ u. continue (f u) (λ _. m) u) t) s h in
      let q = two_checks d f m s (sym (ap (λ r. r.0) p.1) ∙ h) in (p.0, q.0, q.1, p.1 ∙ q.2)

-- What holds after every outcome of a run holds after the run and what follows it.
pub outcomes :
    {S E A B : Type 0} (r : Result E A) (k : A → Exec S E B) (s : S) (P : Result E B × S → Type 0)
    → ((a : A) → r ≡ ok a → P (k a s))
    → ((e : E) → r ≡ err e → P (err e, s))
    → P (continue r k s)
outcomes (ok a) k s P h g = h a refl
outcomes (err e) k s P h g = g e refl

pub map_err_ok :
    {E F A : Type 0} (f : E → F) (r : Result E A) (a : A) → map_err f r ≡ ok a → r ≡ ok a
map_err_ok f (ok b) a h = cc
map_err_ok f (err e) a h = cc
