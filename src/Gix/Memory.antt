-- ===== src/Gix/Memory.antt =====
-- A store of objects in memory: an object is known by its place in a list, in unary.
use mathlib.Core.Path.{subst}
use gitoxide_fs.Base.{
  ℕ, ◌≡◌, refl, ap, true, Option, none, some, List, [], ◌∷◌, ◌++◌, arith, length, replicate,
  get_elem?, nat_eqb, suc, zero,
}
use gitoxide_fs.Base.Text.{Text, Bytes, codes}
use gitoxide_fs.Base.Utf8.{encode}
use gitoxide_fs.Error.Monad.{Result, ok, err}
use gitoxide_fs.Gix.{Gix, Object, blob_object, tree_object, commit_object}
use gitoxide_fs.Gix.Laws.{IsLawful}

abbrev found : Option (Object ℕ) → Result Text (Object ℕ)
found none = err (codes "object not found")
found (some x) = ok x

abbrev id_of : Bytes → Option ℕ
id_of [] = none
id_of (a ∷ rest) = some (length rest)

abbrev bytes_of : Object ℕ → Bytes
bytes_of (blob_object content) = content
bytes_of (tree_object entries) = []
bytes_of (commit_object c) = []

abbrev pub memory_gix : Gix
memory_gix = record {
  ObjectId = ℕ;
  id_eqb = nat_eqb;
  from_hex = id_of;
  to_hex = λ id. replicate (suc id) 97;
  invalid_hex = λ t. codes "invalid";
  Store = List (Object ℕ);
  find_object = λ id s. found (get_elem? s id);
  write_object = λ x s. (ok (length s), s ++ x ∷ []);
  data_of = bytes_of;
  not_a_tree = codes "not a tree";
  not_a_commit = codes "not a commit";
  entry_leb = λ a b. true;
  lookup_entry_by_path = λ entries path s. ok none;
}

get_elem?-snoc : (s : List (Object ℕ)) (x : Object ℕ) → get_elem? (s ++ x ∷ []) (length s) ≡ some x
get_elem?-snoc [] x = refl
get_elem?-snoc (y ∷ s) x = get_elem?-snoc s x

found_kept :
    (s : List (Object ℕ)) (x y : Object ℕ) (id : ℕ)
    → found (get_elem? s id) ≡ ok y
    → found (get_elem? (s ++ x ∷ []) id) ≡ ok y
found_kept [] x y id h = cc
found_kept (z ∷ s) x y zero h = h
found_kept (z ∷ s) x y (suc id) h = found_kept s x y id h

length-encode : (n : ℕ) → length (encode (replicate n 97)) ≡ n
unfolding encode
length-encode zero = refl
length-encode (suc n) = omega (arith, length-encode n)

written_id :
    (s : List (Object ℕ)) (x : Object ℕ) (id : ℕ)
    → (memory_gix.write_object x s).0 ≡ ok id
    → found (get_elem? (s ++ x ∷ []) id) ≡ ok x
written_id s x id h =
    let e : length s ≡ id = cc in
    subst (λ i. found (get_elem? (s ++ x ∷ []) i) ≡ ok x) e (ap found (get_elem?-snoc s x))

pub memory_gix-IsLawful : IsLawful memory_gix
unfolding encode
memory_gix-IsLawful = record {
  find_object-write_object = λ x s id h. written_id s x id h;
  find_object-kept = λ x y s id h. found_kept s x y id h;
  from_hex-to_hex = λ id. ap some (length-encode id);
}
