-- ===== src/Backend/Xattrs/Laws.antt =====
-- What `get_xattr` returns after attributes were set and removed.
use gitoxide_fs.Base.{
  ◌≡◌, refl, ap, sym, ◌∙◌, Bool, true, false, Bool-cases, Option, none, some, Option-cases,
  if◌then◌else◌, ◌==◌, ◌&&◌, ==_iff, list_eq, nat_eq, inl, inr,
}
use gitoxide_fs.Base.Text.{Text, Bytes}
use gitoxide_fs.Base.Dict.{Dict, lookup, insert, remove, lookup-insert, lookup-remove}
use gitoxide_fs.Error.{Error}
use gitoxide_fs.Error.Monad.{Result, ok}
use gitoxide_fs.Config.{Config}
use gitoxide_fs.Os.{Os}
use gitoxide_fs.Backend.{full_path}
use gitoxide_fs.Backend.Xattrs.{Xattrs, attrs_of, named, get_xattr, set_xattr, remove_xattr}

named-attrs_of :
    (name : Text) (o : Option (Dict Text Bytes)) → lookup name (attrs_of o) ≡ named name o
unfolding lookup
named-attrs_of name none = refl
named-attrs_of name (some attrs) = refl

-- The attribute in the store after it was set.
named-insert :
    (path name : Text) (value : Bytes) (path' name' : Text) (store : Xattrs)
    → named name'
        (lookup path' (insert path (insert name value (attrs_of (lookup path store))) store))
      ≡ (if path == path' && name == name' then some value else named name' (lookup path' store))
named-insert path name value path' name' store =
    ap (named name')
      (lookup-insert path path' (insert name value (attrs_of (lookup path store))) store)
    ∙ elim (Bool-cases (path == path')) [
      | inl e ↦ rw e (named_here ((==_iff path path').0 e))
      | inr n ↦ rw n refl
    ]
  where
    named_here :
        path ≡ path'
        → lookup name' (insert name value (attrs_of (lookup path store)))
          ≡ (if name == name' then some value else named name' (lookup path' store))
    named_here e =
        lookup-insert name name' value (attrs_of (lookup path store))
        ∙ ap (λ o. if name == name' then some value else o)
            (named-attrs_of name' (lookup path store) ∙ ap (λ p. named name' (lookup p store)) e)

ok_if :
    (b : Bool) (x y : Option Bytes)
    → ◌≡◌ {A = Result Error (Option Bytes)} (ok (if b then x else y)) (if b then ok x else ok y)
ok_if true x y = refl
ok_if false x y = refl

ok_some-inj :
    (o : Option Bytes) (b : Bytes)
    → ◌≡◌ {A = Result Error (Option Bytes)} (ok o) (ok (some b))
    → o ≡ some b
ok_some-inj o b h = cc

-- The attribute in the store after it was removed.
named-remove :
    (path name path' name' : Text) (attrs : Dict Text Bytes) (store : Xattrs)
    → lookup path store ≡ some attrs
    → named name' (lookup path' (insert path (remove name attrs) store))
      ≡ (if path == path' && name == name' then none else named name' (lookup path' store))
named-remove path name path' name' attrs store h =
    ap (named name') (lookup-insert path path' (remove name attrs) store)
    ∙ elim (Bool-cases (path == path')) [
      | inl e ↦ rw e (named_here ((==_iff path path').0 e))
      | inr n ↦ rw n refl
    ]
  where
    named_here :
        path ≡ path'
        → lookup name' (remove name attrs)
          ≡ (if name == name' then none else named name' (lookup path' store))
    named_here e =
        lookup-remove name name' attrs
        ∙ ap (λ o. if name == name' then none else o)
            (ap (named name') (sym h) ∙ ap (λ p. named name' (lookup p store)) e)

module _ (O : Os) (config : Config) (s : O.State) where
  -- When both files are there, `set_xattr` succeeds, and then `get_xattr` returns the new value for
  -- that path and name, and what it returned before for any other path or name.
  pub get_xattr-set_xattr :
      (path name : Text) (value : Bytes) (path' name' : Text) (store : Xattrs)
      → O.exists (full_path config path) s ≡ true
      → O.exists (full_path config path') s ≡ true
      → ((set_xattr O config s path name value store).0 ≡ ok tt)
        × (get_xattr O config s path' name' (set_xattr O config s path name value store).1 ≡ (
            if path == path' && name == name'
            then ok (some value)
            else get_xattr O config s path' name' store))
  unfolding get_xattr set_xattr
  get_xattr-set_xattr path name value path' name' store h h' = (
    rw h,
    rw (h, h')
        (ap ok (named-insert path name value path' name' store)
          ∙ ok_if (path == path' && name == name') _ _),
  )

  -- When both files are there and the attribute has a value, `remove_xattr` succeeds, and then
  -- `get_xattr` returns no value for that path and name, and what it returned before for any other.
  pub get_xattr-remove_xattr :
      (path name : Text) (value : Bytes) (path' name' : Text) (store : Xattrs)
      → O.exists (full_path config path) s ≡ true
      → O.exists (full_path config path') s ≡ true
      → get_xattr O config s path name store ≡ ok (some value)
      → ((remove_xattr O config s path name store).0 ≡ ok tt)
        × (get_xattr O config s path' name' (remove_xattr O config s path name store).1 ≡ (
            if path == path' && name == name'
            then ok none
            else get_xattr O config s path' name' store))
  unfolding get_xattr remove_xattr
  get_xattr-remove_xattr path name value path' name' store h h' there =
      let found = rw h at there in
      elim (Option-cases (lookup path store)) [
        | inl e ↦ cc (rw e at found)
        | inr (attrs, e) ↦
            let present = ok_some-inj (lookup name attrs) value (rw e at found) in
            (
              rw (h, e, present),
              rw (h, h', e, present)
                  (ap ok (named-remove path name path' name' attrs store e)
                    ∙ ok_if (path == path' && name == name') _ _),
            )
      ]
