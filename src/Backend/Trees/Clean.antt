-- ===== src/Backend/Trees/Clean.antt =====
-- What the trees of the working directory of src/git.rs do not hold: `.git`.
use mathlib.Core.Path.{subst}
use gitoxide_fs.Base.{
  ℕ, zero, suc, ◌≡◌, refl, ap, ◌∙◌, Bool, false, Bool-cases, inl, inr, Option, none, some, List, [],
  ◌∷◌, All, ◌==◌, nat_eq, list_eq, not, ◌||◌,
}
use gitoxide_fs.Base.Text.{Text, Bytes, codes}
use gitoxide_fs.Base.Sort.{sort_with, insert_with}
use gitoxide_fs.Error.{Error, git, io, IoError}
use gitoxide_fs.Error.Monad.{Result, ok, err, map_err, ◌>>=◌, pure}
use gitoxide_fs.Error.Runs.{outcomes, map_err_ok}
use gitoxide_fs.Config.{Config}
use gitoxide_fs.Os.{Os, DirItem}
use gitoxide_fs.Gix.{Gix, TreeEntry, tree_object}
use gitoxide_fs.Gix.Laws.{IsLawful}
use gitoxide_fs.Backend.State.{Backend, write_object}
use gitoxide_fs.Backend.Trees.{
  Build, typed_entry, cons_entry, build_items, write_tree, scan_dir, build_tree_levels,
}
use gitoxide_fs.Backend.{full_path}
use gitoxide_fs.Backend.Trees.Naming.{IsNamed, Names, typed_entry-Names}

module _ (O : Os) (G : Gix) (digest : Bytes → Bytes) (config : Config) where
  abbrev IsClean : TreeEntry G.ObjectId → Type 0
  IsClean e = (e.filename == codes ".git") ≡ false

  module _ (leb : TreeEntry G.ObjectId → TreeEntry G.ObjectId → Bool) where
    insert_with-IsClean :
        (e : TreeEntry G.ObjectId) (es : List (TreeEntry G.ObjectId))
        → IsClean e
        → All IsClean es
        → All IsClean (insert_with leb e es)
    unfolding insert_with
    insert_with-IsClean e [] c a = (c, tt)
    insert_with-IsClean e (d ∷ es) c a = elim (Bool-cases (leb e d)) [
      | inl t ↦ rw t (c, a)
      | inr t ↦ rw t (a.0, insert_with-IsClean e es c a.1)
    ]

    sort_with-IsClean :
        (es : List (TreeEntry G.ObjectId)) → All IsClean es → All IsClean (sort_with leb es)
    unfolding sort_with
    sort_with-IsClean [] a = tt
    sort_with-IsClean (e ∷ es) a =
        insert_with-IsClean e (sort_with leb es) a.0 (sort_with-IsClean es a.1)

  -- A tree with clean entries only
  abbrev pub IsCleanTree : G.ObjectId → G.Store → Type 0
  IsCleanTree id s =
      (entries : List (TreeEntry G.ObjectId)) × (G.find_object id s ≡ ok (tree_object entries))
      × All IsClean entries

  cons_entry-IsClean :
      (name : Text) (made : Option (TreeEntry G.ObjectId)) (es : List (TreeEntry G.ObjectId))
      → IsNamed O G digest config name made
      → (name == codes ".git") ≡ false
      → All IsClean es
      → All IsClean (cons_entry O G digest config made es)
  cons_entry-IsClean name none es n c a = a
  cons_entry-IsClean name (some e) es n c a = (ap (λ t. t == codes ".git") n ∙ c, a)

  returned-IsClean :
      (es es' : List (TreeEntry G.ObjectId)) (r : Result Error (List (TreeEntry G.ObjectId)))
      → All IsClean es'
      → r ≡ ok es'
      → r ≡ ok es
      → All IsClean es
  returned-IsClean es es' r a e h = let same : es' ≡ es = cc in subst (All IsClean) same a

  module _ (item : DirItem → Build O G digest config (Option (TreeEntry G.ObjectId)))
      (named : (entry : DirItem) → Names O G digest config entry.file_name (item entry)) where
    build_items-IsClean :
        (items : List (Result IoError DirItem)) (b : Backend O G) (es : List (TreeEntry G.ObjectId))
        → (build_items O G digest config item items b).0 ≡ ok es
        → All IsClean es
    unfolding build_items
    build_items-IsClean [] b es = λ h. returned-IsClean es [] (ok []) tt refl h
    build_items-IsClean (err e ∷ rest) b es = build_items-IsClean rest b es
    build_items-IsClean (ok entry ∷ rest) b es =
        let others = build_items O G digest config item rest in
        elim (Bool-cases (entry.file_name == codes ".git")) [
          | inl y ↦ rw y (build_items-IsClean rest b es)
          | inr n ↦ rw n (
              outcomes (item entry b).0
                (λ made. others >>= (λ entries. pure (cons_entry O G digest config made entries)))
                (item entry b).1 (λ q. q.0 ≡ ok es → All IsClean es)
                (λ made e.
                  outcomes (others (item entry b).1).0
                    (λ entries c. (ok (cons_entry O G digest config made entries), c))
                    (others (item entry b).1).1 (λ q. q.0 ≡ ok es → All IsClean es)
                    (λ entries f h.
                      returned-IsClean es (cons_entry O G digest config made entries)
                        (ok (cons_entry O G digest config made entries))
                        (cons_entry-IsClean entry.file_name made entries (named entry b made e) n
                          (build_items-IsClean rest (item entry b).1 entries f))
                        refl h)
                    (λ x _ h. cc))
                (λ x _ h. cc))
        ]

  module _ (lawful : IsLawful G) where
    written-IsCleanTree :
        (es : List (TreeEntry G.ObjectId)) (b : Backend O G) (id : G.ObjectId)
        → All IsClean es
        → (write_object O G (tree_object es) b).0 ≡ ok id
        → IsCleanTree id (write_object O G (tree_object es) b).1.objects
    written-IsCleanTree es b id a h = (
      es,
      lawful.find_object-write_object (tree_object es) b.objects id
          (map_err_ok git (G.write_object (tree_object es) b.objects).0 id h),
      a,
    )

    scan_dir-IsCleanTree :
        (item : DirItem → Build O G digest config (Option (TreeEntry G.ObjectId)))
        → ((entry : DirItem) → Names O G digest config entry.file_name (item entry))
        → (abs_dir : Text) (b : Backend O G) (id : G.ObjectId)
        → (scan_dir O G digest config item abs_dir b).0 ≡ ok id
        → IsCleanTree id (scan_dir O G digest config item abs_dir b).1.objects
    unfolding scan_dir
    scan_dir-IsCleanTree item named abs_dir b id =
        elim (Bool-cases (not (O.exists abs_dir b.os) || not (O.is_dir abs_dir b.os))) [
          | inl y ↦ rw y (written-IsCleanTree [] b id tt)
          | inr n ↦ rw n (
              outcomes (map_err io (O.read_dir abs_dir b.os))
                (λ items. build_items O G digest config item items >>= write_tree O G digest config)
                b (λ q. q.0 ≡ ok id → IsCleanTree id q.1.objects)
                (λ items _.
                  let built = build_items O G digest config item items b in
                  outcomes built.0 (write_tree O G digest config) built.1
                    (λ q. q.0 ≡ ok id → IsCleanTree id q.1.objects)
                    (λ es e. written-IsCleanTree (sort_with G.entry_leb es) built.1 id (
                      sort_with-IsClean G.entry_leb es
                        (build_items-IsClean item named items b es e)))
                    (λ x _ h. cc))
                (λ x _ h. cc))
        ]

    -- With a lawful object store: a tree that is built of a directory, at any depth, is found under
    -- the id that is returned, and no entry of it is named `.git`.
    pub build_tree_levels-IsCleanTree :
        (levels : ℕ) (rel_dir : Text) (b : Backend O G) (id : G.ObjectId)
        → (build_tree_levels O G digest config levels rel_dir b).0 ≡ ok id
        → IsCleanTree id (build_tree_levels O G digest config levels rel_dir b).1.objects
    unfolding build_tree_levels
    build_tree_levels-IsCleanTree zero rel_dir b id = written-IsCleanTree [] b id tt
    build_tree_levels-IsCleanTree (suc levels) rel_dir b id =
        scan_dir-IsCleanTree
          (λ entry.
            typed_entry O G digest config (build_tree_levels O G digest config levels) rel_dir entry
              entry.entry_type)
          (λ entry.
            typed_entry-Names O G digest config (build_tree_levels O G digest config levels) rel_dir
              entry entry.entry_type)
          (full_path config rel_dir) b id
