-- ===== src/Backend/Commits/Heads.antt =====
-- The commits that `commit` and `create_merge_commit` of src/git.rs write.
use gitoxide_fs.Base.{◌≡◌, refl, ap, ◌∙◌, List, [], some}
use gitoxide_fs.Base.Text.{Text, Bytes}
use gitoxide_fs.Error.{git}
use gitoxide_fs.Error.Monad.{ok, map_err}
use gitoxide_fs.Error.Runs.{outcomes, map_err_ok}
use gitoxide_fs.Config.{Config}
use gitoxide_fs.Os.{Os}
use gitoxide_fs.Gix.{Gix, Commit, commit_object, since}
use gitoxide_fs.Gix.Laws.{IsLawful}
use gitoxide_fs.Backend.State.{Backend, on_disk, with_objects}
use gitoxide_fs.Backend.Refs.{update_head_to}
use gitoxide_fs.Backend.Trees.{build_tree_from_workdir}
use gitoxide_fs.Backend.Commits.{
  commit_of, info_of, parse_commit_inner, new_commit, write_commit_inner, advance, commit_tree,
  parents_of, guarded_build, commit,
}

module _ (O : Os) (G : Gix) (lawful : IsLawful G) (digest : Bytes → Bytes) (config : Config) where
  advance_lem :
      (id : G.ObjectId) (hex : Text) (b : Backend O G)
      → (advance O G digest config id b).0 ≡ ok hex
      → (hex ≡ G.to_hex id) × ((advance O G digest config id b).1.objects ≡ b.objects)
  unfolding advance
  advance_lem id hex b =
      outcomes (update_head_to O G config.repo_path id b.os).0 (λ _ c. (ok (G.to_hex id), c))
        (on_disk O G (update_head_to O G config.repo_path id) b).1
        (λ q. q.0 ≡ ok hex → (hex ≡ G.to_hex id) × (q.1.objects ≡ b.objects)) (λ _ _ h. (cc, refl))
        (λ e _ h. cc)

  -- The object that a commit wrote, which stands under the id that it returned: the tree, the
  -- parents and the message are the given ones, the author and the committer that of the
  -- configuration at that time. Reading the commit back shows the same.
  pub record IsRecorded (hex : Text) (tree : G.ObjectId) (parents : List G.ObjectId)
      (message : Text) (b : Backend O G) (objects : G.Store) : Type 0 where
    pub id : G.ObjectId
    pub written : Commit G.ObjectId
    pub named : hex ≡ G.to_hex id
    pub found : G.find_object id objects ≡ ok (commit_object written)
    pub same_tree : written.tree ≡ tree
    pub same_parents : written.parents ≡ parents
    pub same_message : written.message ≡ message
    pub author_name : written.author.name ≡ config.commit.author_name
    pub author_email : written.author.email ≡ config.commit.author_email
    pub author_time : written.author.seconds ≡ some (since (O.now b.os))
    pub same_committer : written.committer ≡ written.author
    pub reads_back : parse_commit_inner O G id objects ≡ ok (info_of O G id written)

  parsed :
      (id : G.ObjectId) (c : Commit G.ObjectId) (s : G.Store)
      → G.find_object id s ≡ ok (commit_object c)
      → parse_commit_inner O G id s ≡ ok (info_of O G id c)
  unfolding parse_commit_inner commit_of
  parsed id c s h = rw h refl

  commit_tree-IsRecorded :
      (tree : G.ObjectId) (parents : List G.ObjectId) (message hex : Text) (b : Backend O G)
      → let q = commit_tree O G digest config parents message tree b in
        q.0 ≡ ok hex → IsRecorded hex tree parents message b q.1.objects
  unfolding commit_tree write_commit_inner new_commit
  commit_tree-IsRecorded tree parents message hex b =
      let x = commit_object (new_commit O G digest config (O.now b.os) tree parents message) in
      let w = G.write_object x b.objects in
      outcomes (map_err git w.0) (advance O G digest config) (with_objects O G b w.1)
        (λ q. q.0 ≡ ok hex → IsRecorded hex tree parents message b q.1.objects)
        (λ id e h.
          let made = new_commit O G digest config (O.now b.os) tree parents message in
          let (name, objects) = advance_lem id hex (with_objects O G b w.1) h in
          let stored = lawful.find_object-write_object x b.objects id (map_err_ok git w.0 id e) in
          record {
            id = id;
            written = made;
            named = name;
            found = ap (G.find_object id) objects ∙ stored;
            same_tree = refl;
            same_parents = refl;
            same_message = refl;
            author_name = refl;
            author_email = refl;
            author_time = refl;
            same_committer = refl;
            reads_back = ap (parse_commit_inner O G id) objects ∙ parsed id made w.1 stored;
          })
        (λ e _ h. cc)

  -- With a lawful object store: a commit that succeeds returns the id of a commit object that is in
  -- the store afterwards, with the tree that was built of the working directory, the head at that
  -- time as its only parent if there was one, the message, and the author of the configuration at
  -- that time as its author and committer; reading the commit back shows that object.
  pub commit-IsRecorded :
      (message hex : Text) (b : Backend O G)
      → (commit O G digest config message b).0 ≡ ok hex
      → let built =
          guarded_build O G digest config (build_tree_from_workdir O G digest config []) b in
        (tree : G.ObjectId) × (built.0 ≡ ok tree)
        × IsRecorded hex tree
            (parents_of O G digest config built.1)
            message
            built.1
            (commit O G digest config message b).1.objects
  unfolding commit
  commit-IsRecorded message hex b =
      let built =
        guarded_build O G digest config (build_tree_from_workdir O G digest config []) b in
      let then_commit = λ (tree : G.ObjectId) (c : Backend O G).
        commit_tree O G digest config (parents_of O G digest config c) message tree c in
      outcomes built.0 then_commit built.1
        (λ q.
          q.0 ≡ ok hex
          → (tree : G.ObjectId) × (built.0 ≡ ok tree)
            × IsRecorded hex tree (parents_of O G digest config built.1) message built.1
                q.1.objects)
        (λ tree e h. (
          tree,
          e,
          commit_tree-IsRecorded tree (parents_of O G digest config built.1) message hex built.1 h,
        ))
        (λ e _ h. cc)
